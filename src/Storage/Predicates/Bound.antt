-- ===== src/Storage/Predicates/Bound.antt =====
-- Each placeholder is bound to the argument that its clause was added with.
use argvio.Prelude.{
  Str, ℕ, zero, suc, ◌≤◌, ◌≡◌, refl, ap, ◌∙◌, Option, none, some, List, [], ◌∷◌, ◌++◌, map, length,
  length-append, All, All-implies, arith,
}
use argvio.Storage.Predicates.{
  Arg, Piece, sql, placeholder, Clause, PredicateBuilder, clause_at, add,
}

-- $n of the arguments, $1 the first.
abbrev pub arg_at : ℕ → List Arg → Option Arg
arg_at n [] = none
arg_at zero (a ∷ args) = none
arg_at (suc zero) (a ∷ args) = some a
arg_at (suc (suc n)) (a ∷ args) = arg_at (suc n) args

-- A piece of a clause as the database reads it: SQL text, or the value that its placeholder stands for.
pub data Read : Type 0 where
  read_sql : Str → Read
  value : Option Arg → Read

abbrev pub read_piece : List Arg → Piece → Read
read_piece args (sql s) = read_sql s
read_piece args (placeholder n) = value (arg_at n args)

abbrev pub read_clause : List Arg → Clause → List Read
read_clause args clause = map (read_piece args) clause

abbrev pub conditions : PredicateBuilder → List (List Read)
conditions pb = map (read_clause pb.args) pb.clauses

abbrev pub IsWithin : ℕ → Piece → Type 0
IsWithin n (sql s) = Unit
IsWithin n (placeholder k) = k ≤ n

-- Every placeholder has an argument.
abbrev pub AllWithin : ℕ → List Clause → Type 0
AllWithin n = All (All (IsWithin n))

arg_at-append :
    (n : ℕ) (args more : List Arg) → n ≤ length args → arg_at n (args ++ more) ≡ arg_at n args
arg_at-append zero [] [] h = refl
arg_at-append zero [] (a ∷ more) h = refl
arg_at-append zero (a ∷ args) more h = refl
arg_at-append (suc n) [] more h = absurd (omega (arith, h))
arg_at-append (suc zero) (a ∷ args) more h = refl
arg_at-append (suc (suc n)) (a ∷ args) more h = arg_at-append (suc n) args more (omega (arith, h))

pub arg_at_end :
    (args more : List Arg) (a : Arg) → arg_at (suc (length args)) (args ++ a ∷ more) ≡ some a
arg_at_end [] more a = refl
arg_at_end (b ∷ args) more a = arg_at_end args more a

read_clause-append :
    (args more : List Arg) (clause : Clause)
    → All (IsWithin (length args)) clause
    → read_clause (args ++ more) clause ≡ read_clause args clause
read_clause-append args more [] h = refl
read_clause-append args more (sql s ∷ clause) h =
    ap (λ r. read_sql s ∷ r) (read_clause-append args more clause h.1)
read_clause-append args more (placeholder n ∷ clause) h =
    λ i. value (arg_at-append n args more h.0 i) ∷ read_clause-append args more clause h.1 i

conditions-append :
    (args more : List Arg) (clauses : List Clause)
    → AllWithin (length args) clauses
    → map (read_clause (args ++ more)) clauses ≡ map (read_clause args) clauses
conditions-append args more [] h = refl
conditions-append args more (clause ∷ clauses) h =
    λ i. read_clause-append args more clause h.0 i ∷ conditions-append args more clauses h.1 i

piece-IsWithin : (m n : ℕ) (piece : Piece) → m ≤ n → IsWithin m piece → IsWithin n piece
piece-IsWithin m n (sql s) le h = tt
piece-IsWithin m n (placeholder k) le h = omega (arith, le, h)

more_within : (m n : ℕ) (clauses : List Clause) → m ≤ n → AllWithin m clauses → AllWithin n clauses
more_within m n clauses le =
    All-implies clauses (λ clause. All-implies clause (λ piece. piece-IsWithin m n piece le))

map-append : {A B : Type 0} (f : A → B) (xs ys : List A) → map f (xs ++ ys) ≡ map f xs ++ map f ys
map-append f [] ys = refl
map-append f (x ∷ xs) ys = ap (λ l. f x ∷ l) (map-append f xs ys)

All-append : {A : Type 0} (P : A → Type 0) (xs ys : List A) → All P xs → All P ys → All P (xs ++ ys)
All-append P [] ys h k = k
All-append P (x ∷ xs) ys h k = (h.0, All-append P xs ys h.1 k)

-- The builder's clauses read as these conditions, and later arguments do not change that.
pub record Reads (pb : PredicateBuilder) (expected : List (List Read)) : Type 0 where
  pub reads : conditions pb ≡ expected
  pub within : AllWithin (length pb.args) pb.clauses

-- A clause that is added over some arguments more.
pub extend-Reads :
    (pb : PredicateBuilder) (expected : List (List Read)) (more : List Arg) (clause : Clause)
    (meaning : List Read)
    → read_clause (pb.args ++ more) clause ≡ meaning
    → All (IsWithin (length (pb.args ++ more))) clause
    → Reads pb expected
    → Reads
        (record { clauses = pb.clauses ++ clause ∷ []; args = pb.args ++ more })
        (expected ++ meaning ∷ [])
extend-Reads pb expected more clause meaning reads within before = record {
  reads = map-append (read_clause (pb.args ++ more)) pb.clauses (clause ∷ []) ∙ (λ i.
      (conditions-append pb.args more pb.clauses before.within ∙ before.reads) i ++ reads i ∷ []);
  within =
      All-append _ pb.clauses (clause ∷ [])
        (more_within (length pb.args) (length (pb.args ++ more)) pb.clauses
          (omega (arith, length-append pb.args more)) before.within)
        (within, tt);
}

-- before, the value, after
abbrev pub one_value : Str → Str → Arg → List Read
one_value before after arg = read_sql before ∷ value (some arg) ∷ read_sql after ∷ []

length_more : (args : List Arg) (arg : Arg) → length (args ++ arg ∷ []) ≡ suc (length args)
length_more args arg = omega (arith, length-append args (arg ∷ []))

pub add-Reads :
    (pb : PredicateBuilder) (expected : List (List Read)) (before after : Str) (arg : Arg)
    → Reads pb expected
    → Reads (add pb before after arg) (expected ++ one_value before after arg ∷ [])
unfolding add
add-Reads pb expected before after arg h =
    extend-Reads pb expected (arg ∷ []) (clause_at before after (length (pb.args ++ arg ∷ [])))
      (one_value before after arg)
      (ap (λ v. read_sql before ∷ value v ∷ read_sql after ∷ [])
        (ap (λ n. arg_at n (pb.args ++ arg ∷ [])) (length_more pb.args arg)
          ∙ arg_at_end pb.args [] arg))
      (tt, (omega arith, (tt, tt))) h
