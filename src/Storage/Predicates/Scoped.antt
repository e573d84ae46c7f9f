-- ===== src/Storage/Predicates/Scoped.antt =====
-- What the WHERE clause of a query says: the tenant's condition first, then each filter's.
use mathlib.Core.List.{append-nil, append_assoc}
use argvio.Prelude.{
  Str, bytes, suc, ◌-◌, ◌≡◌, refl, sym, ap, ◌∙◌, subst, Bool, Option, none, some, List, [], ◌∷◌,
  ◌++◌, map, length, length-append, arith,
}
use argvio.Prelude.Int.{ℤ}
use argvio.Prelude.Maps.{Map}
use argvio.Storage.Predicates.{
  Arg, text, texts, int32, boolean, time, PredicateBuilder, clause_of, add_pair, add_pairs_of,
  equals, new_scoped_predicates, add_if_any_str, add_if_not_nil_i32, add_if_not_nil_bool,
  add_attr_equals, add_attr_contains, add_attr_in, add_attr_regex, Filters, list_traces_predicates,
}
use argvio.Storage.Predicates.Bound.{
  Read, read_sql, value, Reads, conditions, one_value, add-Reads, extend-Reads, arg_at, arg_at_end,
}

abbrev pub any_of : Str → List Str → List (List Read)
any_of col [] = []
any_of col (v ∷ vs) = one_value (col ++ bytes " = ANY(") (bytes ")") (texts (v ∷ vs)) ∷ []

abbrev pub if_set : {A : Type 0} → (A → Arg) → Str → Option A → List (List Read)
if_set arg col none = []
if_set arg col (some v) = one_value (equals col) [] (arg v) ∷ []

abbrev pub two_values : Str → Str → Str → Str → Arg → List Read
two_values before between after k v =
    read_sql before
    ∷ value (some (text k))
    ∷ read_sql between
    ∷ value (some v)
    ∷ read_sql after
    ∷ []

abbrev pub each : {V : Type 0} → (V → Arg) → Str → Str → Str → Map V → List (List Read)
each arg before between after attrs =
    map (λ entry. two_values before between after entry.0 (arg entry.1)) attrs

nothing_added :
    (pb : PredicateBuilder) (expected : List (List Read))
    → Reads pb expected
    → Reads pb (expected ++ [])
nothing_added pb expected h = subst (Reads pb) (sym (append-nil expected)) h

pub add_if_any_str-Reads :
    (pb : PredicateBuilder) (expected : List (List Read)) (col : Str) (vs : List Str)
    → Reads pb expected
    → Reads (add_if_any_str pb col vs) (expected ++ any_of col vs)
unfolding add_if_any_str
add_if_any_str-Reads pb expected col [] h = nothing_added pb expected h
add_if_any_str-Reads pb expected col (v ∷ vs) h = add-Reads pb expected _ _ _ h

add_if_not_nil_i32-Reads :
    (pb : PredicateBuilder) (expected : List (List Read)) (col : Str) (v : Option ℤ)
    → Reads pb expected
    → Reads (add_if_not_nil_i32 pb col v) (expected ++ if_set (λ n. int32 n) col v)
unfolding add_if_not_nil_i32
add_if_not_nil_i32-Reads pb expected col none h = nothing_added pb expected h
add_if_not_nil_i32-Reads pb expected col (some v) h = add-Reads pb expected _ _ _ h

pub add_if_not_nil_bool-Reads :
    (pb : PredicateBuilder) (expected : List (List Read)) (col : Str) (v : Option Bool)
    → Reads pb expected
    → Reads (add_if_not_nil_bool pb col v) (expected ++ if_set (λ b. boolean b) col v)
unfolding add_if_not_nil_bool
add_if_not_nil_bool-Reads pb expected col none h = nothing_added pb expected h
add_if_not_nil_bool-Reads pb expected col (some v) h = add-Reads pb expected _ _ _ h

two_more : (args : List Arg) (a b : Arg) → length (args ++ a ∷ b ∷ []) ≡ suc (suc (length args))
two_more args a b = omega (arith, length-append args (a ∷ b ∷ []))

second_at :
    (args : List Arg) (a b : Arg) → arg_at (suc (suc (length args))) (args ++ a ∷ b ∷ []) ≡ some b
second_at [] a b = refl
second_at (c ∷ args) a b = second_at args a b

add_pair-Reads :
    (pb : PredicateBuilder) (expected : List (List Read)) (before between after k : Str) (v : Arg)
    → Reads pb expected
    → Reads
        (add_pair pb before between after k v)
        (expected ++ two_values before between after k v ∷ [])
add_pair-Reads pb expected before between after k v h =
    let args = pb.args ++ text k ∷ v ∷ [] in
    let key : arg_at (length args - 1) args ≡ some (text k) =
      ap (λ n. arg_at n args) (omega (arith, two_more pb.args (text k) v))
      ∙ arg_at_end pb.args (v ∷ []) (text k) in
    let val : arg_at (length args) args ≡ some v =
      ap (λ n. arg_at n args) (two_more pb.args (text k) v) ∙ second_at pb.args (text k) v in
    extend-Reads pb expected (text k ∷ v ∷ [])
      (clause_of before between after (length args - 1) (length args))
      (two_values before between after k v)
      (λ i.
        read_sql before ∷ value (key i) ∷ read_sql between ∷ value (val i) ∷ read_sql after ∷ [])
      (tt, (omega arith, (tt, (omega arith, (tt, tt))))) h

add_pairs_of-Reads :
    {V : Type 0} (arg : V → Arg) (before between after : Str) (pb : PredicateBuilder)
    (expected : List (List Read)) (attrs : Map V)
    → Reads pb expected
    → Reads
        (add_pairs_of arg before between after pb attrs)
        (expected ++ each arg before between after attrs)
unfolding add_pairs_of
add_pairs_of-Reads arg before between after pb expected [] h = nothing_added pb expected h
add_pairs_of-Reads arg before between after pb expected ((k, v) ∷ attrs) h =
    subst
      (Reads
        (add_pairs_of arg before between after (add_pair pb before between after k (arg v)) attrs))
      (append_assoc expected (two_values before between after k (arg v) ∷ [])
        (each arg before between after attrs))
      (add_pairs_of-Reads arg before between after (add_pair pb before between after k (arg v))
        (expected ++ two_values before between after k (arg v) ∷ []) attrs
        (add_pair-Reads pb expected before between after k (arg v) h))

-- The conditions that a listing of spans is to have.
abbrev pub trace_conditions : Str → Filters → List (List Read)
trace_conditions tenant_id f =
    let scope = one_value (bytes "tenant_id = ") [] (text tenant_id) ∷ [] in
    let times =
      (scope ++ one_value (bytes "time >= ") [] (time f.from_time) ∷ [])
      ++ one_value (bytes "time < ") [] (time f.to_time) ∷ [] in
    let columns =
      (((times ++ any_of (bytes "cli_version") f.cli_versions) ++ any_of (bytes "os") f.oses)
        ++ any_of (bytes "arch") f.arches)
      ++ any_of (bytes "command_name") f.command_names in
    let flags =
      (columns ++ if_set (λ n. int32 n) (bytes "exit_code") f.exit_code)
      ++ if_set (λ b. boolean b) (bytes "is_ci") f.is_ci in
    let key = bytes "(span_attributes ->> " in
    (((flags ++ each (λ v. text v) key (bytes ") = ") [] f.attrs)
        ++ each (λ v. text v) (bytes "strpos(span_attributes ->> ") (bytes ", ") (bytes ") > 0")
            f.attr_contains)
      ++ each (λ vs. texts vs) key (bytes ") = ANY(") (bytes ")") f.attr_in)
    ++ each (λ v. text v) key (bytes ") ~ ") [] f.attr_regex

pub empty-Reads : Reads (record { clauses = []; args = [] }) []
empty-Reads = record { reads = refl; within = tt }

-- The WHERE clause of ListTraces, with its placeholders read as the arguments bound, is the condition on the
-- caller's tenant first, then the time range, and then one condition for each filter that is set, each
-- with its own value.
pub list_traces_reads :
    (tenant_id : Str) (f : Filters)
    → conditions (list_traces_predicates tenant_id f) ≡ trace_conditions tenant_id f
unfolding list_traces_predicates new_scoped_predicates add_attr_equals add_attr_contains add_attr_in
    add_attr_regex
list_traces_reads tenant_id f =
    let scoped =
      add-Reads (record { clauses = []; args = [] }) [] (bytes "tenant_id = ") [] (text tenant_id)
        empty-Reads in
    let times =
      add-Reads _ _ (bytes "time < ") [] (time f.to_time)
        (add-Reads _ _ (bytes "time >= ") [] (time f.from_time) scoped) in
    let columns = add_if_any_str-Reads _ _ (bytes "command_name") f.command_names (
      add_if_any_str-Reads _ _ (bytes "arch") f.arches (
        add_if_any_str-Reads _ _ (bytes "os") f.oses
          (add_if_any_str-Reads _ _ (bytes "cli_version") f.cli_versions times))) in
    let flags =
      add_if_not_nil_bool-Reads _ _ (bytes "is_ci") f.is_ci
        (add_if_not_nil_i32-Reads _ _ (bytes "exit_code") f.exit_code columns) in
    let equal = add_pairs_of-Reads (λ v. text v) _ (bytes ") = ") [] _ _ f.attrs flags in
    let containing =
      add_pairs_of-Reads (λ v. text v) (bytes "strpos(span_attributes ->> ") (bytes ", ")
        (bytes ") > 0") _ _ f.attr_contains equal in
    let among =
      add_pairs_of-Reads (λ vs. texts vs) (bytes "(span_attributes ->> ") (bytes ") = ANY(")
        (bytes ")") _ _ f.attr_in containing in
    (add_pairs_of-Reads (λ v. text v) (bytes "(span_attributes ->> ") (bytes ") ~ ") [] _ _
      f.attr_regex among).reads
