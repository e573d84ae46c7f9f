-- ===== src/Storage/Dims/Tuple.antt =====
-- The canonical tuple of dimensions, read back.
use argvio.Prelude.{
  Str, str_eq, str_eq_iff, str_lt, ℕ, true, false, ◌==◌, ◌||◌, none, some, List, [], ◌∷◌, ◌++◌, map,
  any, split, if◌then◌else◌, ◌≡◌, refl, ap, ◌∙◌, arith, All, All-implies, member, inl, inr,
  Option-cases,
}
use argvio.Prelude.Maps.{Map, lookup, insert, lookup-insert, lookup-All}
use argvio.Prelude.Sort.{sort_strings, sort_by-All, member-sort_by}
use argvio.Storage.Dims.{
  dim_pair_sep, dim_kv_sep, dim_label_key, keys, dim_text, format_pair, join_pairs, format_dims,
  contains_byte, cut, add_cut, add_pairs, parse_dims,
}

-- The byte is not in the string.
abbrev pub Lacks : ℕ → Str → Type 0
Lacks sep s = contains_byte sep s ≡ false

-- A key has neither separator and a value no `;`, as in identifiers.
abbrev pub IsKey : Str → Type 0
IsKey k = Lacks dim_kv_sep k × Lacks dim_pair_sep k

abbrev pub IsDim : Str → Str → Type 0
IsDim k v = IsKey k × Lacks dim_pair_sep v

contains_byte-append :
    (sep : ℕ) (s t : Str)
    → contains_byte sep (s ++ t) ≡ (contains_byte sep s || contains_byte sep t)
unfolding contains_byte any
contains_byte-append sep [] t = refl
contains_byte-append sep (c ∷ s) t = ground (arith, contains_byte-append sep s t)

later : (sep c : ℕ) (s : Str) → contains_byte sep (c ∷ s) ≡ ((c == sep) || contains_byte sep s)
unfolding contains_byte any
later sep c s = refl

not_empty : (s : Str) → contains_byte dim_kv_sep s ≡ true → str_eq s [] ≡ false
unfolding contains_byte any str_eq
not_empty [] h = cc h
not_empty (c ∷ s) h = refl

split-one : (sep : ℕ) (s : Str) → Lacks sep s → split sep s ≡ s ∷ []
unfolding split contains_byte any
split-one sep [] h = refl
split-one sep (c ∷ s) h = ground (arith, split-one sep s)

split-append : (sep : ℕ) (s t : Str) → Lacks sep s → split sep (s ++ sep ∷ t) ≡ s ∷ split sep t
unfolding split contains_byte any
split-append sep [] t h = ground arith
split-append sep (c ∷ s) t h = ground (arith, split-append sep s t)

cut-append : (sep : ℕ) (k v : Str) → Lacks sep k → cut sep (k ++ sep ∷ v) ≡ some (k, v)
unfolding cut contains_byte any
cut-append sep [] v h = ground arith
cut-append sep (c ∷ k) v h = ground (arith, cut-append sep k v)

split-join_pairs :
    (pair : Str) (pairs : List Str)
    → All (Lacks dim_pair_sep) (pair ∷ pairs)
    → split dim_pair_sep (join_pairs (pair ∷ pairs)) ≡ pair ∷ pairs
unfolding join_pairs
split-join_pairs pair [] h = split-one dim_pair_sep pair h.0
split-join_pairs pair (next ∷ rest) h =
    split-append dim_pair_sep pair (join_pairs (next ∷ rest)) h.0
    ∙ ap (λ l. pair ∷ l) (split-join_pairs next rest h.1)

-- Every pair of the tuple is cut back into its key and value, and later ones write the same.
lookup-add_pairs :
    (dims made : Map Str) (ks : List Str) (k : Str)
    → All IsKey ks
    → lookup k (add_pairs made (map (format_pair dims) ks))
      ≡ (if member ks k then some (dim_text dims k) else lookup k made)
unfolding add_pairs member
lookup-add_pairs dims made [] k h = refl
lookup-add_pairs dims made (j ∷ ks) k h =
    let wrote = lookup-insert j k (dim_text dims j) made in
    let rest = lookup-add_pairs dims (insert j (dim_text dims j) made) ks k h.1 in
    let same : str_eq j k ≡ true → dim_text dims j ≡ dim_text dims k =
      λ e. ap (dim_text dims) ((str_eq_iff j k).0 e) in
    ap (λ c. lookup k (add_pairs (add_cut made c) (map (format_pair dims) ks)))
      (cut-append dim_kv_sep j (dim_text dims j) h.0.0)
    ∙ ground (arith, wrote, rest, same)

-- The keys are those that a lookup finds.
lookup-keys :
    (dims : Map Str) (k : Str)
    → (if member (keys dims) k then some (dim_text dims k) else none) ≡ lookup k dims
unfolding keys member lookup
lookup-keys [] k = refl
lookup-keys ((j, v) ∷ dims) k = ground (arith, lookup-keys dims k)

keys-IsKey : (dims : Map Str) → All (λ e. IsDim e.0 e.1) dims → All IsKey (keys dims)
unfolding keys
keys-IsKey [] h = tt
keys-IsKey (entry ∷ dims) h = (h.0.0, keys-IsKey dims h.1)

dim_text-Lacks :
    (dims : Map Str) (k : Str)
    → All (λ e. IsDim e.0 e.1) dims
    → Lacks dim_pair_sep (dim_text dims k)
dim_text-Lacks dims k h = elim (Option-cases (lookup k dims)) [
  | inl e ↦ rw e (unfold contains_byte any in refl)
  | inr (v, e) ↦
      rw e (lookup-All (λ k v. Lacks dim_pair_sep v) k v dims (All-implies dims (λ e p. p.1) h) e)
]

format_pair-Lacks :
    (dims : Map Str) (ks : List Str)
    → All (λ e. IsDim e.0 e.1) dims
    → All IsKey ks
    → All (Lacks dim_pair_sep) (map (format_pair dims) ks)
format_pair-Lacks dims [] h p = tt
format_pair-Lacks dims (k ∷ ks) h p = (
  ground (
    arith,
    p.0.1,
    dim_text-Lacks dims k h,
    contains_byte-append dim_pair_sep k (dim_kv_sep ∷ dim_text dims k),
    later dim_pair_sep dim_kv_sep (dim_text dims k),
  ),
  format_pair-Lacks dims ks h p.1,
)

-- A tuple of at least one pair holds `=`.
join_pairs-has_kv :
    (dims : Map Str) (k : Str) (ks : List Str)
    → contains_byte dim_kv_sep (join_pairs (map (format_pair dims) (k ∷ ks))) ≡ true
unfolding join_pairs
join_pairs-has_kv dims k [] = ground (
  arith,
  contains_byte-append dim_kv_sep k (dim_kv_sep ∷ dim_text dims k),
  later dim_kv_sep dim_kv_sep (dim_text dims k),
)
join_pairs-has_kv dims k (j ∷ ks) =
    let tail = join_pairs (map (format_pair dims) (j ∷ ks)) in
    ground (
      arith,
      contains_byte-append dim_kv_sep k (dim_kv_sep ∷ dim_text dims k),
      later dim_kv_sep dim_kv_sep (dim_text dims k),
      contains_byte-append dim_kv_sep (format_pair dims k) (dim_pair_sep ∷ tail),
    )

parse_dims-join_pairs :
    (dims : Map Str) (ks : List Str) (k : Str)
    → All (λ e. IsDim e.0 e.1) dims
    → All IsKey ks
    → lookup k (parse_dims (join_pairs (map (format_pair dims) ks)))
      ≡ (if member ks k then some (dim_text dims k) else none)
unfolding parse_dims
parse_dims-join_pairs dims [] k h p = unfold join_pairs str_eq lookup member in refl
parse_dims-join_pairs dims (j ∷ ks) k h p =
    let label = join_pairs (map (format_pair dims) (j ∷ ks)) in
    let made = lookup-add_pairs dims [] (j ∷ ks) k p in
    let pieces =
      split-join_pairs (format_pair dims j) (map (format_pair dims) ks)
        (format_pair-Lacks dims (j ∷ ks) h p) in
    ap
      (λ b. lookup k (
        if str_eq label []
        then []
        else (if b then add_pairs [] (split dim_pair_sep label) else (dim_label_key, label) ∷ [])))
      (join_pairs-has_kv dims j ks)
    ∙ ap (λ b. lookup k (if b then [] else add_pairs [] (split dim_pair_sep label)))
        (not_empty label (join_pairs-has_kv dims j ks))
    ∙ ap (λ l. lookup k (add_pairs [] l)) pieces
    ∙ made
    ∙ unfold lookup in refl

-- ParseDims reads what FormatDims wrote: every key has in the dimensions read back the value that it
-- had, when no key has = or ; in it and no value has ;.
pub parse_dims-format_dims :
    (dims : Map Str) (k : Str)
    → All (λ e. IsDim e.0 e.1) dims
    → lookup k (parse_dims (format_dims dims)) ≡ lookup k dims
unfolding format_dims sort_strings
parse_dims-format_dims dims k h =
    parse_dims-join_pairs dims (sort_strings (keys dims)) k h
      (sort_by-All IsKey str_lt (keys dims) (keys-IsKey dims h))
    ∙ ap (λ b. if b then some (dim_text dims k) else none) (member-sort_by str_lt (keys dims) k)
    ∙ lookup-keys dims k
