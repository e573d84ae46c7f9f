-- ===== src/Otlp/Attrs/Bounded.antt =====
-- What passes the structural bounds, and what a merge holds.
use argvio.Prelude.{
  ap, subst, some-eq-some, All-implies, ◌⊎◌, ◌↔◌, Str, str_eq_iff, ◌≡◌, refl, ◌∙◌, Option, none,
  some, List, [], ◌∷◌, length, All, arith, Bool-cases, Option-cases, inl, inr,
}
use argvio.Prelude.Int.{ℤ, pos, ◌≤ℤ◌, ◌+ℤ◌}
use argvio.Prelude.Maps.{
  Map, lookup, insert, HasUniqueKeys, lookup-insert, insert-HasUniqueKeys, IndexGood,
  insert-IndexGood, nil-IndexGood,
}
use argvio.Allowlist.{Value, str, strings}
use argvio.Otlp.Attrs.{
  RawValue, raw_str, raw_int, raw_double, raw_bool, raw_slice, Item, text, not_text, Extracted,
  longer, slice_strings, native_value, extract_attr, extract_loop, extract_attrs, insert_all,
  merge_attrs,
}
use argvio.Consent.{or_else}

-- The strings in a value are no longer than the bound.
abbrev pub FitsValue : ℤ → Value → Type 0
FitsValue max (str s) = pos (length s) ≤ℤ max
FitsValue max (strings arr) = All (λ s. pos (length s) ≤ℤ max) arr
FitsValue max v = Unit

slice_strings-fits :
    (max : ℤ) (items : List Item) (arr : List Str)
    → slice_strings max items ≡ some arr
    → All (λ s. pos (length s) ≤ℤ max) arr
unfolding slice_strings
slice_strings-fits max [] arr h = subst (All (λ s. pos (length s) ≤ℤ max)) (some-eq-some h) tt
slice_strings-fits max (not_text ∷ items) arr h = cc
slice_strings-fits max (text s ∷ items) arr h = elim (Bool-cases (longer max s)) [
  | inl long ↦ cc (rw long at h)
  | inr fits ↦ elim (Option-cases (slice_strings max items)) [
    | inl e ↦ cc (rw (fits, e) at h)
    | inr (rest, e) ↦
        subst (All (λ t. pos (length t) ≤ℤ max)) (some-eq-some (rw (fits, e) at h))
          (ground arith, slice_strings-fits max items rest e)
  ]
]

native_value-fits :
    (max : ℤ) (r : RawValue) (v : Value) → native_value max r ≡ some v → FitsValue max v
unfolding native_value
native_value-fits max (raw_str s) v h = elim (Bool-cases (longer max s)) [
  | inl long ↦ cc (rw long at h)
  | inr fits ↦ subst (FitsValue max) (some-eq-some (rw fits at h)) (ground arith)
]
native_value-fits max (raw_int n) v h = subst (FitsValue max) (some-eq-some h) tt
native_value-fits max (raw_double x) v h = subst (FitsValue max) (some-eq-some h) tt
native_value-fits max (raw_bool b) v h = subst (FitsValue max) (some-eq-some h) tt
native_value-fits max (raw_slice items) v h = elim (Option-cases (slice_strings max items)) [
  | inl e ↦ cc (rw (e, native_value) at h)
  | inr (arr, e) ↦
      subst (FitsValue max) (some-eq-some (rw (e, native_value) at h))
        (slice_strings-fits max items arr e)
]
native_value-fits max _ v h = cc

-- The entry is one of the request's.
abbrev pub IsEntry : Str → RawValue → List (Str × RawValue) → Type 0
IsEntry k r [] = ⊥
IsEntry k r (e ∷ m) = ((k ≡ e.0) × (r ≡ e.1)) ⊎ IsEntry k r m

-- A kept attribute: its key and its strings are within the bounds, and its value is that of an entry.
abbrev pub FromEntry : ℤ → ℤ → List (Str × RawValue) → Str → Value → Type 0
FromEntry max_key_len max_val_len m k v =
    (pos (length k) ≤ℤ max_key_len)
    × FitsValue max_val_len v
    × ((r : RawValue) × IsEntry k r m × (native_value max_val_len r ≡ some v))

module _ (kl vl : ℤ) (m : List (Str × RawValue)) where
  extract_attr-keeps :
      (k : Str) (r : RawValue) (acc : Extracted)
      → IsEntry k r m
      → HasUniqueKeys acc.kept × IndexGood (FromEntry kl vl m) acc.kept
      → HasUniqueKeys (extract_attr kl vl k r acc).kept
        × IndexGood (FromEntry kl vl m) (extract_attr kl vl k r acc).kept
  unfolding extract_attr
  extract_attr-keeps k r acc i (u, g) = elim (Bool-cases (longer kl k)) [
    | inl long ↦ rw long (u, g)
    | inr fits ↦ elim (Option-cases (native_value vl r)) [
      | inl e ↦ rw (fits, e) (u, g)
      | inr (v, e) ↦
          rw (fits, e)
            (
              insert-HasUniqueKeys k v acc.kept u,
              insert-IndexGood (FromEntry kl vl m) k v acc.kept
                  (ground arith, native_value-fits vl r v e, (r, i, e)) g,
            )
    ]
  ]

  extract_loop-keeps :
      (l : List (Str × RawValue)) (acc : Extracted)
      → All (λ e. IsEntry e.0 e.1 m) l
      → HasUniqueKeys acc.kept × IndexGood (FromEntry kl vl m) acc.kept
      → HasUniqueKeys (extract_loop kl vl l acc).kept
        × IndexGood (FromEntry kl vl m) (extract_loop kl vl l acc).kept
  unfolding extract_loop
  extract_loop-keeps [] acc a h = h
  extract_loop-keeps ((k, r) ∷ l) acc a h =
      extract_loop-keeps l (extract_attr kl vl k r acc) a.1 (extract_attr-keeps k r acc a.0 h)

entries : (m : List (Str × RawValue)) → All (λ e. IsEntry e.0 e.1 m) m
entries [] = tt
entries (e ∷ m) = (inl (refl, refl), All-implies m (λ x i. inr i) (entries m))

-- What extractAttrs keeps: each key once, no key longer than the key bound, no string longer than the
-- value bound, in arrays too, and each value the native form of an entry of the request under that key.
-- It refuses exactly the maps with more entries than the count bound.
pub extract_attrs-FromEntry :
    (m : List (Str × RawValue)) (max_count kl vl : ℤ)
    → ((extract_attrs m max_count kl vl ≡ none) ↔ (max_count +ℤ pos 1 ≤ℤ pos (length m)))
      × ((e : Extracted)
          → extract_attrs m max_count kl vl ≡ some e
          → HasUniqueKeys e.kept × IndexGood (FromEntry kl vl m) e.kept)
unfolding extract_attrs
extract_attrs-FromEntry m max_count kl vl = (
  ((λ h. ground arith), λ h. ground arith),
  λ e h. elim (Bool-cases (longer max_count m)) [
    | inl long ↦ cc (rw (long, extract_attrs) at h)
    | inr fits ↦
        subst (λ (x : Extracted). HasUniqueKeys x.kept × IndexGood (FromEntry kl vl m) x.kept)
          (some-eq-some (rw (fits, extract_attrs) at h))
          (extract_loop-keeps kl vl m m (record { kept = []; dropped = [] }) (entries m)
            (tt, nil-IndexGood _))
  ],
)

lookup-insert_all {ℓ} :
    {V : Type ℓ} (src dst : Map V) (k : Str)
    → HasUniqueKeys src
    → lookup k (insert_all src dst) ≡ or_else (lookup k src) (lookup k dst)
unfolding insert_all lookup
lookup-insert_all [] dst k u = refl
lookup-insert_all ((j, v) ∷ src) dst k u = ground (
  arith,
  lookup-insert_all src (insert j v dst) k u.1,
  lookup-insert j k v dst,
  str_eq_iff j k,
  u.0,
)

or_else-none {ℓ} : {A : Type ℓ} (o : Option A) → or_else o none ≡ o
or_else-none none = refl
or_else-none (some a) = refl

-- A merge holds under each key the record's attribute, or the resource's where the record has none.
pub lookup-merge_attrs :
    (resource_attrs record_attrs : Map Value) (k : Str)
    → HasUniqueKeys resource_attrs
    → HasUniqueKeys record_attrs
    → lookup k (merge_attrs resource_attrs record_attrs)
      ≡ or_else (lookup k record_attrs) (lookup k resource_attrs)
unfolding merge_attrs
lookup-merge_attrs resource_attrs record_attrs k u w =
    lookup-insert_all record_attrs (insert_all resource_attrs []) k w
    ∙ ap (or_else (lookup k record_attrs)) (
        lookup-insert_all resource_attrs [] k u
        ∙ (unfold lookup in or_else-none (lookup k resource_attrs)))

insert_all-HasUniqueKeys {ℓ} :
    {V : Type ℓ} (src dst : Map V) → HasUniqueKeys dst → HasUniqueKeys (insert_all src dst)
unfolding insert_all
insert_all-HasUniqueKeys [] dst u = u
insert_all-HasUniqueKeys ((k, v) ∷ src) dst u =
    insert_all-HasUniqueKeys src (insert k v dst) (insert-HasUniqueKeys k v dst u)

pub merge_attrs-HasUniqueKeys : (a b : Map Value) → HasUniqueKeys (merge_attrs a b)
unfolding merge_attrs
merge_attrs-HasUniqueKeys a b =
    insert_all-HasUniqueKeys b (insert_all a []) (insert_all-HasUniqueKeys a [] tt)
