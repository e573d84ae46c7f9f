-- ===== src/Storage/Versions/Order.antt =====
-- The order of versions is total.
use Prim.Native.Nat.{Ordering, compare}
use argvio.Prelude.{
  Str, ℕ, ◌≡◌, refl, sym, ap, ◌∙◌, ◌⊎◌, inl, inr, List, [], ◌∷◌, ◌↔◌, some-eq-some, Option, none,
  some, arith, Option-cases,
}
use argvio.Prelude.Orders.{
  opposite, and_then, IsOrder, nat-IsOrder, same-IsOrder, on-IsOrder, and_then-IsOrder,
  compare_parts, compare_parts-IsOrder, compare_lists, compare_lists-IsOrder,
}
use argvio.Storage.Versions.{
  Semver, parse_uint, parse_semver, compare_strings, compare_idents, compare_pre_ident,
  compare_pre_lists, compare_pre, compare_semvers, compare_parsed, compare_versions, version_rank,
  compare_version_keys,
}

compare_strings_lists : (s t : Str) → compare_strings s t ≡ compare_lists compare s t
unfolding compare_strings compare_lists
compare_strings_lists [] [] = refl
compare_strings_lists [] (d ∷ t) = refl
compare_strings_lists (c ∷ s) [] = refl
compare_strings_lists (c ∷ s) (d ∷ t) = ground (arith, compare_strings_lists s t)

strings-IsOrder : IsOrder compare_strings
strings-IsOrder = same-IsOrder _ _ compare_strings_lists (compare_lists-IsOrder compare nat-IsOrder)

-- Numbers before text.
abbrev ident_view : Str → Option ℕ → ℕ ⊎ Str
ident_view s none = inr s
ident_view s (some n) = inl n

idents_parts :
    (a b : Str) (m n : Option ℕ)
    → compare_idents a b m n
      ≡ compare_parts compare compare_strings (ident_view a m) (ident_view b n)
idents_parts a b none none = refl
idents_parts a b none (some n) = refl
idents_parts a b (some m) none = refl
idents_parts a b (some m) (some n) = refl

ident-IsOrder : IsOrder compare_pre_ident
unfolding compare_pre_ident
ident-IsOrder =
    same-IsOrder _ _ (λ a b. idents_parts a b (parse_uint a) (parse_uint b))
      (on-IsOrder (compare_parts compare compare_strings) (λ s. ident_view s (parse_uint s))
        (compare_parts-IsOrder compare compare_strings nat-IsOrder strings-IsOrder))

pre_lists_lists :
    (xs ys : List Str) → compare_pre_lists xs ys ≡ compare_lists compare_pre_ident xs ys
unfolding compare_pre_lists compare_lists
pre_lists_lists [] [] = refl
pre_lists_lists [] (y ∷ ys) = refl
pre_lists_lists (x ∷ xs) [] = refl
pre_lists_lists (x ∷ xs) (y ∷ ys) = ground (arith, pre_lists_lists xs ys)

abbrev no_order : Unit {0} → Unit {0} → Ordering
no_order x y = Ordering.eq

none-IsOrder : IsOrder no_order
none-IsOrder = record { flips = λ x y. refl; chains = λ x y z h k. h; replaces = λ x y z h. refl }

-- Prereleases before none.
abbrev pre_view : List Str → List Str ⊎ Unit {0}
pre_view [] = inr tt
pre_view (x ∷ xs) = inl (x ∷ xs)

pre_parts :
    (xs ys : List Str)
    → compare_pre xs ys
      ≡ compare_parts (compare_lists compare_pre_ident) no_order (pre_view xs) (pre_view ys)
unfolding compare_pre
pre_parts [] [] = refl
pre_parts [] (y ∷ ys) = refl
pre_parts (x ∷ xs) [] = refl
pre_parts (x ∷ xs) (y ∷ ys) = pre_lists_lists (x ∷ xs) (y ∷ ys)

pre-IsOrder : IsOrder compare_pre
pre-IsOrder = same-IsOrder _ _ pre_parts (
    on-IsOrder (compare_parts (compare_lists compare_pre_ident) no_order) pre_view (
      compare_parts-IsOrder (compare_lists compare_pre_ident) no_order
        (compare_lists-IsOrder compare_pre_ident ident-IsOrder) none-IsOrder))

semvers-IsOrder : IsOrder compare_semvers
unfolding compare_semvers
semvers-IsOrder = and_then-IsOrder _ _ (on-IsOrder compare (λ (v : Semver). v.major) nat-IsOrder) (
    and_then-IsOrder _ _ (on-IsOrder compare (λ (v : Semver). v.minor) nat-IsOrder) (
      and_then-IsOrder _ _ (on-IsOrder compare (λ (v : Semver). v.patch) nat-IsOrder)
        (on-IsOrder compare_pre (λ (v : Semver). v.pre) pre-IsOrder)))

-- What a reported version is sorted by: parsed, text, missing.
abbrev Key : Type 0
Key = (Semver × Str) ⊎ (Str ⊎ Unit {0})

abbrev text_view : Str → Option Semver → Key
text_view s none = inr (inl s)
text_view s (some v) = inl (v, s)

abbrev key_view : Option Str → Key
key_view none = inr (inr tt)
key_view (some s) = text_view s (parse_semver s)

abbrev compare_versioned : Semver × Str → Semver × Str → Ordering
compare_versioned x y = and_then (compare_semvers x.0 y.0) (compare_strings x.1 y.1)

abbrev compare_keys : Key → Key → Ordering
compare_keys = compare_parts compare_versioned (compare_parts compare_strings no_order)

keys-IsOrder : IsOrder compare_keys
keys-IsOrder =
    compare_parts-IsOrder compare_versioned (compare_parts compare_strings no_order)
      (and_then-IsOrder _ _ (on-IsOrder compare_semvers (λ (x : Semver × Str). x.0) semvers-IsOrder)
        (on-IsOrder compare_strings (λ (x : Semver × Str). x.1) strings-IsOrder))
      (compare_parts-IsOrder compare_strings no_order strings-IsOrder none-IsOrder)

version_keys_view :
    (a b : Option Str) → compare_version_keys a b ≡ compare_keys (key_view a) (key_view b)
unfolding compare_version_keys version_rank compare_versions
version_keys_view none none = refl
version_keys_view none (some t) = elim (Option-cases (parse_semver t)) [
  | inl e ↦ rw e refl
  | inr (w, e) ↦ rw e refl
]
version_keys_view (some s) none = elim (Option-cases (parse_semver s)) [
  | inl e ↦ rw e refl
  | inr (v, e) ↦ rw e refl
]
version_keys_view (some s) (some t) = ground arith

compare_strings_eq : (s t : Str) → compare_strings s t ≡ Ordering.eq → s ≡ t
unfolding compare_strings
compare_strings_eq [] [] h = refl
compare_strings_eq [] (d ∷ t) h = cc h
compare_strings_eq (c ∷ s) [] h = cc h
compare_strings_eq (c ∷ s) (d ∷ t) h = ground (arith, h, compare_strings_eq s t)

abbrev key_text : Key → Option Str
key_text (inl (v, s)) = some s
key_text (inr (inl s)) = some s
key_text (inr (inr u)) = none

key_text_view : (a : Option Str) → key_text (key_view a) ≡ a
key_text_view none = refl
key_text_view (some s) = elim (Option-cases (parse_semver s)) [
  | inl e ↦ rw e refl
  | inr (v, e) ↦ rw e refl
]

keys_eq : (x y : Key) → compare_keys x y ≡ Ordering.eq → key_text x ≡ key_text y
keys_eq (inl (v, s)) (inl (w, t)) h = ground (arith, h, compare_strings_eq s t)
keys_eq (inl x) (inr y) h = cc h
keys_eq (inr x) (inl y) h = cc h
keys_eq (inr (inl s)) (inr (inl t)) h = ap (λ x. some x) (compare_strings_eq s t h)
keys_eq (inr (inl s)) (inr (inr u)) h = cc h
keys_eq (inr (inr u)) (inr (inl t)) h = cc h
keys_eq (inr (inr u)) (inr (inr w)) h = refl

version_keys-IsOrder : IsOrder compare_version_keys
version_keys-IsOrder =
    same-IsOrder _ _ version_keys_view (on-IsOrder compare_keys key_view keys-IsOrder)

self_opposite : (o : Ordering) → o ≡ opposite o → o ≡ Ordering.eq
self_opposite Ordering.lt h = cc h
self_opposite Ordering.eq h = refl
self_opposite Ordering.gt h = cc h

compare_same : (a : Option Str) → compare_version_keys a a ≡ Ordering.eq
compare_same a = self_opposite (compare_version_keys a a) (version_keys-IsOrder.flips a a)

-- compareVersionKeys is antisymmetric: the other way around it answers the opposite, and only equal
-- reported versions compare as equal.
pub compare_version_keys_antisym :
    (a b : Option Str)
    → (compare_version_keys b a ≡ opposite (compare_version_keys a b))
      × ((compare_version_keys a b ≡ Ordering.eq) ↔ (a ≡ b))
compare_version_keys_antisym a b = (
  version_keys-IsOrder.flips a b,
  (
    λ h.
        sym (key_text_view a)
        ∙ keys_eq (key_view a) (key_view b) (sym (version_keys_view a b) ∙ h)
        ∙ key_text_view b,
    λ e. ap (compare_version_keys a) (sym e) ∙ compare_same a,
  ),
)

-- compareVersionKeys is transitive.
pub compare_version_keys_trans :
    (a b c : Option Str)
    → compare_version_keys a b ≡ Ordering.lt
    → compare_version_keys b c ≡ Ordering.lt
    → compare_version_keys a c ≡ Ordering.lt
compare_version_keys_trans a b c h k = version_keys-IsOrder.chains a b c h k

parsed_flip :
    (v w : Option Semver) (way : Ordering)
    → compare_parsed v w ≡ some way
    → compare_parsed w v ≡ some (opposite way)
parsed_flip none w way h = cc h
parsed_flip (some v) none way h = cc h
parsed_flip (some v) (some w) way h =
    ap (λ o. some o) (semvers-IsOrder.flips v w ∙ ap opposite (some-eq-some h))

-- Going back reverses the direction: what is an upgrade one way is a downgrade the other way.
pub compare_versions_flip :
    (a b : Str) (way : Ordering)
    → compare_versions a b ≡ some way
    → compare_versions b a ≡ some (opposite way)
unfolding compare_versions
compare_versions_flip a b way h =
    ground (arith, h, parsed_flip (parse_semver a) (parse_semver b) way)
