-- ===== src/Prelude/Maps.antt =====
-- Go maps with string keys, as association lists in an iteration order. A write replaces the entry
-- of its key or adds one at the end, so a map built by writes has each key once.
use argvio.Prelude.{
  Str, str_eq, str_eq_iff, ◌≡◌, refl, sym, subst, All, true, Option-cases, Bool, false, Option,
  length, none, some, List, [], ◌∷◌, arith, if◌then◌else◌, is_some, Bool-cases, inl, inr,
}

abbrev pub Map {ℓ} : Type ℓ → Type ℓ
Map V = List (Str × V)

module _ {ℓ} {V : Type ℓ} where
  -- v, ok := m[k]
  unfoldable pub lookup : Str → Map V → Option V
  lookup key [] = none
  lookup key (entry ∷ rest) = if str_eq entry.0 key then some entry.1 else lookup key rest

  -- m[k] = v
  unfoldable pub insert : Str → V → Map V → Map V
  insert key value [] = (key, value) ∷ []
  insert key value (entry ∷ rest) =
      if str_eq entry.0 key then (entry.0, value) ∷ rest else entry ∷ insert key value rest

  -- delete(m, k)
  unfoldable pub delete : Str → Map V → Map V
  delete k [] = []
  delete k ((j, w) ∷ m) = let rest = delete k m in if str_eq j k then rest else (j, w) ∷ rest

  abbrev pub has : Str → Map V → Bool
  has k m = is_some (lookup k m)

  -- Each key once.
  abbrev pub HasUniqueKeys : Map V → Type 0
  HasUniqueKeys [] = Unit
  HasUniqueKeys ((k, v) ∷ m) = (has k m ≡ false) × HasUniqueKeys m

  -- A read after a write: the value written under the key written, the old one elsewhere.
  pub lookup-insert :
      (written read : Str) (value : V) (m : Map V)
      → lookup read (insert written value m)
        ≡ (if str_eq written read then some value else lookup read m)
  unfolding lookup insert
  lookup-insert written read value [] = refl
  lookup-insert written read value (entry ∷ rest) =
      let older = lookup-insert written read value rest in
      ground
        (arith, older, str_eq_iff entry.0 read, str_eq_iff entry.0 written, str_eq_iff written read)

  pub lookup-delete :
      (k j : Str) (m : Map V) → lookup j (delete k m) ≡ (if str_eq k j then none else lookup j m)
  unfolding lookup delete
  lookup-delete k j [] = ground arith
  lookup-delete k j ((i, w) ∷ m) =
      ground (arith, str_eq_iff k j, str_eq_iff i k, str_eq_iff i j, lookup-delete k j m)

  pub insert-HasUniqueKeys :
      (k : Str) (v : V) (m : Map V) → HasUniqueKeys m → HasUniqueKeys (insert k v m)
  unfolding insert
  insert-HasUniqueKeys k v [] u = (unfold lookup in refl, tt)
  insert-HasUniqueKeys k v ((j, w) ∷ m) u = elim (Bool-cases (str_eq j k)) [
    | inl hit ↦ rw hit u
    | inr miss ↦ rw miss (
      ground (arith, lookup-insert k j v m, str_eq_iff j k, str_eq_iff k j),
      insert-HasUniqueKeys k v m u.1,
    )
  ]

-- What holds of every entry holds of the entry that a lookup finds.
pub lookup-All {ℓ κ} :
    {V : Type ℓ} (P : Str → V → Type κ) (k : Str) (v : V) (m : Map V)
    → All (λ e. P e.0 e.1) m
    → lookup k m ≡ some v
    → P k v
unfolding lookup
lookup-All P k v [] h e = cc
lookup-All P k v ((j, w) ∷ m) h e = elim (Bool-cases (str_eq j k)) [
  | inl same ↦
      let vs : w ≡ v = ground arith in
      subst (λ i. P i v) ((str_eq_iff j k).0 same) (subst (P j) vs h.0)
  | inr other ↦ lookup-All P k v m h.1 (ground arith)
]

pub has→lookup {ℓ} :
    {V : Type ℓ} (k : Str) (m : Map V) → has k m ≡ true → (v : V) × (lookup k m ≡ some v)
has→lookup k m h = elim (Option-cases (lookup k m)) [ inl e ↦ cc (rw e at h) | inr found ↦ found ]

-- A write keeps what holds of every entry.
pub insert-All {ℓ κ} :
    {V : Type ℓ} (P : Str → V → Type κ) (k : Str) (v : V) (m : Map V)
    → P k v
    → All (λ e. P e.0 e.1) m
    → All (λ e. P e.0 e.1) (insert k v m)
unfolding insert
insert-All P k v [] p h = (p, tt)
insert-All P k v ((j, w) ∷ m) p h = elim (Bool-cases (str_eq j k)) [
  | inl hit ↦ rw hit (subst (λ i. P i v) (sym ((str_eq_iff j k).0 hit)) p, h.1)
  | inr miss ↦ rw miss (h.0, insert-All P k v m p h.1)
]

-- Whatever a lookup returns is good under its key.
abbrev pub IndexGood {ℓ κ} : {V : Type ℓ} → (Str → V → Type κ) → Map V → Type (ℓ ⊔ κ)
IndexGood {V = V} P m = (k : Str) (v : V) → lookup k m ≡ some v → P k v

pub insert-IndexGood {ℓ κ} :
    {V : Type ℓ} (P : Str → V → Type κ) (k : Str) (v : V) (m : Map V)
    → P k v
    → IndexGood P m
    → IndexGood P (insert k v m)
insert-IndexGood P k v m p h j w e = elim (Bool-cases (str_eq k j)) [
  | inl same ↦
      let ks : k ≡ j = (str_eq_iff k j).0 same in
      let vs : v ≡ w = ground (arith, lookup-insert k j v m) in
      subst (λ i. P i w) ks (subst (P k) vs p)
  | inr other ↦ h j w (ground (arith, lookup-insert k j v m))
]

pub nil-IndexGood {ℓ κ} : {V : Type ℓ} (P : Str → V → Type κ) → IndexGood P []
nil-IndexGood P k v e = absurd (unfold lookup in cc)

-- A map without entries has no key.
pub no_keys {ℓ} : {V : Type ℓ} (m : Map V) (k : Str) → length m ≡ 0 → has k m ≡ true → ⊥
unfolding lookup
no_keys [] k e h = cc h
no_keys (entry ∷ rest) k e h = absurd (omega (arith, e))
