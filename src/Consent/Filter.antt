-- ===== src/Consent/Filter.antt =====
-- The loop over the attributes, against a statement of what is kept.
use argvio.Prelude.{
  subst, some-eq-some, Str, str_eq, str_eq_iff, ◌≡◌, ◌≢◌, refl, sym, ◌↔◌, inl, inr, Bool, true,
  false, not, ◌&&◌, Option, none, some, List, [], ◌∷◌, ◌++◌, if◌then◌else◌, is_some, arith,
  Bool-cases, Option-cases, map, select,
}
use argvio.Prelude.Int.{ℤ, ltb_ℤ, ◌≤ℤ◌}
use argvio.Prelude.Maps.{Map, lookup, HasUniqueKeys, lookup-insert, insert-HasUniqueKeys}
use mathlib.Core.List.{append-nil, append_assoc}
use argvio.Allowlist.{
  Value, Schema, AttrDef, Set, tier_rank, is_allowed, is_standard_resource_attribute, attr_def_for,
}
use argvio.Allowlist.Check.{check_attribute}
use argvio.Allowlist.Check.Conforms.{ConformsAs, check_attribute_iff}
use argvio.Consent.{tier_attr_key, rank_or_zero, Filtered, filter_attribute, filter_attributes}

-- The accumulators before the loop.
abbrev pub start : Filtered
start = record { kept = []; dropped = [] }

module _ (schema : Schema) (allowed : Set) (effective : ℤ) where
  abbrev keeps_defined : Value → Option AttrDef → Bool
  keeps_defined v none = false
  keeps_defined v (some def) =
      not (is_some (check_attribute def v))
      && not (ltb_ℤ effective (rank_or_zero (tier_rank schema def.min_tier)))

  -- Whether the loop keeps the attribute.
  unfoldable pub keeps : Str → Value → Bool
  keeps k v =
      if str_eq k tier_attr_key
      then false
      else if is_allowed schema allowed k
      then keeps_defined v (attr_def_for schema k)
      else is_standard_resource_attribute schema k

  -- The attribute is not the tier declaration, and it is allowed, conforms to its definition and
  -- needs no tier above the effective one; or it is not allowed but is a standard resource attribute.
  pub data Keeps (k : Str) (v : Value) : Type 0 where
    within_tier :
        (def : AttrDef)
        → k ≢ tier_attr_key
        → is_allowed schema allowed k ≡ true
        → attr_def_for schema k ≡ some def
        → ConformsAs def.attr_type def v
        → rank_or_zero (tier_rank schema def.min_tier) ≤ℤ effective
        → Keeps k v
    standard :
        k ≢ tier_attr_key
        → is_allowed schema allowed k ≡ false
        → is_standard_resource_attribute schema k ≡ true
        → Keeps k v

  Keeps-is_allowed :
      (k : Str) (v : Value)
      → k ≢ tier_attr_key
      → is_allowed schema allowed k ≡ true
      → keeps_defined v (attr_def_for schema k) ≡ true
      → Keeps k v
  Keeps-is_allowed k v ne al h = elim (Option-cases (attr_def_for schema k)) [
    | inl e ↦ cc (rw e at h)
    | inr (def, e) ↦
        let g : keeps_defined v (some def) ≡ true = rw e at h in
        within_tier def ne al e ((check_attribute_iff def v).0 (ground arith)) (ground arith)
  ]

  keeps→Keeps : (k : Str) (v : Value) → keeps k v ≡ true → Keeps k v
  unfolding keeps
  keeps→Keeps k v h = elim (Bool-cases (str_eq k tier_attr_key)) [
    | inl same ↦ cc (rw (same, keeps) at h)
    | inr other ↦
        let ne : k ≢ tier_attr_key = λ e. cc (other, (str_eq_iff k tier_attr_key).1 e) in
        elim (Bool-cases (is_allowed schema allowed k)) [
          | inl al ↦ Keeps-is_allowed k v ne al (rw (other, al, keeps) at h)
          | inr no_al ↦ standard ne no_al (rw (other, no_al, keeps) at h)
        ]
  ]

  Keeps→keeps : (k : Str) (v : Value) → Keeps k v → keeps k v ≡ true
  unfolding keeps
  Keeps→keeps k v (within_tier def ne al e c r) =
      ground (arith, str_eq_iff k tier_attr_key, al, e, (check_attribute_iff def v).1 c, r)
  Keeps→keeps k v (standard ne no_al st) = ground (arith, str_eq_iff k tier_attr_key)

  pub keeps_iff : (k : Str) (v : Value) → (keeps k v ≡ true) ↔ Keeps k v
  keeps_iff k v = (keeps→Keeps k v, Keeps→keeps k v)

  lookup-filter_attribute :
      (k j : Str) (v : Value) (acc : Filtered)
      → lookup j (filter_attribute schema allowed effective k v acc).kept
        ≡ (if str_eq k j && keeps k v then some v else lookup j acc.kept)
  unfolding filter_attribute keeps
  lookup-filter_attribute k j v acc = ground (arith, lookup-insert k j v acc.kept)

  -- What the loop has kept under a key, from the attribute of that key and what it had before.
  abbrev pub kept_value : Str → Option Value → Option Value → Option Value
  kept_value k none before = before
  kept_value k (some v) before = if keeps k v then some v else before

  pub lookup-filter_attributes :
      (j : Str) (attrs : Map Value) (acc : Filtered)
      → HasUniqueKeys attrs
      → lookup j (filter_attributes schema allowed effective attrs acc).kept
        ≡ kept_value j (lookup j attrs) (lookup j acc.kept)
  unfolding filter_attributes lookup
  lookup-filter_attributes j [] acc u = refl
  lookup-filter_attributes j ((k, v) ∷ rest) acc u = ground (
    arith,
    lookup-filter_attributes j rest (filter_attribute schema allowed effective k v acc) u.1,
    lookup-filter_attribute k j v acc,
    str_eq_iff k j,
    u.0,
  )

  abbrev drops : Str × Value → Bool
  drops (k, v) = not (str_eq k tier_attr_key) && not (keeps k v)

  -- The keys that the loop reports as dropped: all but the tier's own and those kept.
  unfoldable pub dropped_keys : Map Value → List Str
  dropped_keys attrs = map (λ e. e.0) (select drops attrs)

  dropped_keys-cons :
      (k : Str) (v : Value) (rest : Map Value)
      → dropped_keys ((k, v) ∷ rest)
        ≡ (if drops (k, v) then k ∷ dropped_keys rest else dropped_keys rest)
  unfolding dropped_keys select
  dropped_keys-cons k v rest = ground arith

  dropped-filter_attribute :
      (k : Str) (v : Value) (acc : Filtered)
      → (filter_attribute schema allowed effective k v acc).dropped
        ≡ (if drops (k, v) then acc.dropped ++ k ∷ [] else acc.dropped)
  unfolding filter_attribute keeps
  dropped-filter_attribute k v acc = ground arith

  pub dropped-filter_attributes :
      (attrs : Map Value) (acc : Filtered)
      → (filter_attributes schema allowed effective attrs acc).dropped
        ≡ acc.dropped ++ dropped_keys attrs
  unfolding filter_attributes
  dropped-filter_attributes [] acc = unfold dropped_keys select in sym (append-nil acc.dropped)
  dropped-filter_attributes ((k, v) ∷ rest) acc =
      let ih = dropped-filter_attributes rest (filter_attribute schema allowed effective k v acc) in
      elim (Bool-cases (drops (k, v))) [
        | inl d ↦
            rw (ih, dropped-filter_attribute k v acc, dropped_keys-cons k v rest, d)
              (append_assoc acc.dropped (k ∷ []) (dropped_keys rest))
        | inr d ↦ rw (ih, dropped-filter_attribute k v acc, dropped_keys-cons k v rest, d) refl
      ]

  pub filter_attributes-HasUniqueKeys :
      (attrs : Map Value) (acc : Filtered)
      → HasUniqueKeys acc.kept
      → HasUniqueKeys (filter_attributes schema allowed effective attrs acc).kept
  unfolding filter_attributes filter_attribute
  filter_attributes-HasUniqueKeys [] acc u = u
  filter_attributes-HasUniqueKeys ((k, v) ∷ rest) acc u =
      filter_attributes-HasUniqueKeys rest (filter_attribute schema allowed effective k v acc)
        (ground (arith, insert-HasUniqueKeys k v acc.kept u))

  -- Under a key the loop leaves what the attributes held there, if that is kept.
  pub lookup-kept_iff :
      (attrs : Map Value) (k : Str) (v : Value)
      → HasUniqueKeys attrs
      → (lookup k (filter_attributes schema allowed effective attrs start).kept ≡ some v)
        ↔ ((lookup k attrs ≡ some v) × Keeps k v)
  lookup-kept_iff attrs k v u =
      rw (lookup-filter_attributes k attrs start u)
        (unfold lookup in kept_value_iff (lookup k attrs))
    where
      kept_value_iff :
          (o : Option Value) → (kept_value k o none ≡ some v) ↔ ((o ≡ some v) × Keeps k v)
      kept_value_iff none = ((λ q. cc), λ q. cc (q.0))
      kept_value_iff (some w) = (
        (λ q. elim (Bool-cases (keeps k w)) [
          | inl y ↦
              let e : some w ≡ some v = rw y at q in
              (e, subst (Keeps k) (some-eq-some e) (keeps→Keeps k w y))
          | inr n ↦ cc (rw n at q)
        ]),
        λ q. rw (some-eq-some q.0, Keeps→keeps k v q.1),
      )
