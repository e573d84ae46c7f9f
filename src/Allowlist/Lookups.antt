-- ===== src/Allowlist/Lookups.antt =====
-- The lookups in a finalized schema: span patterns, attribute families, and the definitions that
-- allowed keys have.
use argvio.Prelude.{
  Str, bytes, str_eq, str_eq_iff, str_eq_refl, has_prefix, has_prefix→append, has_prefix-append,
  ◌≡◌, refl, sym, ap, subst, ◌↔◌, ◌⊎◌, inl, inr, true, false, some, List, [], ◌∷◌, ◌++◌, length,
  ◌≤◌, All, arith, Bool-cases, Option-cases, ℕ,
}
use argvio.Prelude.Maps.{lookup, has}
use argvio.Prelude.Maps.{Map, insert, lookup-insert, lookup-All, has→lookup}
use argvio.Allowlist.Check.{allowed_set, add_all}
use argvio.Allowlist.{
  Set, Schema, AttrDef, star_prefix, matches_pattern, family_matches, first_family, family_of,
  attr_def_for, is_allowed,
}
use argvio.Allowlist.Finalize.Sorted.{LongestFirst}
use argvio.Allowlist.Finalize.Events.{RefsDefined}
use argvio.Allowlist.Finalize.Sound.{IsFinal}

star_prefix→append : (s p : Str) → star_prefix s ≡ some p → s ≡ p ++ bytes "*"
unfolding star_prefix
star_prefix→append [] p h = cc
star_prefix→append (c ∷ []) p h = ground arith
star_prefix→append (c ∷ d ∷ s) p h = elim (Option-cases (star_prefix (d ∷ s))) [
  | inl e ↦ cc (rw e at h)
  | inr (q, e) ↦ ground (arith, star_prefix→append (d ∷ s) q)
]

star_prefix-append : (p : Str) → star_prefix (p ++ bytes "*") ≡ some p
unfolding star_prefix
star_prefix-append [] = refl
star_prefix-append (c ∷ []) = refl
star_prefix-append (c ∷ d ∷ p) = rw (star_prefix-append (d ∷ p))

-- What a span name pattern stands for: itself, or with a final `*` every name with its prefix.
abbrev pub Denotes : Str → Str → Type 0
Denotes pattern name =
    (pattern ≡ name)
    ⊎ ((prefix rest : Str) × (pattern ≡ prefix ++ bytes "*") × (name ≡ prefix ++ rest))

-- A span name pattern matches exactly the names that it stands for: itself, and if it ends in `*`
-- every name that begins with what is before the `*`.
pub matches_pattern_iff :
    (pattern name : Str) → (matches_pattern pattern name ≡ true) ↔ Denotes pattern name
unfolding matches_pattern
matches_pattern_iff pattern name = (sound, complete)
  where
    sound : matches_pattern pattern name ≡ true → Denotes pattern name
    sound h = elim (Bool-cases (str_eq pattern name)) [
      | inl same ↦ inl ((str_eq_iff pattern name).0 same)
      | inr other ↦ elim (Option-cases (star_prefix pattern)) [
        | inl e ↦ cc (rw (other, e, matches_pattern) at h)
        | inr (p, e) ↦
            let (r, q) = has_prefix→append name p (rw (other, e, matches_pattern) at h) in
            inr (p, r, star_prefix→append pattern p e, q)
      ]
    ]

    complete : Denotes pattern name → matches_pattern pattern name ≡ true
    complete (inl e) = rw (e, str_eq_refl name)
    complete (inr (p, r, e, q)) =
        let hs : star_prefix pattern ≡ some p = rw e (star_prefix-append p) in
        let hp : has_prefix name p ≡ true = rw q (has_prefix-append p r) in
        elim (Bool-cases (str_eq pattern name)) [
          | inl same ↦ rw same
          | inr other ↦ rw (other, hs, matches_pattern) hp
        ]

-- `f` is in the list, and `fam` is its key.
abbrev pub IsIn : AttrDef → List AttrDef → Type 0
IsIn f [] = ⊥
IsIn f (g ∷ gs) = (f ≡ g) ⊎ IsIn f gs

All-IsIn {κ} : (P : AttrDef → Type κ) (f : AttrDef) (fs : List AttrDef) → All P fs → IsIn f fs → P f
All-IsIn P f [] h m = absurd m
All-IsIn P f (g ∷ gs) h (inl e) = subst P (sym e) h.0
All-IsIn P f (g ∷ gs) h (inr m) = All-IsIn P f gs h.1 m

-- No matching family has a longer key than `fam`.
abbrev pub NoLongerMatch : Str → Str → List AttrDef → Type 0
NoLongerMatch key fam = All (λ g. family_matches g key ≡ true → length g.key ≤ length fam)

-- What `first_family` returns for the key.
abbrev pub IsMostSpecific : List AttrDef → Str → Str → Type 0
IsMostSpecific fs key fam =
    (f : AttrDef) × IsIn f fs
    × (f.key ≡ fam)
    × (family_matches f key ≡ true)
    × NoLongerMatch key fam fs

weaken_bound :
    (key fam : Str) (fs : List AttrDef)
    → All (λ g. length g.key ≤ length fam) fs
    → NoLongerMatch key fam fs
weaken_bound key fam [] h = tt
weaken_bound key fam (g ∷ gs) h = ((λ _. h.0), weaken_bound key fam gs h.1)

first_family-IsMostSpecific :
    (fs : List AttrDef) (key fam : Str)
    → LongestFirst fs
    → first_family fs key ≡ some fam
    → IsMostSpecific fs key fam
unfolding first_family
first_family-IsMostSpecific [] key fam l h = cc
first_family-IsMostSpecific (f ∷ fs) key fam l h = elim (Bool-cases (family_matches f key)) [
  | inl hit ↦
      let e : f.key ≡ fam = ground arith in
      (
        f,
        inl refl,
        e,
        hit,
        (
          (λ _. omega (arith, ap (length {0} {A = ℕ}) e)),
          weaken_bound key fam fs (subst (λ k. All (λ g. length g.key ≤ length k) fs) e l.0),
        ),
      )
  | inr miss ↦
      let (g, m, e, q, n) = first_family-IsMostSpecific fs key fam l.1 (ground arith) in
      (g, inr m, e, q, ((λ hit. cc (miss, hit)), n))
]

-- In a finalized schema the family of a key is the most specific one: its prefix and key pattern
-- match the key, no matching family has a longer key, and a key that is itself defined has none.
pub family_of-IsMostSpecific :
    (s : Schema) (key fam : Str)
    → IsFinal s
    → family_of s key ≡ some fam
    → (has key s.attributes ≡ false) × IsMostSpecific s.families key fam
unfolding family_of
family_of-IsMostSpecific s key fam v h = elim (Bool-cases (has key s.attributes)) [
  | inl own ↦ cc (rw (own, family_of) at h)
  | inr none_own ↦ (
    none_own,
    first_family-IsMostSpecific s.families key fam v.longest (rw (none_own, family_of) at h),
  )
]

add_all-has :
    (attrs : Map AttrDef) (keys : List Str) (set : Set) (key : Str)
    → RefsDefined attrs keys
    → ((k : Str) → has k set ≡ true → has k attrs ≡ true)
    → has key (add_all keys set) ≡ true
    → has key attrs ≡ true
add_all-has attrs [] set key refs old h = old key h
add_all-has attrs (k ∷ keys) set key refs old h =
    add_all-has attrs keys (insert k tt set) key refs.1
      (λ j e. ground (arith, lookup-insert k j tt set, str_eq_iff k j, old j, refs.0)) h

-- A key among the allowed attributes of an event whose references are defined is defined.
pub allowed_set-has :
    (attrs : Map AttrDef) (keys : List Str) (key : Str)
    → RefsDefined attrs keys
    → has key (allowed_set keys) ≡ true
    → has key attrs ≡ true
unfolding allowed_set
allowed_set-has attrs keys key refs h =
    add_all-has attrs keys [] key refs (λ k e. absurd (unfold lookup in cc)) h

-- The definition that a key has: under its own name, with a tier of the schema.
abbrev pub HasDef : Schema → Str → Type 0
HasDef s key =
    (d : AttrDef) × (attr_def_for s key ≡ some d)
    × (d.key ≡ key)
    × (has d.min_tier s.tier_ranks ≡ true)

own-HasDef : (s : Schema) (key : Str) → IsFinal s → has key s.attributes ≡ true → HasDef s key
unfolding attr_def_for
own-HasDef s key v h =
    let (d, e) = has→lookup key s.attributes h in
    let (k, r) =
      lookup-All (λ j a. (a.key ≡ j) × (has a.min_tier s.tier_ranks ≡ true)) key d s.attributes
        v.attrs e in
    (d, rw e refl, k, r)

family-HasDef : (s : Schema) (key fam : Str) → IsFinal s → family_of s key ≡ some fam → HasDef s key
unfolding attr_def_for
family-HasDef s key fam v h =
    let (none_own, (f, m, e, _, _)) = family_of-IsMostSpecific s key fam v h in
    let defined : has fam s.attributes ≡ true =
      subst (λ k. has k s.attributes ≡ true) e (All-IsIn _ f s.families v.families m).1 in
    let (d, q) = has→lookup fam s.attributes defined in
    let (_, r) =
      lookup-All (λ j a. (a.key ≡ j) × (has a.min_tier s.tier_ranks ≡ true)) fam d s.attributes
        v.attrs q in
    (record d { key = key }, ground (arith, none_own, q, h), refl, r)

-- In a finalized schema every key that an event allows, by name or through its family, has a
-- definition whose tier is known: evaluation never meets an allowed key without one.
pub is_allowed-HasDef :
    (s : Schema) (keys : List Str) (key : Str)
    → IsFinal s
    → RefsDefined s.attributes keys
    → is_allowed s (allowed_set keys) key ≡ true
    → HasDef s key
unfolding is_allowed
is_allowed-HasDef s keys key v refs h = elim (Bool-cases (has key (allowed_set keys))) [
  | inl listed ↦ own-HasDef s key v (allowed_set-has s.attributes keys key refs listed)
  | inr other ↦ elim (Option-cases (family_of s key)) [
    | inl e ↦ cc (rw (other, e) at h)
    | inr (fam, e) ↦ family-HasDef s key fam v e
  ]
]
