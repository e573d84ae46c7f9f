-- ===== src/Consent/Tiers.antt =====
-- ResolveTier, and the name of the tier that is applied.
use argvio.Prelude.{
  Str, str_eq, str_eq_iff, ◌≡◌, refl, sym, ap, ◌∙◌, ◌⊎◌, ◌↔◌, inl, inr, true, false, not, ◌&&◌,
  Option, none, some, List, [], ◌∷◌, is_some, ok, arith, Bool-cases, some-eq-some, All,
}
use argvio.Prelude.Int.{ℤ, ltb_ℤ, ◌≤ℤ◌}
use argvio.Prelude.Maps.{Map, lookup, insert, lookup-insert, has→lookup}
use argvio.Allowlist.{Value, str, Schema, Tier, tier_rank}
use argvio.Allowlist.Finalize.{rank_index}
use argvio.Allowlist.Finalize.Sound.{IsFinal}
use argvio.Consent.{
  resolve_tier, tier_attr_key, tier_name_for_rank, EventDef, EnforcementMode, evaluate_event,
  accepted, effective_rank, rank_or_zero,
}
use argvio.Consent.Evaluate.{applied_rank, evaluate_event_accepts_iff}

-- The declaration that counts: the record's, or the resource's where the record has none.
abbrev pub Declares : Map Value → Map Value → Str → Type 0
Declares resource_attrs record_attrs tier =
    (lookup tier_attr_key record_attrs ≡ some (str tier))
    ⊎ ((lookup tier_attr_key record_attrs ≡ none)
        × (lookup tier_attr_key resource_attrs ≡ some (str tier)))

-- A tier is resolved exactly when the declaration that counts is a string that names a tier of the
-- schema: no default, and a bad declaration on the record is not mended by the resource's.
pub resolve_tier_iff :
    (schema : Schema) (resource_attrs record_attrs : Map Value) (tier : Str)
    → (resolve_tier schema resource_attrs record_attrs ≡ ok tier)
      ↔ (Declares resource_attrs record_attrs tier × (is_some (tier_rank schema tier) ≡ true))
unfolding resolve_tier
resolve_tier_iff schema resource_attrs record_attrs tier = (sound, complete)
  where
    sound :
        resolve_tier schema resource_attrs record_attrs ≡ ok tier
        → Declares resource_attrs record_attrs tier × (is_some (tier_rank schema tier) ≡ true)
    sound h = ground arith

    complete :
        Declares resource_attrs record_attrs tier × (is_some (tier_rank schema tier) ≡ true)
        → resolve_tier schema resource_attrs record_attrs ≡ ok tier
    complete (inl e, k) = rw (e, k) refl
    complete (inr (e, q), k) = rw (e, q, k) refl

abbrev IsTier : Tier → List Tier → Type 0
IsTier t [] = ⊥
IsTier t (u ∷ us) = (t ≡ u) ⊎ IsTier t us

-- No two tiers have one name.
abbrev pub HasDistinctNames : List Tier → Type 0
HasDistinctNames [] = Unit
HasDistinctNames (t ∷ ts) = All (λ u. str_eq u.name t.name ≡ false) ts × HasDistinctNames ts

lookup-rank_index_other :
    (n : Str) (ts : List Tier) (m : Map ℤ)
    → All (λ u. str_eq u.name n ≡ false) ts
    → lookup n (rank_index ts m) ≡ lookup n m
unfolding rank_index
lookup-rank_index_other n [] m h = refl
lookup-rank_index_other n (t ∷ ts) m h = ground (
  arith,
  lookup-rank_index_other n ts (insert t.name t.rank m) h.1,
  lookup-insert t.name n t.rank m,
  h.0,
)

lookup-rank_index :
    (t : Tier) (ts : List Tier) (m : Map ℤ)
    → HasDistinctNames ts
    → IsTier t ts
    → lookup t.name (rank_index ts m) ≡ some t.rank
unfolding rank_index
lookup-rank_index t [] m d i = absurd i
lookup-rank_index t (u ∷ us) m d (inl e) = rw e (
    lookup-rank_index_other u.name us (insert u.name u.rank m) d.0
    ∙ ground (arith, lookup-insert u.name u.name u.rank m, str_eq_iff u.name u.name))
lookup-rank_index t (u ∷ us) m d (inr i) = lookup-rank_index t us (insert u.name u.rank m) d.1 i

-- A rank in the index is that of a tier.
rank_index-IsTier :
    (n : Str) (r : ℤ) (ts : List Tier) (m : Map ℤ)
    → lookup n (rank_index ts m) ≡ some r
    → ((t : Tier) × IsTier t ts × (t.rank ≡ r)) ⊎ (lookup n m ≡ some r)
unfolding rank_index
rank_index-IsTier n r [] m h = inr h
rank_index-IsTier n r (t ∷ ts) m h = elim (rank_index-IsTier n r ts (insert t.name t.rank m) h) [
  | inl (u, i, e) ↦ inl (u, inr i, e)
  | inr e ↦ elim (Bool-cases (str_eq t.name n)) [
    | inl same ↦ inl (t, inl refl, some-eq-some (ground (arith, lookup-insert t.name n t.rank m)))
    | inr other ↦ inr (ground (arith, lookup-insert t.name n t.rank m))
  ]
]

same_rank : (a b : ℤ) → ltb_ℤ a b ≡ false → ltb_ℤ b a ≡ false → a ≡ b
same_rank a b h k = ground arith

tier_name_for_rank-IsTier :
    (ts : List Tier) (t : Tier) (r : ℤ)
    → IsTier t ts
    → t.rank ≡ r
    → (u : Tier) × IsTier u ts × (tier_name_for_rank ts r ≡ u.name) × (u.rank ≡ r)
unfolding tier_name_for_rank
tier_name_for_rank-IsTier [] t r i e = absurd i
tier_name_for_rank-IsTier (u ∷ us) t r i e =
    elim (Bool-cases (not (ltb_ℤ u.rank r) && not (ltb_ℤ r u.rank))) [
      | inl same ↦ (u, inl refl, rw same refl, same_rank u.rank r (ground arith) (ground arith))
      | inr other ↦ elim i [
        | inl p ↦ absurd (differs other (ap (λ (x : Tier). x.rank) (sym p) ∙ e))
        | inr j ↦
            let (w, k, n, q) = tier_name_for_rank-IsTier us t r j e in (w, inr k, rw other n, q)
      ]
    ]
  where
    differs : (not (ltb_ℤ u.rank r) && not (ltb_ℤ r u.rank)) ≡ false → u.rank ≡ r → ⊥
    differs o q = ground arith

known_rank : (o : Option ℤ) → is_some o ≡ true → (r : ℤ) × (o ≡ some r)
known_rank none h = cc
known_rank (some r) h = (r, refl)

-- The rank that is applied belongs to a tier: the declared one or the ceiling.
applied-IsTier :
    (schema : Schema) (declared ceiling : Str)
    → IsFinal schema
    → is_some (tier_rank schema declared) ≡ true
    → is_some (tier_rank schema ceiling) ≡ true
    → (t : Tier) × IsTier t schema.consent_tiers × (t.rank ≡ applied_rank schema declared ceiling)
unfolding tier_rank
applied-IsTier schema declared ceiling fin kd kc =
    let (d, ed) = has→lookup declared schema.tier_ranks kd in
    let (c, ec) = has→lookup ceiling schema.tier_ranks kc in
    let td = tier_of declared d ed in
    let tc = tier_of ceiling c ec in
    rw (ed, ec) (elim (Bool-cases (ltb_ℤ c d)) [ inl h ↦ rw h tc | inr h ↦ rw h td ])
  where
    tier_of :
        (n : Str) (r : ℤ)
        → lookup n schema.tier_ranks ≡ some r
        → (t : Tier) × IsTier t schema.consent_tiers × (t.rank ≡ r)
    tier_of n r e =
        elim (rank_index-IsTier n r schema.consent_tiers [] (ap (lookup n) (sym fin.ranks) ∙ e)) [
          | inl t ↦ t
          | inr q ↦ absurd (unfold lookup in cc)
        ]

-- The tier that is reported has the rank that is applied.
rank_of_reported :
    (schema : Schema) (def : EventDef) (declared ceiling : Str) (mode : EnforcementMode)
    (attrs : Map Value) (tier : Str) (kept : Map Value) (dropped : List Str)
    → IsFinal schema
    → HasDistinctNames schema.consent_tiers
    → is_some (tier_rank schema declared) ≡ true
    → evaluate_event schema def declared ceiling mode attrs ≡ accepted tier kept dropped
    → tier_rank schema tier ≡ some (applied_rank schema declared ceiling)
rank_of_reported schema def declared ceiling mode attrs tier kept dropped fin distinct known h =
    let (adm, named, _, _) =
      (evaluate_event_accepts_iff schema def declared ceiling mode attrs tier kept dropped).0 h in
    let (t, i, e) = applied-IsTier schema declared ceiling fin known adm.ceiling_known in
    let (u, j, n, q) =
      tier_name_for_rank-IsTier schema.consent_tiers t (applied_rank schema declared ceiling) i e in
    rw (named ∙ n) (
      unfold tier_rank in
      ap (lookup u.name) fin.ranks
      ∙ lookup-rank_index u schema.consent_tiers [] distinct j
      ∙ ap (λ r. some r) q)

-- The lower of two ranks: not above either, and one of them.
abbrev pub IsLower : ℤ → ℤ → ℤ → Type 0
IsLower a b low = (low ≤ℤ a) × (low ≤ℤ b) × ((low ≡ a) ⊎ (low ≡ b))

effective_rank-IsLower :
    (declared ceiling : ℤ) → IsLower declared ceiling (effective_rank declared ceiling)
effective_rank-IsLower d c = elim (Bool-cases (ltb_ℤ c d)) [
  | inl h ↦ rw h (ground arith, ground arith, inr refl)
  | inr h ↦ rw h (ground arith, ground arith, inl refl)
]

-- The effective tier of an accepted event is a tier of the schema, and its rank is not above the declared
-- tier's nor the ceiling's, and is one of the two. The schema is finalized, tier names are distinct, and
-- the declared tier is known, which ResolveTier has checked; that the ceiling is known is a result.
pub effective_tier_rank :
    (schema : Schema) (def : EventDef) (declared ceiling : Str) (mode : EnforcementMode)
    (attrs : Map Value) (tier : Str) (kept : Map Value) (dropped : List Str)
    → IsFinal schema
    → HasDistinctNames schema.consent_tiers
    → is_some (tier_rank schema declared) ≡ true
    → evaluate_event schema def declared ceiling mode attrs ≡ accepted tier kept dropped
    → (d : ℤ) × (c : ℤ) × (r : ℤ) × (tier_rank schema declared ≡ some d)
      × (tier_rank schema ceiling ≡ some c)
      × (tier_rank schema tier ≡ some r)
      × IsLower d c r
effective_tier_rank schema def declared ceiling mode attrs tier kept dropped fin distinct known h =
    let (adm, _, _, _) =
      (evaluate_event_accepts_iff schema def declared ceiling mode attrs tier kept dropped).0 h in
    let (d, ed) = known_rank (tier_rank schema declared) known in
    let (c, ec) = known_rank (tier_rank schema ceiling) adm.ceiling_known in
    let rank =
      rank_of_reported schema def declared ceiling mode attrs tier kept dropped fin distinct known
        h in
    let lower =
      ap (λ o. some (effective_rank (rank_or_zero o) (rank_or_zero (tier_rank schema ceiling)))) ed
      ∙ ap (λ o. some (effective_rank d (rank_or_zero o))) ec in
    (d, c, effective_rank d c, ed, ec, rank ∙ lower, effective_rank-IsLower d c)
