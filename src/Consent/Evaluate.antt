-- ===== src/Consent/Evaluate.antt =====
-- EvaluateEvent: when it accepts, what it keeps, and how the tenant's ceiling bounds it.
use argvio.Prelude.{
  some-eq-some, Str, ◌≡◌, ◌≢◌, refl, sym, subst, ◌∙◌, ◌⊎◌, ◌↔◌, inl, inr, Bool, true, false, ◌&&◌,
  none, some, List, [], ◌∷◌, is_some, arith, All,
}
use argvio.Prelude.Int.{ℤ, ltb_ℤ, ◌≤ℤ◌}
use argvio.Prelude.Maps.{Map, lookup, has, HasUniqueKeys}
use argvio.Allowlist.{
  Value, Schema, AttrDef, Set, tier_rank, is_standard_resource_attribute, attr_def_for,
}
use argvio.Allowlist.Check.{allowed_set}
use argvio.Allowlist.Finalize.Events.{RefsDefined}
use argvio.Allowlist.Finalize.Sound.{IsFinal}
use argvio.Allowlist.Lookups.{is_allowed-HasDef}
use argvio.Consent.{
  EventDef, EnforcementMode, reject, Decision, accepted, rejected, Filtered, rank_or_zero,
  effective_rank, is_reject, tier_name_for_rank, exceeds_ceiling, filter_attributes,
  missing_required, evaluate_ranked, evaluate_event, tier_attr_key,
}
use argvio.Consent.Filter.{
  Keeps, within_tier, standard, start, dropped_keys, lookup-kept_iff, dropped-filter_attributes,
}

-- The tier at which an event is evaluated: the declared one, or the ceiling if that is lower.
abbrev pub applied_rank : Schema → Str → Str → ℤ
applied_rank schema declared ceiling =
    effective_rank (rank_or_zero (tier_rank schema declared))
      (rank_or_zero (tier_rank schema ceiling))

abbrev pub filtered : Schema → EventDef → Str → Str → Map Value → Filtered
filtered schema def declared ceiling attrs =
    filter_attributes schema (allowed_set def.allowed_attributes)
      (applied_rank schema declared ceiling) attrs start

-- The declared tier is above the ceiling.
abbrev pub exceeds : Schema → Str → Str → Bool
exceeds schema declared ceiling =
    ltb_ℤ (rank_or_zero (tier_rank schema ceiling)) (rank_or_zero (tier_rank schema declared))

-- The tier that the attribute's definition asks for is known and within the declared tier and the ceiling.
abbrev pub WithinTiers : Schema → Str → Str → Str → Type 0
WithinTiers schema declared ceiling k =
    (d : AttrDef) × (attr_def_for schema k ≡ some d)
    × (has d.min_tier schema.tier_ranks ≡ true)
    × (rank_or_zero (tier_rank schema d.min_tier) ≤ℤ rank_or_zero (tier_rank schema declared))
    × (rank_or_zero (tier_rank schema d.min_tier) ≤ℤ rank_or_zero (tier_rank schema ceiling))

module _ (schema : Schema) (def : EventDef) (declared ceiling : Str) (mode : EnforcementMode)
    (attrs : Map Value) where
  abbrev run : Decision
  run = evaluate_event schema def declared ceiling mode attrs

  -- What an accepted event went through.
  pub record Passed (tier : Str) (kept : Map Value) (dropped : List Str) : Type 0 where
    pub found : def.found ≡ true
    pub known : is_some (tier_rank schema ceiling) ≡ true
    pub below : (exceeds schema declared ceiling && is_reject mode) ≡ false
    pub named :
        tier ≡ tier_name_for_rank schema.consent_tiers (applied_rank schema declared ceiling)
    pub kept_eq : kept ≡ (filtered schema def declared ceiling attrs).kept
    pub dropped_eq : dropped ≡ (filtered schema def declared ceiling attrs).dropped
    pub complete : missing_required def.required_attributes kept ≡ none

  accepted-Passed :
      (tier : Str) (kept : Map Value) (dropped : List Str)
      → run ≡ accepted tier kept dropped
      → Passed tier kept dropped
  unfolding evaluate_event evaluate_ranked
  accepted-Passed tier kept dropped h = ground arith

  -- An accepted event keeps exactly the attributes that it came with and that pass: those other than
  -- the tier declaration that are allowed, conform to their definition and need no tier above the
  -- lower of the declared tier and the ceiling, and the standard resource attributes that the event
  -- does not list. The dropped keys are all the others but the tier's own. (A Go map has each key once.)
  pub evaluate_event-kept :
      (tier : Str) (kept : Map Value) (dropped : List Str)
      → HasUniqueKeys attrs
      → run ≡ accepted tier kept dropped
      → ((k : Str) (v : Value)
          → (lookup k kept ≡ some v) ↔ (
              (lookup k attrs ≡ some v)
              × Keeps schema
                  (allowed_set def.allowed_attributes)
                  (applied_rank schema declared ceiling)
                  k
                  v))
        × (dropped
            ≡ dropped_keys schema
                (allowed_set def.allowed_attributes)
                (applied_rank schema declared ceiling)
                attrs)
  evaluate_event-kept tier kept dropped u h =
      let p = accepted-Passed tier kept dropped h in
      let set = allowed_set def.allowed_attributes in
      let rank = applied_rank schema declared ceiling in
      (
        (λ k v. rw p.kept_eq (lookup-kept_iff schema set rank attrs k v u)),
        p.dropped_eq ∙ dropped-filter_attributes schema set rank attrs start,
      )

  -- Under a finalized schema and an event of it, every attribute that an accepted event keeps is either
  -- a standard resource attribute or defined with a known tier that neither the declared tier nor the
  -- tenant's ceiling lies below, whatever the enforcement mode. The tier declaration is never kept.
  pub evaluate_event-WithinTiers :
      (tier : Str) (kept : Map Value) (dropped : List Str) (k : Str) (v : Value)
      → IsFinal schema
      → RefsDefined schema.attributes def.allowed_attributes
      → HasUniqueKeys attrs
      → run ≡ accepted tier kept dropped
      → lookup k kept ≡ some v
      → (k ≢ tier_attr_key)
        × ((is_standard_resource_attribute schema k ≡ true) ⊎ WithinTiers schema declared ceiling k)
  evaluate_event-WithinTiers tier kept dropped k v fin refs u h e =
      within (((evaluate_event-kept tier kept dropped u h).0 k v).0 e).1
    where
      within :
          Keeps schema
            (allowed_set def.allowed_attributes)
            (applied_rank schema declared ceiling)
            k
            v
          → (k ≢ tier_attr_key)
            × ((is_standard_resource_attribute schema k ≡ true)
                ⊎ WithinTiers schema declared ceiling k)
      within (standard ne _ st) = (ne, inl st)
      within (within_tier d ne al q c r) =
          let (d', q', _, known) = is_allowed-HasDef schema def.allowed_attributes k fin refs al in
          let same : d' ≡ d = some-eq-some (sym q' ∙ q) in
          (
            ne,
            inr (
              d,
              q,
              subst (λ a. has a.min_tier schema.tier_ranks ≡ true) same known,
              ground (arith, r),
              ground (arith, r),
            ),
          )

  missing_required_iff :
      (required : List Str) (kept : Map Value)
      → (missing_required required kept ≡ none) ↔ All (λ k. has k kept ≡ true) required
  unfolding missing_required
  missing_required_iff [] kept = ((λ h. tt), λ h. refl)
  missing_required_iff (k ∷ rest) kept =
      let ih = missing_required_iff rest kept in
      ((λ h. (ground arith, ih.0 (ground arith))), λ h. rw h.0 (ih.1 h.1))

  -- The conditions of acceptance.
  pub record Admissible : Type 0 where
    pub listed : def.found ≡ true
    pub ceiling_known : is_some (tier_rank schema ceiling) ≡ true
    pub within_ceiling : (exceeds schema declared ceiling && is_reject mode) ≡ false
    pub all_required :
        All
          (λ k. has k (filtered schema def declared ceiling attrs).kept ≡ true)
          def.required_attributes

  Admissible-accepts :
      Admissible
      → run
        ≡ accepted
            (tier_name_for_rank schema.consent_tiers (applied_rank schema declared ceiling))
            (filtered schema def declared ceiling attrs).kept
            (filtered schema def declared ceiling attrs).dropped
  unfolding evaluate_event evaluate_ranked
  Admissible-accepts a = ground (
    arith,
    (missing_required_iff def.required_attributes
          (filtered schema def declared ceiling attrs).kept).1
        a.all_required,
    a,
  )

  -- An event is accepted exactly when its name is on the allowlist, the tenant's ceiling is a tier of
  -- the schema, the declared tier is not above the ceiling or the mode is not reject, and every required
  -- attribute is kept; the decision then names the tier of the applied rank and what the loop kept and
  -- dropped.
  pub evaluate_event_accepts_iff :
      (tier : Str) (kept : Map Value) (dropped : List Str)
      → (run ≡ accepted tier kept dropped) ↔ (
          Admissible
          × (tier ≡ tier_name_for_rank schema.consent_tiers (applied_rank schema declared ceiling))
          × (kept ≡ (filtered schema def declared ceiling attrs).kept)
          × (dropped ≡ (filtered schema def declared ceiling attrs).dropped))
  evaluate_event_accepts_iff tier kept dropped = (
    (λ h.
        let p = accepted-Passed tier kept dropped h in
        (
          record {
            listed = p.found;
            ceiling_known = p.known;
            within_ceiling = p.below;
            all_required = (missing_required_iff def.required_attributes _).0 (
                subst (λ m. missing_required def.required_attributes m ≡ none) p.kept_eq
                  p.complete);
          },
          p.named,
          p.kept_eq,
          p.dropped_eq,
        )),
    λ h. rw (h.1, h.2, h.3) (Admissible-accepts h.0),
  )

-- Outside reject mode a declaration above the ceiling is capped: the event is judged as if it had
-- declared the ceiling itself.
pub evaluate_event_capped :
    (schema : Schema) (def : EventDef) (declared ceiling : Str) (mode : EnforcementMode)
    (attrs : Map Value)
    → is_reject mode ≡ false
    → exceeds schema declared ceiling ≡ true
    → evaluate_event schema def declared ceiling mode attrs
      ≡ evaluate_event schema def ceiling ceiling mode attrs
unfolding evaluate_event
evaluate_event_capped schema def declared ceiling mode attrs m h = ground arith

-- In reject mode such an event is refused, with both tiers as the reason, whatever it carries.
pub evaluate_event_refused :
    (schema : Schema) (def : EventDef) (declared ceiling : Str) (attrs : Map Value)
    → def.found ≡ true
    → is_some (tier_rank schema ceiling) ≡ true
    → exceeds schema declared ceiling ≡ true
    → evaluate_event schema def declared ceiling reject attrs
      ≡ rejected (exceeds_ceiling declared ceiling)
unfolding evaluate_event
evaluate_event_refused schema def declared ceiling attrs f k h = ground arith

Keeps-mono :
    (schema : Schema) (allowed : Set) (low high : ℤ) (k : Str) (v : Value)
    → low ≤ℤ high
    → Keeps schema allowed low k v
    → Keeps schema allowed high k v
Keeps-mono schema allowed low high k v le (within_tier d ne al e c r) =
    within_tier d ne al e c (omega arith)
Keeps-mono schema allowed low high k v le (standard ne no_al st) = standard ne no_al st

-- Raising the ceiling never takes an attribute away: what an event keeps under one ceiling it keeps,
-- with the same value, under any ceiling that is not lower and under which it is accepted.
pub evaluate_event_mono :
    (schema : Schema) (def : EventDef) (declared low high : Str) (mode : EnforcementMode)
    (attrs : Map Value) (t1 t2 : Str) (kept1 kept2 : Map Value) (dropped1 dropped2 : List Str)
    → HasUniqueKeys attrs
    → rank_or_zero (tier_rank schema low) ≤ℤ rank_or_zero (tier_rank schema high)
    → evaluate_event schema def declared low mode attrs ≡ accepted t1 kept1 dropped1
    → evaluate_event schema def declared high mode attrs ≡ accepted t2 kept2 dropped2
    → (k : Str) (v : Value) → lookup k kept1 ≡ some v
    → lookup k kept2 ≡ some v
evaluate_event_mono schema def declared low high mode attrs t1 t2 kept1 kept2 d1 d2 u le h1 h2 k v
      e =
    let (at, ks) =
      ((evaluate_event-kept schema def declared low mode attrs t1 kept1 d1 u h1).0 k v).0 e in
    ((evaluate_event-kept schema def declared high mode attrs t2 kept2 d2 u h2).0 k v).1
      (at, Keeps-mono schema _ _ _ k v (ground arith) ks)
