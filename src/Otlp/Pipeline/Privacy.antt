-- ===== src/Otlp/Pipeline/Privacy.antt =====
-- From the request to what is stored: nothing passes but what the bounds, the allowlist and the
-- tenant's ceiling let through.
use argvio.Prelude.{
  Str, ◌≡◌, ◌≢◌, sym, ◌∙◌, ◌⊎◌, inl, inr, true, Option, none, some, List, ok, ok_of_bind, or_fail,
  arith, is_some, Option-cases,
}
use argvio.Prelude.Maps.{Map, lookup, HasUniqueKeys, IndexGood}
use argvio.Allowlist.{Value, str, is_standard_resource_attribute, tier_rank}
use argvio.Allowlist.Finalize.Events.{RefsDefined}
use argvio.Allowlist.Finalize.Sound.{IsFinal}
use argvio.Consent.{EventDef, accepted, tier_attr_key, evaluate_event, resolve_tier, or_else}
use argvio.Consent.Evaluate.{WithinTiers, evaluate_event-WithinTiers, evaluate_event-kept}
use argvio.Consent.Tiers.{Declares, resolve_tier_iff}
use argvio.Otlp.Attrs.{RawValue, Extracted, merge_attrs}
use argvio.Otlp.Attrs.Bounded.{
  FromEntry, extract_attrs-FromEntry, lookup-merge_attrs, merge_attrs-HasUniqueKeys,
}
use argvio.Otlp.Pipeline.{
  Pipeline, RecordOutcome, OutcomeReason, resource_too_many, record_too_many, extract,
  resolve_and_evaluate, checked_tier,
}

module _ (p : Pipeline) (resource_raw record_raw : List (Str × RawValue)) (def : EventDef)
    (o : RecordOutcome) where
  -- The steps behind an outcome.
  pub record Trace : Type 0 where
    pub resource : Extracted
    pub rec : Extracted
    pub declared : Str
    pub resource_eq : extract p.bounds resource_raw ≡ some resource
    pub rec_eq : extract p.bounds record_raw ≡ some rec
    pub tier_eq : resolve_tier p.schema resource.kept rec.kept ≡ ok declared
    pub decision_eq :
        evaluate_event p.schema def declared p.tier_ceiling p.tier_enforcement_mode
          (merge_attrs resource.kept rec.kept)
        ≡ accepted o.effective_tier o.kept_attributes o.dropped_keys

  or_fail-eq-ok {ℓ} :
      {A : Type ℓ} (x : Option A) (e : OutcomeReason) (a : A) → or_fail x e ≡ ok a → x ≡ some a
  or_fail-eq-ok none e a h = cc
  or_fail-eq-ok (some b) e a h = ground arith

  outcome-Trace : resolve_and_evaluate p resource_raw record_raw def ≡ ok o → Trace
  unfolding resolve_and_evaluate
  outcome-Trace h =
      let (res, e1, h1) =
        ok_of_bind (or_fail (extract p.bounds resource_raw) resource_too_many) _ h in
      let (rec, e2, h2) = ok_of_bind (or_fail (extract p.bounds record_raw) record_too_many) _ h1 in
      let (tier, e3, h3) =
        ok_of_bind (checked_tier (resolve_tier p.schema res.kept rec.kept)) _ h2 in
      record {
        resource = res;
        rec = rec;
        declared = tier;
        resource_eq = or_fail-eq-ok _ _ _ e1;
        rec_eq = or_fail-eq-ok _ _ _ e2;
        tier_eq = ground (arith, e3);
        decision_eq = ground (arith, h3);
      }

  -- The attribute comes from the record, or from the resource, within the structural bounds.
  abbrev pub FromRequest : Str → Value → Type 0
  FromRequest k v =
      let b = p.bounds in
      FromEntry b.max_attribute_key_length b.max_attribute_string_value_length record_raw k v
      ⊎ FromEntry b.max_attribute_key_length b.max_attribute_string_value_length resource_raw k v

  resource-FromEntry :
      (raw : List (Str × RawValue)) (e : Extracted)
      → extract p.bounds raw ≡ some e
      → HasUniqueKeys e.kept
        × IndexGood
            (FromEntry p.bounds.max_attribute_key_length p.bounds.max_attribute_string_value_length
              raw)
            e.kept
  unfolding extract
  resource-FromEntry raw e =
      (extract_attrs-FromEntry raw p.bounds.max_attribute_count p.bounds.max_attribute_key_length
          p.bounds.max_attribute_string_value_length).1
        e

  or_else-FromRequest :
      (res rec : Extracted) (k : Str) (v : Value)
      → extract p.bounds resource_raw ≡ some res
      → extract p.bounds record_raw ≡ some rec
      → or_else (lookup k rec.kept) (lookup k res.kept) ≡ some v
      → FromRequest k v
  or_else-FromRequest res rec k v er ec h = elim (Option-cases (lookup k rec.kept)) [
    | inl e ↦ inr ((resource-FromEntry resource_raw res er).1 k v (rw e at h))
    | inr (w, e) ↦ inl ((resource-FromEntry record_raw rec ec).1 k v (e ∙ (rw e at h)))
  ]

  Declares-or_else :
      (res rec : Map Value) (tier : Str)
      → Declares res rec tier
      → or_else (lookup tier_attr_key rec) (lookup tier_attr_key res) ≡ some (str tier)
  Declares-or_else res rec tier (inl e) = rw e
  Declares-or_else res rec tier (inr (e, q)) = rw (e, q)

  merged-FromRequest :
      (res rec : Extracted) (k : Str) (v : Value)
      → extract p.bounds resource_raw ≡ some res
      → extract p.bounds record_raw ≡ some rec
      → lookup k (merge_attrs res.kept rec.kept) ≡ some v
      → FromRequest k v
  merged-FromRequest res rec k v er ec h = or_else-FromRequest res rec k v er ec (
      sym (
        lookup-merge_attrs res.kept rec.kept k (resource-FromEntry resource_raw res er).0
          (resource-FromEntry record_raw rec ec).0)
      ∙ h)

  -- Every attribute of an outcome comes from the record or the resource of the request, with a key and
  -- strings within the server's bounds; it is not the tier declaration; and it is a standard resource
  -- attribute, or its definition's tier is within the tier that the request declared, a known one, and
  -- within the tenant's ceiling. The schema is finalized and the event one of it.
  pub resolve_and_evaluate-private :
      IsFinal p.schema
      → RefsDefined p.schema.attributes def.allowed_attributes
      → resolve_and_evaluate p resource_raw record_raw def ≡ ok o
      → (declared : Str) × (is_some (tier_rank p.schema declared) ≡ true)
        × FromRequest tier_attr_key (str declared)
        × ((k : Str) (v : Value)
            → lookup k o.kept_attributes ≡ some v
            → FromRequest k v
              × (k ≢ tier_attr_key)
              × ((is_standard_resource_attribute p.schema k ≡ true)
                  ⊎ WithinTiers p.schema declared p.tier_ceiling k))
  resolve_and_evaluate-private fin refs h =
      let t = outcome-Trace h in
      let merged = merge_attrs t.resource.kept t.rec.kept in
      let u = merge_attrs-HasUniqueKeys t.resource.kept t.rec.kept in
      let (says, known) =
        (resolve_tier_iff p.schema t.resource.kept t.rec.kept t.declared).0 t.tier_eq in
      (
        t.declared,
        known,
        or_else-FromRequest t.resource t.rec tier_attr_key (str t.declared) t.resource_eq t.rec_eq
            (Declares-or_else t.resource.kept t.rec.kept t.declared says),
        λ k v e.
            let had =
              ((evaluate_event-kept p.schema def t.declared p.tier_ceiling p.tier_enforcement_mode
                    merged o.effective_tier o.kept_attributes o.dropped_keys u t.decision_eq).0
                  k v).0
                e in
            let (ne, within) =
              evaluate_event-WithinTiers p.schema def t.declared p.tier_ceiling
                p.tier_enforcement_mode merged o.effective_tier o.kept_attributes o.dropped_keys k v
                fin refs u t.decision_eq e in
            (merged-FromRequest t.resource t.rec k v t.resource_eq t.rec_eq had.0, ne, within),
      )
