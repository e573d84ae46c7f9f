-- ===== src/Examples/ConsentCases.antt =====
-- internal/consent at concrete inputs: a record declared anonymous, and one declared full under a
-- ceiling of anonymous.
use argvio.Prelude.{
  arith, Str, bytes, str_eq, cut_prefix, trim_suffix, member, ◌≡◌, ◌≢◌, refl, ◌↔◌, ◌⊎◌, true, some,
  List, [], ◌∷◌,
}
use argvio.Prelude.Int.{ℤ}
use argvio.Prelude.Maps.{Map, lookup, insert}
use argvio.Allowlist.{
  Value, str, tier_rank, is_allowed, is_standard_resource_attribute, attr_def_for, family_of,
  first_family, family_matches,
}
use argvio.Allowlist.Check.{check_attribute, allowed_set, too_long}
use argvio.Consent.{
  tier_attr_key, strip, accepted, evaluate_event, evaluate_ranked, filter_attributes,
  filter_attribute, missing_required, tier_name_for_rank,
}
use argvio.Consent.Filter.{Keeps, dropped_keys}
use argvio.Consent.Evaluate.{
  applied_rank, filtered, Admissible, WithinTiers, evaluate_event-kept, evaluate_event-WithinTiers,
  evaluate_event_accepts_iff, evaluate_event_mono,
}
use argvio.Consent.Tiers.{IsLower, effective_tier_rank}
use argvio.Examples.Sample.{
  schema, schema-IsFinal, counter_event, counter_def, counter-RefsDefined, attrs-HasUniqueKeys,
  schema-HasDistinctNames, attrs, anonymous, full,
}

abbrev kept_low : Map Value
kept_low =
    (bytes "os", str (bytes "linux"))
    ∷ (bytes "dim.kind", str (bytes "new"))
    ∷ (bytes "service.name", str (bytes "tool"))
    ∷ []

abbrev kept_high : Map Value
kept_high =
    (bytes "os", str (bytes "linux"))
    ∷ (bytes "note", str (bytes "x"))
    ∷ (bytes "dim.kind", str (bytes "new"))
    ∷ (bytes "service.name", str (bytes "tool"))
    ∷ []

abbrev dropped_low : List Str
dropped_low = bytes "note" ∷ bytes "junk" ∷ []

abbrev dropped_high : List Str
dropped_high = bytes "junk" ∷ []

-- Under a ceiling of anonymous the note, which asks for full, is stripped; under full it is kept.
run_low :
    evaluate_event schema counter_event full anonymous strip attrs
    ≡ accepted anonymous kept_low dropped_low
unfolding evaluate_event evaluate_ranked filter_attributes filter_attribute missing_required
    tier_name_for_rank tier_rank lookup insert str_eq is_allowed allowed_set family_of first_family
    family_matches cut_prefix trim_suffix is_standard_resource_attribute attr_def_for
    check_attribute too_long member tier_attr_key
run_low = refl

run_high :
    evaluate_event schema counter_event full full strip attrs ≡ accepted full kept_high dropped_high
unfolding evaluate_event evaluate_ranked filter_attributes filter_attribute missing_required
    tier_name_for_rank tier_rank lookup insert str_eq is_allowed allowed_set family_of first_family
    family_matches cut_prefix trim_suffix is_standard_resource_attribute attr_def_for
    check_attribute too_long member tier_attr_key
run_high = refl

evaluate_event-kept_example :
    ((k : Str) (v : Value)
      → (lookup k kept_low ≡ some v) ↔ (
          (lookup k attrs ≡ some v)
          × Keeps schema
              (allowed_set counter_def.allowed_attributes)
              (applied_rank schema full anonymous)
              k
              v))
    × (dropped_low
        ≡ dropped_keys schema
            (allowed_set counter_def.allowed_attributes)
            (applied_rank schema full anonymous)
            attrs)
unfolding lookup str_eq
evaluate_event-kept_example =
    evaluate_event-kept schema counter_event full anonymous strip attrs anonymous kept_low
      dropped_low attrs-HasUniqueKeys run_low

evaluate_event-WithinTiers_example :
    (bytes "dim.kind" ≢ tier_attr_key)
    × ((is_standard_resource_attribute schema (bytes "dim.kind") ≡ true)
        ⊎ WithinTiers schema full anonymous (bytes "dim.kind"))
unfolding lookup str_eq
evaluate_event-WithinTiers_example =
    evaluate_event-WithinTiers schema counter_event full anonymous strip attrs anonymous kept_low
      dropped_low (bytes "dim.kind") (str (bytes "new")) schema-IsFinal counter-RefsDefined
      attrs-HasUniqueKeys run_low refl

evaluate_event_accepts_iff_example :
    (evaluate_event schema counter_event full anonymous strip attrs
      ≡ accepted anonymous kept_low dropped_low)
    ↔ (Admissible schema counter_event full anonymous strip attrs
        × (anonymous ≡ tier_name_for_rank schema.consent_tiers (applied_rank schema full anonymous))
        × (kept_low ≡ (filtered schema counter_event full anonymous attrs).kept)
        × (dropped_low ≡ (filtered schema counter_event full anonymous attrs).dropped))
evaluate_event_accepts_iff_example =
    evaluate_event_accepts_iff schema counter_event full anonymous strip attrs anonymous kept_low
      dropped_low

evaluate_event_mono_example : lookup (bytes "os") kept_high ≡ some (str (bytes "linux"))
unfolding tier_rank lookup str_eq
evaluate_event_mono_example =
    evaluate_event_mono schema counter_event full anonymous full strip attrs anonymous full kept_low
      kept_high dropped_low dropped_high attrs-HasUniqueKeys (omega arith) run_low run_high
      (bytes "os") (str (bytes "linux")) refl

effective_tier_rank_example :
    (d : ℤ) × (c : ℤ) × (r : ℤ) × (tier_rank schema full ≡ some d)
    × (tier_rank schema anonymous ≡ some c)
    × (tier_rank schema anonymous ≡ some r)
    × IsLower d c r
unfolding tier_rank lookup str_eq
effective_tier_rank_example =
    effective_tier_rank schema counter_event full anonymous strip attrs anonymous kept_low
      dropped_low schema-IsFinal schema-HasDistinctNames refl run_low
