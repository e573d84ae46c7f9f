-- ===== src/Examples/OtlpCases.antt =====
-- internal/otlp at concrete inputs.
use argvio.Prelude.{
  ◌^◌, ◌-◌, is_some, Str, bytes, str_eq, cut_prefix, trim_suffix, member, ◌≡◌, ◌≢◌, refl, ◌↔◌, ◌⊎◌,
  true, none, some, [], ◌∷◌, ok, if◌then◌else◌, length,
}
use argvio.Prelude.Int.{pos, negsuc, ◌≤ℤ◌, ◌+ℤ◌}
use argvio.Prelude.Maps.{Map, lookup, insert, HasUniqueKeys, IndexGood}
use argvio.Allowlist.{
  Value, str, int64, tier_rank, is_allowed, is_standard_resource_attribute, attr_def_for, family_of,
  first_family, family_matches,
}
use argvio.Allowlist.Check.{check_attribute, allowed_set, too_long}
use argvio.Consent.{
  tier_attr_key, evaluate_event, evaluate_ranked, filter_attributes, filter_attribute,
  missing_required, tier_name_for_rank, resolve_tier,
}
use argvio.Consent.Evaluate.{WithinTiers}
use argvio.Otlp.Clamp.{clamp_int16, clamp_int32}
use argvio.Otlp.Attrs.{
  Extracted, extract_attrs, extract_loop, extract_attr, native_value, merge_attrs, insert_all,
}
use argvio.Otlp.Attrs.Bounded.{FromEntry, extract_attrs-FromEntry}
use argvio.Otlp.Promote.{split_remaining_attrs}
use argvio.Otlp.Promote.Footprint.{split_remaining_attrs_partition}
use argvio.Otlp.Pipeline.{RecordOutcome, extract, resolve_and_evaluate}
use argvio.Otlp.Pipeline.Privacy.{FromRequest, resolve_and_evaluate-private}
use argvio.Examples.Sample.{
  schema, schema-IsFinal, counter_event, counter-RefsDefined, attrs, attrs-HasUniqueKeys, anonymous,
  resource_raw, record_raw, pipeline,
}

abbrev stored : RecordOutcome
stored = record {
  effective_tier = anonymous;
  kept_attributes =
      (bytes "service.name", str (bytes "tool"))
      ∷ (bytes "os", str (bytes "linux"))
      ∷ (bytes "dim.kind", str (bytes "new"))
      ∷ [];
  dropped_keys = bytes "note" ∷ [];
  struct_dropped = bytes "stray" ∷ [];
}

-- Declared full under a ceiling of anonymous: the note is stripped and the map dropped.
outcome : resolve_and_evaluate pipeline resource_raw record_raw counter_event ≡ ok stored
unfolding resolve_and_evaluate extract extract_attrs extract_loop extract_attr native_value
    merge_attrs insert_all resolve_tier evaluate_event evaluate_ranked filter_attributes
    filter_attribute missing_required tier_name_for_rank tier_rank lookup insert str_eq is_allowed
    allowed_set family_of first_family family_matches cut_prefix trim_suffix
    is_standard_resource_attribute attr_def_for check_attribute too_long member tier_attr_key
outcome = refl

resolve_and_evaluate-private_example :
    (declared : Str) × (is_some (tier_rank schema declared) ≡ true)
    × FromRequest pipeline resource_raw record_raw counter_event stored tier_attr_key (str declared)
    × ((k : Str) (v : Value)
        → lookup k stored.kept_attributes ≡ some v
        → FromRequest pipeline resource_raw record_raw counter_event stored k v
          × (k ≢ tier_attr_key)
          × ((is_standard_resource_attribute schema k ≡ true)
              ⊎ WithinTiers schema declared anonymous k))
resolve_and_evaluate-private_example =
    resolve_and_evaluate-private pipeline resource_raw record_raw counter_event stored
      schema-IsFinal counter-RefsDefined outcome

extract_attrs-FromEntry_example :
    ((extract_attrs record_raw (pos 2) (pos 32) (pos 64) ≡ none)
      ↔ (pos 2 +ℤ pos 1 ≤ℤ pos (length record_raw)))
    × ((e : Extracted)
        → extract_attrs record_raw (pos 2) (pos 32) (pos 64) ≡ some e
        → HasUniqueKeys e.kept × IndexGood (FromEntry (pos 32) (pos 64) record_raw) e.kept)
extract_attrs-FromEntry_example = extract_attrs-FromEntry record_raw (pos 2) (pos 32) (pos 64)

abbrev reported : Map Value
reported =
    (bytes "cli.os", str (bytes "linux"))
    ∷ (bytes "cli.command.exit_code", int64 (pos (2 ^ 40)))
    ∷ (bytes "cli.is_ci", str (bytes "yes"))
    ∷ (bytes "cli.process.peak_rss_bytes", int64 (pos (2 ^ 50)))
    ∷ (bytes "cli.startup.duration_ms", int64 (pos 0))
    ∷ []

split_remaining_attrs_partition_example :
    (lookup (bytes "os") (split_remaining_attrs schema attrs).0 ≡ (
      if is_standard_resource_attribute schema (bytes "os")
      then lookup (bytes "os") attrs
      else none))
    × (lookup (bytes "os") (split_remaining_attrs schema attrs).1 ≡ (
        if is_standard_resource_attribute schema (bytes "os")
        then none
        else lookup (bytes "os") attrs))
split_remaining_attrs_partition_example =
    split_remaining_attrs_partition schema attrs (bytes "os") attrs-HasUniqueKeys

clamp_tests :
    (clamp_int32 (pos (2 ^ 31)) ≡ pos (2 ^ 31 - 1))
    × (clamp_int16 (negsuc (2 ^ 20)) ≡ negsuc (2 ^ 15 - 1))
unfolding clamp_int32 clamp_int16
clamp_tests = (refl, refl)
