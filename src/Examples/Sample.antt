-- ===== src/Examples/Sample.antt =====
-- A small schema, as parsed and as finalized, and a record that is sent under it. The regular
-- expressions of the schema are stood for by a compiler that accepts every pattern and string.
use argvio.Prelude.{
  Str, bytes, str_eq, has_suffix, ◌≡◌, refl, Bool, true, false, Option, none, some, List, [], ◌∷◌,
  ok,
}
use argvio.Prelude.Int.{pos, negsuc}
use argvio.Prelude.Maps.{Map, HasUniqueKeys, insert, lookup}
use argvio.Allowlist.{Schema, AttrDef, string, MetricDef, Value, str, int64, zero_attr_def}
use argvio.Allowlist.Check.{allowed_set}
use argvio.Allowlist.Finalize.{
  finalize, rank_index, finalize_attrs, finalize_attr, metric_index, check_metric, check_attr_refs,
  check_temporality, check_explicit_bounds, check_required, check_spans, log_index, sort_families,
  check_bounds, compile_family, compile_pattern, family_before, insert_family,
}
use argvio.Allowlist.Finalize.Sound.{IsFinal, finalize-IsFinal}
use argvio.Allowlist.Finalize.Events.{RefsDefined}
use argvio.Consent.{EventDef, strip}
use argvio.Consent.Tiers.{HasDistinctNames}
use argvio.Otlp.Attrs.{RawValue, raw_str, raw_map}
use argvio.Otlp.Limits.{Bounds, MetricCaps}
use argvio.Otlp.Pipeline.{Pipeline}

abbrev pub accept_all : Str → Option (Str → Bool)
accept_all pattern = some (λ s. true)

abbrev pub anonymous : Str
anonymous = bytes "anonymous"

abbrev pub full : Str
full = bytes "full"

abbrev pub os_def : AttrDef
os_def = record zero_attr_def { attr_type = string; min_tier = anonymous; max_length = pos 8 }

abbrev pub note_def : AttrDef
note_def = record zero_attr_def { attr_type = string; min_tier = full }

abbrev pub dim_def : AttrDef
dim_def = record zero_attr_def { attr_type = string; min_tier = anonymous; key_pattern = bytes "k" }

abbrev pub counter_def : MetricDef
counter_def = record {
  name = bytes "cli.counter";
  metric_type = bytes "sum";
  unit = bytes "1";
  monotonic = true;
  temporality = bytes "delta";
  explicit_bounds = [];
  required_attributes = bytes "os" ∷ [];
  allowed_attributes = bytes "os" ∷ bytes "note" ∷ bytes "dim.*" ∷ [];
}

abbrev pub parsed : Schema
parsed = record {
  supported_signal_types = bytes "metrics" ∷ [];
  standard_resource_attributes = bytes "service.name" ∷ [];
  consent_tiers =
      record { name = anonymous; rank = pos 0 } ∷ record { name = full; rank = pos 2 } ∷ [];
  attributes = (bytes "os", os_def) ∷ (bytes "note", note_def) ∷ (bytes "dim.*", dim_def) ∷ [];
  metrics = counter_def ∷ [];
  spans = record { name_pattern = bytes "cli.*"; allowed_attributes = bytes "os" ∷ [] } ∷ [];
  logs = [];
  tier_ranks = [];
  standard_res_set = [];
  signal_type_set = [];
  metrics_by_name = [];
  logs_by_name = [];
  families = [];
}

abbrev pub dim_family : AttrDef
dim_family = record dim_def { key = bytes "dim.*"; key_pattern_re = some (λ s. true) }

abbrev pub schema : Schema
schema = record parsed {
  attributes =
      (bytes "os", record os_def { key = bytes "os" })
      ∷ (bytes "note", record note_def { key = bytes "note" })
      ∷ (bytes "dim.*", dim_family)
      ∷ [];
  tier_ranks = (anonymous, pos 0) ∷ (full, pos 2) ∷ [];
  standard_res_set = (bytes "service.name", tt) ∷ [];
  signal_type_set = (bytes "metrics", tt) ∷ [];
  metrics_by_name = (bytes "cli.counter", counter_def) ∷ [];
  families = dim_family ∷ [];
}

pub finalize-parsed : finalize accept_all parsed ≡ ok schema
unfolding finalize rank_index insert str_eq finalize_attrs finalize_attr lookup has_suffix
    metric_index check_metric check_attr_refs check_temporality check_explicit_bounds check_required
    allowed_set check_spans log_index sort_families check_bounds compile_family compile_pattern
    family_before insert_family
finalize-parsed = refl

pub schema-IsFinal : IsFinal schema
schema-IsFinal = finalize-IsFinal accept_all parsed schema refl finalize-parsed

abbrev pub counter_event : EventDef
counter_event = record {
  found = true;
  allowed_attributes = counter_def.allowed_attributes;
  required_attributes = counter_def.required_attributes;
}

abbrev pub attrs : Map Value
attrs =
    (bytes "cli.analytics.tier", str anonymous)
    ∷ (bytes "os", str (bytes "linux"))
    ∷ (bytes "note", str (bytes "x"))
    ∷ (bytes "dim.kind", str (bytes "new"))
    ∷ (bytes "service.name", str (bytes "tool"))
    ∷ (bytes "junk", int64 (pos 1))
    ∷ []

pub attrs-HasUniqueKeys : HasUniqueKeys attrs
unfolding lookup str_eq
attrs-HasUniqueKeys = (refl, (refl, (refl, (refl, (refl, (refl, tt))))))

pub counter-RefsDefined : RefsDefined schema.attributes counter_def.allowed_attributes
unfolding lookup str_eq
counter-RefsDefined = (refl, (refl, (refl, tt)))

pub schema-HasDistinctNames : HasDistinctNames schema.consent_tiers
unfolding str_eq
schema-HasDistinctNames = ((refl, tt), (tt, tt))

-- The same record as it arrives: the tier, a standard attribute and a stray map in the resource, and
-- the rest in the record.
abbrev pub resource_raw : List (Str × RawValue)
resource_raw =
    (bytes "cli.analytics.tier", raw_str full)
    ∷ (bytes "service.name", raw_str (bytes "tool"))
    ∷ (bytes "stray", raw_map)
    ∷ []

abbrev pub record_raw : List (Str × RawValue)
record_raw =
    (bytes "os", raw_str (bytes "linux"))
    ∷ (bytes "note", raw_str (bytes "x"))
    ∷ (bytes "dim.kind", raw_str (bytes "new"))
    ∷ []

abbrev pub bounds : Bounds
bounds = record {
  max_batch_size = pos 10;
  max_attribute_count = pos 8;
  max_attribute_key_length = pos 32;
  max_attribute_string_value_length = pos 64;
  max_timestamp_skew_past = pos 3600;
  max_timestamp_skew_future = pos 60;
  max_error_reasons_per_tenant = pos 0;
  max_counter_names_per_tenant = pos 0;
  max_counter_labels_per_name = pos 0;
  max_measure_names_per_tenant = pos 0;
  max_measure_labels_per_name = pos 0;
  max_metric_dims = pos 0;
  max_value_names_per_tenant = pos 0;
  max_value_labels_per_name = pos 0;
  max_dim_values_per_key = pos 0;
}

abbrev pub caps : MetricCaps
caps = record {
  max_counter_names = some (pos 7);
  max_counter_labels_per_name = none;
  max_measure_names = some (negsuc 0);
  max_measure_labels_per_name = none;
  max_metric_dims = none;
  max_dim_values_per_key = none;
  max_value_names = none;
  max_value_labels_per_name = none;
}

abbrev pub pipeline : Pipeline
pipeline = record {
  schema = schema;
  bounds = bounds;
  tier_ceiling = anonymous;
  tier_enforcement_mode = strip;
  metric_caps = caps;
  strict_metrics = false;
}
