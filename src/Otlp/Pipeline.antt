-- ===== src/Otlp/Pipeline.antt =====
-- internal/otlp/pipeline.go: resolveAndEvaluate, the path that every span, log record and data point
-- takes. Logging changes nothing and is left out.
pub mod Privacy
use argvio.Prelude.{
  Str, Bool, Option, none, some, List, [], ◌∷◌, ◌++◌, Result, ok, err, ◌>>=◌, or_fail,
}
use argvio.Prelude.Maps.{Map}
use argvio.Allowlist.{Value, Schema}
use argvio.Consent.{
  EnforcementMode, TierError, EventDef, RejectReason, Decision, accepted, rejected, resolve_tier,
  evaluate_event,
}
use argvio.Otlp.Limits.{Bounds, MetricCaps}
use argvio.Otlp.Attrs.{RawValue, Extracted, extract_attrs, merge_attrs}

-- What a request's pipeline reads of the schema, the server and the tenant's row of tenant_config.
pub record Pipeline : Type 0 where
  pub schema : Schema
  pub bounds : Bounds
  pub tier_ceiling : Str
  pub tier_enforcement_mode : EnforcementMode
  pub metric_caps : MetricCaps
  pub strict_metrics : Bool

pub data OutcomeReason : Type 0 where
  resource_too_many : OutcomeReason
  record_too_many : OutcomeReason
  bad_tier : TierError → OutcomeReason
  refused : RejectReason → OutcomeReason

pub record RecordOutcome : Type 0 where
  pub effective_tier : Str
  pub kept_attributes : Map Value
  pub dropped_keys : List Str
  pub struct_dropped : List Str

abbrev checked_tier : Result TierError Str → Result OutcomeReason Str
checked_tier (ok tier) = ok tier
checked_tier (err e) = err (bad_tier e)

abbrev from_decision : List Str → Decision → Result OutcomeReason RecordOutcome
from_decision struct_dropped (rejected reason) = err (refused reason)
from_decision struct_dropped (accepted tier kept dropped) = ok (record {
  effective_tier = tier;
  kept_attributes = kept;
  dropped_keys = dropped;
  struct_dropped = struct_dropped;
})

unfoldable pub extract : Bounds → List (Str × RawValue) → Option Extracted
extract b raw =
    extract_attrs raw b.max_attribute_count b.max_attribute_key_length
      b.max_attribute_string_value_length

unfoldable pub resolve_and_evaluate :
    Pipeline
    → List (Str × RawValue)
    → List (Str × RawValue)
    → EventDef
    → Result OutcomeReason RecordOutcome
resolve_and_evaluate p resource_raw record_raw def = do
  resource ← or_fail (extract p.bounds resource_raw) resource_too_many
  rec ← or_fail (extract p.bounds record_raw) record_too_many
  tier ← checked_tier (resolve_tier p.schema resource.kept rec.kept)
  let merged = merge_attrs resource.kept rec.kept
  let decision = evaluate_event p.schema def tier p.tier_ceiling p.tier_enforcement_mode merged
  from_decision (resource.dropped ++ rec.dropped) decision
