-- ===== src/Otlp/Limits.antt =====
-- internal/otlp/limits.go and caps.go: the timestamp window and the vendor-metric caps. Times and
-- durations are in nanoseconds; an int pointer is an option.
use argvio.Prelude.{◌≡◌, ◌↔◌, Bool, true, false, Option, none, some, arith, if◌then◌else◌}
use argvio.Prelude.Int.{ℤ, pos, ltb_ℤ, ◌≤ℤ◌, ◌+ℤ◌, ◌-ℤ◌}

pub record Bounds : Type 0 where
  pub max_batch_size : ℤ
  pub max_attribute_count : ℤ
  pub max_attribute_key_length : ℤ
  pub max_attribute_string_value_length : ℤ
  pub max_timestamp_skew_past : ℤ
  pub max_timestamp_skew_future : ℤ
  pub max_error_reasons_per_tenant : ℤ
  pub max_counter_names_per_tenant : ℤ
  pub max_counter_labels_per_name : ℤ
  pub max_measure_names_per_tenant : ℤ
  pub max_measure_labels_per_name : ℤ
  pub max_metric_dims : ℤ
  pub max_value_names_per_tenant : ℤ
  pub max_value_labels_per_name : ℤ
  pub max_dim_values_per_key : ℤ

-- ts.Before(now.Add(-past)), then ts.After(now.Add(future))
unfoldable pub check_timestamp : ℤ → ℤ → ℤ → ℤ → Bool
check_timestamp ts now past future =
    if ltb_ℤ ts (now -ℤ past) then false else if ltb_ℤ (now +ℤ future) ts then false else true

-- A timestamp passes exactly when it lies in the window around now, its ends included.
pub check_timestamp_iff :
    (ts now past future : ℤ)
    → (check_timestamp ts now past future ≡ true) ↔ ((now ≤ℤ ts +ℤ past) × (ts ≤ℤ now +ℤ future))
unfolding check_timestamp
check_timestamp_iff ts now past future = ((λ h. ground arith), λ h. ground arith)

-- The tenant's overrides of the caps.
pub record MetricCaps : Type 0 where
  pub max_counter_names : Option ℤ
  pub max_counter_labels_per_name : Option ℤ
  pub max_measure_names : Option ℤ
  pub max_measure_labels_per_name : Option ℤ
  pub max_metric_dims : Option ℤ
  pub max_dim_values_per_key : Option ℤ
  pub max_value_names : Option ℤ
  pub max_value_labels_per_name : Option ℤ

-- The caps in force.
pub record CapsInForce : Type 0 where
  pub counter_names : ℤ
  pub counter_labels : ℤ
  pub measure_names : ℤ
  pub measure_labels : ℤ
  pub value_names : ℤ
  pub value_labels : ℤ
  pub dims : ℤ
  pub dim_values : ℤ

abbrev global_or_default : ℤ → ℤ → ℤ
global_or_default global fallback = if ltb_ℤ (pos 0) global then global else fallback

unfoldable pub pick_cap : Option ℤ → ℤ → ℤ → ℤ
pick_cap none global fallback = global_or_default global fallback
pick_cap (some override) global fallback =
    if ltb_ℤ (pos 0) override then override else global_or_default global fallback

unfoldable pub metric_caps : MetricCaps → Bounds → CapsInForce
metric_caps o b = record {
  counter_names = pick_cap o.max_counter_names b.max_counter_names_per_tenant (pos 200);
  counter_labels = pick_cap o.max_counter_labels_per_name b.max_counter_labels_per_name (pos 50);
  measure_names = pick_cap o.max_measure_names b.max_measure_names_per_tenant (pos 100);
  measure_labels = pick_cap o.max_measure_labels_per_name b.max_measure_labels_per_name (pos 50);
  value_names = pick_cap o.max_value_names b.max_value_names_per_tenant (pos 100);
  value_labels = pick_cap o.max_value_labels_per_name b.max_value_labels_per_name (pos 50);
  dims = pick_cap o.max_metric_dims b.max_metric_dims (pos 3);
  dim_values = pick_cap o.max_dim_values_per_key b.max_dim_values_per_key (pos 50);
}

-- Every cap in force is positive.
abbrev pub AllPositive : CapsInForce → Type 0
AllPositive c =
    (pos 1 ≤ℤ c.counter_names)
    × (pos 1 ≤ℤ c.counter_labels)
    × (pos 1 ≤ℤ c.measure_names)
    × (pos 1 ≤ℤ c.measure_labels)
    × (pos 1 ≤ℤ c.value_names)
    × (pos 1 ≤ℤ c.value_labels)
    × (pos 1 ≤ℤ c.dims)
    × (pos 1 ≤ℤ c.dim_values)

pub pick_cap-positive :
    (o : Option ℤ) (global fallback : ℤ) → pos 1 ≤ℤ fallback → pos 1 ≤ℤ pick_cap o global fallback
unfolding pick_cap
pick_cap-positive none global fallback h = ground arith
pick_cap-positive (some o) global fallback h = ground arith

-- Whatever the tenant's overrides and the server's configuration hold, unset, zero or negative, every
-- cap in force is positive, so a missing setting never folds everything.
pub metric_caps-AllPositive : (o : MetricCaps) (b : Bounds) → AllPositive (metric_caps o b)
unfolding metric_caps
metric_caps-AllPositive o b = (
  pick_cap-positive o.max_counter_names b.max_counter_names_per_tenant (pos 200) (omega arith),
  pick_cap-positive o.max_counter_labels_per_name b.max_counter_labels_per_name (pos 50)
      (omega arith),
  pick_cap-positive o.max_measure_names b.max_measure_names_per_tenant (pos 100) (omega arith),
  pick_cap-positive o.max_measure_labels_per_name b.max_measure_labels_per_name (pos 50)
      (omega arith),
  pick_cap-positive o.max_value_names b.max_value_names_per_tenant (pos 100) (omega arith),
  pick_cap-positive o.max_value_labels_per_name b.max_value_labels_per_name (pos 50) (omega arith),
  pick_cap-positive o.max_metric_dims b.max_metric_dims (pos 3) (omega arith),
  pick_cap-positive o.max_dim_values_per_key b.max_dim_values_per_key (pos 50) (omega arith),
)
