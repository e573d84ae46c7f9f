-- ===== src/Otlp/Metrics.antt =====
-- internal/otlp/metrics.go: which metrics and data points have the shape that the allowlist declares. A
-- pmetric.Metric is its name and unit and its data by type; a reason is a constructor.
pub mod Shape
use argvio.Prelude.{
  ℕ, ◌+◌, ◌%◌, ◌^◌, Str, bytes, str_eq, Bool, true, false, not, ◌&&◌, ◌||◌, Option, none, some,
  List, [], ◌∷◌, length, ltb, ◌==◌, if◌then◌else◌,
}
use argvio.Prelude.Int.{ℤ, pos, ltb_ℤ}
use argvio.Prelude.Float.{Float64, float_le, float_eq, is_pos_inf}
use argvio.Allowlist.{MetricDef, temporality_cumulative}

pub data Temporality : Type 0 where
  unspecified delta cumulative : Temporality

-- A number point's value: its int, or what DoubleValue gives where it is none.
pub data NumberValue : Type 0 where
  int_value : ℤ → NumberValue
  double_value : Float64 → NumberValue

pub record HistogramPoint : Type 0 where
  pub explicit_bounds : List Float64
  pub bucket_counts : List ℕ
  pub count : ℕ
  pub sum : Option Float64
  pub min : Option Float64
  pub max : Option Float64

-- The data of a metric: its temporality and points, or the number of points that no one reads.
pub data MetricData : Type 0 where
  sum_data : Temporality → List NumberValue → MetricData
  gauge_data : List NumberValue → MetricData
  histogram_data : Temporality → List HistogramPoint → MetricData
  exponential_histogram_data summary_data : ℕ → MetricData
  empty_data : MetricData

pub record Metric : Type 0 where
  pub name : Str
  pub unit : Str
  pub contents : MetricData

abbrev pub is_nonempty {ℓ} : {A : Type ℓ} → List A → Bool
is_nonempty [] = false
is_nonempty (x ∷ xs) = true

pub data ShapeFault : Type 0 where
  wrong_unit wrong_type wrong_temporality : ShapeFault

abbrev pub same_temporality : Temporality → Temporality → Bool
same_temporality delta delta = true
same_temporality cumulative cumulative = true
same_temporality unspecified unspecified = true
same_temporality s t = false

-- The switch on the declared and the actual type; none is its default.
unfoldable pub actual_temporality : Str → MetricData → Option Temporality
actual_temporality type (sum_data t points) = if str_eq type (bytes "sum") then some t else none
actual_temporality type (histogram_data t points) =
    if str_eq type (bytes "histogram") then some t else none
actual_temporality type contents = none

abbrev pub wanted_temporality : Str → Temporality
wanted_temporality name = if str_eq name temporality_cumulative then cumulative else delta

abbrev pub temporality_fault : Temporality → Option Temporality → Option ShapeFault
temporality_fault want none = some wrong_type
temporality_fault want (some got) =
    if same_temporality got want then none else some wrong_temporality

unfoldable pub check_metric_shape : MetricDef → Metric → Option ShapeFault
check_metric_shape def metric =
    if is_nonempty def.explicit_bounds && not (str_eq metric.unit def.unit)
    then some wrong_unit
    else if str_eq def.temporality []
    then none
    else temporality_fault (wanted_temporality def.temporality)
        (actual_temporality def.metric_type metric.contents)

-- v >= 0 && !math.IsInf(v, 1)
unfoldable pub valid_duration : Float64 → Bool
valid_duration v = float_le 0 v && not (is_pos_inf v)

unfoldable pub valid_monotonic_value : NumberValue → Bool
valid_monotonic_value (int_value n) = not (ltb_ℤ n (pos 0))
valid_monotonic_value (double_value v) = float_le 0 v && not (is_pos_inf v)

pub data HistogramFault : Type 0 where
  wrong_bounds wrong_bucket_number counts_overflow wrong_total invalid_measure : HistogramFault

-- The loop that compares the bounds, which are as many as the declared ones.
unfoldable pub bounds_differ : List Float64 → List Float64 → Bool
bounds_differ (b ∷ declared) (x ∷ bounds) = not (float_eq x b) || bounds_differ declared bounds
bounds_differ declared bounds = false

-- The loop that adds the counts up, in 64 bits; none is its overflow.
unfoldable pub total_count : ℕ → List ℕ → Option ℕ
total_count total [] = some total
total_count total (c ∷ counts) =
    let next = (total + c) % 2 ^ 64 in
    let rest = total_count next counts in if ltb next total then none else rest

abbrev pub invalid : Option Float64 → Bool
invalid none = false
invalid (some v) = not (valid_duration v)

abbrev pub check_total : HistogramPoint → Option ℕ → Option HistogramFault
check_total dp none = some counts_overflow
check_total dp (some total) =
    if not (total == dp.count)
    then some wrong_total
    else if invalid dp.sum || (invalid dp.min || invalid dp.max)
    then some invalid_measure
    else none

unfoldable pub check_histogram_point : MetricDef → HistogramPoint → Option HistogramFault
check_histogram_point def dp =
    if not (is_nonempty def.explicit_bounds)
    then none
    else if not (length dp.explicit_bounds == length def.explicit_bounds)
    then some wrong_bounds
    else if bounds_differ def.explicit_bounds dp.explicit_bounds
    then some wrong_bounds
    else if not (length dp.bucket_counts == length def.explicit_bounds + 1)
    then some wrong_bucket_number
    else check_total dp (total_count 0 dp.bucket_counts)
