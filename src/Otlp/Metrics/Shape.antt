-- ===== src/Otlp/Metrics/Shape.antt =====
-- internal/otlp/metrics.go: what it is for a histogram point and a metric to have the declared shape.
use argvio.Prelude.{
  ℕ, ◌+◌, ◌%◌, ◌^◌, ◌<◌, ltb→lt, ◌≢◌, Str, bytes, str_eq_iff, ◌≡◌, refl, ◌↔◌, ◌⊎◌, inl, inr, true,
  false, Option, none, some, List, [], ◌∷◌, length, All, ltb, arith, Bool-cases, if◌then◌else◌,
}
use argvio.Prelude.Float.{Float64, float_le, float_eq, is_pos_inf}
use argvio.Allowlist.{MetricDef}
use argvio.Otlp.Metrics.{
  HistogramPoint, Metric, MetricData, Temporality, check_histogram_point, check_total, total_count,
  bounds_differ, invalid, valid_duration, is_nonempty, check_metric_shape, actual_temporality,
  sum_data, gauge_data, histogram_data, exponential_histogram_data, summary_data, empty_data,
  temporality_fault, wanted_temporality, same_temporality, unspecified, delta, cumulative,
}

abbrev pub total_of : List ℕ → ℕ
total_of [] = 0
total_of (c ∷ counts) = c + total_of counts

abbrev pub IsUint64 : ℕ → Type 0
IsUint64 n = n < 2 ^ 64

-- The loop finds every overflow: it gives the true total, or none where that exceeds 64 bits.
total_count_lem :
    (total : ℕ) (counts : List ℕ)
    → IsUint64 total
    → All IsUint64 counts
    → total_count total counts
      ≡ (if ltb (total + total_of counts) (2 ^ 64) then some (total + total_of counts) else none)
unfolding total_count
total_count_lem total [] t h = ground arith
total_count_lem total (c ∷ counts) t h = elim (Bool-cases (ltb (total + c) (2 ^ 64))) [
  | inl fits ↦
      let same : (total + c) % 2 ^ 64 ≡ total + c = omega (arith, ltb→lt _ _ fits) in
      let rest = total_count_lem (total + c) counts (ltb→lt _ _ fits) h.1 in
      rw same (ground (arith, rest))
  | inr over ↦
      let wraps : (total + c) % 2 ^ 64 < total = ground (arith, h.0) in ground (arith, wraps, over)
]

-- The same bounds, number by number.
abbrev pub SameBounds : List Float64 → List Float64 → Type 0
SameBounds [] [] = Unit
SameBounds (b ∷ declared) (x ∷ bounds) = (float_eq x b ≡ true) × SameBounds declared bounds
SameBounds declared bounds = ⊥

bounds_differ_iff :
    (declared bounds : List Float64)
    → ((length bounds ≡ length declared) × (bounds_differ declared bounds ≡ false))
      ↔ SameBounds declared bounds
unfolding bounds_differ
bounds_differ_iff [] [] = (λ h. tt, λ h. (refl, refl))
bounds_differ_iff [] (x ∷ bounds) = ground arith
bounds_differ_iff (b ∷ declared) [] = ground arith
bounds_differ_iff (b ∷ declared) (x ∷ bounds) = ground (arith, bounds_differ_iff declared bounds)

-- A number that is there is finite and not negative.
abbrev pub IsMeasure : Option Float64 → Type 0
IsMeasure none = Unit
IsMeasure (some v) = (float_le 0 v ≡ true) × (is_pos_inf v ≡ false)

invalid_iff : (v : Option Float64) → (invalid v ≡ false) ↔ IsMeasure v
unfolding valid_duration
invalid_iff none = (λ h. tt, λ h. refl)
invalid_iff (some v) = ground arith

pub record IsConsistent (declared : List Float64) (dp : HistogramPoint) : Type 0 where
  pub bounds : SameBounds declared dp.explicit_bounds
  pub buckets : length dp.bucket_counts ≡ length declared + 1
  pub total : total_of dp.bucket_counts ≡ dp.count
  pub sum_valid : IsMeasure dp.sum
  pub min_valid : IsMeasure dp.min
  pub max_valid : IsMeasure dp.max

check_total-some :
    (dp : HistogramPoint) (total : ℕ)
    → (check_total dp (some total) ≡ none)
      ↔ ((total ≡ dp.count) × IsMeasure dp.sum × IsMeasure dp.min × IsMeasure dp.max)
check_total-some dp total =
    ground (arith, invalid_iff dp.sum, invalid_iff dp.min, invalid_iff dp.max)

check_total_iff :
    (dp : HistogramPoint)
    → IsUint64 dp.count
    → All IsUint64 dp.bucket_counts
    → (check_total dp (total_count 0 dp.bucket_counts) ≡ none) ↔ (
        (total_of dp.bucket_counts ≡ dp.count)
        × IsMeasure dp.sum
        × IsMeasure dp.min
        × IsMeasure dp.max)
check_total_iff dp n h =
    let summed = total_count_lem 0 dp.bucket_counts (omega arith) h in
    let passes = check_total-some dp (total_of dp.bucket_counts) in
    elim (Bool-cases (ltb (total_of dp.bucket_counts) (2 ^ 64))) [
      | inl fits ↦
          let found : total_count 0 dp.bucket_counts ≡ some (total_of dp.bucket_counts) =
            ground (arith, summed, fits) in
          rw found passes
      | inr over ↦
          let found : total_count 0 dp.bucket_counts ≡ none = ground (arith, summed, over) in
          rw found (λ e. cc e, λ k. ground (arith, over, k.0, n))
    ]

nonempty_cases : {A : Type 0} (xs : List A) → (xs ≡ []) ⊎ ((is_nonempty xs ≡ true) × (xs ≢ []))
nonempty_cases [] = inl refl
nonempty_cases (x ∷ xs) = inr (refl, λ e. cc e)

-- A histogram point passes exactly when its metric declares no bounds, or it has the declared bounds, one
-- bucket more, a count that is the true total of the buckets, and a sum, minimum and maximum that are
-- absent or finite and not negative; counts are 64-bit numbers.
pub check_histogram_point_iff :
    (def : MetricDef) (dp : HistogramPoint)
    → IsUint64 dp.count
    → All IsUint64 dp.bucket_counts
    → (check_histogram_point def dp ≡ none)
      ↔ ((def.explicit_bounds ≡ []) ⊎ IsConsistent def.explicit_bounds dp)
unfolding check_histogram_point
check_histogram_point_iff def dp n h = elim (nonempty_cases def.explicit_bounds) [
  | inl none_declared ↦ rw none_declared (λ e. inl refl, λ e. refl)
  | inr (some_declared, not_nil) ↦
      let totals = check_total_iff dp n h in
      let same = bounds_differ_iff def.explicit_bounds dp.explicit_bounds in
      (
        λ e. inr (ground (arith, some_declared, totals, same, e)),
        λ shape. elim shape [
          | inl nil ↦ absurd (not_nil nil)
          | inr k ↦ ground (arith, some_declared, totals, same, k)
        ],
      )
]

same_temporality_iff : (s t : Temporality) → (same_temporality s t ≡ true) ↔ (s ≡ t)
same_temporality_iff unspecified unspecified = (λ h. refl, λ h. refl)
same_temporality_iff unspecified delta = (λ h. cc h, λ h. cc h)
same_temporality_iff unspecified cumulative = (λ h. cc h, λ h. cc h)
same_temporality_iff delta unspecified = (λ h. cc h, λ h. cc h)
same_temporality_iff delta delta = (λ h. refl, λ h. refl)
same_temporality_iff delta cumulative = (λ h. cc h, λ h. cc h)
same_temporality_iff cumulative unspecified = (λ h. cc h, λ h. cc h)
same_temporality_iff cumulative delta = (λ h. cc h, λ h. cc h)
same_temporality_iff cumulative cumulative = (λ h. refl, λ h. refl)

-- The data is of the declared type, a sum or a histogram, and has the wanted temporality.
abbrev pub HasTemporality : Str → Temporality → MetricData → Type 0
HasTemporality type want (sum_data t points) = (type ≡ bytes "sum") × (t ≡ want)
HasTemporality type want (histogram_data t points) = (type ≡ bytes "histogram") × (t ≡ want)
HasTemporality type want contents = ⊥

temporality_fault_iff :
    (type : Str) (want : Temporality) (contents : MetricData)
    → (temporality_fault want (actual_temporality type contents) ≡ none)
      ↔ HasTemporality type want contents
unfolding actual_temporality
temporality_fault_iff type want (sum_data t points) =
    ground (arith, str_eq_iff type (bytes "sum"), same_temporality_iff t want)
temporality_fault_iff type want (histogram_data t points) =
    ground (arith, str_eq_iff type (bytes "histogram"), same_temporality_iff t want)
temporality_fault_iff type want (gauge_data points) = (λ h. cc h, λ h. absurd h)
temporality_fault_iff type want (exponential_histogram_data n) = (λ h. cc h, λ h. absurd h)
temporality_fault_iff type want (summary_data n) = (λ h. cc h, λ h. absurd h)
temporality_fault_iff type want empty_data = (λ h. cc h, λ h. absurd h)

-- A metric passes exactly when it has the declared unit, where bounds are declared, and, where a
-- temporality is declared, is a sum or histogram as declared with that temporality.
pub check_metric_shape_iff :
    (def : MetricDef) (metric : Metric)
    → (check_metric_shape def metric ≡ none) ↔ (
        ((def.explicit_bounds ≡ []) ⊎ (metric.unit ≡ def.unit))
        × ((def.temporality ≡ [])
            ⊎ HasTemporality def.metric_type (wanted_temporality def.temporality) metric.contents))
unfolding check_metric_shape
check_metric_shape_iff def metric =
    let fault =
      temporality_fault_iff def.metric_type (wanted_temporality def.temporality) metric.contents in
    let unit_same = str_eq_iff metric.unit def.unit in
    let undeclared = str_eq_iff def.temporality [] in
    elim (nonempty_cases def.explicit_bounds) [
      | inl nil ↦ rw nil (ground (arith, fault, undeclared))
      | inr (some_declared, not_nil) ↦
          ground (arith, some_declared, not_nil, fault, unit_same, undeclared)
    ]
