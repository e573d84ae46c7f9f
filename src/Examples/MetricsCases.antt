-- ===== src/Examples/MetricsCases.antt =====
-- internal/otlp/metrics.go at concrete inputs: a histogram with the bounds 1 and 2.
use argvio.Prelude.{
  ◌*◌, ◌^◌, bytes, str_eq, ◌≡◌, refl, ◌-◌, ◌↔◌, ◌⊎◌, false, none, some, [], ◌∷◌, arith,
}
use argvio.Prelude.Float.{Float64, float_eq, float_le, float_key, is_nan, is_pos_inf}
use argvio.Allowlist.{MetricDef}
use argvio.Otlp.Metrics.{
  HistogramPoint, Metric, histogram_data, cumulative, check_histogram_point, bounds_differ,
  total_count, valid_duration, counts_overflow, check_metric_shape, actual_temporality,
  wrong_temporality,
}
use argvio.Otlp.Metrics.Shape.{IsConsistent, check_histogram_point_iff}

abbrev one : Float64
one = 1023 * 2 ^ 52

abbrev two : Float64
two = 1024 * 2 ^ 52

abbrev latency : MetricDef
latency = record {
  name = bytes "cli.latency";
  metric_type = bytes "histogram";
  unit = bytes "s";
  monotonic = false;
  temporality = bytes "delta";
  explicit_bounds = one ∷ two ∷ [];
  required_attributes = [];
  allowed_attributes = [];
}

abbrev point : HistogramPoint
point = record {
  explicit_bounds = one ∷ two ∷ [];
  bucket_counts = 1 ∷ 2 ∷ 3 ∷ [];
  count = 6;
  sum = some two;
  min = none;
  max = some one;
}

abbrev wrapping : HistogramPoint
wrapping = record point { bucket_counts = (2 ^ 64 - 1) ∷ 2 ∷ 3 ∷ []; count = 4 }

run_point : check_histogram_point latency point ≡ none
unfolding check_histogram_point bounds_differ float_eq float_le float_key is_nan is_pos_inf
    total_count valid_duration
run_point = refl

-- Counts whose 64-bit sum wraps around to the count are refused.
run_wrapping : check_histogram_point latency wrapping ≡ some counts_overflow
unfolding check_histogram_point bounds_differ float_eq float_le float_key is_nan is_pos_inf
    total_count valid_duration
run_wrapping = refl

check_histogram_point_iff_example :
    (check_histogram_point latency point ≡ none)
    ↔ ((latency.explicit_bounds ≡ []) ⊎ IsConsistent latency.explicit_bounds point)
check_histogram_point_iff_example =
    check_histogram_point_iff latency point (omega arith)
      (omega arith, (omega arith, (omega arith, tt)))

abbrev sent : Metric
sent = record {
  name = bytes "cli.latency";
  unit = bytes "s";
  contents = histogram_data cumulative (point ∷ []);
}

run_sent : check_metric_shape latency sent ≡ some wrong_temporality
unfolding check_metric_shape actual_temporality str_eq
run_sent = refl
