-- ===== src/Examples/VendorCapCases.antt =====
-- internal/otlp/counters.go at a concrete batch: one name is admitted, another is not.
use argvio.Prelude.{
  Str, bytes, str_eq, ap, ◌+◌, ℕ, member, any, ◌≡◌, refl, List, [], ◌∷◌, ok, inl, inr,
}
use argvio.Prelude.Maps.{lookup, insert, delete}
use argvio.Allowlist.{str}
use argvio.Storage.Dims.{contains_byte}
use argvio.Otlp.VendorCaps.{
  VendorInstrument, CounterAdmission, MetricRow, cap_vendor_instrument, cap_dim_values,
  count_dim_values, count_dims, count_rows_of, count_key, cap_row, cap_attributes, vendor_key,
}
use argvio.Otlp.VendorCaps.Admitted.{Answered, IsCapped, cap_vendor_instrument-IsCapped}

abbrev admission : CounterAdmission
admission = record {
  names = bytes "other" ∷ bytes "findings" ∷ [];
  labels = [];
  folded_names = 1;
  folded_labels = 1;
}

abbrev counters : VendorInstrument ℕ Str
counters = record {
  metric = bytes "cli.counter";
  name_attr = bytes "cli.counter.name";
  label_attr = bytes "cli.counter.label";
  name_limit = 1;
  label_limit = 0;
  dim_limit = 1;
  admit = λ state counts names labels. (state + 1, ok admission);
  admit_dims = λ state counts limit. (state, ok (record { dim_values = []; dims_folded = 0 }));
  record_folded_dims = λ state n. (state, ok tt);
}

abbrev counter_row : Str → Str → MetricRow
counter_row name label = record {
  metric_name = bytes "cli.counter";
  datapoint_attributes =
      (bytes "cli.counter.name", str name) ∷ (bytes "cli.counter.label", str label) ∷ [];
}

abbrev unnamed : MetricRow
unnamed = record {
  metric_name = bytes "cli.counter";
  datapoint_attributes = (bytes "cli.counter.name", str (bytes "other")) ∷ [];
}

abbrev batch : List MetricRow
batch = counter_row (bytes "findings") (bytes "bola") ∷ counter_row (bytes "noise") (bytes "x") ∷ []

abbrev capped : List MetricRow
capped = counter_row (bytes "findings") (bytes "other") ∷ unnamed ∷ []

caps : cap_vendor_instrument counters 0 batch ≡ (1, ok capped)
unfolding cap_vendor_instrument cap_dim_values count_dim_values count_dims count_rows_of count_key
    cap_row cap_attributes vendor_key contains_byte any str_eq lookup insert delete member
caps = refl

cap_vendor_instrument-IsCapped_example :
    (adm : CounterAdmission) × Answered counters adm
    × IsCapped adm (vendor_key counters unnamed.datapoint_attributes)
unfolding str_eq
cap_vendor_instrument-IsCapped_example =
    cap_vendor_instrument-IsCapped counters 0 batch capped unnamed refl (ap (λ p. p.1) caps)
      (inr (inl refl)) refl
