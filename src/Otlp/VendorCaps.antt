-- ===== src/Otlp/VendorCaps.antt =====
-- internal/otlp/counters.go and dims.go: the caps on the names, labels and dimension values of a vendor
-- instrument, before its rows are stored. `State` is the store's; the instrument's calls change it. A map keyed
-- by a struct is an association list in its iteration order; a set of keys is the list of its members.
pub mod Admitted
use argvio.Prelude.{
  Str, bytes, str_eq, ℕ, ◌+◌, ◌%◌, ◌^◌, Bool, true, false, not, ◌&&◌, Option, none, some, List, [],
  ◌∷◌, map, any, length, ◌==◌, member, if◌then◌else◌, Result, ok, err,
}
use argvio.Prelude.Maps.{Map, lookup, insert, delete}
use argvio.Allowlist.{Value, str}
use argvio.Storage.Dims.{counter_other, format_dims, parse_dims, contains_byte, dim_kv_sep}
use argvio.Otlp.Catalog.{text_at}

pub record MetricRow : Type 0 where
  pub metric_name : Str
  pub datapoint_attributes : Map Value

-- A name and a label; "" for no label.
abbrev pub CounterKey : Type 0
CounterKey = Str × Str

-- A name, a dimension's key and its value.
abbrev pub DimValueKey : Type 0
DimValueKey = Str × Str × Str

pub record CounterAdmission : Type 0 where
  pub names : List Str
  pub labels : List CounterKey
  pub folded_names : ℕ
  pub folded_labels : ℕ

pub record DimAdmission : Type 0 where
  pub dim_values : List DimValueKey
  pub dims_folded : ℕ

abbrev key_eq : CounterKey → CounterKey → Bool
key_eq a b = str_eq a.0 b.0 && str_eq a.1 b.1

abbrev dim_eq : DimValueKey → DimValueKey → Bool
dim_eq (n, k, v) (m, j, w) = str_eq n m && str_eq k j && str_eq v w

abbrev pub has_label : List CounterKey → CounterKey → Bool
has_label labels k = any (λ j. key_eq j k) labels

abbrev pub has_dim : List DimValueKey → DimValueKey → Bool
has_dim found k = any (λ j. dim_eq j k) found

-- counts[k]++, by the equality of the keys
unfoldable pub count_key : {K : Type 0} → (K → K → Bool) → K → List (K × ℕ) → List (K × ℕ)
count_key eq k [] = (k, 1) ∷ []
count_key eq k (entry ∷ counts) =
    let rest = count_key eq k counts in
    if eq entry.0 k then (entry.0, (entry.1 + 1) % 2 ^ 64) ∷ counts else entry ∷ rest

pub record VendorInstrument (State E : Type 0) : Type 0 where
  pub metric : Str
  pub name_attr : Str
  pub label_attr : Str
  pub name_limit : ℕ
  pub label_limit : ℕ
  pub dim_limit : ℕ
  pub admit : State → List (CounterKey × ℕ) → ℕ → ℕ → State × Result E CounterAdmission
  pub admit_dims : State → List (DimValueKey × ℕ) → ℕ → State × Result E DimAdmission
  pub record_folded_dims : State → ℕ → State × Result E (Unit {0})

module _ {State E : Type 0} (vendor : VendorInstrument State E) where
  unfoldable pub vendor_key : Map Value → CounterKey
  vendor_key a = (text_at vendor.name_attr a, text_at vendor.label_attr a)

  abbrev pub is_vendor_row : MetricRow → Bool
  is_vendor_row r = str_eq r.metric_name vendor.metric

  abbrev is_tuple : Str → Bool
  is_tuple label = contains_byte dim_kv_sep label

  -- The dimension values of a row whose label is a tuple.
  abbrev tuple_dims : MetricRow → Map Str
  tuple_dims r =
      let label = text_at vendor.label_attr r.datapoint_attributes in
      if is_vendor_row r && is_tuple label then parse_dims label else []

  unfoldable pub count_dims : Str → Map Str → List (DimValueKey × ℕ) → List (DimValueKey × ℕ)
  count_dims name [] counts = counts
  count_dims name ((key, value) ∷ dims) counts =
      count_dims name dims (count_key dim_eq (name, key, value) counts)

  unfoldable pub count_dim_values : List MetricRow → List (DimValueKey × ℕ) → List (DimValueKey × ℕ)
  count_dim_values [] counts = counts
  count_dim_values (r ∷ rows) counts =
      count_dim_values rows
        (count_dims (text_at vendor.name_attr r.datapoint_attributes) (tuple_dims r) counts)

  abbrev fold_value : Str → List DimValueKey → Str × Str → Str × Str
  fold_value name admitted (key, value) =
      (key, if has_dim admitted (name, key, value) then value else counter_other)

  abbrev is_folded : Str → List DimValueKey → Str × Str → Bool
  is_folded name admitted (key, value) = not (has_dim admitted (name, key, value))

  -- A row with a value that was not admitted gets its tuple anew.
  unfoldable pub fold_row_dims : List DimValueKey → MetricRow → MetricRow
  fold_row_dims admitted r =
      let name = text_at vendor.name_attr r.datapoint_attributes in
      let dims = tuple_dims r in
      if any (is_folded name admitted) dims
      then record r {
        datapoint_attributes =
            insert vendor.label_attr (str (format_dims (map (fold_value name admitted) dims)))
              r.datapoint_attributes;
      }
      else r

  unfoldable pub folded_points : List DimValueKey → List MetricRow → ℕ
  folded_points admitted [] = 0
  folded_points admitted (r ∷ rows) =
      let rest = folded_points admitted rows in
      if any (is_folded (text_at vendor.name_attr r.datapoint_attributes) admitted) (tuple_dims r)
      then rest + 1
      else rest

  abbrev rows_if_recorded :
      List MetricRow → State × Result E (Unit {0}) → State × Result E (List MetricRow)
  rows_if_recorded rows (after, ok done) = (after, ok rows)
  rows_if_recorded rows (after, err why) = (after, err why)

  abbrev dims_admitted :
      List MetricRow → State × Result E DimAdmission → State × Result E (List MetricRow)
  dims_admitted rows (after, err why) = (after, err why)
  dims_admitted rows (after, ok adm) =
      if adm.dims_folded == 0
      then (after, ok rows)
      else rows_if_recorded (map (fold_row_dims adm.dim_values) rows)
          (vendor.record_folded_dims after (folded_points adm.dim_values rows))

  unfoldable pub cap_dim_values : State → List MetricRow → State × Result E (List MetricRow)
  cap_dim_values state rows =
      let counts = count_dim_values rows [] in
      if length counts == 0
      then (state, ok rows)
      else dims_admitted rows (vendor.admit_dims state counts vendor.dim_limit)

  unfoldable pub count_rows_of : List MetricRow → List (CounterKey × ℕ) → List (CounterKey × ℕ)
  count_rows_of [] counts = counts
  count_rows_of (r ∷ rows) counts = count_rows_of rows (
      if is_vendor_row r
      then count_key key_eq (vendor_key r.datapoint_attributes) counts
      else counts)

  -- A folded name loses its label too; a folded label keeps its name.
  unfoldable pub cap_attributes : CounterAdmission → Map Value → Map Value
  cap_attributes adm a =
      let k = vendor_key a in
      if not (member adm.names k.0)
      then delete vendor.label_attr (insert vendor.name_attr (str counter_other) a)
      else (if str_eq k.0 counter_other
          then delete vendor.label_attr a
          else (if not (str_eq k.1 [])
                && not (str_eq k.1 counter_other)
                && not (has_label adm.labels k)
              then insert vendor.label_attr (str counter_other) a
              else a))

  unfoldable pub cap_row : CounterAdmission → MetricRow → MetricRow
  cap_row adm r =
      if is_vendor_row r
      then record r { datapoint_attributes = cap_attributes adm r.datapoint_attributes }
      else r

  abbrev pub admitted_rows :
      List MetricRow → State × Result E CounterAdmission → State × Result E (List MetricRow)
  admitted_rows rows (after, err why) = (after, err why)
  admitted_rows rows (after, ok adm) = (after, ok (map (cap_row adm) rows))

  abbrev pub after_dims : State × Result E (List MetricRow) → State × Result E (List MetricRow)
  after_dims (state, err why) = (state, err why)
  after_dims (state, ok rows) =
      let counts = count_rows_of rows [] in
      if length counts == 0
      then (state, ok rows)
      else admitted_rows rows (vendor.admit state counts vendor.name_limit vendor.label_limit)

  -- Dimension values first, so that the label cap counts the tuples as they are stored.
  unfoldable pub cap_vendor_instrument : State → List MetricRow → State × Result E (List MetricRow)
  cap_vendor_instrument state rows = after_dims (cap_dim_values state rows)
