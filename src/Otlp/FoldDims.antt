-- ===== src/Otlp/FoldDims.antt =====
-- internal/otlp/dims.go: foldDims, the dimensions of a vendor data point as its label. `limit` is the cap
-- of metricCaps on their number.
pub mod Lossless
use argvio.Prelude.{
  Str, bytes, str_eq, cut_prefix, has_prefix, ℕ, Bool, true, false, not, ◌&&◌, Option, none, some,
  List, [], ◌∷◌, length, ◌==◌, if◌then◌else◌, Result, ok, err, ◌>>=◌, ◌>>◌, fail_if,
}
use argvio.Prelude.Int.{ℤ, pos, ltb_ℤ}
use argvio.Prelude.Maps.{Map, lookup, insert, has}
use argvio.Allowlist.{Value, str}
use argvio.Storage.Dims.{dim_label_key, format_dims}
use argvio.Otlp.Catalog.{attr_dim_prefix, text_at, text_of, vendor_metric, VendorMetric}

pub data DimFault : Type 0 where
  invalid_dimension : Str → DimFault
  same_dimension : Str → DimFault
  too_many_dimensions : ℕ → ℤ → DimFault

abbrev pub label_attr_of : Option VendorMetric → Str
label_attr_of none = []
label_attr_of (some vm) = vm.label_attr

-- Counter, measure and value label attributes; "" for any other metric.
unfoldable pub vendor_label_attr : Str → Str
vendor_label_attr metric = label_attr_of (vendor_metric metric)

-- The loop over the dropped keys: the first dimension among them.
unfoldable pub check_dropped : List Str → Result DimFault (Unit {0})
check_dropped [] = ok tt
check_dropped (k ∷ dropped) =
    let rest = check_dropped dropped in
    if has_prefix k attr_dim_prefix then err (invalid_dimension k) else rest

abbrev pub add_dim : Map Str → Option Str → Value → Map Str
add_dim dims none v = dims
add_dim dims (some key) v = insert key (text_of (some v)) dims

-- The loop that collects the dimensions.
unfoldable pub collect_dims : Map Str → Map Value → Map Str
collect_dims dims [] = dims
collect_dims dims (entry ∷ kept) =
    collect_dims (add_dim dims (cut_prefix entry.0 attr_dim_prefix) entry.1) kept

-- A plain label is one more dimension.
unfoldable pub add_label : Str → Str → Map Str → Result DimFault (Map Str)
add_label label_attr label dims =
    if str_eq label []
    then ok dims
    else (if has dim_label_key dims
        then err (same_dimension label_attr)
        else ok (insert dim_label_key label dims))

-- The loop that deletes the dimensions from the attributes.
unfoldable pub without_dims : Map Value → Map Value
without_dims [] = []
without_dims (entry ∷ kept) =
    let rest = without_dims kept in
    if has_prefix entry.0 attr_dim_prefix then rest else entry ∷ rest

unfoldable pub fold_found : Str → ℤ → Map Value → Map Str → Result DimFault (Map Value)
fold_found label_attr limit kept found = do
  dims ← add_label label_attr (text_at label_attr kept) found
  fail_if (ltb_ℤ limit (pos (length dims))) (too_many_dimensions (length dims) limit)
  ok (insert label_attr (str (format_dims dims)) (without_dims kept))

unfoldable pub fold_dims : Str → ℤ → Map Value → List Str → Result DimFault (Map Value)
fold_dims metric limit kept dropped =
    let label_attr = vendor_label_attr metric in
    let found = collect_dims [] kept in
    if str_eq label_attr []
    then ok kept
    else (check_dropped dropped
        >> (if length found == 0 then ok kept else fold_found label_attr limit kept found))
