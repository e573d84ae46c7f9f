-- ===== src/Otlp/Catalog.antt =====
-- internal/otlp/catalog.go: checkCatalog, the tenant's declarations of its vendor metrics. The catalog that
-- was loaded for the request is the function that looks a service and a name up.
pub mod Declared
pub mod Accepts
pub mod Kept
use Prim.Native.String.{String}
use argvio.Prelude.{
  Str, bytes, str_eq, str_eq_iff, cut_prefix, member, ◌≡◌, refl, ◌↔◌, ap, subst, ◌∙◌, Bool, false,
  not, ◌&&◌, ◌||◌, Option, none, some, List, [], ◌∷◌, ◌++◌, Result, ok, err, ◌>>◌, fail_if,
  ok-injective, arith, Bool-cases, inl, inr, if◌then◌else◌,
}
use argvio.Prelude.Int.{ℤ, ltb_ℤ}
use argvio.Prelude.Maps.{Map, lookup, delete, lookup-delete}
use argvio.Storage.Dims.{dim_label_key}
use argvio.Allowlist.{Value, str, Schema, tier_rank}

pub record VendorMetric : Type 0 where
  pub kind : Str
  pub name_attr : Str
  pub label_attr : Str

pub record CatalogRule : Type 0 where
  pub kind : Str
  pub min_tier : Str
  pub dims : List Str

pub data CatalogFault : Type 0 where
  not_declared : Str → Str → Str → CatalogFault
  other_kind : Str → Str → CatalogFault
  below_min_tier : Str → Str → CatalogFault

abbrev pub attr_dim_prefix : Str
attr_dim_prefix = bytes "cli.dim."

abbrev vendor : String → String → VendorMetric
vendor kind metric = record {
  kind = bytes kind;
  name_attr = bytes metric ++ bytes ".name";
  label_attr = bytes metric ++ bytes ".label";
}

unfoldable pub vendor_metric : Str → Option VendorMetric
vendor_metric metric =
    if str_eq metric (bytes "cli.counter")
    then some (vendor "counter" "cli.counter")
    else if str_eq metric (bytes "cli.measure")
    then some (vendor "duration" "cli.measure")
    else if str_eq metric (bytes "cli.value")
    then some (vendor "value" "cli.value")
    else none

-- s, _ := kept[k].(string)
abbrev pub text_of : Option Value → Str
text_of (some (str s)) = s
text_of v = []

abbrev pub text_at : Str → Map Value → Str
text_at k kept = text_of (lookup k kept)

abbrev is_below : Option ℤ → Option ℤ → Bool
is_below (some want) (some got) = ltb_ℤ got want
is_below want got = false

abbrev pub below_tier : Schema → Str → Str → Bool
below_tier schema min_tier tier =
    not (str_eq min_tier []) && is_below (tier_rank schema min_tier) (tier_rank schema tier)

abbrev outside : List Str → Option Str → Bool
outside dims none = false
outside dims (some key) = not (member dims key)

-- A dimension's attribute whose key the rule does not list.
abbrev pub is_undeclared_dim : CatalogRule → Str → Bool
is_undeclared_dim rule k = outside rule.dims (cut_prefix k attr_dim_prefix)

-- The loop that deletes the dimensions that are not declared.
unfoldable pub drop_dims : CatalogRule → Map Value → Map Value
drop_dims rule [] = []
drop_dims rule ((k, v) ∷ kept) =
    let rest = drop_dims rule kept in if is_undeclared_dim rule k then rest else (k, v) ∷ rest

unfoldable pub drop_label : CatalogRule → VendorMetric → Map Value → Map Value
drop_label rule vm kept = if member rule.dims dim_label_key then kept else delete vm.label_attr kept

abbrev pub apply_rule :
    Schema → VendorMetric → Str → Str → CatalogRule → Map Value → Result CatalogFault (Map Value)
apply_rule schema vm name tier rule kept = do
  fail_if (not (str_eq rule.kind vm.kind)) (other_kind name rule.kind)
  fail_if (below_tier schema rule.min_tier tier) (below_min_tier name rule.min_tier)
  ok (drop_label rule vm (drop_dims rule kept))

abbrev check_declared :
    Schema
    → Bool
    → Str
    → VendorMetric
    → Str
    → Str
    → Str
    → Option CatalogRule
    → Map Value
    → Result CatalogFault (Map Value)
check_declared schema strict metric vm service name tier none kept =
    if strict then err (not_declared metric name service) else ok kept
check_declared schema strict metric vm service name tier (some rule) kept =
    apply_rule schema vm name tier rule kept

abbrev check_vendor :
    Schema
    → Bool
    → (Str → Str → Option CatalogRule)
    → Str
    → Option VendorMetric
    → Map Value
    → Str
    → Result CatalogFault (Map Value)
check_vendor schema strict catalog metric none kept tier = ok kept
check_vendor schema strict catalog metric (some vm) kept tier =
    let name = text_at vm.name_attr kept in
    let service = text_at (bytes "service.name") kept in
    check_declared schema strict metric vm service name tier (catalog service name) kept

-- The reason to reject the point, or its attributes as the call leaves them.
unfoldable pub check_catalog :
    Schema
    → Bool
    → (Str → Str → Option CatalogRule)
    → Str
    → Map Value
    → Str
    → Result CatalogFault (Map Value)
check_catalog schema strict catalog metric kept tier =
    check_vendor schema strict catalog metric (vendor_metric metric) kept tier
