-- ===== src/Examples/CatalogCases.antt =====
-- internal/otlp/catalog.go at a concrete input: a counter declared with one dimension.
use argvio.Prelude.{
  Str, bytes, str_eq, cut_prefix, member, ◌≡◌, ◌↔◌, ◌⊎◌, refl, true, Option, none, some, [], ◌∷◌,
  ok, inl, inr, if◌then◌else◌,
}
use argvio.Prelude.Maps.{Map, lookup, delete}
use argvio.Allowlist.{Value, str, tier_rank}
use argvio.Otlp.Catalog.{
  VendorMetric, CatalogRule, vendor_metric, check_catalog, drop_dims, drop_label,
}
use argvio.Otlp.Catalog.Accepts.{IsAdmitted, HasText, check_catalog_accepts_iff}
use argvio.Otlp.Catalog.Kept.{IsRemoved, check_catalog-keeps}
use argvio.Examples.Sample.{schema, anonymous}

abbrev counter : VendorMetric
counter = record {
  kind = bytes "counter";
  name_attr = bytes "cli.counter.name";
  label_attr = bytes "cli.counter.label";
}

abbrev rule : CatalogRule
rule = record { kind = bytes "counter"; min_tier = bytes "anonymous"; dims = bytes "os" ∷ [] }

abbrev catalog : Str → Str → Option CatalogRule
catalog service name = if str_eq name (bytes "runs") then some rule else none

abbrev kept : Map Value
kept =
    (bytes "cli.counter.name", str (bytes "runs"))
    ∷ (bytes "cli.dim.os", str (bytes "linux"))
    ∷ (bytes "cli.dim.user", str (bytes "me"))
    ∷ (bytes "cli.counter.label", str (bytes "x"))
    ∷ []

abbrev left : Map Value
left =
    (bytes "cli.counter.name", str (bytes "runs")) ∷ (bytes "cli.dim.os", str (bytes "linux")) ∷ []

run_counter : check_catalog schema true catalog (bytes "cli.counter") kept anonymous ≡ ok left
unfolding check_catalog vendor_metric drop_dims drop_label str_eq cut_prefix member lookup delete
    tier_rank
run_counter = refl

check_catalog_accepts_iff_example :
    ((m : Map Value) × (check_catalog schema true catalog (bytes "cli.counter") kept anonymous
        ≡ ok m))
    ↔ IsAdmitted schema true catalog (bytes "cli.counter") kept anonymous
check_catalog_accepts_iff_example =
    check_catalog_accepts_iff schema true catalog (bytes "cli.counter") kept anonymous

no_service : HasText (bytes "service.name") kept []
unfolding lookup str_eq
no_service = inr (refl, λ (t, e). cc e)

check_catalog-keeps_example :
    ((lookup (bytes "cli.dim.user") left ≡ none) × IsRemoved rule counter (bytes "cli.dim.user"))
    ⊎ ((lookup (bytes "cli.dim.user") left ≡ lookup (bytes "cli.dim.user") kept)
        × (¬ IsRemoved rule counter (bytes "cli.dim.user")))
unfolding lookup str_eq
check_catalog-keeps_example =
    check_catalog-keeps schema true catalog (bytes "cli.counter") kept anonymous counter []
      (bytes "runs") rule left (bytes "cli.dim.user") (inl (refl, refl)) no_service (inl refl) refl
      run_counter
