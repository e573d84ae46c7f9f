-- ===== src/Otlp/Catalog/Accepts.antt =====
-- internal/otlp/catalog.go: which points pass checkCatalog.
use argvio.Prelude.{
  Str, bytes, str_eq, str_eq_iff, ◌≡◌, ◌≢◌, refl, ◌↔◌, ◌⊎◌, ap, sym, subst, ◌∙◌, Bool, false,
  Option, Option-cases, none, some, some-eq-some, [], ok, Bool-cases, inl, inr,
}
use argvio.Prelude.Maps.{Map, lookup}
use argvio.Allowlist.{Value, str, int64, boolean, float64, strings, Schema}
use argvio.Otlp.Catalog.{VendorMetric, CatalogRule, vendor_metric, text_of, text_at, check_catalog}
use argvio.Otlp.Catalog.Declared.{
  MeetsTier, below_tier-MeetsTier, MeetsTier-below_tier, rule_for, check_catalog-declared,
  check_catalog-undeclared, check_catalog-other,
}

-- The three metrics that the catalog governs, with the kind and the attributes of each.
abbrev pub IsVendor : Str → VendorMetric → Type 0
IsVendor metric vm =
    ((metric ≡ bytes "cli.counter")
      × (vm ≡ record {
        kind = bytes "counter";
        name_attr = bytes "cli.counter.name";
        label_attr = bytes "cli.counter.label";
      }))
    ⊎ ((metric ≡ bytes "cli.measure")
        × (vm ≡ record {
          kind = bytes "duration";
          name_attr = bytes "cli.measure.name";
          label_attr = bytes "cli.measure.label";
        }))
    ⊎ ((metric ≡ bytes "cli.value")
        × (vm ≡ record {
          kind = bytes "value";
          name_attr = bytes "cli.value.name";
          label_attr = bytes "cli.value.label";
        }))

abbrev pub IsOther : Str → Type 0
IsOther metric =
    (metric ≢ bytes "cli.counter") × (metric ≢ bytes "cli.measure") × (metric ≢ bytes "cli.value")

vendor_metric_cases :
    (metric : Str)
    → ((vendor_metric metric ≡ none) × IsOther metric)
      ⊎ ((vm : VendorMetric) × (vendor_metric metric ≡ some vm) × IsVendor metric vm)
unfolding vendor_metric
vendor_metric_cases m = elim (Bool-cases (str_eq m (bytes "cli.counter"))) [
  | inl e ↦ rw e (inr (_, refl, inl ((str_eq_iff m _).0 e, refl)))
  | inr c ↦ elim (Bool-cases (str_eq m (bytes "cli.measure"))) [
    | inl e ↦ rw (c, e) (inr (_, refl, inr (inl ((str_eq_iff m _).0 e, refl))))
    | inr d ↦ elim (Bool-cases (str_eq m (bytes "cli.value"))) [
      | inl e ↦ rw (c, d, e) (inr (_, refl, inr (inr ((str_eq_iff m _).0 e, refl))))
      | inr f ↦
          rw (c, d, f)
            (inl (
              refl,
              (
                λ e. cc (c, (str_eq_iff m _).1 e),
                λ e. cc (d, (str_eq_iff m _).1 e),
                λ e. cc (f, (str_eq_iff m _).1 e),
              ),
            ))
    ]
  ]
]

pub IsVendor-vendor_metric :
    (metric : Str) (vm : VendorMetric) → IsVendor metric vm → vendor_metric metric ≡ some vm
unfolding vendor_metric str_eq
IsVendor-vendor_metric m vm (inl (e, v)) = ap vendor_metric e ∙ ap (λ x. some x) (sym v)
IsVendor-vendor_metric m vm (inr (inl (e, v))) = ap vendor_metric e ∙ ap (λ x. some x) (sym v)
IsVendor-vendor_metric m vm (inr (inr (e, v))) = ap vendor_metric e ∙ ap (λ x. some x) (sym v)

IsOther-vendor_metric : (metric : Str) → IsOther metric → vendor_metric metric ≡ none
IsOther-vendor_metric m (c, d, f) = elim (vendor_metric_cases m) [
  | inl (none_there, _) ↦ none_there
  | inr (vm, _, inl (e, _)) ↦ absurd (c e)
  | inr (vm, _, inr (inl (e, _))) ↦ absurd (d e)
  | inr (vm, _, inr (inr (e, _))) ↦ absurd (f e)
]

-- The text that an attribute holds, which is empty where it is missing or no string.
abbrev pub HasText : Str → Map Value → Str → Type 0
HasText k kept s =
    (lookup k kept ≡ some (str s)) ⊎ ((s ≡ []) × (¬ ((t : Str) × (lookup k kept ≡ some (str t)))))

text_of_cases :
    (o : Option Value)
    → (o ≡ some (str (text_of o))) ⊎ ((text_of o ≡ []) × (¬ ((t : Str) × (o ≡ some (str t)))))
text_of_cases none = inr (refl, λ (t, e). cc e)
text_of_cases (some (str s)) = inl refl
text_of_cases (some (int64 n)) = inr (refl, λ (t, e). cc (some-eq-some e))
text_of_cases (some (boolean b)) = inr (refl, λ (t, e). cc (some-eq-some e))
text_of_cases (some (float64 x)) = inr (refl, λ (t, e). cc (some-eq-some e))
text_of_cases (some (strings xs)) = inr (refl, λ (t, e). cc (some-eq-some e))

text_at-HasText : (k : Str) (kept : Map Value) → HasText k kept (text_at k kept)
text_at-HasText k kept = text_of_cases (lookup k kept)

HasText-text_at : (k : Str) (kept : Map Value) (s : Str) → HasText k kept s → text_at k kept ≡ s
HasText-text_at k kept s (inl e) = ap text_of e
HasText-text_at k kept s (inr (e, n)) = elim (text_at-HasText k kept) [
  | inl there ↦ absurd (n (text_at k kept, there))
  | inr (empty, _) ↦ empty ∙ sym e
]

-- What a point needs to pass: it is of no vendor metric, or it is one that the catalog does not declare under
-- its service and name, for a tenant that is not strict, or it is declared as this kind for a tier that
-- the point reaches.
abbrev pub IsAdmitted :
    Schema → Bool → (Str → Str → Option CatalogRule) → Str → Map Value → Str → Type 0
IsAdmitted schema strict catalog metric kept tier =
    IsOther metric
    ⊎ ((vm : VendorMetric) × (service : Str) × (name : Str) × IsVendor metric vm
        × HasText (bytes "service.name") kept service
        × HasText vm.name_attr kept name
        × (((catalog service name ≡ none) × (strict ≡ false))
            ⊎ ((rule : CatalogRule) × (catalog service name ≡ some rule)
                × (rule.kind ≡ vm.kind)
                × MeetsTier schema rule.min_tier tier)))

pub rule_for-HasText :
    (catalog : Str → Str → Option CatalogRule) (kept : Map Value) (vm : VendorMetric)
    (service name : Str)
    → HasText (bytes "service.name") kept service
    → HasText vm.name_attr kept name
    → rule_for catalog kept vm ≡ catalog service name
rule_for-HasText catalog kept vm service name s n =
    ap (λ t. catalog t (text_at vm.name_attr kept))
      (HasText-text_at (bytes "service.name") kept service s)
    ∙ ap (catalog service) (HasText-text_at vm.name_attr kept name n)

-- checkCatalog lets a point pass exactly when it is of no vendor metric, or the tenant's catalog does not
-- declare the metric under its service and name and the tenant is not strict, or the catalog declares it as
-- the kind that was sent and asks for no tier, for one without a rank, at a tier without one, or for a
-- rank not above the point's.
pub check_catalog_accepts_iff :
    (schema : Schema) (strict : Bool) (catalog : Str → Str → Option CatalogRule) (metric : Str)
    (kept : Map Value) (tier : Str)
    → ((left : Map Value) × (check_catalog schema strict catalog metric kept tier ≡ ok left))
      ↔ IsAdmitted schema strict catalog metric kept tier
check_catalog_accepts_iff schema strict catalog metric kept tier = (sound, complete)
  where
    sound :
        (left : Map Value) × (check_catalog schema strict catalog metric kept tier ≡ ok left)
        → IsAdmitted schema strict catalog metric kept tier
    sound (left, h) = elim (vendor_metric_cases metric) [
      | inl (n, other) ↦ inl other
      | inr (vm, v, is_vendor) ↦
          let service = text_at-HasText (bytes "service.name") kept in
          let name = text_at-HasText vm.name_attr kept in
          elim (Option-cases (rule_for catalog kept vm)) [
            | inl u ↦
                let lenient =
                  check_catalog-undeclared schema strict catalog metric kept tier vm left v u h in
                inr (vm, _, _, is_vendor, service, name, inl (u, lenient))
            | inr (rule, d) ↦
                let (same, fine, _) =
                  (check_catalog-declared schema strict catalog metric kept tier vm rule v d).1 left
                    h in
                let meets = below_tier-MeetsTier schema rule.min_tier tier fine in
                inr (vm, _, _, is_vendor, service, name, inr (rule, d, same, meets))
          ]
    ]

    complete :
        IsAdmitted schema strict catalog metric kept tier
        → (left : Map Value) × (check_catalog schema strict catalog metric kept tier ≡ ok left)
    complete (inl other) = (
      kept,
      (check_catalog-other schema catalog metric kept tier).0 strict
          (IsOther-vendor_metric metric other),
    )
    complete (inr (vm, service, name, v, s, n, inl (u, lenient))) = (
      kept,
      subst (λ b. check_catalog schema b catalog metric kept tier ≡ ok kept) (sym lenient)
          ((check_catalog-other schema catalog metric kept tier).1 vm
            (IsVendor-vendor_metric metric vm v)
            (rule_for-HasText catalog kept vm service name s n ∙ u)),
    )
    complete (inr (vm, service, name, v, s, n, inr (rule, d, same, meets))) =
        (check_catalog-declared schema strict catalog metric kept tier vm rule
            (IsVendor-vendor_metric metric vm v)
            (rule_for-HasText catalog kept vm service name s n ∙ d)).0
          same (MeetsTier-below_tier schema rule.min_tier tier meets)
