-- ===== src/Otlp/Catalog/Declared.antt =====
-- internal/otlp/catalog.go: the cases of checkCatalog, and what its rule does to a point.
use argvio.Prelude.{
  Str, bytes, str_eq, str_eq_iff, member, ◌≡◌, refl, ◌⊎◌, ap, subst, ◌∙◌, Bool, true, false, not,
  ◌&&◌, ◌||◌, Option, Option-cases, none, some, [], ◌∷◌, ok, ok-injective, arith, Bool-cases, inl,
  inr, if◌then◌else◌,
}
use argvio.Prelude.Int.{ℤ, ltb_ℤ, ◌≤ℤ◌}
use argvio.Prelude.Maps.{Map, lookup, lookup-delete}
use argvio.Allowlist.{Value, Schema, tier_rank}
use argvio.Storage.Dims.{dim_label_key}
use argvio.Otlp.Catalog.{
  VendorMetric, CatalogRule, vendor_metric, text_at, below_tier, is_undeclared_dim, drop_dims,
  drop_label, apply_rule, check_catalog,
}

lookup-drop_dims :
    (rule : CatalogRule) (k : Str) (kept : Map Value)
    → lookup k (drop_dims rule kept) ≡ (if is_undeclared_dim rule k then none else lookup k kept)
unfolding lookup drop_dims
lookup-drop_dims rule k [] = ground arith
lookup-drop_dims rule k ((j, v) ∷ kept) =
    let rest = lookup-drop_dims rule k kept in
    elim (Bool-cases (str_eq j k)) [
      | inl hit ↦
          let same = ap (is_undeclared_dim rule) ((str_eq_iff j k).0 hit) in
          elim (Bool-cases (is_undeclared_dim rule k)) [
            | inl out ↦ rw (same ∙ out, out) (rest ∙ rw out refl)
            | inr kept_dim ↦ rw (same ∙ kept_dim, kept_dim, hit) refl
          ]
      | inr miss ↦ elim (Bool-cases (is_undeclared_dim rule j)) [
        | inl out ↦ rw (out, miss) rest
        | inr kept_dim ↦ rw (kept_dim, miss) rest
      ]
    ]

-- What the rule takes away: dimensions it does not list, and a label where "label" is not listed.
abbrev pub is_removed : CatalogRule → VendorMetric → Str → Bool
is_removed rule vm k =
    is_undeclared_dim rule k || (str_eq vm.label_attr k && not (member rule.dims dim_label_key))

lookup-drop_label :
    (rule : CatalogRule) (vm : VendorMetric) (k : Str) (kept : Map Value)
    → lookup k (drop_label rule vm (drop_dims rule kept))
      ≡ (if is_removed rule vm k then none else lookup k kept)
unfolding drop_label
lookup-drop_label rule vm k kept =
    let dims = lookup-drop_dims rule k kept in
    let label = lookup-delete vm.label_attr k (drop_dims rule kept) in
    elim (Bool-cases (member rule.dims dim_label_key)) [
      | inl listed ↦ rw listed (ground (arith, dims))
      | inr unlisted ↦ rw unlisted (ground (arith, dims, label))
    ]

apply_rule-ok :
    (schema : Schema) (vm : VendorMetric) (name tier : Str) (rule : CatalogRule)
    (kept left : Map Value)
    → apply_rule schema vm name tier rule kept ≡ ok left
    → (rule.kind ≡ vm.kind)
      × (below_tier schema rule.min_tier tier ≡ false)
      × (drop_label rule vm (drop_dims rule kept) ≡ left)
apply_rule-ok schema vm name tier rule kept left h = elim (Bool-cases (str_eq rule.kind vm.kind)) [
  | inl same ↦ elim (Bool-cases (below_tier schema rule.min_tier tier)) [
    | inl below ↦ cc (rw (same, below) at h)
    | inr fine ↦ ((str_eq_iff rule.kind vm.kind).0 same, fine, ok-injective (rw (same, fine) at h))
  ]
  | inr other ↦ cc (rw other at h)
]

pub check_catalog-declared :
    (schema : Schema) (strict : Bool) (catalog : Str → Str → Option CatalogRule) (metric : Str)
    (kept : Map Value) (tier : Str) (vm : VendorMetric) (rule : CatalogRule)
    → vendor_metric metric ≡ some vm
    → catalog (text_at (bytes "service.name") kept) (text_at vm.name_attr kept) ≡ some rule
    → ((rule.kind ≡ vm.kind)
        → below_tier schema rule.min_tier tier ≡ false
        → (left : Map Value) × (check_catalog schema strict catalog metric kept tier ≡ ok left))
      × ((left : Map Value)
          → check_catalog schema strict catalog metric kept tier ≡ ok left
          → (rule.kind ≡ vm.kind)
            × (below_tier schema rule.min_tier tier ≡ false)
            × ((k : Str) → lookup k left ≡ (if is_removed rule vm k then none else lookup k kept)))
unfolding check_catalog
check_catalog-declared schema strict catalog metric kept tier vm rule is_vendor is_declared =
    rw (is_vendor, is_declared)
      (
        λ same fine. (
          drop_label rule vm (drop_dims rule kept),
          rw ((str_eq_iff rule.kind vm.kind).1 same, fine) refl,
        ),
        λ left passed.
            let (same, fine, there) = apply_rule-ok schema vm _ tier rule kept left passed in
            (
              same,
              fine,
              λ k.
                  subst
                    (λ (m : Map Value).
                      lookup k m ≡ (if is_removed rule vm k then none else lookup k kept))
                    there (lookup-drop_label rule vm k kept),
            ),
      )

-- The tier of the point reaches the declared one: there is none, one of the two has no rank, or the rank
-- asked for is not above the point's.
abbrev pub MeetsTier : Schema → Str → Str → Type 0
MeetsTier schema min_tier tier =
    (min_tier ≡ [])
    ⊎ (tier_rank schema min_tier ≡ none)
    ⊎ (tier_rank schema tier ≡ none)
    ⊎ ((want : ℤ) × (got : ℤ) × (tier_rank schema min_tier ≡ some want)
        × (tier_rank schema tier ≡ some got)
        × (want ≤ℤ got))

pub below_tier-MeetsTier :
    (schema : Schema) (min_tier tier : Str)
    → below_tier schema min_tier tier ≡ false
    → MeetsTier schema min_tier tier
below_tier-MeetsTier schema m t h = elim (Bool-cases (str_eq m [])) [
  | inl e ↦ inl ((str_eq_iff m []).0 e)
  | inr e ↦ elim (Option-cases (tier_rank schema m)) [
    | inl n ↦ inr (inl n)
    | inr (want, w) ↦ elim (Option-cases (tier_rank schema t)) [
      | inl n ↦ inr (inr (inl n))
      | inr (got, g) ↦
          let k : ltb_ℤ got want ≡ false = rw (e, w, g) at h in
          inr (inr (inr (want, got, w, g, ground (arith, k))))
    ]
  ]
]

pub MeetsTier-below_tier :
    (schema : Schema) (min_tier tier : Str)
    → MeetsTier schema min_tier tier
    → below_tier schema min_tier tier ≡ false
MeetsTier-below_tier schema m t (inl e) = rw ((str_eq_iff m []).1 e) refl
MeetsTier-below_tier schema m t (inr (inl e)) = rw e (ground arith)
MeetsTier-below_tier schema m t (inr (inr (inl e))) = rw e (ground arith)
MeetsTier-below_tier schema m t (inr (inr (inr (want, got, w, g, le)))) = rw (w, g) (ground arith)

-- The catalog's rule for the service and the name of a point.
abbrev pub rule_for :
    (Str → Str → Option CatalogRule) → Map Value → VendorMetric → Option CatalogRule
rule_for catalog kept vm = catalog (text_at (bytes "service.name") kept) (text_at vm.name_attr kept)

pub check_catalog-undeclared :
    (schema : Schema) (strict : Bool) (catalog : Str → Str → Option CatalogRule) (metric : Str)
    (kept : Map Value) (tier : Str) (vm : VendorMetric) (left : Map Value)
    → vendor_metric metric ≡ some vm
    → rule_for catalog kept vm ≡ none
    → check_catalog schema strict catalog metric kept tier ≡ ok left
    → strict ≡ false
unfolding check_catalog
check_catalog-undeclared schema true catalog metric kept tier vm left v u h = cc (rw (v, u) at h)
check_catalog-undeclared schema false catalog metric kept tier vm left v u h = refl

pub check_catalog-other :
    (schema : Schema) (catalog : Str → Str → Option CatalogRule) (metric : Str) (kept : Map Value)
    (tier : Str)
    → ((strict : Bool)
        → vendor_metric metric ≡ none
        → check_catalog schema strict catalog metric kept tier ≡ ok kept)
      × ((vm : VendorMetric)
          → vendor_metric metric ≡ some vm
          → rule_for catalog kept vm ≡ none
          → check_catalog schema false catalog metric kept tier ≡ ok kept)
unfolding check_catalog
check_catalog-other schema catalog metric kept tier =
    (λ strict v. rw v refl, λ vm v u. rw (v, u) refl)
