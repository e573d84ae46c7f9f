-- ===== src/Otlp/Catalog/Kept.antt =====
-- internal/otlp/catalog.go: what checkCatalog takes from a point of a declared vendor metric.
use argvio.Prelude.{
  Str, bytes, str_eq, str_eq_iff, cut_prefix, cut_prefix→append, cut_prefix-append, member,
  IsMember, ◌≡◌, refl, sym, ap, ◌∙◌, ◌⊎◌, Bool, true, false, Option, Option-cases, none, some, List,
  [], ◌∷◌, ◌++◌, ok, arith, Bool-cases, inl, inr, some-eq-some,
}
use argvio.Prelude.Maps.{Map, lookup}
use argvio.Allowlist.{Value, Schema}
use argvio.Storage.Dims.{dim_label_key}
use argvio.Otlp.Catalog.{
  VendorMetric, CatalogRule, attr_dim_prefix, is_undeclared_dim, check_catalog,
}
use argvio.Otlp.Catalog.Accepts.{IsVendor, HasText, IsVendor-vendor_metric, rule_for-HasText}
use argvio.Otlp.Catalog.Declared.{is_removed, check_catalog-declared}

member→IsMember : (xs : List Str) (s : Str) → member xs s ≡ true → IsMember s xs
unfolding member
member→IsMember [] s h = cc h
member→IsMember (x ∷ xs) s h = elim (Bool-cases (str_eq x s)) [
  | inl e ↦ inl (sym ((str_eq_iff x s).0 e))
  | inr e ↦ inr (member→IsMember xs s (ground (arith, e, h)))
]

IsMember→member : (xs : List Str) (s : Str) → IsMember s xs → member xs s ≡ true
unfolding member
IsMember→member [] s h = absurd h
IsMember→member (x ∷ xs) s (inl e) = rw ((str_eq_iff x s).1 (sym e)) refl
IsMember→member (x ∷ xs) s (inr h) = ground (arith, IsMember→member xs s h)

not-IsMember : (xs : List Str) (s : Str) → member xs s ≡ false → ¬ IsMember s xs
not-IsMember xs s h m = cc (h, IsMember→member xs s m)

-- What a rule takes away: a dimension, under the prefix of dimensions, that it does not list, and the
-- label of the metric where it does not list "label".
abbrev pub IsRemoved : CatalogRule → VendorMetric → Str → Type 0
IsRemoved rule vm k =
    ((d : Str) × (k ≡ bytes "cli.dim." ++ d) × (¬ IsMember d rule.dims))
    ⊎ ((k ≡ vm.label_attr) × (¬ IsMember (bytes "label") rule.dims))

-- The code's test of an attribute's key, and what it finds.
is_undeclared_dim_cases :
    (rule : CatalogRule) (k : Str)
    → ((is_undeclared_dim rule k ≡ true)
        × ((d : Str) × (k ≡ bytes "cli.dim." ++ d) × (¬ IsMember d rule.dims)))
      ⊎ ((is_undeclared_dim rule k ≡ false)
          × (¬ ((d : Str) × (k ≡ bytes "cli.dim." ++ d) × (¬ IsMember d rule.dims))))
is_undeclared_dim_cases rule k = elim (Option-cases (cut_prefix k attr_dim_prefix)) [
  | inl n ↦ inr (
    rw n refl,
    λ (d, e, out).
        cc (n, ap (λ s. cut_prefix s attr_dim_prefix) e ∙ cut_prefix-append attr_dim_prefix d),
  )
  | inr (d, c) ↦ elim (Bool-cases (member rule.dims d)) [
    | inl m ↦ inr (
      rw (c, m) refl,
      λ (g, e, out).
          let same = some-eq-some (
            sym c
            ∙ ap (λ s. cut_prefix s attr_dim_prefix) e
            ∙ cut_prefix-append attr_dim_prefix g) in
          out (member→IsMember rule.dims g (ap (member rule.dims) (sym same) ∙ m)),
    )
    | inr m ↦ inl (rw (c, m) refl, (d, cut_prefix→append k _ d c, not-IsMember rule.dims d m))
  ]
]

is_removed_cases :
    (rule : CatalogRule) (vm : VendorMetric) (k : Str)
    → ((is_removed rule vm k ≡ true) × IsRemoved rule vm k)
      ⊎ ((is_removed rule vm k ≡ false) × (¬ IsRemoved rule vm k))
is_removed_cases rule vm k = elim (is_undeclared_dim_cases rule k) [
  | inl (t, gone) ↦ inl (rw t refl, inl gone)
  | inr (f, stays) ↦ elim (Bool-cases (str_eq vm.label_attr k)) [
    | inr other ↦ inr (
      rw (f, other) refl,
      λ r. elim r [
        | inl gone ↦ stays gone
        | inr (e, out) ↦ cc (other, (str_eq_iff vm.label_attr k).1 (sym e))
      ],
    )
    | inl label ↦ elim (Bool-cases (member rule.dims dim_label_key)) [
      | inl m ↦ inr (
        rw (f, label, m) refl,
        λ r. elim r [
          | inl gone ↦ stays gone
          | inr (e, out) ↦ out (member→IsMember rule.dims dim_label_key m)
        ],
      )
      | inr m ↦ inl (
        rw (f, label, m) refl,
        inr (sym ((str_eq_iff vm.label_attr k).0 label), not-IsMember rule.dims dim_label_key m),
      )
    ]
  ]
]

-- A point of a declared vendor metric that passes loses exactly the dimensions, the keys `cli.dim.` and a name,
-- whose name the rule does not list, and the label of its metric where the rule does not list "label":
-- every other key holds what it held.
pub check_catalog-keeps :
    (schema : Schema) (strict : Bool) (catalog : Str → Str → Option CatalogRule) (metric : Str)
    (kept : Map Value) (tier : Str) (vm : VendorMetric) (service name : Str) (rule : CatalogRule)
    (left : Map Value) (k : Str)
    → IsVendor metric vm
    → HasText (bytes "service.name") kept service
    → HasText vm.name_attr kept name
    → catalog service name ≡ some rule
    → check_catalog schema strict catalog metric kept tier ≡ ok left
    → ((lookup k left ≡ none) × IsRemoved rule vm k)
      ⊎ ((lookup k left ≡ lookup k kept) × (¬ IsRemoved rule vm k))
check_catalog-keeps schema strict catalog metric kept tier vm service name rule left k v s n d h =
    let (_, _, lookups) =
      (check_catalog-declared schema strict catalog metric kept tier vm rule
          (IsVendor-vendor_metric metric vm v)
          (rule_for-HasText catalog kept vm service name s n ∙ d)).1
        left h in
    elim (is_removed_cases rule vm k) [
      | inl (t, gone) ↦ inl (rw (lookups k, t) refl, gone)
      | inr (f, stays) ↦ inr (rw (lookups k, f) refl, stays)
    ]
