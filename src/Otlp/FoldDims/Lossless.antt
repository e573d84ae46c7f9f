-- ===== src/Otlp/FoldDims/Lossless.antt =====
-- Dimensions are read back from the label that they were folded into, and none is left beside it.
use argvio.Prelude.{
  Str, bytes, any, subst, some-eq-some, if_of_true, has_prefix-append, str_eq, str_eq_iff,
  str_eq_refl, str_eq_other, str_eq_prefix, if_of_false, cut_prefix, has_prefix, cut_prefix→append,
  cut_prefix-append, ◌≡◌, refl, ap, ◌∙◌, sym, inl, inr, true, false, none, some, List, [], ◌∷◌,
  ◌++◌, length, ◌==◌, if◌then◌else◌, ok, All, arith, Bool-cases, Option-cases, is_some, ok_of_bind,
  ok_of_check, ok-injective,
}
use argvio.Prelude.Int.{ℤ, pos, ltb_ℤ}
use argvio.Prelude.Maps.{Map, no_keys, lookup, has, lookup-insert, HasUniqueKeys, insert-All}
use argvio.Allowlist.{Value, str}
use argvio.Storage.Dims.{contains_byte, dim_label_key, dim_pair_sep, format_dims, parse_dims}
use argvio.Storage.Dims.Tuple.{IsDim, IsKey, Lacks, parse_dims-format_dims}
use argvio.Otlp.Catalog.{attr_dim_prefix, text_at, text_of, vendor_metric, VendorMetric}
use argvio.Otlp.FoldDims.{
  vendor_label_attr, check_dropped, add_dim, collect_dims, add_label, without_dims, fold_found,
  fold_dims,
}

abbrev dim_attr : Str → Str
dim_attr key = attr_dim_prefix ++ key

lookup-add_dim :
    (dims : Map Str) (k : Str) (v : Value) (key : Str)
    → lookup key (add_dim dims (cut_prefix k attr_dim_prefix) v)
      ≡ (if str_eq k (dim_attr key) then some (text_of (some v)) else lookup key dims)
lookup-add_dim dims k v key = elim (Option-cases (cut_prefix k attr_dim_prefix)) [
  | inl e ↦
      let other : str_eq k (dim_attr key) ≡ false = str_eq_other k (dim_attr key) (λ same. cc (
        sym e,
        ap (λ s. cut_prefix s attr_dim_prefix) same,
        cut_prefix-append attr_dim_prefix key,
      )) in
      rw e (sym (if_of_false _ _ _ other))
  | inr (found, e) ↦
      let shape = cut_prefix→append k attr_dim_prefix found e in
      let same : str_eq k (dim_attr key) ≡ str_eq found key =
        ap (λ s. str_eq s (dim_attr key)) shape ∙ str_eq_prefix attr_dim_prefix found key in
      rw (e, same) (lookup-insert found key (text_of (some v)) dims)
]

-- The value collected under a key is that of the attribute.
lookup-collect_dims :
    (dims : Map Str) (kept : Map Value) (key : Str)
    → HasUniqueKeys kept
    → lookup key (collect_dims dims kept) ≡ (
        if has (dim_attr key) kept
        then some (text_of (lookup (dim_attr key) kept))
        else lookup key dims)
unfolding collect_dims lookup
lookup-collect_dims dims [] key unique = refl
lookup-collect_dims dims ((k, v) ∷ kept) key unique =
    let later =
      lookup-collect_dims (add_dim dims (cut_prefix k attr_dim_prefix) v) kept key unique.1 in
    let same : str_eq k (dim_attr key) ≡ true → has (dim_attr key) kept ≡ false =
      λ e. sym (ap (λ s. has s kept) ((str_eq_iff k (dim_attr key)).0 e)) ∙ unique.0 in
    ground (arith, later, lookup-add_dim dims k v key, same)

-- The label attributes are named, and are no dimensions.
named_as :
    (vm : VendorMetric) (key : Str) (made : VendorMetric)
    → some made ≡ some vm
    → str_eq made.label_attr [] ≡ false
    → str_eq made.label_attr (dim_attr key) ≡ false
    → (str_eq vm.label_attr [] ≡ false) × (str_eq vm.label_attr (dim_attr key) ≡ false)
named_as vm key made h named no_dim =
    let same = ap (λ (v : VendorMetric). v.label_attr) (some-eq-some (sym h)) in
    (ap (λ l. str_eq l []) same ∙ named, ap (λ l. str_eq l (dim_attr key)) same ∙ no_dim)

label-IsKey : IsKey dim_label_key
unfolding contains_byte any
label-IsKey = (refl, refl)

vendor_label :
    (metric : Str) (vm : VendorMetric) (key : Str)
    → vendor_metric metric ≡ some vm
    → (str_eq vm.label_attr [] ≡ false) × (str_eq vm.label_attr (dim_attr key) ≡ false)
unfolding vendor_metric str_eq
vendor_label metric vm key h = elim (Bool-cases (str_eq metric (bytes "cli.counter"))) [
  | inl e ↦ named_as vm key _ (rw e at h) refl refl
  | inr e ↦ elim (Bool-cases (str_eq metric (bytes "cli.measure"))) [
    | inl f ↦ named_as vm key _ (rw (e, f) at h) refl refl
    | inr f ↦ elim (Bool-cases (str_eq metric (bytes "cli.value"))) [
      | inl g ↦ named_as vm key _ (rw (e, f, g) at h) refl refl
      | inr g ↦ cc (rw (e, f, g) at h)
    ]
  ]
]

add_label-IsDim :
    (label_attr label : Str) (found dims : Map Str)
    → All (λ e. IsDim e.0 e.1) found
    → Lacks dim_pair_sep label
    → add_label label_attr label found ≡ ok dims
    → All (λ e. IsDim e.0 e.1) dims
unfolding add_label
add_label-IsDim label_attr label found dims all lacks h = elim (Bool-cases (str_eq label [])) [
  | inl e ↦ subst (All (λ e. IsDim e.0 e.1)) (ok-injective (rw e at h)) all
  | inr e ↦ elim (Bool-cases (has dim_label_key found)) [
    | inl f ↦ cc (rw (e, f) at h)
    | inr f ↦
        subst (All (λ e. IsDim e.0 e.1)) (ok-injective (rw (e, f) at h))
          (insert-All IsDim dim_label_key label found (label-IsKey, lacks) all)
  ]
]

lookup-add_label :
    (label_attr label : Str) (found dims : Map Str) (key value : Str)
    → add_label label_attr label found ≡ ok dims
    → lookup key found ≡ some value
    → lookup key dims ≡ some value
unfolding add_label
lookup-add_label label_attr label found dims key value h e =
    let same : str_eq dim_label_key key ≡ true → has dim_label_key found ≡ has key found =
      λ q. ap (λ k. has k found) ((str_eq_iff dim_label_key key).0 q) in
    elim (Bool-cases (str_eq label [])) [
      | inl f ↦ ap (lookup key) (sym (ok-injective (rw f at h))) ∙ e
      | inr f ↦ elim (Bool-cases (has dim_label_key found)) [
        | inl g ↦ cc (rw (f, g) at h)
        | inr g ↦
            ap (lookup key) (sym (ok-injective (rw (f, g) at h)))
            ∙ lookup-insert dim_label_key key label found
            ∙ ground (arith, g, same, e)
      ]
    ]

lookup-without_dims :
    (kept : Map Value) (k : Str)
    → has_prefix k attr_dim_prefix ≡ true
    → lookup k (without_dims kept) ≡ none
unfolding without_dims lookup
lookup-without_dims [] k h = refl
lookup-without_dims (entry ∷ kept) k h =
    let same : str_eq entry.0 k ≡ true
        → has_prefix entry.0 attr_dim_prefix ≡ has_prefix k attr_dim_prefix =
      λ q. ap (λ s. has_prefix s attr_dim_prefix) ((str_eq_iff entry.0 k).0 q) in
    ground (arith, lookup-without_dims kept k h, same, h)

-- A dimension that foldDims accepts on a vendor metric is read back from the point's label by ParseDims, and
-- its attribute is gone, when keys have neither = nor ; in them and values no ;, as the label's own.
pub fold_dims-lossless :
    (metric : Str) (vm : VendorMetric) (limit : ℤ) (kept made : Map Value) (dropped : List Str)
    (key value : Str)
    → vendor_metric metric ≡ some vm
    → HasUniqueKeys kept
    → All (λ e. IsDim e.0 e.1) (collect_dims [] kept)
    → Lacks dim_pair_sep (text_at vm.label_attr kept)
    → fold_dims metric limit kept dropped ≡ ok made
    → lookup (dim_attr key) kept ≡ some (str value)
    → (lookup key (parse_dims (text_at vm.label_attr made)) ≡ some value)
      × (lookup (dim_attr key) made ≡ none)
unfolding fold_dims fold_found vendor_label_attr
fold_dims-lossless metric vm limit kept made dropped key value is_vendor unique all lacks h
      carries =
    let (named, no_dim) = vendor_label metric vm key is_vendor in
    let found = collect_dims [] kept in
    let collected : lookup key found ≡ some value =
      lookup-collect_dims [] kept key unique ∙ ground (arith, carries) in
    let h0 = rw (is_vendor, named) at h in
    let (u, e, h1) = ok_of_bind (check_dropped dropped) _ h0 in
    elim (Bool-cases (length found == 0)) [
      | inl empty ↦ absurd (no_keys found key (ground (arith, empty)) (ap is_some collected))
      | inr some_found ↦
          let (dims, e2, h2) =
            ok_of_bind (add_label vm.label_attr (text_at vm.label_attr kept) found) _
              (rw some_found at h1) in
          let same = sym (ok-injective (ok_of_check (ltb_ℤ limit (pos (length dims))) _ _ h2)) in
          let label : text_at vm.label_attr made ≡ format_dims dims =
            ap (text_at vm.label_attr) same
            ∙ ap text_of (
                lookup-insert vm.label_attr vm.label_attr (str (format_dims dims))
                  (without_dims kept)
                ∙ if_of_true _ _ _ (str_eq_refl vm.label_attr)) in
          (
            ap (λ l. lookup key (parse_dims l)) label
                ∙ parse_dims-format_dims dims key (
                    add_label-IsDim vm.label_attr (text_at vm.label_attr kept) found dims all lacks
                      e2)
                ∙ lookup-add_label vm.label_attr (text_at vm.label_attr kept) found dims key value
                    e2 collected,
            ap (lookup (dim_attr key)) same
                ∙ lookup-insert vm.label_attr (dim_attr key) (str (format_dims dims))
                    (without_dims kept)
                ∙ if_of_false _ _ _ no_dim
                ∙ lookup-without_dims kept (dim_attr key) (has_prefix-append attr_dim_prefix key),
          )
    ]
