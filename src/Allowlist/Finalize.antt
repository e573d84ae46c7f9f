-- ===== src/Allowlist/Finalize.antt =====
-- internal/allowlist/schema.go: finalize, which validates a parsed schema and builds its indexes.
-- `compile` is regexp.Compile: the predicate that MatchString computes, or `none` for its error.
pub mod Families
pub mod Sorted
pub mod Events
pub mod Sound
use argvio.Prelude.{
  Str, bytes, str_eq, str_lt, has_suffix, ℕ, ◌≡◌, Bool, true, false, not, ◌&&◌, ◌||◌, Option, none,
  some, List, [], ◌∷◌, ◌++◌, length, ltb, Result, ok, err, ◌>>=◌, ◌>>◌, fail_if, or_fail, ◌==◌,
  if◌then◌else◌,
}
use argvio.Prelude.Int.{ℤ}
use argvio.Prelude.Float.{Float64, is_nan, is_inf, float_le}
use argvio.Prelude.Maps.{Map, insert, has}
use argvio.Allowlist.{
  Schema, Tier, AttrType, string, AttrDef, MetricDef, SpanDef, LogDef, Set, family_suffix,
  temporality_delta, temporality_cumulative,
}
use argvio.Allowlist.Check.{allowed_set, add_all}

pub data FinalizeError : Type 0 where
  no_consent_tiers : FinalizeError
  unknown_min_tier pattern_not_string invalid_pattern : Str → FinalizeError
  family_without_key_pattern key_pattern_not_family invalid_key_pattern : Str → FinalizeError
  undefined_attribute : Str → FinalizeError
  temporality_unsupported unknown_temporality : Str → FinalizeError
  bounds_not_histogram bounds_not_increasing : Str → FinalizeError
  required_not_allowed : Str → FinalizeError

abbrev pub Checked : Type 0 → Type 0
Checked = Result FinalizeError

abbrev is_string : AttrType → Bool
is_string string = true
is_string t = false

unfoldable pub rank_index : List Tier → Map ℤ → Map ℤ
rank_index [] m = m
rank_index (t ∷ tiers) m = rank_index tiers (insert t.name t.rank m)

module _ (compile : Str → Option (Str → Bool)) where
  unfoldable pub compile_pattern : AttrDef → Checked AttrDef
  compile_pattern def = if str_eq def.pattern [] then ok def else (do
    fail_if (not (is_string def.attr_type)) (pattern_not_string def.key)
    re ← or_fail (compile def.pattern) (invalid_pattern def.key)
    ok (record def { pattern_re = some re }))

  -- The switch on family keys: the definition with its key pattern, and whether it is a family.
  unfoldable pub compile_family : AttrDef → Checked (AttrDef × Bool)
  compile_family def =
      if has_suffix def.key family_suffix
      then (do
        fail_if (str_eq def.key_pattern []) (family_without_key_pattern def.key)
        re ← or_fail (compile def.key_pattern) (invalid_key_pattern def.key)
        ok (record def { key_pattern_re = some re }, true))
      else (do
        fail_if (not (str_eq def.key_pattern [])) (key_pattern_not_family def.key)
        ok (def, false))

  -- The body of the loop over the attributes.
  unfoldable pub finalize_attr : Map ℤ → Str → AttrDef → Checked (AttrDef × Bool)
  unfolding compile_pattern compile_family
  finalize_attr ranks k raw = do
    fail_if (not (has raw.min_tier ranks)) (unknown_min_tier k)
    def ← compile_pattern (record raw { key = k })
    compile_family def

  -- The loop: the attributes written back, and the families appended to those so far.
  unfoldable pub finalize_attrs :
      Map ℤ → Map AttrDef → List AttrDef → Checked (Map AttrDef × List AttrDef)
  finalize_attrs ranks [] fams = ok ([], fams)
  finalize_attrs ranks ((k, raw) ∷ rest) fams = do
    (def, is_family) ← finalize_attr ranks k raw
    (attrs, all_fams) ← finalize_attrs ranks rest (if is_family then fams ++ def ∷ [] else fams)
    ok ((k, def) ∷ attrs, all_fams)

-- The order of sort.Slice: longer keys first, then by key.
unfoldable pub family_before : AttrDef → AttrDef → Bool
family_before f g =
    if length f.key == length g.key then str_lt f.key g.key else ltb (length g.key) (length f.key)

unfoldable pub insert_family : AttrDef → List AttrDef → List AttrDef
insert_family f [] = f ∷ []
insert_family f (g ∷ gs) = if family_before g f then g ∷ insert_family f gs else f ∷ g ∷ gs

unfoldable pub sort_families : List AttrDef → List AttrDef
unfolding insert_family
sort_families [] = []
sort_families (f ∷ fs) = insert_family f (sort_families fs)

unfoldable pub check_attr_refs : Map AttrDef → List Str → Checked (Unit {0})
check_attr_refs attrs [] = ok tt
check_attr_refs attrs (k ∷ rest) = do
  fail_if (not (has k attrs)) (undefined_attribute k)
  check_attr_refs attrs rest

-- b <= previous, where there is a previous bound
abbrev not_above : Option Float64 → Float64 → Bool
not_above none b = false
not_above (some a) b = float_le b a

unfoldable pub check_bounds : Str → Option Float64 → List Float64 → Checked (Unit {0})
check_bounds name prev [] = ok tt
check_bounds name prev (b ∷ rest) = do
  fail_if (is_nan b || is_inf b || not_above prev b) (bounds_not_increasing name)
  check_bounds name (some b) rest

abbrev supports_temporality : MetricDef → Bool
supports_temporality m =
    str_eq m.metric_type (bytes "sum") || str_eq m.metric_type (bytes "histogram")

unfoldable pub check_temporality : MetricDef → Checked (Unit {0})
check_temporality m =
    if str_eq m.temporality []
    then ok tt
    else if str_eq m.temporality temporality_delta || str_eq m.temporality temporality_cumulative
    then fail_if (not (supports_temporality m)) (temporality_unsupported m.name)
    else err (unknown_temporality m.name)

unfoldable pub check_explicit_bounds : MetricDef → List Float64 → Checked (Unit {0})
check_explicit_bounds m [] = ok tt
check_explicit_bounds m (b ∷ bs) = do
  fail_if (not (str_eq m.metric_type (bytes "histogram"))) (bounds_not_histogram m.name)
  check_bounds m.name none (b ∷ bs)

unfoldable pub check_required : Set → List Str → Checked (Unit {0})
check_required allowed [] = ok tt
check_required allowed (k ∷ rest) = do
  fail_if (not (has k allowed)) (required_not_allowed k)
  check_required allowed rest

-- The body of the loop over the metrics.
unfoldable pub check_metric : Map AttrDef → MetricDef → Checked (Unit {0})
check_metric attrs m = do
  check_attr_refs attrs m.allowed_attributes
  check_temporality m
  check_explicit_bounds m m.explicit_bounds
  check_required (allowed_set m.allowed_attributes) m.required_attributes

unfoldable pub metric_index : Map AttrDef → List MetricDef → Map MetricDef → Checked (Map MetricDef)
metric_index attrs [] m = ok m
metric_index attrs (d ∷ rest) m = do
  check_metric attrs d
  metric_index attrs rest (insert d.name d m)

unfoldable pub check_spans : Map AttrDef → List SpanDef → Checked (Unit {0})
check_spans attrs [] = ok tt
check_spans attrs (sp ∷ rest) = do
  check_attr_refs attrs sp.allowed_attributes
  check_spans attrs rest

unfoldable pub log_index : Map AttrDef → List LogDef → Map LogDef → Checked (Map LogDef)
log_index attrs [] m = ok m
log_index attrs (l ∷ rest) m = do
  check_attr_refs attrs l.allowed_attributes
  log_index attrs rest (insert l.event_name l m)

abbrev is_empty {ℓ} : {A : Type ℓ} → List A → Bool
is_empty [] = true
is_empty (x ∷ xs) = false

unfoldable pub finalize : (Str → Option (Str → Bool)) → Schema → Checked Schema
finalize compile s = do
  let ranks = rank_index s.consent_tiers []
  fail_if (is_empty ranks) no_consent_tiers
  (attrs, fams) ← finalize_attrs compile ranks s.attributes s.families
  metrics ← metric_index attrs s.metrics []
  check_spans attrs s.spans
  logs ← log_index attrs s.logs []
  ok (record s {
    attributes = attrs;
    tier_ranks = ranks;
    standard_res_set = add_all s.standard_resource_attributes [];
    signal_type_set = add_all s.supported_signal_types [];
    metrics_by_name = metrics;
    logs_by_name = logs;
    families = sort_families fams;
  })
