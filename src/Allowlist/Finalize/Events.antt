-- ===== src/Allowlist/Finalize/Events.antt =====
-- The loops over metrics, spans and logs: every key that an accepted definition lists is defined.
use argvio.Prelude.{
  Str, ◌≡◌, refl, subst, true, false, Option, none, some, List, [], ◌∷◌, All, arith, ok, ok_of_bind,
  ok-injective,
}
use argvio.Prelude.Float.{Float64, is_nan, is_inf, float_le}
use argvio.Prelude.Maps.{IndexGood, insert-IndexGood, Map, insert, has}
use argvio.Allowlist.{AttrDef, MetricDef, SpanDef, LogDef, Set}
use argvio.Allowlist.Check.{allowed_set}
use argvio.Allowlist.Finalize.{
  check_attr_refs, check_bounds, check_temporality, check_required, check_explicit_bounds,
  check_metric, metric_index, check_spans, log_index,
}

-- Every listed key is defined.
abbrev pub RefsDefined : Map AttrDef → List Str → Type 0
RefsDefined attrs = All (λ k. has k attrs ≡ true)

pub check_attr_refs-RefsDefined :
    (attrs : Map AttrDef) (ks : List Str) → check_attr_refs attrs ks ≡ ok tt → RefsDefined attrs ks
unfolding check_attr_refs
check_attr_refs-RefsDefined attrs [] h = tt
check_attr_refs-RefsDefined attrs (k ∷ ks) h = ground (arith, check_attr_refs-RefsDefined attrs ks)

-- Finite bounds, each above the one before it.
abbrev pub Increasing : Option Float64 → List Float64 → Type 0
Increasing prev [] = Unit
Increasing none (b ∷ bs) = (is_nan b ≡ false) × (is_inf b ≡ false) × Increasing (some b) bs
Increasing (some a) (b ∷ bs) =
    (is_nan b ≡ false) × (is_inf b ≡ false) × (float_le b a ≡ false) × Increasing (some b) bs

pub check_bounds-Increasing :
    (name : Str) (prev : Option Float64) (bs : List Float64)
    → check_bounds name prev bs ≡ ok tt
    → Increasing prev bs
unfolding check_bounds
check_bounds-Increasing name prev [] h = tt
check_bounds-Increasing name none (b ∷ bs) h =
    ground (arith, check_bounds-Increasing name (some b) bs)
check_bounds-Increasing name (some a) (b ∷ bs) h =
    ground (arith, check_bounds-Increasing name (some b) bs)

pub record IsMetric (attrs : Map AttrDef) (m : MetricDef) : Type 0 where
  pub refs : RefsDefined attrs m.allowed_attributes
  pub increasing : Increasing none m.explicit_bounds
  pub required : All (λ k. has k (allowed_set m.allowed_attributes) ≡ true) m.required_attributes

pub check_explicit_bounds-Increasing :
    (m : MetricDef) (bs : List Float64) → check_explicit_bounds m bs ≡ ok tt → Increasing none bs
unfolding check_explicit_bounds
check_explicit_bounds-Increasing m [] h = tt
check_explicit_bounds-Increasing m (b ∷ bs) h =
    check_bounds-Increasing m.name none (b ∷ bs) (ground arith)

pub check_required-All :
    (allowed : Set) (ks : List Str)
    → check_required allowed ks ≡ ok tt
    → All (λ k. has k allowed ≡ true) ks
unfolding check_required
check_required-All allowed [] h = tt
check_required-All allowed (k ∷ ks) h = ground (arith, check_required-All allowed ks)

pub check_metric-IsMetric :
    (attrs : Map AttrDef) (m : MetricDef) → check_metric attrs m ≡ ok tt → IsMetric attrs m
unfolding check_metric
check_metric-IsMetric attrs m h =
    let (_, refs, h1) = ok_of_bind (check_attr_refs attrs m.allowed_attributes) _ h in
    let (_, _, h2) = ok_of_bind (check_temporality m) _ h1 in
    let (_, bounds, h3) = ok_of_bind (check_explicit_bounds m m.explicit_bounds) _ h2 in
    record {
      refs = check_attr_refs-RefsDefined attrs m.allowed_attributes refs;
      increasing = check_explicit_bounds-Increasing m m.explicit_bounds bounds;
      required = check_required-All (allowed_set m.allowed_attributes) m.required_attributes h3;
    }

abbrev pub MetricGood : Map AttrDef → Str → MetricDef → Type 0
MetricGood attrs k m = IsMetric attrs m × (m.name ≡ k)

abbrev pub LogGood : Map AttrDef → Str → LogDef → Type 0
LogGood attrs k l = RefsDefined attrs l.allowed_attributes × (l.event_name ≡ k)

pub metric_index-IndexGood :
    (attrs : Map AttrDef) (ds : List MetricDef) (m r : Map MetricDef)
    → IndexGood (MetricGood attrs) m
    → metric_index attrs ds m ≡ ok r
    → IndexGood (MetricGood attrs) r
unfolding metric_index
metric_index-IndexGood attrs [] m r g h = subst (IndexGood (MetricGood attrs)) (ok-injective h) g
metric_index-IndexGood attrs (d ∷ ds) m r g h =
    let (_, e, h1) = ok_of_bind (check_metric attrs d) _ h in
    metric_index-IndexGood attrs ds (insert d.name d m) r
      (insert-IndexGood (MetricGood attrs) d.name d m (check_metric-IsMetric attrs d e, refl) g) h1

pub log_index-IndexGood :
    (attrs : Map AttrDef) (ls : List LogDef) (m r : Map LogDef)
    → IndexGood (LogGood attrs) m
    → log_index attrs ls m ≡ ok r
    → IndexGood (LogGood attrs) r
unfolding log_index
log_index-IndexGood attrs [] m r g h = subst (IndexGood (LogGood attrs)) (ok-injective h) g
log_index-IndexGood attrs (l ∷ ls) m r g h =
    let (_, e, h1) = ok_of_bind (check_attr_refs attrs l.allowed_attributes) _ h in
    log_index-IndexGood attrs ls (insert l.event_name l m) r
      (insert-IndexGood (LogGood attrs) l.event_name l m
        (check_attr_refs-RefsDefined attrs l.allowed_attributes e, refl) g)
      h1

pub check_spans-All :
    (attrs : Map AttrDef) (sps : List SpanDef)
    → check_spans attrs sps ≡ ok tt
    → All (λ sp. RefsDefined attrs sp.allowed_attributes) sps
unfolding check_spans
check_spans-All attrs [] h = tt
check_spans-All attrs (sp ∷ sps) h =
    let (_, e, h1) = ok_of_bind (check_attr_refs attrs sp.allowed_attributes) _ h in
    (check_attr_refs-RefsDefined attrs sp.allowed_attributes e, check_spans-All attrs sps h1)
