-- ===== src/Allowlist/Finalize/Sound.antt =====
-- What finalize guarantees of a schema that it accepts.
use argvio.Prelude.{
  Str, ◌≡◌, refl, sym, ap, subst, ◌∙◌, Bool, true, Option, List, [], ◌++◌, All, ok, ok_of_bind,
  ok-injective, fail_if,
}
use argvio.Prelude.Maps.{IndexGood, nil-IndexGood, has}
use argvio.Allowlist.{Schema, AttrDef}
use argvio.Allowlist.Finalize.{
  rank_index, finalize_attrs, metric_index, check_spans, log_index, finalize, is_empty,
  no_consent_tiers,
}
use argvio.Allowlist.Finalize.Families.{IsFamily, finalize_attrs-Good}
use argvio.Allowlist.Finalize.Sorted.{LongestFirst, sort_families-All, sort_families-LongestFirst}
use argvio.Allowlist.Finalize.Events.{
  RefsDefined, MetricGood, LogGood, metric_index-IndexGood, log_index-IndexGood, check_spans-All,
}

-- The invariant of a schema that ingest may use.
pub record IsFinal (s : Schema) : Type 0 where
  pub ranks : s.tier_ranks ≡ rank_index s.consent_tiers []
  pub attrs :
      All
        (λ entry. (entry.1.key ≡ entry.0) × (has entry.1.min_tier s.tier_ranks ≡ true))
        s.attributes
  pub families : All (λ f. IsFamily f × (has f.key s.attributes ≡ true)) s.families
  pub longest : LongestFirst s.families
  pub metrics : IndexGood (MetricGood s.attributes) s.metrics_by_name
  pub spans : All (λ sp. RefsDefined s.attributes sp.allowed_attributes) s.spans
  pub logs : IndexGood (LogGood s.attributes) s.logs_by_name

-- finalize accepts only schemas that keep the invariant: each attribute stands under its own key and
-- has a tier of the schema; each family has the family suffix, a compiled key pattern and a definition,
-- and none stands before one with a longer key; each metric, span and log that a lookup can return
-- lists defined attributes only, and a metric's bounds are finite and increasing and its required
-- attributes allowed. The schema is freshly parsed: no families before the loop.
pub finalize-IsFinal :
    (compile : Str → Option (Str → Bool)) (raw s : Schema)
    → raw.families ≡ []
    → finalize compile raw ≡ ok s
    → IsFinal s
unfolding finalize
finalize-IsFinal compile raw s fresh h =
    let ranks = rank_index raw.consent_tiers [] in
    let (_, _, h0) = ok_of_bind (fail_if (is_empty ranks) no_consent_tiers) _ h in
    let (a, ea, h1) = ok_of_bind (finalize_attrs compile ranks raw.attributes raw.families) _ h0 in
    let (ms, em, h2) = ok_of_bind (metric_index a.0 raw.metrics []) _ h1 in
    let (_, es, h3) = ok_of_bind (check_spans a.0 raw.spans) _ h2 in
    let (ls, el, h4) = ok_of_bind (log_index a.0 raw.logs []) _ h3 in
    let good = finalize_attrs-Good compile ranks raw.attributes raw.families a.0 a.1 ea in
    let fams : All (λ f. IsFamily f × (has f.key a.0 ≡ true)) a.1 =
      subst (All (λ f. IsFamily f × (has f.key a.0 ≡ true)))
        (sym (good.1.1 ∙ ap (λ (l : List AttrDef). l ++ good.1.0) fresh)) good.1.2 in
    subst IsFinal (ok-injective h4) (record {
      ranks = refl;
      attrs = good.0;
      families = sort_families-All _ a.1 fams;
      longest = sort_families-LongestFirst a.1;
      metrics = metric_index-IndexGood a.0 raw.metrics [] ms (nil-IndexGood _) em;
      spans = check_spans-All a.0 raw.spans es;
      logs = log_index-IndexGood a.0 raw.logs [] ls (nil-IndexGood _) el;
    })
