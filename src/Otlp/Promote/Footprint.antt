-- ===== src/Otlp/Promote/Footprint.antt =====
-- The resource and build measures, and the split of what is left into the two JSON columns.
use argvio.Prelude.{
  Str, bytes, str_eq, str_eq_iff, ◌≡◌, refl, not, ◌&&◌, ◌||◌, none, [], ◌∷◌, if◌then◌else◌, arith,
}
use argvio.Prelude.Int.{pos}
use argvio.Prelude.Maps.{Map, lookup, insert, has, HasUniqueKeys, lookup-insert}
use argvio.Allowlist.{Value, Schema, is_standard_resource_attribute}
use argvio.Otlp.Promote.{
  pop_usage, pop_session_footprint, split_loop, split_remaining_attrs, max_plausible_peak_rss_bytes,
  max_plausible_cpu_time_ms, max_plausible_binary_size_bytes, max_plausible_startup_ms,
}
use argvio.Otlp.Promote.Laws.{plausible, column-pop_bounded, lookup-pop_bounded}

ruleset bounded_pops = (column-pop_bounded, lookup-pop_bounded)

-- The resource-usage columns hold the reported integers where those are plausible, at most 1 TiB and
-- 31 days on 1024 cores and not zero or below, and nothing otherwise; both keys leave the attributes
-- either way, and no other key does.
pub pop_usage-plausible :
    (kept : Map Value)
    → ((pop_usage kept).0.peak_rss_bytes
        ≡ plausible
            (pos 1)
            max_plausible_peak_rss_bytes
            (lookup (bytes "cli.process.peak_rss_bytes") kept))
      × ((pop_usage kept).0.cpu_time_ms
          ≡ plausible
              (pos 1)
              max_plausible_cpu_time_ms
              (lookup (bytes "cli.process.cpu_time_ms") kept))
      × ((j : Str)
          → lookup j (pop_usage kept).1 ≡ (
              if str_eq (bytes "cli.process.peak_rss_bytes") j
                || str_eq (bytes "cli.process.cpu_time_ms") j
              then none
              else lookup j kept))
unfolding pop_usage
pop_usage-plausible kept =
    (simp bounded_pops, unfold str_eq in simp bounded_pops, λ j. simp bounded_pops (ground arith))

-- Likewise for the build footprint: a binary of 1 byte to 4 GiB, a startup of at most an hour, where
-- zero is a measurement.
pub pop_session_footprint-plausible :
    (kept : Map Value)
    → ((pop_session_footprint kept).0.binary_size_bytes
        ≡ plausible
            (pos 1)
            max_plausible_binary_size_bytes
            (lookup (bytes "cli.binary.size_bytes") kept))
      × ((pop_session_footprint kept).0.startup_ms
          ≡ plausible
              (pos 0)
              max_plausible_startup_ms
              (lookup (bytes "cli.startup.duration_ms") kept))
      × ((j : Str)
          → lookup j (pop_session_footprint kept).1 ≡ (
              if str_eq (bytes "cli.binary.size_bytes") j
                || str_eq (bytes "cli.startup.duration_ms") j
              then none
              else lookup j kept))
unfolding pop_session_footprint
pop_session_footprint-plausible kept =
    (simp bounded_pops, unfold str_eq in simp bounded_pops, λ j. simp bounded_pops (ground arith))

module _ (schema : Schema) where
  lookup-split_loop :
      (kept res rec : Map Value) (j : Str)
      → HasUniqueKeys kept
      → (lookup j (split_loop schema kept res rec).0 ≡ (
          if has j kept && is_standard_resource_attribute schema j
          then lookup j kept
          else lookup j res))
        × (lookup j (split_loop schema kept res rec).1 ≡ (
            if has j kept && not (is_standard_resource_attribute schema j)
            then lookup j kept
            else lookup j rec))
  unfolding split_loop lookup
  lookup-split_loop [] res rec j u = (refl, refl)
  lookup-split_loop ((k, v) ∷ kept) res rec j u =
      let std = is_standard_resource_attribute schema k in
      let ih =
        lookup-split_loop kept (if std then insert k v res else res)
          (if std then rec else insert k v rec) j u.1 in
      (
        ground (arith, ih.0, lookup-insert k j v res, str_eq_iff k j, u.0),
        ground (arith, ih.1, lookup-insert k j v rec, str_eq_iff k j, u.0),
      )

  -- The split is a partition: a kept attribute goes, with its value, to the resource column if its key is
  -- a standard resource attribute and to the record column if not, and neither column holds anything else.
  pub split_remaining_attrs_partition :
      (kept : Map Value) (j : Str)
      → HasUniqueKeys kept
      → (lookup j (split_remaining_attrs schema kept).0
          ≡ (if is_standard_resource_attribute schema j then lookup j kept else none))
        × (lookup j (split_remaining_attrs schema kept).1
            ≡ (if is_standard_resource_attribute schema j then none else lookup j kept))
  unfolding split_remaining_attrs
  split_remaining_attrs_partition kept j u =
      let h = lookup-split_loop kept [] [] j u in
      (unfold lookup in ground (arith, h.0), unfold lookup in ground (arith, h.1))
