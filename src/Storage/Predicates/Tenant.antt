-- ===== src/Storage/Predicates/Tenant.antt =====
-- Every query is restricted to the tenant of its caller.
use argvio.Prelude.{Str, bytes, ◌≡◌, List, [], ◌∷◌}
use argvio.Storage.Predicates.{
  text, time, PredicateBuilder, new_scoped_predicates, Filters, command_stats_predicates,
  vendor_predicates, session_activity_predicates, install_cohort_predicates,
}
use argvio.Storage.Predicates.Bound.{Read, Reads, conditions, one_value, add-Reads}
use argvio.Storage.Predicates.Scoped.{add_if_any_str-Reads, add_if_not_nil_bool-Reads, empty-Reads}

abbrev pub tenant_condition : Str → List Read
tenant_condition tenant_id = one_value (bytes "tenant_id = ") [] (text tenant_id)

-- The first condition is that the row is the tenant's; the others follow by AND.
abbrev pub IsScoped : Str → PredicateBuilder → Type 0
IsScoped tenant_id pb =
    (rest : List (List Read)) × (conditions pb ≡ tenant_condition tenant_id ∷ rest)

new_scoped_predicates-Reads :
    (tenant_id : Str)
    → Reads (new_scoped_predicates tenant_id (bytes "tenant_id")) (tenant_condition tenant_id ∷ [])
unfolding new_scoped_predicates
new_scoped_predicates-Reads tenant_id =
    add-Reads _ [] (bytes "tenant_id = ") [] (text tenant_id) empty-Reads

command_stats_predicates-Reads :
    (tenant_id : Str) (f : Filters)
    → (rest : List (List Read)) × Reads
        (command_stats_predicates tenant_id f)
        (tenant_condition tenant_id ∷ rest)
unfolding command_stats_predicates
command_stats_predicates-Reads tenant_id f =
    let times = add-Reads _ _ (bytes "bucket < ") [] (time f.to_time) (
      add-Reads _ _ (bytes "bucket >= ") [] (time f.from_time)
        (new_scoped_predicates-Reads tenant_id)) in
    let columns = add_if_any_str-Reads _ _ (bytes "arch") f.arches (
      add_if_any_str-Reads _ _ (bytes "os") f.oses (
        add_if_any_str-Reads _ _ (bytes "cli_version") f.cli_versions
          (add_if_any_str-Reads _ _ (bytes "command_name") f.command_names times))) in
    (_, add_if_not_nil_bool-Reads _ _ (bytes "is_ci") f.is_ci columns)

command_stats_predicates-IsScoped :
    (tenant_id : Str) (f : Filters) → IsScoped tenant_id (command_stats_predicates tenant_id f)
command_stats_predicates-IsScoped tenant_id f =
    let (rest, found) = command_stats_predicates-Reads tenant_id f in (rest, found.reads)

vendor_predicates-IsScoped :
    (tenant_id : Str) (f : Filters) → IsScoped tenant_id (vendor_predicates tenant_id f)
unfolding vendor_predicates
vendor_predicates-IsScoped tenant_id f =
    let (rest, found) = command_stats_predicates-Reads tenant_id f in
    (_, (add_if_any_str-Reads _ _ (bytes "service_name") f.services found).reads)

session_activity_predicates-IsScoped :
    (tenant_id : Str) (f : Filters) → IsScoped tenant_id (session_activity_predicates tenant_id f)
unfolding session_activity_predicates
session_activity_predicates-IsScoped tenant_id f =
    let times = add-Reads _ _ (bytes "bucket < ") [] (time f.to_time) (
      add-Reads _ _ (bytes "bucket >= ") [] (time f.from_time)
        (new_scoped_predicates-Reads tenant_id)) in
    let columns = add_if_any_str-Reads _ _ (bytes "arch") f.arches (
      add_if_any_str-Reads _ _ (bytes "os") f.oses
        (add_if_any_str-Reads _ _ (bytes "cli_version") f.cli_versions times)) in
    (_, (add_if_not_nil_bool-Reads _ _ (bytes "is_ci") f.is_ci columns).reads)

install_cohort_predicates-IsScoped :
    (tenant_id : Str) (f : Filters) → IsScoped tenant_id (install_cohort_predicates tenant_id f)
unfolding install_cohort_predicates
install_cohort_predicates-IsScoped tenant_id f =
    let times = add-Reads _ _ (bytes "first_seen < ") [] (time f.to_time) (
      add-Reads _ _ (bytes "first_seen >= ") [] (time f.from_time)
        (new_scoped_predicates-Reads tenant_id)) in
    (
      _,
      (add_if_any_str-Reads _ _ (bytes "last_arch") f.arches (
          add_if_any_str-Reads _ _ (bytes "last_os") f.oses
            (add_if_any_str-Reads _ _ (bytes "first_version") f.cli_versions times))).reads,
    )

-- The predicates of the command statistics, the vendor metrics, the sessions and the install cohorts begin with
-- the condition on the caller's tenant, bound to its id, whatever the filters.
pub predicates-IsScoped :
    (tenant_id : Str) (f : Filters)
    → IsScoped tenant_id (command_stats_predicates tenant_id f)
      × IsScoped tenant_id (vendor_predicates tenant_id f)
      × IsScoped tenant_id (session_activity_predicates tenant_id f)
      × IsScoped tenant_id (install_cohort_predicates tenant_id f)
predicates-IsScoped tenant_id f = (
  command_stats_predicates-IsScoped tenant_id f,
  vendor_predicates-IsScoped tenant_id f,
  session_activity_predicates-IsScoped tenant_id f,
  install_cohort_predicates-IsScoped tenant_id f,
)
