-- ===== src/Examples/QueryCases.antt =====
-- internal/storage: the clause of a listing at a concrete filter.
use argvio.Prelude.{bytes, ◌≡◌, refl, true, none, some, [], ◌∷◌}
use argvio.Prelude.Int.{pos}
use argvio.Storage.Predicates.{
  Filters, text, time, boolean, list_traces_predicates, command_stats_predicates, vendor_predicates,
  session_activity_predicates, install_cohort_predicates, new_scoped_predicates, add,
  add_if_any_str, add_if_not_nil_i32, add_if_not_nil_bool, add_attr_equals, add_attr_contains,
  add_attr_in, add_attr_regex, add_pairs_of,
}
use argvio.Storage.Predicates.Bound.{conditions}
use argvio.Storage.Predicates.Tenant.{IsScoped, predicates-IsScoped}
use argvio.Storage.Predicates.Scoped.{trace_conditions, list_traces_reads}

abbrev filters : Filters
filters = record {
  from_time = pos 10;
  to_time = pos 20;
  cli_versions = [];
  oses = [];
  arches = [];
  command_names = [];
  exit_code = none;
  is_ci = some true;
  services = [];
  attrs = (bytes "cli.ci_provider", bytes "github_actions") ∷ [];
  attr_contains = [];
  attr_in = [];
  attr_regex = [];
  limit = pos 5;
  offset = pos 0;
}

-- tenant_id = $1, time >= $2, time < $3, is_ci = $4, (span_attributes ->> $5) = $6
numbered :
    (list_traces_predicates (bytes "t1") filters).args
    ≡ text (bytes "t1")
      ∷ time (pos 10)
      ∷ time (pos 20)
      ∷ boolean true
      ∷ text (bytes "cli.ci_provider")
      ∷ text (bytes "github_actions")
      ∷ []
unfolding list_traces_predicates new_scoped_predicates add add_if_any_str add_if_not_nil_i32
    add_if_not_nil_bool add_attr_equals add_attr_contains add_attr_in add_attr_regex add_pairs_of
numbered = refl

list_traces_reads_example :
    conditions (list_traces_predicates (bytes "t1") filters) ≡ trace_conditions (bytes "t1") filters
list_traces_reads_example = list_traces_reads (bytes "t1") filters

predicates-IsScoped_example :
    IsScoped (bytes "t1") (command_stats_predicates (bytes "t1") filters)
    × IsScoped (bytes "t1") (vendor_predicates (bytes "t1") filters)
    × IsScoped (bytes "t1") (session_activity_predicates (bytes "t1") filters)
    × IsScoped (bytes "t1") (install_cohort_predicates (bytes "t1") filters)
predicates-IsScoped_example = predicates-IsScoped (bytes "t1") filters
