-- ===== src/Storage/Predicates.antt =====
-- internal/storage/query.go: the WHERE clause of a query and the arguments that it binds. A clause is its
-- text with its placeholders, $1 the first argument; a time is in nanoseconds.
pub mod Bound
pub mod Scoped
pub mod Tenant
use Prim.Native.String.{String}
use argvio.Prelude.{
  Str, bytes, ℕ, suc, ◌+◌, ◌-◌, Bool, true, false, Option, none, some, List, [], ◌∷◌, ◌++◌, length,
  ltb, if◌then◌else◌,
}
use argvio.Prelude.Int.{ℤ, pos, leb_ℤ, ltb_ℤ}
use argvio.Prelude.Maps.{Map}

-- What a query binds.
pub data Arg : Type 0 where
  text : Str → Arg
  texts : List Str → Arg
  int32 : ℤ → Arg
  boolean : Bool → Arg
  time : ℤ → Arg

-- A piece of a clause: SQL text, or $n.
pub data Piece : Type 0 where
  sql : Str → Piece
  placeholder : ℕ → Piece

abbrev pub Clause : Type 0
Clause = List Piece

pub record PredicateBuilder : Type 0 where
  pub clauses : List Clause
  pub args : List Arg

-- A clause of one argument: text, $n, text.
abbrev pub clause_at : Str → Str → ℕ → Clause
clause_at before after n = sql before ∷ placeholder n ∷ sql after ∷ []

unfoldable pub add : PredicateBuilder → Str → Str → Arg → PredicateBuilder
add pb before after arg =
    let args = pb.args ++ arg ∷ [] in
    record { clauses = pb.clauses ++ clause_at before after (length args) ∷ []; args = args }

abbrev pub equals : Str → Str
equals col = col ++ bytes " = "

unfoldable pub new_scoped_predicates : Str → Str → PredicateBuilder
new_scoped_predicates tenant_id tenant_col =
    add (record { clauses = []; args = [] }) (equals tenant_col) [] (text tenant_id)

unfoldable pub add_if_any_str : PredicateBuilder → Str → List Str → PredicateBuilder
add_if_any_str pb col [] = pb
add_if_any_str pb col (v ∷ vs) = add pb (col ++ bytes " = ANY(") (bytes ")") (texts (v ∷ vs))

unfoldable pub add_if_not_nil_i32 : PredicateBuilder → Str → Option ℤ → PredicateBuilder
add_if_not_nil_i32 pb col none = pb
add_if_not_nil_i32 pb col (some v) = add pb (equals col) [] (int32 v)

unfoldable pub add_if_not_nil_bool : PredicateBuilder → Str → Option Bool → PredicateBuilder
add_if_not_nil_bool pb col none = pb
add_if_not_nil_bool pb col (some v) = add pb (equals col) [] (boolean v)

-- A clause of two arguments, a key of a JSON column and a value.
abbrev pub clause_of : Str → Str → Str → ℕ → ℕ → Clause
clause_of before between after key_idx val_idx =
    sql before ∷ placeholder key_idx ∷ sql between ∷ placeholder val_idx ∷ sql after ∷ []

abbrev pub add_pair : PredicateBuilder → Str → Str → Str → Str → Arg → PredicateBuilder
add_pair pb before between after k v =
    let args = pb.args ++ text k ∷ v ∷ [] in
    record {
      clauses = pb.clauses ++ clause_of before between after (length args - 1) (length args) ∷ [];
      args = args;
    }

-- A loop that adds a clause for each entry.
unfoldable pub add_pairs_of :
    {V : Type 0} → (V → Arg) → Str → Str → Str → PredicateBuilder → Map V → PredicateBuilder
add_pairs_of arg before between after pb [] = pb
add_pairs_of arg before between after pb ((k, v) ∷ attrs) =
    add_pairs_of arg before between after (add_pair pb before between after k (arg v)) attrs

abbrev pub key_of_json : Str → Str
key_of_json json_col = bytes "(" ++ json_col ++ bytes " ->> "

unfoldable pub add_attr_equals : PredicateBuilder → Str → Map Str → PredicateBuilder
add_attr_equals pb json_col attrs =
    add_pairs_of (λ v. text v) (key_of_json json_col) (bytes ") = ") [] pb attrs

unfoldable pub add_attr_contains : PredicateBuilder → Str → Map Str → PredicateBuilder
add_attr_contains pb json_col attrs =
    add_pairs_of (λ v. text v) (bytes "strpos(" ++ json_col ++ bytes " ->> ") (bytes ", ")
      (bytes ") > 0") pb attrs

unfoldable pub add_attr_regex : PredicateBuilder → Str → Map Str → PredicateBuilder
add_attr_regex pb json_col attrs =
    add_pairs_of (λ v. text v) (key_of_json json_col) (bytes ") ~ ") [] pb attrs

unfoldable pub add_attr_in : PredicateBuilder → Str → Map (List Str) → PredicateBuilder
add_attr_in pb json_col attrs =
    add_pairs_of (λ vs. texts vs) (key_of_json json_col) (bytes ") = ANY(") (bytes ")") pb attrs

pub record Filters : Type 0 where
  pub from_time : ℤ
  pub to_time : ℤ
  pub cli_versions : List Str
  pub oses : List Str
  pub arches : List Str
  pub command_names : List Str
  pub exit_code : Option ℤ
  pub is_ci : Option Bool
  pub services : List Str
  pub attrs : Map Str
  pub attr_contains : Map Str
  pub attr_in : Map (List Str)
  pub attr_regex : Map Str
  pub limit : ℤ
  pub offset : ℤ

unfoldable pub command_stats_predicates : Str → Filters → PredicateBuilder
command_stats_predicates tenant_id f =
    let scoped = new_scoped_predicates tenant_id (bytes "tenant_id") in
    let from_pb = add scoped (bytes "bucket >= ") [] (time f.from_time) in
    let to_pb = add from_pb (bytes "bucket < ") [] (time f.to_time) in
    let commands = add_if_any_str to_pb (bytes "command_name") f.command_names in
    let versions = add_if_any_str commands (bytes "cli_version") f.cli_versions in
    let oses = add_if_any_str versions (bytes "os") f.oses in
    let arches = add_if_any_str oses (bytes "arch") f.arches in
    add_if_not_nil_bool arches (bytes "is_ci") f.is_ci

unfoldable pub clamp_limit : ℤ → ℤ
clamp_limit limit =
    if leb_ℤ limit (pos 0) then pos 100 else (if ltb_ℤ (pos 1000) limit then pos 1000 else limit)

unfoldable pub session_activity_predicates : Str → Filters → PredicateBuilder
session_activity_predicates tenant_id f =
    let scoped = new_scoped_predicates tenant_id (bytes "tenant_id") in
    let from_pb = add scoped (bytes "bucket >= ") [] (time f.from_time) in
    let to_pb = add from_pb (bytes "bucket < ") [] (time f.to_time) in
    let versions = add_if_any_str to_pb (bytes "cli_version") f.cli_versions in
    let oses = add_if_any_str versions (bytes "os") f.oses in
    let arches = add_if_any_str oses (bytes "arch") f.arches in
    add_if_not_nil_bool arches (bytes "is_ci") f.is_ci

unfoldable pub vendor_predicates : Str → Filters → PredicateBuilder
vendor_predicates tenant_id f =
    add_if_any_str (command_stats_predicates tenant_id f) (bytes "service_name") f.services

unfoldable pub install_cohort_predicates : Str → Filters → PredicateBuilder
install_cohort_predicates tenant_id f =
    let scoped = new_scoped_predicates tenant_id (bytes "tenant_id") in
    let from_pb = add scoped (bytes "first_seen >= ") [] (time f.from_time) in
    let to_pb = add from_pb (bytes "first_seen < ") [] (time f.to_time) in
    let versions = add_if_any_str to_pb (bytes "first_version") f.cli_versions in
    let oses = add_if_any_str versions (bytes "last_os") f.oses in
    add_if_any_str oses (bytes "last_arch") f.arches

-- The predicates of ListTraces.
unfoldable pub list_traces_predicates : Str → Filters → PredicateBuilder
list_traces_predicates tenant_id f =
    let scoped = new_scoped_predicates tenant_id (bytes "tenant_id") in
    let from_pb = add scoped (bytes "time >= ") [] (time f.from_time) in
    let to_pb = add from_pb (bytes "time < ") [] (time f.to_time) in
    let versions = add_if_any_str to_pb (bytes "cli_version") f.cli_versions in
    let oses = add_if_any_str versions (bytes "os") f.oses in
    let arches = add_if_any_str oses (bytes "arch") f.arches in
    let commands = add_if_any_str arches (bytes "command_name") f.command_names in
    let codes = add_if_not_nil_i32 commands (bytes "exit_code") f.exit_code in
    let ci = add_if_not_nil_bool codes (bytes "is_ci") f.is_ci in
    let json = bytes "span_attributes" in
    let equal = add_attr_equals ci json f.attrs in
    let containing = add_attr_contains equal json f.attr_contains in
    let among = add_attr_in containing json f.attr_in in add_attr_regex among json f.attr_regex
