-- ===== src/Storage/Installs.antt =====
-- internal/storage/installs.go: what is known of one install, and the versions it changed between. The times
-- of events are in nanoseconds. A row is what the upsert makes of the row that is there.
pub mod Span
pub mod Changes
pub mod Later
pub mod Merge
use Prim.Native.Nat.{Ordering}
use argvio.Prelude.{
  Str, bytes, str_eq, Bool, true, false, not, ◌&&◌, ◌||◌, Option, none, some, List, [], ◌∷◌, ◌++◌,
  ◌==◌, if◌then◌else◌,
}
use argvio.Prelude.Int.{ℤ, pos, negsuc, ltb_ℤ}
use argvio.Prelude.Maps.{Map, lookup}
use argvio.Prelude.Sort.{sort_by}
use argvio.Allowlist.{Value, str}
use argvio.Storage.Versions.{compare_versions}

-- The columns of a log record that are read here.
pub record LogRow : Type 0 where
  pub tenant_id : Str
  pub time : ℤ
  pub event_name : Str
  pub log_attributes : Map Value
  pub cli_version : Option Str
  pub os : Option Str
  pub arch : Option Str
  pub exit_code : Option ℤ

pub record InstallEvent : Type 0 where
  pub tenant_id : Str
  pub install_id : Str
  pub at : ℤ
  pub version : Option Str
  pub os : Option Str
  pub arch : Option Str
  pub completed : Bool
  pub exit_code : Option ℤ
  pub install_meth : Str

abbrev event_session_started : Str
event_session_started = bytes "cli.session.started"

abbrev event_command_completed : Str
event_command_completed = bytes "cli.command.completed"

-- s, _ := v.(string)
abbrev string_or_empty : Option Value → Str
string_or_empty (some (str s)) = s
string_or_empty v = []

unfoldable pub install_event_from_log : LogRow → Option InstallEvent
install_event_from_log r =
    let id = string_or_empty (lookup (bytes "cli.install_id") r.log_attributes) in
    if not (str_eq r.event_name event_session_started)
      && not (str_eq r.event_name event_command_completed)
    then none
    else (if str_eq id []
        then none
        else some (record {
          tenant_id = r.tenant_id;
          install_id = id;
          at = r.time;
          version = r.cli_version;
          os = r.os;
          arch = r.arch;
          completed = str_eq r.event_name event_command_completed;
          exit_code = r.exit_code;
          install_meth = string_or_empty (lookup (bytes "cli.install.method") r.log_attributes);
        }))

-- One row of the installs table.
pub record InstallState : Type 0 where
  pub first_seen : ℤ
  pub last_seen : ℤ
  pub first_version : Option Str
  pub last_version : Option Str
  pub last_os : Option Str
  pub last_arch : Option Str
  pub install_method : Option Str
  pub first_command_at : Option ℤ
  pub first_success_at : Option ℤ

pub record VersionChange : Type 0 where
  pub at : ℤ
  pub from_version : Str
  pub to_version : Str
  pub upgrade : Bool

-- The new value where there is one; COALESCE in SQL.
abbrev pub coalesce : {A : Type 0} → Option A → Option A → Option A
coalesce none old = old
coalesce (some new) old = some new

unfoldable pub earliest : Option ℤ → ℤ → Option ℤ
earliest none t = some t
earliest (some cur) t = if ltb_ℤ t cur then some t else some cur

unfoldable pub track_first : InstallState → InstallEvent → InstallState
track_first st e =
    if ltb_ℤ e.at st.first_seen
    then record st { first_seen = e.at; first_version = coalesce e.version st.first_version }
    else st

unfoldable pub track_last : InstallState → InstallEvent → InstallState
track_last st e = if ltb_ℤ e.at st.last_seen then st else record st {
  last_version = coalesce e.version st.last_version;
  last_os = coalesce e.os st.last_os;
  last_arch = coalesce e.arch st.last_arch;
  last_seen = e.at;
}

abbrev pub change_by : ℤ → Str → Str → Option Ordering → List VersionChange
change_by at v w (some Ordering.lt) =
    record { at = at; from_version = v; to_version = w; upgrade = true } ∷ []
change_by at v w (some Ordering.gt) =
    record { at = at; from_version = v; to_version = w; upgrade = false } ∷ []
change_by at v w (some Ordering.eq) = []
change_by at v w none = []

abbrev pub change_between : ℤ → ℤ → Option Str → Option Str → List VersionChange
change_between last_seen at (some v) (some w) =
    if not (str_eq v w) && ltb_ℤ last_seen at then change_by at v w (compare_versions v w) else []
change_between last_seen at v w = []

-- The change that an event reveals: it is newer, with another version.
unfoldable pub change_of : InstallState → InstallEvent → List VersionChange
change_of st e = change_between st.last_seen e.at st.last_version e.version

abbrev pub is_success : Option ℤ → Bool
is_success (some (pos n)) = n == 0
is_success code = false

unfoldable pub track_command : InstallState → InstallEvent → InstallState
track_command st e =
    if e.completed
    then record st {
      first_command_at = earliest st.first_command_at e.at;
      first_success_at =
          if is_success e.exit_code then earliest st.first_success_at e.at else st.first_success_at;
    }
    else st

unfoldable pub track_method : InstallState → InstallEvent → InstallState
track_method st e =
    if str_eq e.install_meth [] then st else record st { install_method = some e.install_meth }

unfoldable pub track_event : InstallState → InstallEvent → InstallState
track_event st e = track_command (track_method (track_last (track_first st e) e) e) e

unfoldable pub track_events : InstallState → List InstallEvent → InstallState × List VersionChange
track_events st [] = (st, [])
track_events st (e ∷ sorted) =
    let (end, changes) = track_events (track_event st e) sorted in (end, change_of st e ++ changes)

abbrev pub new_install : InstallEvent → InstallState
new_install e = record {
  first_seen = e.at;
  last_seen = e.at;
  first_version = e.version;
  last_version = e.version;
  last_os = e.os;
  last_arch = e.arch;
  install_method = none;
  first_command_at = none;
  first_success_at = none;
}

abbrev pub at_before : InstallEvent → InstallEvent → Bool
at_before d e = ltb_ℤ d.at e.at

abbrev pub plan_sorted :
    Option InstallState → List InstallEvent → Option (InstallState × List VersionChange)
plan_sorted (some st) sorted = some (track_events st sorted)
plan_sorted none [] = none
plan_sorted none (e ∷ sorted) = some (track_events (new_install e) (e ∷ sorted))

-- planInstall: none is its failure on no event at all for a new install.
unfoldable pub plan_install :
    Option InstallState → List InstallEvent → Option (InstallState × List VersionChange)
plan_install existing events = plan_sorted existing (sort_by at_before events)

abbrev pub earlier_of : ℤ → ℤ → ℤ
earlier_of a b = if ltb_ℤ b a then b else a

abbrev pub later_of : ℤ → ℤ → ℤ
later_of a b = if ltb_ℤ a b then b else a

-- LEAST of two columns ignores NULL.
abbrev pub least_known : Option ℤ → Option ℤ → Option ℤ
least_known none b = b
least_known (some a) none = some a
least_known (some a) (some b) = some (earlier_of a b)

-- ON CONFLICT DO UPDATE of upsertInstall: the row that is there, and the one to be inserted.
unfoldable pub upsert_install : InstallState → InstallState → InstallState
upsert_install old new = record {
  first_seen = earlier_of old.first_seen new.first_seen;
  last_seen = later_of old.last_seen new.last_seen;
  first_version =
      if ltb_ℤ new.first_seen old.first_seen
      then coalesce new.first_version old.first_version
      else old.first_version;
  last_version =
      if ltb_ℤ new.last_seen old.last_seen
      then old.last_version
      else coalesce new.last_version old.last_version;
  last_os =
      if ltb_ℤ new.last_seen old.last_seen then old.last_os else coalesce new.last_os old.last_os;
  last_arch =
      if ltb_ℤ new.last_seen old.last_seen
      then old.last_arch
      else coalesce new.last_arch old.last_arch;
  install_method = coalesce new.install_method old.install_method;
  first_command_at = least_known old.first_command_at new.first_command_at;
  first_success_at = least_known old.first_success_at new.first_success_at;
}
