-- ===== src/Examples/InstallCases.antt =====
-- internal/storage: versions and installs at concrete inputs.
use Prim.Native.Nat.{Ordering}
use argvio.Prelude.{
  Str, bytes, str_eq, cut_prefix, split, ◌≡◌, refl, ◌↔◌, true, false, none, some, List, [], ◌∷◌,
}
use argvio.Prelude.Int.{ltb_ℤ, ℤ, pos}
use argvio.Prelude.Orders.{opposite}
use argvio.Prelude.Sort.{sort_by, insert_by}
use argvio.Prelude.Space.{trim_space, trim_left, trim_reversed, backwards}
use argvio.Storage.Dims.{cut}
use argvio.Storage.Versions.{
  compare_versions, compare_version_keys, parse_semver, parse_cut, parse_parts, parse_uint,
  parse_digits, compare_semvers, compare_pre, compare_pre_lists, compare_pre_ident, compare_strings,
  version_rank,
}
use argvio.Storage.Versions.Order.{compare_version_keys_antisym, compare_version_keys_trans}
use argvio.Storage.Installs.{
  InstallState, InstallEvent, VersionChange, plan_install, track_events, track_event, track_first,
  track_last, track_method, track_command, change_of, earliest, upsert_install,
}
use argvio.Storage.Installs.Span.{IsSpan, plan_install-IsSpan}
use argvio.Storage.Installs.Changes.{Reveals, seen_in, plan_install-changes}
use argvio.Storage.Installs.Merge.{upsert_install-plan_install}

prerelease_first : compare_versions (bytes " v1.2.0-rc.2 ") (bytes "1.2+build5") ≡ some Ordering.lt
unfolding compare_versions parse_semver parse_cut parse_parts parse_uint parse_digits
    compare_semvers compare_pre compare_pre_lists compare_pre_ident compare_strings trim_space
    trim_left trim_reversed backwards cut_prefix cut split
prerelease_first = refl

numbers_by_value : compare_versions (bytes "1.9") (bytes "1.10") ≡ some Ordering.lt
unfolding compare_versions parse_semver parse_cut parse_parts parse_uint parse_digits
    compare_semvers compare_pre compare_pre_lists compare_pre_ident compare_strings trim_space
    trim_left trim_reversed backwards cut_prefix cut split
numbers_by_value = refl

compare_version_keys_antisym_example :
    (compare_version_keys none (some (bytes "1.0"))
      ≡ opposite (compare_version_keys (some (bytes "1.0")) none))
    × ((compare_version_keys (some (bytes "1.0")) none ≡ Ordering.eq) ↔ (some (bytes "1.0") ≡ none))
compare_version_keys_antisym_example = compare_version_keys_antisym (some (bytes "1.0")) none

old_first : compare_version_keys (some (bytes "1.9")) (some (bytes "1.10")) ≡ Ordering.lt
unfolding compare_version_keys version_rank compare_versions parse_semver parse_cut parse_parts
    parse_uint parse_digits compare_semvers compare_pre compare_pre_lists compare_pre_ident
    compare_strings trim_space trim_left trim_reversed backwards cut_prefix cut split
old_first = refl

text_after : compare_version_keys (some (bytes "1.10")) (some (bytes "nightly")) ≡ Ordering.lt
unfolding compare_version_keys version_rank compare_versions parse_semver parse_cut parse_parts
    parse_uint parse_digits compare_semvers compare_pre compare_pre_lists compare_pre_ident
    compare_strings trim_space trim_left trim_reversed backwards cut_prefix cut split
text_after = refl

compare_version_keys_trans_example :
    compare_version_keys (some (bytes "1.9")) (some (bytes "nightly")) ≡ Ordering.lt
compare_version_keys_trans_example =
    compare_version_keys_trans (some (bytes "1.9")) (some (bytes "1.10")) (some (bytes "nightly"))
      old_first text_after

abbrev command_at : ℤ → Str → InstallEvent
command_at t v = record {
  tenant_id = bytes "t1";
  install_id = bytes "i1";
  at = t;
  version = some v;
  os = none;
  arch = none;
  completed = true;
  exit_code = some (pos 0);
  install_meth = [];
}

abbrev row : InstallState
row = record {
  first_seen = pos 10;
  last_seen = pos 20;
  first_version = some (bytes "1.0");
  last_version = some (bytes "1.0");
  last_os = some (bytes "linux");
  last_arch = none;
  install_method = none;
  first_command_at = none;
  first_success_at = none;
}

-- Out of order: one event before the row's time, and two after it.
abbrev events : List InstallEvent
events =
    command_at (pos 40) (bytes "1.1")
    ∷ command_at (pos 5) (bytes "0.9")
    ∷ command_at (pos 30) (bytes "1.2")
    ∷ []

abbrev next : InstallState
next = record {
  first_seen = pos 5;
  last_seen = pos 40;
  first_version = some (bytes "0.9");
  last_version = some (bytes "1.1");
  last_os = some (bytes "linux");
  last_arch = none;
  install_method = none;
  first_command_at = some (pos 5);
  first_success_at = some (pos 5);
}

abbrev changes : List VersionChange
changes =
    record { at = pos 30; from_version = bytes "1.0"; to_version = bytes "1.2"; upgrade = true }
    ∷ record { at = pos 40; from_version = bytes "1.2"; to_version = bytes "1.1"; upgrade = false }
    ∷ []

planned : plan_install (some row) events ≡ some (next, changes)
unfolding plan_install sort_by insert_by track_events track_event track_first track_last
    track_method track_command change_of earliest str_eq compare_versions parse_semver parse_cut
    parse_parts parse_uint parse_digits compare_semvers compare_pre compare_pre_lists
    compare_pre_ident compare_strings trim_space trim_left trim_reversed backwards cut_prefix cut
    split
planned = refl

plan_install-IsSpan_example : IsSpan (some row) events next
plan_install-IsSpan_example = plan_install-IsSpan (some row) events next changes planned

plan_install-changes_example :
    Reveals (seen_in (some row)) (sort_by (λ d e. ltb_ℤ d.at e.at) events) changes
plan_install-changes_example = plan_install-changes (some row) events next changes planned

upsert_install-plan_install_example : upsert_install row next ≡ next
upsert_install-plan_install_example = upsert_install-plan_install row next events changes planned
