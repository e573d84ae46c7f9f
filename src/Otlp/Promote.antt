-- ===== src/Otlp/Promote.antt =====
-- internal/otlp/pipeline.go and usage.go: the columns promoted out of the kept attributes. A pop
-- returns the column and the attributes without it.
pub mod Laws
pub mod Footprint
use argvio.Prelude.{
  ◌^◌, ◌*◌, Str, bytes, Bool, true, false, ◌||◌, Option, none, some, List, [], ◌∷◌, if◌then◌else◌,
}
use argvio.Prelude.Int.{ℤ, pos, ltb_ℤ}
use argvio.Prelude.Maps.{Map, lookup, insert, delete}
use argvio.Allowlist.{
  Value, str, int64, boolean, float64, strings, Schema, is_standard_resource_attribute,
}
use argvio.Otlp.Clamp.{clamp_int32}

abbrev pub Pop : Type 0 → Type 0
Pop A = Option A × Map Value

abbrev pop_str_value : Str → Map Value → Option Value → Pop Str
pop_str_value k m (some (str s)) = (some s, delete k m)
pop_str_value k m v = (none, m)

unfoldable pub pop_str : Map Value → Str → Pop Str
pop_str m k = pop_str_value k m (lookup k m)

abbrev pop_int32_value : Str → Map Value → Option Value → Pop ℤ
pop_int32_value k m (some (int64 n)) = (some (clamp_int32 n), delete k m)
pop_int32_value k m v = (none, m)

unfoldable pub pop_int32 : Map Value → Str → Pop ℤ
pop_int32 m k = pop_int32_value k m (lookup k m)

abbrev pop_bool_value : Str → Map Value → Option Value → Pop Bool
pop_bool_value k m (some (boolean b)) = (some b, delete k m)
pop_bool_value k m v = (none, m)

unfoldable pub pop_bool : Map Value → Str → Pop Bool
pop_bool m k = pop_bool_value k m (lookup k m)

abbrev bounded_value : ℤ → ℤ → Value → Option ℤ
bounded_value min max (int64 n) = if ltb_ℤ n min || ltb_ℤ max n then none else some n
bounded_value min max v = none

abbrev pop_bounded_value : Str → Map Value → ℤ → ℤ → Option Value → Pop ℤ
pop_bounded_value k m min max none = (none, m)
pop_bounded_value k m min max (some v) = (bounded_value min max v, delete k m)

unfoldable pub pop_bounded : Map Value → Str → ℤ → ℤ → Pop ℤ
pop_bounded m k min max = pop_bounded_value k m min max (lookup k m)

pub record Promoted : Type 0 where
  pub cli_version : Option Str
  pub os : Option Str
  pub arch : Option Str
  pub command_name : Option Str
  pub exit_code : Option ℤ
  pub is_ci : Option Bool

unfoldable pub pop_promoted : Map Value → Promoted × Map Value
pop_promoted kept =
    let (cli_version, m1) = pop_str kept (bytes "cli.version") in
    let (os, m2) = pop_str m1 (bytes "cli.os") in
    let (arch, m3) = pop_str m2 (bytes "cli.arch") in
    let (command_name, m4) = pop_str m3 (bytes "cli.command.name") in
    let (exit_code, m5) = pop_int32 m4 (bytes "cli.command.exit_code") in
    let (is_ci, m6) = pop_bool m5 (bytes "cli.is_ci") in
    (
      record {
        cli_version = cli_version;
        os = os;
        arch = arch;
        command_name = command_name;
        exit_code = exit_code;
        is_ci = is_ci;
      },
      m6,
    )

pub record Usage : Type 0 where
  pub peak_rss_bytes : Option ℤ
  pub cpu_time_ms : Option ℤ

abbrev pub max_plausible_peak_rss_bytes : ℤ
max_plausible_peak_rss_bytes = pos (2 ^ 40)

abbrev pub max_plausible_cpu_time_ms : ℤ
max_plausible_cpu_time_ms = pos (31 * 24 * 3600 * 1000 * 1024)

unfoldable pub pop_usage : Map Value → Usage × Map Value
pop_usage kept =
    let (rss, m1) =
      pop_bounded kept (bytes "cli.process.peak_rss_bytes") (pos 1) max_plausible_peak_rss_bytes in
    let (cpu, m2) =
      pop_bounded m1 (bytes "cli.process.cpu_time_ms") (pos 1) max_plausible_cpu_time_ms in
    (record { peak_rss_bytes = rss; cpu_time_ms = cpu }, m2)

pub record SessionFootprint : Type 0 where
  pub binary_size_bytes : Option ℤ
  pub startup_ms : Option ℤ

abbrev pub max_plausible_binary_size_bytes : ℤ
max_plausible_binary_size_bytes = pos (4 * 2 ^ 30)

abbrev pub max_plausible_startup_ms : ℤ
max_plausible_startup_ms = pos (3600 * 1000)

unfoldable pub pop_session_footprint : Map Value → SessionFootprint × Map Value
pop_session_footprint kept =
    let (size, m1) =
      pop_bounded kept (bytes "cli.binary.size_bytes") (pos 1) max_plausible_binary_size_bytes in
    let (startup, m2) =
      pop_bounded m1 (bytes "cli.startup.duration_ms") (pos 0) max_plausible_startup_ms in
    (record { binary_size_bytes = size; startup_ms = startup }, m2)

-- The two JSON columns: standard resource attributes, and all else.
unfoldable pub split_loop : Schema → Map Value → Map Value → Map Value → Map Value × Map Value
split_loop schema [] resource_json record_json = (resource_json, record_json)
split_loop schema ((k, v) ∷ kept) resource_json record_json =
    let std = is_standard_resource_attribute schema k in
    split_loop schema kept (if std then insert k v resource_json else resource_json)
      (if std then record_json else insert k v record_json)

unfoldable pub split_remaining_attrs : Schema → Map Value → Map Value × Map Value
split_remaining_attrs schema kept = split_loop schema kept [] []
