-- ===== src/Otlp/Promote/Laws.antt =====
-- The promoted columns hold what the attributes held, once.
use argvio.Prelude.{
  Str, bytes, str_eq, str_eq_iff, ◌≡◌, refl, Bool, false, ◌&&◌, ◌||◌, Option, none, some,
  if◌then◌else◌, is_some, arith,
}
use argvio.Prelude.Int.{ℤ, leb_ℤ, ◌≤ℤ◌}
use argvio.Prelude.Maps.{Map, lookup, lookup-delete}
use argvio.Allowlist.{Value, str, int64, boolean}
use argvio.Otlp.Clamp.{clamp_int32}
use argvio.Otlp.Promote.{pop_str, pop_int32, pop_bool, pop_bounded, Promoted, pop_promoted}

abbrev pub str_column : Option Value → Option Str
str_column (some (str s)) = some s
str_column v = none

abbrev pub int32_column : Option Value → Option ℤ
int32_column (some (int64 n)) = some (clamp_int32 n)
int32_column v = none

abbrev pub bool_column : Option Value → Option Bool
bool_column (some (boolean b)) = some b
bool_column v = none

module _ (m : Map Value) (k : Str) where
  column-pop_str : (pop_str m k).0 ≡ str_column (lookup k m)
  unfolding pop_str
  column-pop_str = ground arith

  lookup-pop_str :
      (j : Str)
      → lookup j (pop_str m k).1
        ≡ (if str_eq k j && is_some (str_column (lookup k m)) then none else lookup j m)
  unfolding pop_str
  lookup-pop_str j = ground (arith, lookup-delete k j m)

  column-pop_int32 : (pop_int32 m k).0 ≡ int32_column (lookup k m)
  unfolding pop_int32
  column-pop_int32 = ground arith

  lookup-pop_int32 :
      (j : Str)
      → lookup j (pop_int32 m k).1
        ≡ (if str_eq k j && is_some (int32_column (lookup k m)) then none else lookup j m)
  unfolding pop_int32
  lookup-pop_int32 j = ground (arith, lookup-delete k j m)

  column-pop_bool : (pop_bool m k).0 ≡ bool_column (lookup k m)
  unfolding pop_bool
  column-pop_bool = ground arith

  lookup-pop_bool :
      (j : Str)
      → lookup j (pop_bool m k).1
        ≡ (if str_eq k j && is_some (bool_column (lookup k m)) then none else lookup j m)
  unfolding pop_bool
  lookup-pop_bool j = ground (arith, lookup-delete k j m)

-- The columns that the attributes call for.
abbrev pub columns : Map Value → Promoted
columns kept = record {
  cli_version = str_column (lookup (bytes "cli.version") kept);
  os = str_column (lookup (bytes "cli.os") kept);
  arch = str_column (lookup (bytes "cli.arch") kept);
  command_name = str_column (lookup (bytes "cli.command.name") kept);
  exit_code = int32_column (lookup (bytes "cli.command.exit_code") kept);
  is_ci = bool_column (lookup (bytes "cli.is_ci") kept);
}

-- The key is promoted: a column took its value.
abbrev pub promotes : Map Value → Str → Bool
promotes kept j =
    (str_eq (bytes "cli.version") j && is_some (columns kept).cli_version)
    || (str_eq (bytes "cli.os") j && is_some (columns kept).os)
    || (str_eq (bytes "cli.arch") j && is_some (columns kept).arch)
    || (str_eq (bytes "cli.command.name") j && is_some (columns kept).command_name)
    || (str_eq (bytes "cli.command.exit_code") j && is_some (columns kept).exit_code)
    || (str_eq (bytes "cli.is_ci") j && is_some (columns kept).is_ci)

-- No two promoted keys are one.
abbrev Distinct : Type 0
Distinct =
    (str_eq (bytes "cli.version") (bytes "cli.os") ≡ false)
    × (str_eq (bytes "cli.version") (bytes "cli.arch") ≡ false)
    × (str_eq (bytes "cli.version") (bytes "cli.command.name") ≡ false)
    × (str_eq (bytes "cli.version") (bytes "cli.command.exit_code") ≡ false)
    × (str_eq (bytes "cli.version") (bytes "cli.is_ci") ≡ false)
    × (str_eq (bytes "cli.os") (bytes "cli.arch") ≡ false)
    × (str_eq (bytes "cli.os") (bytes "cli.command.name") ≡ false)
    × (str_eq (bytes "cli.os") (bytes "cli.command.exit_code") ≡ false)
    × (str_eq (bytes "cli.os") (bytes "cli.is_ci") ≡ false)
    × (str_eq (bytes "cli.arch") (bytes "cli.command.name") ≡ false)
    × (str_eq (bytes "cli.arch") (bytes "cli.command.exit_code") ≡ false)
    × (str_eq (bytes "cli.arch") (bytes "cli.is_ci") ≡ false)
    × (str_eq (bytes "cli.command.name") (bytes "cli.command.exit_code") ≡ false)
    × (str_eq (bytes "cli.command.name") (bytes "cli.is_ci") ≡ false)
    × (str_eq (bytes "cli.command.exit_code") (bytes "cli.is_ci") ≡ false)

keys-Distinct : Distinct
unfolding str_eq
keys-Distinct =
    (refl, refl, refl, refl, refl, refl, refl, refl, refl, refl, refl, refl, refl, refl, refl)

ruleset pops = (
  column-pop_str, column-pop_int32, column-pop_bool, lookup-pop_str, lookup-pop_int32,
  lookup-pop_bool,
)

pop_promoted-columns : (kept : Map Value) → (pop_promoted kept).0 ≡ columns kept
unfolding pop_promoted str_eq
pop_promoted-columns kept = simp pops

nested :
    (a b c d e f : Bool) (x : Option Value)
    → (if f
        then none
        else if e
        then none
        else if d
        then none
        else if c
        then none
        else if b
        then none
        else if a
        then none
        else x)
      ≡ (if a || b || c || d || e || f then none else x)
nested a b c d e f x = ground arith

lookup-pop_promoted :
    (kept : Map Value) (j : Str)
    → lookup j (pop_promoted kept).1 ≡ (if promotes kept j then none else lookup j kept)
unfolding pop_promoted
lookup-pop_promoted kept j =
    simp
      (
        pops, keys-Distinct.0, keys-Distinct.1, keys-Distinct.2, keys-Distinct.3, keys-Distinct.4,
        keys-Distinct.5, keys-Distinct.6, keys-Distinct.7, keys-Distinct.8, keys-Distinct.9,
        keys-Distinct.10, keys-Distinct.11, keys-Distinct.12, keys-Distinct.13, keys-Distinct.14,
      )
      (nested (str_eq (bytes "cli.version") j && is_some (columns kept).cli_version)
        (str_eq (bytes "cli.os") j && is_some (columns kept).os)
        (str_eq (bytes "cli.arch") j && is_some (columns kept).arch)
        (str_eq (bytes "cli.command.name") j && is_some (columns kept).command_name)
        (str_eq (bytes "cli.command.exit_code") j && is_some (columns kept).exit_code)
        (str_eq (bytes "cli.is_ci") j && is_some (columns kept).is_ci) (lookup j kept))

-- Promotion moves and neither copies nor loses: each column is what the attributes hold under its key
-- with the column's type, an exit code saturated to int32; a key whose value became a column is gone
-- from the attributes, and every other key, one of another type too, still has its value.
pub pop_promoted_moves :
    (kept : Map Value)
    → ((pop_promoted kept).0 ≡ columns kept)
      × ((j : Str)
          → lookup j (pop_promoted kept).1 ≡ (if promotes kept j then none else lookup j kept))
pop_promoted_moves kept = (pop_promoted-columns kept, lookup-pop_promoted kept)

-- In the range, or absent.
abbrev pub IsBetween : ℤ → ℤ → Option ℤ → Type 0
IsBetween min max none = Unit
IsBetween min max (some n) = (min ≤ℤ n) × (n ≤ℤ max)

-- A measure within the bounds, as the attributes hold it.
abbrev pub plausible : ℤ → ℤ → Option Value → Option ℤ
plausible min max (some (int64 n)) = if leb_ℤ min n && leb_ℤ n max then some n else none
plausible min max v = none

module _ (m : Map Value) (k : Str) (min max : ℤ) where
  pub column-pop_bounded : (pop_bounded m k min max).0 ≡ plausible min max (lookup k m)
  unfolding pop_bounded
  column-pop_bounded = ground arith

  pub lookup-pop_bounded :
      (j : Str) → lookup j (pop_bounded m k min max).1 ≡ (if str_eq k j then none else lookup j m)
  unfolding pop_bounded
  lookup-pop_bounded j = ground (arith, lookup-delete k j m, str_eq_iff k j)

pub plausible-IsBetween : (min max : ℤ) (o : Option Value) → IsBetween min max (plausible min max o)
plausible-IsBetween min max none = tt
plausible-IsBetween min max (some (int64 n)) = ground arith
plausible-IsBetween min max (some _) = tt
