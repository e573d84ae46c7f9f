-- ===== src/Allowlist/Check.antt =====
-- internal/allowlist/validate.go: does a value conform to its attribute's declared type and bounds.
pub mod Conforms
use argvio.Prelude.{
  Str, member, Bool, true, false, not, ◌&&◌, Option, none, some, List, [], ◌∷◌, length,
  if◌then◌else◌,
}
use argvio.Prelude.Int.{ℤ, pos, ltb_ℤ}
use argvio.Prelude.Maps.{insert}
use argvio.Allowlist.{
  Value, str, int64, boolean, float64, strings, AttrType, string, int, bool, double, string_array,
  unknown, AttrDef, Set,
}

-- Why a value does not conform, by the error that the code formats.
pub data CheckError : Type 0 where
  wrong_type : AttrType → CheckError
  exceeds_max_length : CheckError
  not_in_enum : CheckError
  pattern_mismatch : CheckError
  exceeds_max_items : CheckError
  unknown_type : CheckError

-- len(s) > max, where a maximum of zero or below sets no limit
unfoldable pub too_long {ℓ} : {A : Type ℓ} → ℤ → List A → Bool
too_long max s = ltb_ℤ (pos 0) max && ltb_ℤ max (pos (length s))

unfoldable pub first_too_long : ℤ → List Str → Bool
first_too_long max [] = false
first_too_long max (s ∷ rest) = if ltb_ℤ max (pos (length s)) then true else first_too_long max rest

abbrev nonempty {ℓ} : {A : Type ℓ} → List A → Bool
nonempty [] = false
nonempty (x ∷ xs) = true

abbrev mismatch : Option (Str → Bool) → Str → Bool
mismatch none s = false
mismatch (some p) s = not (p s)

unfoldable pub check_string : AttrDef → Str → Option CheckError
check_string def s =
    if too_long def.max_length s
    then some exceeds_max_length
    else if nonempty def.enum && not (member def.enum s)
    then some not_in_enum
    else if mismatch def.pattern_re s
    then some pattern_mismatch
    else none

unfoldable pub check_string_array : AttrDef → List Str → Option CheckError
check_string_array def arr =
    if too_long def.max_items arr
    then some exceeds_max_items
    else if ltb_ℤ (pos 0) def.max_length && first_too_long def.max_length arr
    then some exceeds_max_length
    else none

abbrev check_as : AttrType → AttrDef → Value → Option CheckError
check_as string def (str s) = check_string def s
check_as int def (int64 n) = none
check_as bool def (boolean b) = none
check_as double def (float64 x) = none
check_as string_array def (strings arr) = check_string_array def arr
check_as (unknown t) def value = some unknown_type
check_as t def value = some (wrong_type t)

unfoldable pub check_attribute : AttrDef → Value → Option CheckError
unfolding check_string check_string_array
check_attribute def value = check_as def.attr_type def value

abbrev pub add_all : List Str → Set → Set
add_all [] set = set
add_all (k ∷ rest) set = add_all rest (insert k tt set)

unfoldable pub allowed_set : List Str → Set
allowed_set keys = add_all keys []
