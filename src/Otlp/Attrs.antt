-- ===== src/Otlp/Attrs.antt =====
-- internal/otlp/attrs.go: the structural bounds on attributes, and the merge of two scopes. A
-- pcommon.Map is the list of its entries, which may repeat a key; of a slice's items only the texts
-- matter, as AsRaw gives a Go string for no other.
pub mod Bounded
use argvio.Prelude.{
  ℕ, Str, Bool, true, false, Option, none, some, List, [], ◌∷◌, ◌++◌, length, if◌then◌else◌,
}
use argvio.Prelude.Int.{ℤ, pos, ltb_ℤ}
use argvio.Prelude.Float.{Float64}
use argvio.Prelude.Maps.{Map, insert}
use argvio.Allowlist.{Value, str, int64, boolean, float64, strings}

pub data Item : Type 0 where
  text : Str → Item
  not_text : Item

pub data RawValue : Type 0 where
  raw_str : Str → RawValue
  raw_int : ℤ → RawValue
  raw_double : Float64 → RawValue
  raw_bool : Bool → RawValue
  raw_slice : List Item → RawValue
  raw_empty raw_map raw_bytes : RawValue

-- len(s) > max
abbrev pub longer {ℓ} : {A : Type ℓ} → ℤ → List A → Bool
longer max s = ltb_ℤ max (pos (length s))

abbrev prepend : Str → Option (List Str) → Option (List Str)
prepend s none = none
prepend s (some rest) = some (s ∷ rest)

-- The strings of a slice; none if an item is no string or is too long.
unfoldable pub slice_strings : ℤ → List Item → Option (List Str)
slice_strings max [] = some []
slice_strings max (not_text ∷ items) = none
slice_strings max (text s ∷ items) =
    let rest = prepend s (slice_strings max items) in if longer max s then none else rest

abbrev slice_value : Option (List Str) → Option Value
slice_value none = none
slice_value (some strs) = some (strings strs)

-- The switch on the value's type; none drops the key.
unfoldable pub native_value : ℤ → RawValue → Option Value
native_value max (raw_str s) = if longer max s then none else some (str s)
native_value max (raw_int n) = some (int64 n)
native_value max (raw_double x) = some (float64 x)
native_value max (raw_bool b) = some (boolean b)
native_value max (raw_slice items) = slice_value (slice_strings max items)
native_value max _ = none

pub record Extracted : Type 0 where
  pub kept : Map Value
  pub dropped : List Str

abbrev keep_or_drop : Str → Option Value → Extracted → Extracted
keep_or_drop k none acc = record acc { dropped = acc.dropped ++ k ∷ [] }
keep_or_drop k (some v) acc = record acc { kept = insert k v acc.kept }

-- The body of Range.
unfoldable pub extract_attr : ℤ → ℤ → Str → RawValue → Extracted → Extracted
unfolding native_value slice_strings
extract_attr max_key_len max_val_len k v acc =
    if longer max_key_len k
    then record acc { dropped = acc.dropped ++ k ∷ [] }
    else keep_or_drop k (native_value max_val_len v) acc

unfoldable pub extract_loop : ℤ → ℤ → List (Str × RawValue) → Extracted → Extracted
extract_loop max_key_len max_val_len [] acc = acc
extract_loop max_key_len max_val_len ((k, v) ∷ m) acc =
    extract_loop max_key_len max_val_len m (extract_attr max_key_len max_val_len k v acc)

-- `none` is tooMany.
unfoldable pub extract_attrs : List (Str × RawValue) → ℤ → ℤ → ℤ → Option Extracted
extract_attrs m max_count max_key_len max_val_len =
    if longer max_count m
    then none
    else some (extract_loop max_key_len max_val_len m (record { kept = []; dropped = [] }))

-- for k, v := range src { dst[k] = v }
unfoldable pub insert_all {ℓ} : {V : Type ℓ} → Map V → Map V → Map V
insert_all [] dst = dst
insert_all ((k, v) ∷ src) dst = insert_all src (insert k v dst)

unfoldable pub merge_attrs : Map Value → Map Value → Map Value
merge_attrs resource_attrs record_attrs = insert_all record_attrs (insert_all resource_attrs [])
