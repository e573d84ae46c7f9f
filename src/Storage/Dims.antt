-- ===== src/Storage/Dims.antt =====
-- internal/storage/dims.go: dimensions as one canonical label. The separators are ; and =.
pub mod Tuple
use argvio.Prelude.{
  Str, str_eq, bytes, ℕ, Bool, true, false, ◌==◌, Option, none, some, List, [], ◌∷◌, ◌++◌, map, any,
  split, if◌then◌else◌,
}
use argvio.Prelude.Maps.{Map, lookup, insert}
use argvio.Prelude.Sort.{sort_strings}

-- ";" and "=", as bytes
abbrev pub dim_pair_sep : ℕ
dim_pair_sep = 59

abbrev pub dim_kv_sep : ℕ
dim_kv_sep = 61

abbrev pub dim_label_key : Str
dim_label_key = bytes "label"

-- What a value is stored as once its vocabulary is full.
abbrev pub counter_other : Str
counter_other = bytes "other"

-- The keys that `for k := range m` runs over.
unfoldable pub keys : {V : Type 0} → Map V → List Str
keys [] = []
keys (entry ∷ rest) = entry.0 ∷ keys rest

abbrev pub empty_if_missing : Option Str → Str
empty_if_missing none = []
empty_if_missing (some value) = value

-- m[k] of a map of strings: "" for a missing key
abbrev pub dim_text : Map Str → Str → Str
dim_text m k = empty_if_missing (lookup k m)

abbrev pub format_pair : Map Str → Str → Str
format_pair dims k = k ++ dim_kv_sep ∷ dim_text dims k

-- The pairs with a separator before all but the first.
unfoldable pub join_pairs : List Str → Str
join_pairs [] = []
join_pairs (pair ∷ []) = pair
join_pairs (pair ∷ next ∷ rest) = pair ++ dim_pair_sep ∷ join_pairs (next ∷ rest)

unfoldable pub format_dims : Map Str → Str
format_dims dims = join_pairs (map (format_pair dims) (sort_strings (keys dims)))

-- strings.Contains(s, sep), where sep is one byte
unfoldable pub contains_byte : ℕ → Str → Bool
contains_byte sep s = any (λ c. c == sep) s

abbrev extend_key : ℕ → Option (Str × Str) → Option (Str × Str)
extend_key c none = none
extend_key c (some (k, v)) = some (c ∷ k, v)

-- strings.Cut(s, sep), where sep is one byte
unfoldable pub cut : ℕ → Str → Option (Str × Str)
cut sep [] = none
cut sep (c ∷ s) = let rest = cut sep s in if c == sep then some ([], s) else extend_key c rest

abbrev add_cut : Map Str → Option (Str × Str) → Map Str
add_cut dims none = dims
add_cut dims (some (k, v)) = insert k v dims

unfoldable pub add_pairs : Map Str → List Str → Map Str
add_pairs dims [] = dims
add_pairs dims (pair ∷ pairs) = add_pairs (add_cut dims (cut dim_kv_sep pair)) pairs

unfoldable pub parse_dims : Str → Map Str
parse_dims label =
    if str_eq label []
    then []
    else (if contains_byte dim_kv_sep label
        then add_pairs [] (split dim_pair_sep label)
        else (dim_label_key, label) ∷ [])

unfoldable pub dim_value : Str → Str → Option Str
dim_value label key =
    if str_eq label counter_other then some counter_other else lookup key (parse_dims label)
