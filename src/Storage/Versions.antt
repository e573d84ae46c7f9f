-- ===== src/Storage/Versions.antt =====
-- internal/storage/semver.go: the order of versions. Comparisons answer with the sign of the code's int.
pub mod Order
use Prim.Native.Nat.{Ordering, compare}
use argvio.Prelude.{
  Str, bytes, ℕ, ◌+◌, ◌-◌, ◌*◌, ◌^◌, Bool, true, false, not, ◌&&◌, Option, none, some, List, [],
  ◌∷◌, map, length, split, cut_prefix, ltb, leb, ◌==◌, if◌then◌else◌,
}
use argvio.Prelude.Orders.{and_then}
use argvio.Prelude.Space.{trim_space}
use argvio.Storage.Dims.{cut}

pub record Semver : Type 0 where
  pub major : ℕ
  pub minor : ℕ
  pub patch : ℕ
  pub pre : List Str

abbrev is_digit : ℕ → Bool
is_digit c = leb 48 c && leb c 57

unfoldable pub parse_digits : ℕ → Str → Option ℕ
parse_digits n [] = some n
parse_digits n (c ∷ s) =
    let next = n * 10 + (c - 48) in
    elim (is_digit c && ltb next (2 ^ 64)) [ true ↦ parse_digits next s | false ↦ none ]

-- strconv.ParseUint(s, 10, 64)
unfoldable pub parse_uint : Str → Option ℕ
parse_uint [] = none
parse_uint (c ∷ s) = parse_digits 0 (c ∷ s)

abbrev or_whole : Str → Option (Str × Str) → Str
or_whole s none = s
or_whole s (some (before, after)) = before

-- s[:strings.IndexByte(s, c)] where the byte occurs
abbrev pub before_byte : ℕ → Str → Str
before_byte c s = or_whole s (cut c s)

abbrev or_same : Str → Option Str → Str
or_same s none = s
or_same s (some rest) = rest

-- strings.TrimPrefix(s, prefix)
abbrev pub trim_prefix : Str → Str → Str
trim_prefix s prefix = or_same s (cut_prefix s prefix)

abbrev numbers : List Str → Option ℕ → Option ℕ → Option ℕ → Option Semver
numbers pre (some a) (some b) (some c) =
    some (record { major = a; minor = b; patch = c; pre = pre })
numbers pre a b c = none

-- Up to three parts, the missing ones zero.
unfoldable pub parse_parts : List Str → List Str → Option Semver
parse_parts pre (a ∷ []) = numbers pre (parse_uint a) (some 0) (some 0)
parse_parts pre (a ∷ b ∷ []) = numbers pre (parse_uint a) (parse_uint b) (some 0)
parse_parts pre (a ∷ b ∷ c ∷ []) = numbers pre (parse_uint a) (parse_uint b) (parse_uint c)
parse_parts pre parts = none

-- The numbers before `-`, and the prerelease behind it.
unfoldable pub parse_cut : Str → Option (Str × Str) → Option Semver
parse_cut s none = parse_parts [] (split 46 s)
parse_cut s (some (core, [])) = none
parse_cut s (some (core, c ∷ pre)) = parse_parts (split 46 (c ∷ pre)) (split 46 core)

unfoldable pub parse_semver : Str → Option Semver
parse_semver s =
    let release = before_byte 43 (trim_prefix (trim_space s) (bytes "v")) in
    parse_cut release (cut 45 release)

-- strings.Compare(a, b)
unfoldable pub compare_strings : Str → Str → Ordering
compare_strings [] [] = Ordering.eq
compare_strings [] (d ∷ t) = Ordering.lt
compare_strings (c ∷ s) [] = Ordering.gt
compare_strings (c ∷ s) (d ∷ t) = elim (compare c d) [
  | Ordering.eq ↦ compare_strings s t
  | Ordering.lt ↦ Ordering.lt
  | Ordering.gt ↦ Ordering.gt
]

abbrev pub compare_idents : Str → Str → Option ℕ → Option ℕ → Ordering
compare_idents a b (some na) (some nb) = compare na nb
compare_idents a b (some na) none = Ordering.lt
compare_idents a b none (some nb) = Ordering.gt
compare_idents a b none none = compare_strings a b

unfoldable pub compare_pre_ident : Str → Str → Ordering
compare_pre_ident a b = compare_idents a b (parse_uint a) (parse_uint b)

-- The loop over both prereleases, then the shorter one first.
unfoldable pub compare_pre_lists : List Str → List Str → Ordering
compare_pre_lists [] [] = Ordering.eq
compare_pre_lists [] (y ∷ ys) = Ordering.lt
compare_pre_lists (x ∷ xs) [] = Ordering.gt
compare_pre_lists (x ∷ xs) (y ∷ ys) = and_then (compare_pre_ident x y) (compare_pre_lists xs ys)

-- A version with a prerelease sorts before the same version without one.
unfoldable pub compare_pre : List Str → List Str → Ordering
compare_pre [] [] = Ordering.eq
compare_pre [] (y ∷ ys) = Ordering.gt
compare_pre (x ∷ xs) [] = Ordering.lt
compare_pre (x ∷ xs) (y ∷ ys) = compare_pre_lists (x ∷ xs) (y ∷ ys)

unfoldable pub compare_semvers : Semver → Semver → Ordering
compare_semvers a b = and_then (compare a.major b.major) (
    and_then (compare a.minor b.minor)
      (and_then (compare a.patch b.patch) (compare_pre a.pre b.pre)))

abbrev pub compare_parsed : Option Semver → Option Semver → Option Ordering
compare_parsed (some a) (some b) = some (compare_semvers a b)
compare_parsed a b = none

-- none is the code's ok = false.
unfoldable pub compare_versions : Str → Str → Option Ordering
compare_versions a b = compare_parsed (parse_semver a) (parse_semver b)

abbrev parsed_rank : Option Semver → ℕ
parsed_rank none = 1
parsed_rank (some v) = 0

unfoldable pub version_rank : Option Str → ℕ
version_rank none = 2
version_rank (some s) = parsed_rank (parse_semver s)

-- Versions that are equal as semver, or are none, by their text.
abbrev by_text : Str → Str → Option Ordering → Ordering
by_text a b (some Ordering.lt) = Ordering.lt
by_text a b (some Ordering.gt) = Ordering.gt
by_text a b (some Ordering.eq) = compare_strings a b
by_text a b none = compare_strings a b

abbrev pub compare_ranked : Option Str → Option Str → Ordering
compare_ranked (some a) (some b) = by_text a b (compare_versions a b)
compare_ranked a b = Ordering.eq

unfoldable pub compare_version_keys : Option Str → Option Str → Ordering
compare_version_keys a b = and_then (compare (version_rank a) (version_rank b)) (compare_ranked a b)
