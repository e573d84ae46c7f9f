-- ===== src/Prelude/Strings.antt =====
-- Go strings: lists of bytes, with the tests and cuts of the `strings` package that argvio calls.
use Prim.Native.Nat.{ℕ}
use Prim.Native.Char.{code}
use Prim.Native.String.{String}
use mathlib.Core.Path.{◌≡◌, refl, ap}
use mathlib.Core.Logic.{◌↔◌, ◌≢◌, inl, inr}
use mathlib.Core.Bool.{Bool, true, false, ◌&&◌, ◌||◌}
use mathlib.Core.Option.{Option, none, some}
use mathlib.Core.List.{List, [], ◌∷◌, ◌++◌}
use native.Mathlib.Omega.{arith}
use argvio.Prelude.Tests.{◌==◌, ltb, if◌then◌else◌, Bool-cases}
use argvio.Prelude.Lists.{length, length-append}

-- A Go string: its bytes.
abbrev pub Str : Type 0
Str = List ℕ

-- The bytes of an ASCII literal.
abbrev pub bytes : String → Str
bytes (String.◌∷◌ first later) = code first ∷ bytes later
bytes String.[] = []

-- a == b
unfoldable pub str_eq : Str → Str → Bool
str_eq [] [] = true
str_eq [] (d ∷ t) = false
str_eq (c ∷ s) [] = false
str_eq (c ∷ s) (d ∷ t) = (c == d) && str_eq s t

pub str_eq_refl : (s : Str) → str_eq s s ≡ true
unfolding str_eq
str_eq_refl [] = refl
str_eq_refl (c ∷ s) = ground (arith, str_eq_refl s)

pub str_eq→eq : (s t : Str) → str_eq s t ≡ true → s ≡ t
unfolding str_eq
str_eq→eq [] [] h = refl
str_eq→eq [] (d ∷ t) h = cc
str_eq→eq (c ∷ s) [] h = cc
str_eq→eq (c ∷ s) (d ∷ t) h = ground (arith, str_eq→eq s t)

pub str_eq_iff : (s t : Str) → (str_eq s t ≡ true) ↔ (s ≡ t)
str_eq_iff s t = (str_eq→eq s t, λ e. rw e (str_eq_refl t))

pub str_eq_other : (s t : Str) → s ≢ t → str_eq s t ≡ false
str_eq_other s t other = elim (Bool-cases (str_eq s t)) [
  | inl same ↦ absurd (other (str_eq→eq s t same))
  | inr differ ↦ differ
]

-- a < b, byte by byte
unfoldable pub str_lt : Str → Str → Bool
str_lt s [] = false
str_lt [] (d ∷ t) = true
str_lt (c ∷ s) (d ∷ t) = ltb c d || ((c == d) && str_lt s t)

-- strings.CutPrefix(s, prefix): the rest of `s` behind `prefix`.
unfoldable pub cut_prefix : Str → Str → Option Str
cut_prefix s [] = some s
cut_prefix [] (d ∷ prefix) = none
cut_prefix (c ∷ s) (d ∷ prefix) = let rest = cut_prefix s prefix in if c == d then rest else none

-- strings.HasPrefix(s, prefix)
unfoldable pub has_prefix : Str → Str → Bool
has_prefix s [] = true
has_prefix [] (d ∷ prefix) = false
has_prefix (c ∷ s) (d ∷ prefix) = (c == d) && has_prefix s prefix

-- strings.HasSuffix(s, suffix)
unfoldable pub has_suffix : Str → Str → Bool
has_suffix [] suffix = str_eq [] suffix
has_suffix (c ∷ s) suffix = str_eq (c ∷ s) suffix || has_suffix s suffix

-- strings.TrimSuffix(s, suffix)
unfoldable pub trim_suffix : Str → Str → Str
trim_suffix [] suffix = []
trim_suffix (c ∷ s) suffix =
    let rest = c ∷ trim_suffix s suffix in if str_eq (c ∷ s) suffix then [] else rest

abbrev pub extend_first : ℕ → List Str → List Str
extend_first c [] = (c ∷ []) ∷ []
extend_first c (part ∷ parts) = (c ∷ part) ∷ parts

-- strings.Split(s, sep), where sep is one byte
unfoldable pub split : ℕ → Str → List Str
split sep [] = [] ∷ []
split sep (c ∷ s) = let parts = split sep s in if c == sep then [] ∷ parts else extend_first c parts

-- slices.Contains(list, s)
unfoldable pub member : List Str → Str → Bool
member [] s = false
member (x ∷ xs) s = str_eq x s || member xs s

-- `CutPrefix` succeeds exactly on the strings that begin with the prefix, with what follows it.
pub cut_prefix→append : (s p r : Str) → cut_prefix s p ≡ some r → s ≡ p ++ r
unfolding cut_prefix
cut_prefix→append s [] r h = ground arith
cut_prefix→append [] (d ∷ p) r h = cc
cut_prefix→append (c ∷ s) (d ∷ p) r h = ground (arith, cut_prefix→append s p r)

pub cut_prefix-append : (p r : Str) → cut_prefix (p ++ r) p ≡ some r
unfolding cut_prefix
cut_prefix-append [] r = refl
cut_prefix-append (d ∷ p) r = ground (arith, cut_prefix-append p r)

pub has_prefix-append : (p r : Str) → has_prefix (p ++ r) p ≡ true
unfolding has_prefix
has_prefix-append [] r = refl
has_prefix-append (d ∷ p) r = ground (arith, has_prefix-append p r)

pub has_prefix→append : (s p : Str) → has_prefix s p ≡ true → (r : Str) × (s ≡ p ++ r)
unfolding has_prefix
has_prefix→append s [] h = (s, refl)
has_prefix→append [] (d ∷ p) h = cc
has_prefix→append (c ∷ s) (d ∷ p) h =
    let (r, e) = has_prefix→append s p (ground arith) in (r, ground (arith, e))

-- A string does not equal a proper suffix of itself.
str_eq_longer : (c : ℕ) (p s : Str) → str_eq (c ∷ p ++ s) s ≡ false
str_eq_longer c p s = elim (Bool-cases (str_eq (c ∷ p ++ s) s)) [
  | inl e ↦ absurd (omega (arith, ap length (str_eq→eq (c ∷ p ++ s) s e), length-append p s))
  | inr e ↦ e
]

-- `TrimSuffix` takes the suffix off.
pub trim_suffix-append : (p : Str) (d : ℕ) (s : Str) → trim_suffix (p ++ (d ∷ s)) (d ∷ s) ≡ p
unfolding trim_suffix
trim_suffix-append [] d s = rw (str_eq_refl (d ∷ s))
trim_suffix-append (c ∷ p) d s =
    rw (str_eq_longer c p (d ∷ s)) (ap (λ (t : Str). c ∷ t) (trim_suffix-append p d s))

-- `HasSuffix` finds the part before the suffix.
pub has_suffix→append :
    (s suffix : Str) → has_suffix s suffix ≡ true → (p : Str) × (s ≡ p ++ suffix)
unfolding has_suffix
has_suffix→append [] suffix h = ([], str_eq→eq [] suffix h)
has_suffix→append (c ∷ s) suffix h = elim (Bool-cases (str_eq (c ∷ s) suffix)) [
  | inl e ↦ ([], str_eq→eq (c ∷ s) suffix e)
  | inr e ↦
      let (p, q) = has_suffix→append s suffix (ground arith) in (c ∷ p, ap (λ (t : Str). c ∷ t) q)
]

pub str_eq_prefix : (p s t : Str) → str_eq (p ++ s) (p ++ t) ≡ str_eq s t
unfolding str_eq
str_eq_prefix [] s t = refl
str_eq_prefix (c ∷ p) s t = ground (arith, str_eq_prefix p s t)
