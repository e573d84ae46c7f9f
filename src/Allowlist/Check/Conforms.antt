-- ===== src/Allowlist/Check/Conforms.antt =====
-- CheckAttribute decides an independent statement of conformance.
use argvio.Prelude.{
  ℕ, Str, str_eq, str_eq_iff, str_eq_refl, member, ◌≡◌, refl, ◌⊎◌, ◌↔◌, inl, inr, true, false, not,
  ◌&&◌, none, some, List, [], ◌∷◌, All, length, arith, Bool-cases,
}
use argvio.Prelude.Int.{ℤ, pos, ◌≤ℤ◌, ltb_ℤ}
use argvio.Allowlist.{
  Value, str, int64, boolean, float64, strings, AttrType, string, int, bool, double, string_array,
  AttrDef, Regexp,
}
use argvio.Allowlist.Check.{
  nonempty, mismatch, check_as, too_long, first_too_long, check_string, check_string_array,
  check_attribute,
}

-- At most `max` long; a maximum of zero or below is no limit.
abbrev pub Within : ℤ → ℕ → Type 0
Within max n = (max ≤ℤ pos 0) ⊎ (pos n ≤ℤ max)

abbrev pub IsElem : Str → List Str → Type 0
IsElem s [] = ⊥
IsElem s (x ∷ xs) = (x ≡ s) ⊎ IsElem s xs

abbrev pub Satisfies : Regexp → Str → Type 0
Satisfies none s = Unit
Satisfies (some p) s = p s ≡ true

-- The value has the declared type and keeps the bounds that the definition sets for that type.
abbrev pub ConformsAs : AttrType → AttrDef → Value → Type 0
ConformsAs string d (str s) =
    Within d.max_length (length s) × ((d.enum ≡ []) ⊎ IsElem s d.enum) × Satisfies d.pattern_re s
ConformsAs int d (int64 n) = Unit
ConformsAs bool d (boolean b) = Unit
ConformsAs double d (float64 x) = Unit
ConformsAs string_array d (strings arr) =
    Within d.max_items (length arr) × All (λ s. Within d.max_length (length s)) arr
ConformsAs t d value = ⊥

too_long_iff {ℓ} :
    {A : Type ℓ} (max : ℤ) (xs : List A) → (too_long max xs ≡ false) ↔ Within max (length xs)
unfolding too_long
too_long_iff max xs = ((λ h. ground arith), λ h. ground arith)

member_iff : (xs : List Str) (s : Str) → (member xs s ≡ true) ↔ IsElem s xs
unfolding member
member_iff [] s = ((λ h. cc), λ h. absurd h)
member_iff (x ∷ xs) s =
    let ih = member_iff xs s in
    (
      (λ h. elim (Bool-cases (str_eq x s)) [
        | inl e ↦ inl ((str_eq_iff x s).0 e)
        | inr e ↦ inr (ih.0 (rw e at h))
      ]),
      λ h. elim h [ inl e ↦ rw e (rw (str_eq_refl s)) | inr m ↦ ground (arith, ih.1 m) ],
    )

enum_iff :
    (xs : List Str) (s : Str)
    → ((nonempty xs && not (member xs s)) ≡ false) ↔ ((xs ≡ []) ⊎ IsElem s xs)
enum_iff [] s = ((λ h. inl refl), λ h. refl)
enum_iff (x ∷ xs) s = (
  (λ h. inr ((member_iff (x ∷ xs) s).0 (ground arith))),
  λ h. elim h [ inl e ↦ cc | inr m ↦ rw ((member_iff (x ∷ xs) s).1 m) ],
)

mismatch_iff : (r : Regexp) (s : Str) → (mismatch r s ≡ false) ↔ Satisfies r s
mismatch_iff none s = ((λ h. tt), λ h. refl)
mismatch_iff (some p) s = ((λ h. ground arith), λ h. rw h)

check_string_iff : (d : AttrDef) (s : Str) → (check_string d s ≡ none) ↔ ConformsAs string d (str s)
unfolding check_string
check_string_iff d s = (
  (λ h. (
    (too_long_iff d.max_length s).0 (ground arith),
    (enum_iff d.enum s).0 (ground arith),
    (mismatch_iff d.pattern_re s).0 (ground arith),
  )),
  λ h.
      rw
        (
          (too_long_iff d.max_length s).1 h.0,
          (enum_iff d.enum s).1 h.1,
          (mismatch_iff d.pattern_re s).1 h.2,
        )
        refl,
)

items_iff :
    (max : ℤ) (arr : List Str)
    → ((ltb_ℤ (pos 0) max && first_too_long max arr) ≡ false) ↔ All (λ s. Within max (length s)) arr
unfolding first_too_long
items_iff max [] = ((λ h. tt), λ h. ground arith)
items_iff max (s ∷ arr) =
    let ih = items_iff max arr in
    (
      (λ h. (ground arith, ih.0 (ground arith))),
      λ h. let rest = ih.1 h.1 in let first = h.0 in ground (arith, rest, first),
    )

check_string_array_iff :
    (d : AttrDef) (arr : List Str)
    → (check_string_array d arr ≡ none) ↔ ConformsAs string_array d (strings arr)
unfolding check_string_array
check_string_array_iff d arr = (
  (λ h. (
    (too_long_iff d.max_items arr).0 (ground arith),
    (items_iff d.max_length arr).0 (ground arith),
  )),
  λ h. rw ((too_long_iff d.max_items arr).1 h.0, (items_iff d.max_length arr).1 h.1) refl,
)

check_as_iff : (t : AttrType) (d : AttrDef) (v : Value) → (check_as t d v ≡ none) ↔ ConformsAs t d v
check_as_iff string d (str s) = check_string_iff d s
check_as_iff string_array d (strings arr) = check_string_array_iff d arr
check_as_iff int d (int64 n) = ((λ h. tt), λ h. refl)
check_as_iff bool d (boolean b) = ((λ h. tt), λ h. refl)
check_as_iff double d (float64 x) = ((λ h. tt), λ h. refl)
check_as_iff t d v = ((λ h. cc), λ h. absurd h)

-- CheckAttribute accepts exactly the values of the declared type within the declared bounds:
-- strings no longer than a positive max_length, in the enum if there is one, and matching the
-- pattern if there is one; arrays with at most a positive max_items items, each no longer than a
-- positive max_length. It accepts no value under an unknown type.
pub check_attribute_iff :
    (d : AttrDef) (v : Value) → (check_attribute d v ≡ none) ↔ ConformsAs d.attr_type d v
unfolding check_attribute
check_attribute_iff d v = check_as_iff d.attr_type d v
