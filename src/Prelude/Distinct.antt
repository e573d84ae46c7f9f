-- ===== src/Prelude/Distinct.antt =====
-- Lists of strings without repetition, and what their length says of their members.
use argvio.Prelude.{
  Str, str_eq, str_eq_iff, str_eq_refl, suc, ◌≤◌, ◌≡◌, refl, Bool, true, false, ◌&&◌, ◌||◌, List,
  [], ◌∷◌, ◌++◌, select, member, length, arith, if◌then◌else◌, Bool-cases, inl, inr, ap,
}

abbrev pub IsDistinct : List Str → Type 0
IsDistinct [] = Unit
IsDistinct (x ∷ xs) = (member xs x ≡ false) × IsDistinct xs

pub member-append :
    (xs ys : List Str) (s : Str) → member (xs ++ ys) s ≡ (member xs s || member ys s)
unfolding member
member-append [] ys s = refl
member-append (x ∷ xs) ys s = ground (arith, member-append xs ys s)

pub member-select :
    (p : Str → Bool) (xs : List Str) (s : Str) → member (select p xs) s ≡ (p s && member xs s)
unfolding member select
member-select p [] s = ground arith
member-select p (x ∷ xs) s =
    let same : str_eq x s ≡ true → p x ≡ p s = λ e. ap p ((str_eq_iff x s).0 e) in
    ground (arith, member-select p xs s, same)

-- The list without the first occurrence.
unfoldable erase : Str → List Str → List Str
erase s [] = []
erase s (x ∷ xs) = let rest = erase s xs in if str_eq x s then xs else x ∷ rest

length-erase :
    (s : Str) (xs : List Str) → member xs s ≡ true → suc (length (erase s xs)) ≡ length xs
unfolding erase member
length-erase s [] h = cc h
length-erase s (x ∷ xs) h = ground (arith, length-erase s xs)

member-erase :
    (s t : Str) (xs : List Str) → str_eq s t ≡ false → member (erase s xs) t ≡ member xs t
unfolding erase member
member-erase s t [] h = refl
member-erase s t (x ∷ xs) h =
    let same : str_eq x s ≡ true → str_eq x t ≡ str_eq s t =
      λ e. ap (λ y. str_eq y t) ((str_eq_iff x s).0 e) in
    ground (arith, member-erase s t xs h, same)

-- Distinct members of a list that is not longer are all of its members.
pub member_of_length :
    (xs ys : List Str) (s : Str)
    → IsDistinct xs
    → ((x : Str) → member xs x ≡ true → member ys x ≡ true)
    → length ys ≤ length xs
    → member ys s ≡ true
    → member xs s ≡ true
unfolding member
member_of_length [] [] s distinct inside short h = cc h
member_of_length [] (y ∷ ys) s distinct inside short h = absurd (omega (arith, short))
member_of_length (x ∷ xs) ys s distinct inside short h = elim (Bool-cases (str_eq x s)) [
  | inl e ↦ ground (arith, e)
  | inr e ↦
      let x_inside : member ys x ≡ true = inside x (ground (arith, str_eq_refl x)) in
      let later =
        member_of_length xs (erase x ys) s distinct.1
          (λ z in_xs. elim (Bool-cases (str_eq x z)) [
            | inl same ↦ cc (ap (member xs) ((str_eq_iff x z).0 same), distinct.0, in_xs)
            | inr other ↦
                ground (arith, member-erase x z ys other, inside z (ground (arith, in_xs)))
          ])
          (omega (arith, length-erase x ys x_inside, short))
          (ground (arith, member-erase x s ys e, h)) in
      ground (arith, later)
]
