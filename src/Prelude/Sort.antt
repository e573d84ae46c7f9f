-- ===== src/Prelude/Sort.antt =====
-- Go's sort.Strings and sort.SliceStable: a stable sort by a test of what goes before what.
pub mod Ranked
use argvio.Prelude.{
  map, refl, IsMember, ◌⊎◌, sym, subst, Str, str_eq, str_lt, ◌≡◌, refl, Bool, ◌||◌, List, [], ◌∷◌,
  All, arith, if◌then◌else◌, member, length, suc, Bool-cases, inl, inr,
}

module _ {ℓ} {A : Type ℓ} where
  unfoldable pub insert_by : (A → A → Bool) → A → List A → List A
  insert_by before x [] = x ∷ []
  insert_by before x (y ∷ ys) =
      let rest = insert_by before x ys in if before y x then y ∷ rest else x ∷ y ∷ ys

  unfoldable pub sort_by : (A → A → Bool) → List A → List A
  sort_by before [] = []
  sort_by before (x ∷ xs) = insert_by before x (sort_by before xs)

  pub insert_by-All {κ} :
      (P : A → Type κ) (before : A → A → Bool) (x : A) (xs : List A)
      → P x
      → All P xs
      → All P (insert_by before x xs)
  unfolding insert_by
  insert_by-All P before x [] p h = (p, tt)
  insert_by-All P before x (y ∷ ys) p h = elim (Bool-cases (before y x)) [
    | inl e ↦ rw e (h.0, insert_by-All P before x ys p h.1)
    | inr e ↦ rw e (p, h)
  ]

  pub sort_by-All {κ} :
      (P : A → Type κ) (before : A → A → Bool) (xs : List A) → All P xs → All P (sort_by before xs)
  unfolding sort_by
  sort_by-All P before [] h = tt
  sort_by-All P before (x ∷ xs) h =
      insert_by-All P before x (sort_by before xs) h.0 (sort_by-All P before xs h.1)

  length-insert_by :
      (before : A → A → Bool) (x : A) (xs : List A)
      → length (insert_by before x xs) ≡ suc (length xs)
  unfolding insert_by
  length-insert_by before x [] = refl
  length-insert_by before x (y ∷ ys) = ground (arith, length-insert_by before x ys)

  pub length-sort_by :
      (before : A → A → Bool) (xs : List A) → length (sort_by before xs) ≡ length xs
  unfolding sort_by
  length-sort_by before [] = refl
  length-sort_by before (x ∷ xs) =
      ground (arith, length-insert_by before x (sort_by before xs), length-sort_by before xs)

-- sort.Strings(xs)
unfoldable pub sort_strings : List Str → List Str
sort_strings xs = sort_by str_lt xs

member-insert_by :
    (before : Str → Str → Bool) (x : Str) (xs : List Str) (s : Str)
    → member (insert_by before x xs) s ≡ (str_eq x s || member xs s)
unfolding insert_by member
member-insert_by before x [] s = refl
member-insert_by before x (y ∷ ys) s = ground (arith, member-insert_by before x ys s)

pub member-sort_by :
    (before : Str → Str → Bool) (xs : List Str) (s : Str)
    → member (sort_by before xs) s ≡ member xs s
unfolding sort_by member
member-sort_by before [] s = refl
member-sort_by before (x ∷ xs) s =
    ground (arith, member-insert_by before x (sort_by before xs) s, member-sort_by before xs s)

IsMember-insert_by :
    {A : Type 0} (before : A → A → Bool) (x y : A) (xs : List A)
    → (y ≡ x) ⊎ IsMember y xs
    → IsMember y (insert_by before x xs)
unfolding insert_by
IsMember-insert_by before x y [] h = h
IsMember-insert_by before x y (z ∷ xs) h = elim (Bool-cases (before z x)) [
  | inl e ↦ rw e (elim h [
    | inl same ↦ inr (IsMember-insert_by before x y xs (inl same))
    | inr (inl first) ↦ inl first
    | inr (inr later) ↦ inr (IsMember-insert_by before x y xs (inr later))
  ])
  | inr e ↦ rw e h
]

-- Sorting keeps each element, and adds none.
pub IsMember-sort_by :
    {A : Type 0} (before : A → A → Bool) (y : A) (xs : List A)
    → IsMember y xs
    → IsMember y (sort_by before xs)
unfolding sort_by
IsMember-sort_by before y [] h = h
IsMember-sort_by before y (x ∷ xs) (inl same) =
    IsMember-insert_by before x y (sort_by before xs) (inl same)
IsMember-sort_by before y (x ∷ xs) (inr later) =
    IsMember-insert_by before x y (sort_by before xs) (inr (IsMember-sort_by before y xs later))

pub All-IsMember :
    {A : Type 0} (P : A → Type 0) (xs : List A) → ((x : A) → IsMember x xs → P x) → All P xs
All-IsMember P [] h = tt
All-IsMember P (x ∷ xs) h = (h x (inl refl), All-IsMember P xs (λ y later. h y (inr later)))

pub member_All :
    {A : Type 0} (P : A → Type 0) (x : A) (xs : List A) → All P xs → IsMember x xs → P x
member_All P x (y ∷ xs) h (inl same) = subst P (sym same) h.0
member_All P x (y ∷ xs) h (inr later) = member_All P x xs h.1 later
member_All P x [] h inside = absurd inside

-- What a sorted list's elements are among.
pub sorted_IsMember :
    {A : Type 0} (before : A → A → Bool) (y : A) (xs : List A)
    → IsMember y (sort_by before xs)
    → IsMember y xs
sorted_IsMember before y xs =
    member_All (λ x. IsMember x xs) y (sort_by before xs)
      (sort_by-All (λ x. IsMember x xs) before xs (All-IsMember (λ x. IsMember x xs) xs (λ x h. h)))

pub IsMember-map :
    {A B : Type 0} (f : A → B) (y : B) (xs : List A)
    → IsMember y (map f xs)
    → (x : A) × IsMember x xs × (y ≡ f x)
IsMember-map f y [] h = absurd h
IsMember-map f y (x ∷ xs) (inl same) = (x, inl refl, same)
IsMember-map f y (x ∷ xs) (inr later) =
    let (z, inside, same) = IsMember-map f y xs later in (z, inr inside, same)
