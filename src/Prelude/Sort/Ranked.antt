-- ===== src/Prelude/Sort/Ranked.antt =====
-- Sorting keeps the elements, and sorting by a falling number puts none before a larger one.
use mathlib.Core.List.{Perm}
use mathlib.Core.List.Perm
use argvio.Prelude.{ℕ, ◌≤◌, List, [], ◌∷◌, All, All-implies, arith, ltb, Bool, Bool-cases, inl, inr}
use argvio.Prelude.Sort.{insert_by, insert_by-All, sort_by}

module _ {ℓ} {A : Type ℓ} where
  insert_by-Perm :
      (before : A → A → Bool) (x : A) (xs : List A) → Perm (insert_by before x xs) (x ∷ xs)
  unfolding insert_by
  insert_by-Perm before x [] = Perm.refl (x ∷ [])
  insert_by-Perm before x (y ∷ ys) = elim (Bool-cases (before y x)) [
    | inl e ↦ rw e (Perm.trans (Perm.cons y (insert_by-Perm before x ys)) (Perm.swap x y ys))
    | inr e ↦ rw e (Perm.refl (x ∷ y ∷ ys))
  ]

  pub sort_by-Perm : (before : A → A → Bool) (xs : List A) → Perm (sort_by before xs) xs
  unfolding sort_by
  sort_by-Perm before [] = Perm.refl []
  sort_by-Perm before (x ∷ xs) =
      Perm.trans (insert_by-Perm before x (sort_by before xs))
        (Perm.cons x (sort_by-Perm before xs))

  -- Largest first.
  abbrev pub Descends : (A → ℕ) → List A → Type 0
  Descends rank [] = Unit
  Descends rank (x ∷ xs) = All (λ y. rank y ≤ rank x) xs × Descends rank xs

  -- The test of a sort by a number, largest first.
  abbrev pub ranks_before : (A → ℕ) → A → A → Bool
  ranks_before rank a b = ltb (rank b) (rank a)

  insert_by-Descends :
      (rank : A → ℕ) (x : A) (xs : List A)
      → Descends rank xs
      → Descends rank (insert_by (ranks_before rank) x xs)
  unfolding insert_by
  insert_by-Descends rank x [] h = (tt, tt)
  insert_by-Descends rank x (y ∷ ys) h = elim (Bool-cases (ranks_before rank y x)) [
    | inl e ↦ rw e (
      insert_by-All (λ z. rank z ≤ rank y) (ranks_before rank) x ys (ground (arith, e)) h.0,
      insert_by-Descends rank x ys h.1,
    )
    | inr e ↦ rw e ((ground (arith, e), All-implies ys (λ z p. ground (arith, e, p)) h.0), h)
  ]

  pub sort_by-Descends :
      (rank : A → ℕ) (xs : List A) → Descends rank (sort_by (ranks_before rank) xs)
  unfolding sort_by
  sort_by-Descends rank [] = tt
  sort_by-Descends rank (x ∷ xs) =
      insert_by-Descends rank x (sort_by (ranks_before rank) xs) (sort_by-Descends rank xs)
