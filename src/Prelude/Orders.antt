-- ===== src/Prelude/Orders.antt =====
-- Comparisons with three answers, and how orders are built from orders.
use Prim.Native.Nat.{Ordering, compare}
use argvio.Prelude.{◌≡◌, refl, sym, ap, ◌∙◌, ◌⊎◌, inl, inr, List, [], ◌∷◌, arith}

abbrev pub opposite : Ordering → Ordering
opposite Ordering.lt = Ordering.gt
opposite Ordering.eq = Ordering.eq
opposite Ordering.gt = Ordering.lt

-- The first difference decides.
abbrev pub and_then : Ordering → Ordering → Ordering
and_then Ordering.lt later = Ordering.lt
and_then Ordering.eq later = later
and_then Ordering.gt later = Ordering.gt

-- A comparison that is a total preorder: reflexive and total by `flips`, transitive by the others.
pub record IsOrder {ℓ} {A : Type ℓ} (c : A → A → Ordering) : Type ℓ where
  pub flips : (x y : A) → c y x ≡ opposite (c x y)
  pub chains : (x y z : A) → c x y ≡ Ordering.lt → c y z ≡ Ordering.lt → c x z ≡ Ordering.lt
  pub replaces : (x y z : A) → c x y ≡ Ordering.eq → c x z ≡ c y z

pub nat-IsOrder : IsOrder compare
nat-IsOrder = record {
  flips = λ x y. ground arith;
  chains = λ x y z h k. ground arith;
  replaces = λ x y z h. ground arith;
}

module _ {ℓ} {A : Type ℓ} where
  pub same-IsOrder : (c d : A → A → Ordering) → ((x y : A) → d x y ≡ c x y) → IsOrder c → IsOrder d
  same-IsOrder c d same order = record {
    flips = λ x y. cc (same y x, ap opposite (same x y), order.flips x y);
    chains = λ x y z h k. same x z ∙ order.chains x y z (sym (same x y) ∙ h) (sym (same y z) ∙ k);
    replaces = λ x y z h. same x z ∙ order.replaces x y z (sym (same x y) ∙ h) ∙ sym (same y z);
  }

  pub on-IsOrder {κ} :
      {B : Type κ} (c : A → A → Ordering) (f : B → A) → IsOrder c → IsOrder (λ x y. c (f x) (f y))
  on-IsOrder c f order = record {
    flips = λ x y. order.flips (f x) (f y);
    chains = λ x y z. order.chains (f x) (f y) (f z);
    replaces = λ x y z. order.replaces (f x) (f y) (f z);
  }

  pub and_then-IsOrder :
      (c d : A → A → Ordering) → IsOrder c → IsOrder d → IsOrder (λ x y. and_then (c x y) (d x y))
  and_then-IsOrder c d first second = record {
    flips = λ x y. ground (arith, first.flips x y, second.flips x y);
    chains = λ x y z h k. ground (
      arith,
      h,
      k,
      first.chains x y z,
      second.chains x y z,
      first.replaces x y z,
      first.replaces z y x,
      first.flips x y,
      first.flips y z,
      first.flips x z,
    );
    replaces = λ x y z h. ground (arith, h, first.replaces x y z, second.replaces x y z);
  }

-- Everything of the first part before everything of the second.
abbrev pub compare_parts {ℓ} :
    {A B : Type ℓ} → (A → A → Ordering) → (B → B → Ordering) → A ⊎ B → A ⊎ B → Ordering
compare_parts c d (inl x) (inl y) = c x y
compare_parts c d (inl x) (inr y) = Ordering.lt
compare_parts c d (inr x) (inl y) = Ordering.gt
compare_parts c d (inr x) (inr y) = d x y

module _ {ℓ} {A B : Type ℓ} (c : A → A → Ordering) (d : B → B → Ordering) (first : IsOrder c)
    (second : IsOrder d) where
  parts_flip : (x y : A ⊎ B) → compare_parts c d y x ≡ opposite (compare_parts c d x y)
  parts_flip (inl x) (inl y) = first.flips x y
  parts_flip (inl x) (inr y) = refl
  parts_flip (inr x) (inl y) = refl
  parts_flip (inr x) (inr y) = second.flips x y

  parts_chain :
      (x y z : A ⊎ B)
      → compare_parts c d x y ≡ Ordering.lt
      → compare_parts c d y z ≡ Ordering.lt
      → compare_parts c d x z ≡ Ordering.lt
  parts_chain (inl x) (inl y) (inl z) h k = first.chains x y z h k
  parts_chain (inl x) y (inr z) h k = refl
  parts_chain (inl x) (inr y) (inl z) h k = cc k
  parts_chain (inr x) (inl y) z h k = cc h
  parts_chain (inr x) (inr y) (inl z) h k = k
  parts_chain (inr x) (inr y) (inr z) h k = second.chains x y z h k

  parts_replace :
      (x y z : A ⊎ B)
      → compare_parts c d x y ≡ Ordering.eq
      → compare_parts c d x z ≡ compare_parts c d y z
  parts_replace (inl x) (inl y) (inl z) h = first.replaces x y z h
  parts_replace (inl x) (inl y) (inr z) h = refl
  parts_replace (inl x) (inr y) z h = cc h
  parts_replace (inr x) (inl y) z h = cc h
  parts_replace (inr x) (inr y) (inl z) h = refl
  parts_replace (inr x) (inr y) (inr z) h = second.replaces x y z h

  pub compare_parts-IsOrder : IsOrder (compare_parts c d)
  compare_parts-IsOrder = record {
    flips = parts_flip;
    chains = parts_chain;
    replaces = parts_replace;
  }

-- Element by element, then the shorter one first.
unfoldable pub compare_lists {ℓ} : {A : Type ℓ} → (A → A → Ordering) → List A → List A → Ordering
compare_lists c [] [] = Ordering.eq
compare_lists c [] (y ∷ ys) = Ordering.lt
compare_lists c (x ∷ xs) [] = Ordering.gt
compare_lists c (x ∷ xs) (y ∷ ys) = and_then (c x y) (compare_lists c xs ys)

module _ {ℓ} {A : Type ℓ} (c : A → A → Ordering) (order : IsOrder c) where
  lists_flip : (xs ys : List A) → compare_lists c ys xs ≡ opposite (compare_lists c xs ys)
  unfolding compare_lists
  lists_flip [] [] = refl
  lists_flip [] (y ∷ ys) = refl
  lists_flip (x ∷ xs) [] = refl
  lists_flip (x ∷ xs) (y ∷ ys) = ground (arith, order.flips x y, lists_flip xs ys)

  lists_chain :
      (xs ys zs : List A)
      → compare_lists c xs ys ≡ Ordering.lt
      → compare_lists c ys zs ≡ Ordering.lt
      → compare_lists c xs zs ≡ Ordering.lt
  unfolding compare_lists
  lists_chain [] ys (z ∷ zs) h k = refl
  lists_chain [] [] [] h k = h
  lists_chain [] (y ∷ ys) [] h k = cc k
  lists_chain (x ∷ xs) [] zs h k = cc h
  lists_chain (x ∷ xs) (y ∷ ys) [] h k = k
  lists_chain (x ∷ xs) (y ∷ ys) (z ∷ zs) h k = ground (
    arith,
    h,
    k,
    order.chains x y z,
    lists_chain xs ys zs,
    order.replaces x y z,
    order.replaces z y x,
    order.flips x y,
    order.flips y z,
    order.flips x z,
  )

  lists_replace :
      (xs ys zs : List A)
      → compare_lists c xs ys ≡ Ordering.eq
      → compare_lists c xs zs ≡ compare_lists c ys zs
  unfolding compare_lists
  lists_replace [] [] zs h = refl
  lists_replace [] (y ∷ ys) zs h = cc h
  lists_replace (x ∷ xs) [] zs h = cc h
  lists_replace (x ∷ xs) (y ∷ ys) [] h = refl
  lists_replace (x ∷ xs) (y ∷ ys) (z ∷ zs) h =
      ground (arith, h, order.replaces x y z, lists_replace xs ys zs)

  pub compare_lists-IsOrder : IsOrder (compare_lists c)
  compare_lists-IsOrder = record {
    flips = lists_flip;
    chains = lists_chain;
    replaces = lists_replace;
  }
