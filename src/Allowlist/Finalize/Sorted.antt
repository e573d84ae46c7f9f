-- ===== src/Allowlist/Finalize/Sorted.antt =====
-- The sort of the families: nothing lost, longer keys first.
use argvio.Prelude.{inl, inr, ◌≤◌, List, [], ◌∷◌, length, All, All-implies, arith, Bool-cases}
use argvio.Allowlist.{AttrDef}
use argvio.Allowlist.Finalize.{sort_families, insert_family, family_before}

module _ {κ} (P : AttrDef → Type κ) where
  pub insert_family-All :
      (f : AttrDef) (fs : List AttrDef) → P f → All P fs → All P (insert_family f fs)
  unfolding insert_family
  insert_family-All f [] p h = (p, tt)
  insert_family-All f (g ∷ gs) p h = elim (Bool-cases (family_before g f)) [
    | inl later ↦ rw later (h.0, insert_family-All f gs p h.1)
    | inr first ↦ rw first (p, h)
  ]

  pub sort_families-All : (fs : List AttrDef) → All P fs → All P (sort_families fs)
  unfolding sort_families
  sort_families-All [] h = tt
  sort_families-All (f ∷ fs) h =
      insert_family-All f (sort_families fs) h.0 (sort_families-All fs h.1)

-- No family is followed by one with a longer key.
abbrev pub LongestFirst : List AttrDef → Type 0
LongestFirst [] = Unit
LongestFirst (f ∷ fs) = All (λ g. length g.key ≤ length f.key) fs × LongestFirst fs

pub insert_family-LongestFirst :
    (f : AttrDef) (fs : List AttrDef) → LongestFirst fs → LongestFirst (insert_family f fs)
unfolding insert_family
insert_family-LongestFirst f [] h = (tt, tt)
insert_family-LongestFirst f (g ∷ gs) h = elim (Bool-cases (family_before g f)) [
  | inl later ↦ rw later (
    insert_family-All _ f gs (unfold family_before in ground arith) h.0,
    insert_family-LongestFirst f gs h.1,
  )
  | inr first ↦ rw first (
      let below : length g.key ≤ length f.key = unfold family_before in ground arith in
      ((below, All-implies gs (λ x le. omega arith) h.0), h))
]

pub sort_families-LongestFirst : (fs : List AttrDef) → LongestFirst (sort_families fs)
unfolding sort_families
sort_families-LongestFirst [] = tt
sort_families-LongestFirst (f ∷ fs) =
    insert_family-LongestFirst f (sort_families fs) (sort_families-LongestFirst fs)
