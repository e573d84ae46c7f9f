-- ===== src/Allowlist/Finalize/Families.antt =====
-- The loop over the attributes: keys, tiers and families.
use argvio.Prelude.{
  ok, ok_of_bind, ok-injective, Str, str_eq_iff, has_suffix, ◌≡◌, refl, subst, ◌∙◌, Bool, true,
  false, Option, List, [], ◌∷◌, ◌++◌, All, All-implies, arith, if◌then◌else◌, is_some,
}
use mathlib.Core.List.{append-nil, append_assoc}
use argvio.Prelude.Int.{ℤ}
use argvio.Prelude.Maps.{Map, lookup, has}
use argvio.Allowlist.{AttrDef, family_suffix}
use argvio.Allowlist.Finalize.{finalize_attr, finalize_attrs}

-- A family key carries its compiled pattern.
pub record IsFamily (f : AttrDef) : Type 0 where
  pub suffixed : has_suffix f.key family_suffix ≡ true
  pub compiled : is_some f.key_pattern_re ≡ true

pub record IsAttr (ranks : Map ℤ) (k : Str) (raw def : AttrDef) (is_family : Bool) : Type 0 where
  pub keyed : def.key ≡ k
  pub ranked : has def.min_tier ranks ≡ true
  pub family : is_family ≡ true → IsFamily def

module _ (compile : Str → Option (Str → Bool)) (ranks : Map ℤ) where
  pub finalize_attr-IsAttr :
      (k : Str) (raw def : AttrDef) (is_family : Bool)
      → finalize_attr compile ranks k raw ≡ ok (def, is_family)
      → IsAttr ranks k raw def is_family
  unfolding finalize_attr
  finalize_attr-IsAttr k raw def is_family h = ground arith

  abbrev pub AttrsGood : Map AttrDef → Type 0
  AttrsGood = All (λ entry. (entry.1.key ≡ entry.0) × (has entry.1.min_tier ranks ≡ true))

  abbrev pub FamiliesIn : Map AttrDef → List AttrDef → Type 0
  FamiliesIn attrs = All (λ f. IsFamily f × (has f.key attrs ≡ true))

  pub FamiliesIn-cons :
      (k : Str) (d : AttrDef) (attrs : Map AttrDef) (fs : List AttrDef)
      → FamiliesIn attrs fs
      → FamiliesIn ((k, d) ∷ attrs) fs
  FamiliesIn-cons k d attrs fs = All-implies fs (λ f h. (h.0, unfold lookup in ground (arith, h.1)))

  -- The families that one loop over the attributes appends.
  abbrev pub Appends : Map AttrDef → List AttrDef → List AttrDef → Type 0
  Appends attrs fams out = (new : List AttrDef) × (out ≡ fams ++ new) × FamiliesIn attrs new

  pub Appends-cons :
      (b : Bool) (k : Str) (d : AttrDef) (attrs : Map AttrDef) (fams out : List AttrDef)
      → (b ≡ true → IsFamily d)
      → d.key ≡ k
      → Appends attrs (if b then fams ++ d ∷ [] else fams) out
      → Appends ((k, d) ∷ attrs) fams out
  Appends-cons true k d attrs fams out f e (new, g, h) = (
    d ∷ new,
    g ∙ append_assoc fams (d ∷ []) new,
    (
      (f refl, unfold lookup in rw e (ground (arith, str_eq_iff k k))),
      FamiliesIn-cons k d attrs new h,
    ),
  )
  Appends-cons false k d attrs fams out f e (new, g, h) = (new, g, FamiliesIn-cons k d attrs new h)

  pub finalize_attrs-Good :
      (l : Map AttrDef) (fams : List AttrDef) (attrs : Map AttrDef) (out : List AttrDef)
      → finalize_attrs compile ranks l fams ≡ ok (attrs, out)
      → AttrsGood attrs × Appends attrs fams out
  unfolding finalize_attrs
  finalize_attrs-Good [] fams attrs out h = (ground arith, ([], rw append-nil (ground arith), tt))
  finalize_attrs-Good ((k, raw) ∷ rest) fams attrs out h =
      let (p, e1, h1) = ok_of_bind (finalize_attr compile ranks k raw) _ h in
      let (q, e2, h2) =
        ok_of_bind (finalize_attrs compile ranks rest (if p.1 then fams ++ p.0 ∷ [] else fams)) _
          h1 in
      let a = finalize_attr-IsAttr k raw p.0 p.1 e1 in
      let ih = finalize_attrs-Good rest (if p.1 then fams ++ p.0 ∷ [] else fams) q.0 q.1 e2 in
      let good : AttrsGood ((k, p.0) ∷ q.0) × Appends ((k, p.0) ∷ q.0) fams q.1 =
        (((a.keyed, a.ranked), ih.0), Appends-cons p.1 k p.0 q.0 fams q.1 a.family a.keyed ih.1) in
      subst (λ r. AttrsGood r.0 × Appends r.0 fams r.1) (ok-injective h2) good
