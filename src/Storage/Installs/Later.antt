-- ===== src/Storage/Installs/Later.antt =====
-- Rows that later events made of a row, and what merging them into it gives.
use argvio.Prelude.{
  ◌≡◌, refl, sym, ap, ◌∙◌, subst, ◌⊎◌, inl, inr, Bool, true, false, Option, none, some, arith,
  if◌then◌else◌, Bool-cases, if_of_true, if_of_false, some-eq-some,
}
use argvio.Prelude.Int.{ℤ, pos, negsuc, ltb_ℤ}
use argvio.Storage.Installs.{
  InstallState, coalesce, earliest, earlier_of, later_of, least_known, upsert_install,
}

-- Neither is before the other.
same_int : (a b : ℤ) → ltb_ℤ a b ≡ false → ltb_ℤ b a ≡ false → a ≡ b
same_int (pos m) (pos n) h k = ap pos (ground (arith, h, k))
same_int (pos m) (negsuc n) h k = ground (arith, h, k)
same_int (negsuc m) (pos n) h k = ground (arith, h, k)
same_int (negsuc m) (negsuc n) h k = ap negsuc (ground (arith, h, k))

if_same : {A : Type 0} (b : Bool) (x y : A) → y ≡ x → (if b then x else y) ≡ x
if_same true x y h = refl
if_same false x y h = h

-- A column that only takes new values where there are some.
abbrev pub Keeps : {A : Type 0} → Option A → Option A → Type 0
Keeps old new = coalesce new old ≡ new

-- What tracking changes in the columns, so that merging the result into the row is the result.
pub record IsLater (old new : InstallState) : Type 0 where
  pub first :
      ((new.first_seen ≡ old.first_seen) × (new.first_version ≡ old.first_version))
      ⊎ ((ltb_ℤ new.first_seen old.first_seen ≡ true) × Keeps old.first_version new.first_version)
  pub last : (ltb_ℤ new.last_seen old.last_seen ≡ false)
  pub version : Keeps old.last_version new.last_version
  pub os : Keeps old.last_os new.last_os
  pub arch : Keeps old.last_arch new.last_arch
  pub method : Keeps old.install_method new.install_method
  pub command : least_known old.first_command_at new.first_command_at ≡ new.first_command_at
  pub success : least_known old.first_success_at new.first_success_at ≡ new.first_success_at

pub not_before_itself : (a : ℤ) → ltb_ℤ a a ≡ false
not_before_itself a = ground arith

first_seen_merged :
    (old new : InstallState)
    → IsLater old new
    → earlier_of old.first_seen new.first_seen ≡ new.first_seen
first_seen_merged old new later = elim later.first [
  | inl same ↦
      if_same (ltb_ℤ new.first_seen old.first_seen) new.first_seen old.first_seen (sym same.0)
  | inr moved ↦ if_of_true _ _ _ moved.0
]

first_version_merged :
    (old new : InstallState)
    → IsLater old new
    → (if ltb_ℤ new.first_seen old.first_seen
        then coalesce new.first_version old.first_version
        else old.first_version)
      ≡ new.first_version
first_version_merged old new later = elim later.first [
  | inl same ↦
      if_of_false _ _ _ (ap (λ t. ltb_ℤ t old.first_seen) same.0 ∙ not_before_itself old.first_seen)
      ∙ sym same.1
  | inr moved ↦ if_of_true _ _ _ moved.0 ∙ moved.1
]

last_seen_merged :
    (old new : InstallState)
    → IsLater old new
    → later_of old.last_seen new.last_seen ≡ new.last_seen
last_seen_merged old new later = elim (Bool-cases (ltb_ℤ old.last_seen new.last_seen)) [
  | inl e ↦ if_of_true _ _ _ e
  | inr e ↦ if_of_false _ _ _ e ∙ same_int old.last_seen new.last_seen e later.last
]

last_merged :
    {A : Type 0} (old new : InstallState) (a b : Option A)
    → IsLater old new
    → Keeps a b
    → (if ltb_ℤ new.last_seen old.last_seen then a else coalesce b a) ≡ b
last_merged old new a b later keeps = if_of_false _ _ _ later.last ∙ keeps

pub upsert-IsLater : (old new : InstallState) → IsLater old new → upsert_install old new ≡ new
unfolding upsert_install
upsert-IsLater old new later = λ i. record {
  first_seen = first_seen_merged old new later i;
  last_seen = last_seen_merged old new later i;
  first_version = first_version_merged old new later i;
  last_version = last_merged old new old.last_version new.last_version later later.version i;
  last_os = last_merged old new old.last_os new.last_os later later.os i;
  last_arch = last_merged old new old.last_arch new.last_arch later later.arch i;
  install_method = later.method i;
  first_command_at = later.command i;
  first_success_at = later.success i;
}

pub Keeps-same : {A : Type 0} (a : Option A) → Keeps a a
Keeps-same none = refl
Keeps-same (some x) = refl

Keeps-trans : {A : Type 0} (a b c : Option A) → Keeps a b → Keeps b c → Keeps a c
Keeps-trans a b (some z) h k = refl
Keeps-trans a none none h k = h
Keeps-trans a (some y) none h k = cc k

pub Keeps-new : {A : Type 0} (old new : Option A) → Keeps old (coalesce new old)
Keeps-new none none = refl
Keeps-new (some x) none = refl
Keeps-new old (some y) = refl

pub known_same : (a : Option ℤ) → least_known a a ≡ a
known_same none = refl
known_same (some x) = ap (λ t. some t) (if_same (ltb_ℤ x x) x x refl)

earlier_cases : (x y : ℤ) → earlier_of x y ≡ y → (ltb_ℤ y x ≡ true) ⊎ (x ≡ y)
earlier_cases x y h = elim (Bool-cases (ltb_ℤ y x)) [
  | inl e ↦ inl e
  | inr e ↦ inr (sym (if_of_false _ _ _ e) ∙ h)
]

earlier_trans : (x y z : ℤ) → earlier_of x y ≡ y → earlier_of y z ≡ z → earlier_of x z ≡ z
earlier_trans x y z h k = elim (earlier_cases x y h) [
  | inr same ↦ ap (λ t. earlier_of t z) same ∙ k
  | inl before ↦ elim (earlier_cases y z k) [
    | inr same ↦ if_of_true _ _ _ (ap (λ t. ltb_ℤ t x) (sym same) ∙ before)
    | inl before_that ↦
        let first : ltb_ℤ z x ≡ true = ground (arith, before, before_that) in if_of_true _ _ _ first
  ]
]

known_trans : (a b c : Option ℤ) → least_known a b ≡ b → least_known b c ≡ c → least_known a c ≡ c
known_trans none b c h k = refl
known_trans (some x) none c h k = cc h
known_trans (some x) (some y) none h k = cc k
known_trans (some x) (some y) (some z) h k =
    ap (λ t. some t) (earlier_trans x y z (some-eq-some h) (some-eq-some k))

pub known_earliest : (a : Option ℤ) (t : ℤ) → least_known a (earliest a t) ≡ earliest a t
unfolding earliest
known_earliest none t = refl
known_earliest (some x) t = elim (Bool-cases (ltb_ℤ t x)) [
  | inl e ↦ rw e (ap (λ u. some u) (if_of_true _ _ _ e))
  | inr e ↦ rw e (known_same (some x))
]

pub IsLater-same : (st : InstallState) → IsLater st st
IsLater-same st = record {
  first = inl (refl, refl);
  last = not_before_itself st.last_seen;
  version = Keeps-same st.last_version;
  os = Keeps-same st.last_os;
  arch = Keeps-same st.last_arch;
  method = Keeps-same st.install_method;
  command = known_same st.first_command_at;
  success = known_same st.first_success_at;
}

first_trans :
    (a b c : InstallState)
    → IsLater a b
    → IsLater b c
    → ((c.first_seen ≡ a.first_seen) × (c.first_version ≡ a.first_version))
      ⊎ ((ltb_ℤ c.first_seen a.first_seen ≡ true) × Keeps a.first_version c.first_version)
first_trans a b c one two = elim one.first [
  | inl same ↦ elim two.first [
    | inl also ↦ inl (also.0 ∙ same.0, also.1 ∙ same.1)
    | inr moved ↦ inr (
      ap (λ t. ltb_ℤ c.first_seen t) (sym same.0) ∙ moved.0,
      ap (λ v. coalesce c.first_version v) (sym same.1) ∙ moved.1,
    )
  ]
  | inr moved ↦ elim two.first [
    | inl same ↦ inr (
      ap (λ t. ltb_ℤ t a.first_seen) same.0 ∙ moved.0,
      subst (Keeps a.first_version) (sym same.1) moved.1,
    )
    | inr also ↦ inr (
      ground (arith, moved.0, also.0),
      Keeps-trans a.first_version b.first_version c.first_version moved.1 also.1,
    )
  ]
]

pub IsLater-trans : (a b c : InstallState) → IsLater a b → IsLater b c → IsLater a c
IsLater-trans a b c one two = record {
  first = first_trans a b c one two;
  last = ground (arith, one.last, two.last);
  version = Keeps-trans a.last_version b.last_version c.last_version one.version two.version;
  os = Keeps-trans a.last_os b.last_os c.last_os one.os two.os;
  arch = Keeps-trans a.last_arch b.last_arch c.last_arch one.arch two.arch;
  method = Keeps-trans a.install_method b.install_method c.install_method one.method two.method;
  command =
      known_trans a.first_command_at b.first_command_at c.first_command_at one.command two.command;
  success =
      known_trans a.first_success_at b.first_success_at c.first_success_at one.success two.success;
}
