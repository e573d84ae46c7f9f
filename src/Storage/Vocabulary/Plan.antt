-- ===== src/Storage/Vocabulary/Plan.antt =====
-- Which new values a plan admits.
use mathlib.Core.List.{Perm, Permᴰ}
use mathlib.Core.Logic.{∥∥₁_elim}
use native.Mathlib.Nat.{ℕ_set}
use argvio.Prelude.{
  Str, ℕ, suc, ◌+◌, ◌-◌, ◌%◌, ◌^◌, ◌≤◌, ◌<◌, ◌≡◌, refl, ap, ◌⊎◌, inl, inr, List, [], ◌∷◌, ◌++◌, All,
  length, arith, true, false, Bool-cases, subst, sym, ◌∙◌,
}
use argvio.Prelude.Int.{ℤ, pos, negsuc, ltb_ℤ, pos_part}
use argvio.Prelude.Maps.{Map}
use argvio.Prelude.Sort.{sort_by}
use argvio.Prelude.Sort.Ranked.{Descends, ranks_before, sort_by-Perm, sort_by-Descends}
use argvio.Storage.Vocabulary.{count_of, plan_from, fresh_names, plan_vocabulary}

-- How many records carry one of the values.
abbrev pub carried : Map ℕ → List Str → ℕ
carried counts [] = 0
carried counts (r ∷ rs) = count_of counts r + carried counts rs

-- `rest` are the values left out of `fresh` when `add` are let into `room` slots.
pub record IsPlan (fresh : List Str) (counts : Map ℕ) (room : ℤ) (add rest : List Str)
    : Type 0 where
  pub parts : Perm (add ++ rest) fresh
  pub fits : length add ≤ pos_part room
  pub full : (rest ≡ []) ⊎ (length add ≡ pos_part room)
  pub frequent : All (λ a. All (λ r. count_of counts r ≤ count_of counts a) rest) add

no_room_later : (i : ℕ) (room : ℤ) → ltb_ℤ (pos i) room ≡ false → ltb_ℤ (pos (i + 1)) room ≡ false
no_room_later i (pos n) h = ground arith
no_room_later i (negsuc n) h = ground arith

room_for :
    (i : ℕ) (room : ℤ) (n : ℕ)
    → ltb_ℤ (pos i) room ≡ true
    → n ≤ pos_part room - (i + 1)
    → suc n ≤ pos_part room - i
room_for i (pos m) n e h = ground arith
room_for i (negsuc m) n e h = ground arith

full_with :
    (i : ℕ) (room : ℤ) (rest : List Str) (n : ℕ)
    → ltb_ℤ (pos i) room ≡ true
    → (rest ≡ []) ⊎ (n ≡ pos_part room - (i + 1))
    → (rest ≡ []) ⊎ (suc n ≡ pos_part room - i)
full_with i room rest n e (inl none_left) = inl none_left
full_with i (pos m) rest n e (inr full) = inr (ground arith)
full_with i (negsuc m) rest n e (inr full) = inr (ground arith)

no_slots : (i : ℕ) (room : ℤ) (n : ℕ) → n ≡ 0 → ltb_ℤ (pos i) room ≡ false → n ≡ pos_part room - i
no_slots i (pos m) n z h = ground arith
no_slots i (negsuc m) n z h = ground arith

-- `rest` are the last of `fresh`, past the slots that are left at index `i`.
record IsCut (i : ℕ) (room : ℤ) (counts : Map ℕ) (fresh : List Str) (plan : List Str × ℕ)
    (rest : List Str) : Type 0 where
  parts : fresh ≡ plan.0 ++ rest
  fits : length plan.0 ≤ pos_part room - i
  full : (rest ≡ []) ⊎ (length plan.0 ≡ pos_part room - i)
  folds : plan.1 ≡ carried counts rest % 2 ^ 64

add_mod : (a b : ℕ) → (a + b % 2 ^ 64) % 2 ^ 64 ≡ (a + b) % 2 ^ 64
add_mod a b = omega arith

plan_from-no_room :
    (i : ℕ) (room : ℤ) (counts : Map ℕ) (fresh : List Str)
    → ltb_ℤ (pos i) room ≡ false
    → plan_from i room counts fresh ≡ ([], carried counts fresh % 2 ^ 64)
unfolding plan_from
plan_from-no_room i room counts [] h = refl
plan_from-no_room i room counts (r ∷ fresh) h =
    let later = plan_from-no_room (i + 1) room counts fresh (no_room_later i room h) in
    rw h (
      ap (λ (p : List Str × ℕ). (p.0, (count_of counts r + p.1) % 2 ^ 64)) later
      ∙ ap (λ n. ([], n)) (add_mod (count_of counts r) (carried counts fresh)))

plan_from-IsCut :
    (i : ℕ) (room : ℤ) (counts : Map ℕ) (fresh : List Str)
    → (rest : List Str) × IsCut i room counts fresh (plan_from i room counts fresh) rest
unfolding plan_from
plan_from-IsCut i room counts [] =
    ([], record { parts = refl; fits = omega arith; full = inl refl; folds = omega arith })
plan_from-IsCut i room counts (r ∷ fresh) = elim (Bool-cases (ltb_ℤ (pos i) room)) [
  | inl e ↦
      let (rest, cut) = plan_from-IsCut (i + 1) room counts fresh in
      rw e (
        rest,
        record {
          parts = ap (λ l. r ∷ l) cut.parts;
          fits = room_for i room (length (plan_from (i + 1) room counts fresh).0) e cut.fits;
          full = full_with i room rest (length (plan_from (i + 1) room counts fresh).0) e cut.full;
          folds = cut.folds;
        },
      )
  | inr e ↦
      let later = plan_from-no_room (i + 1) room counts fresh (no_room_later i room e) in
      rw e (
        r ∷ fresh,
        record {
          parts = ap (λ (p : List Str × ℕ). p.0 ++ r ∷ fresh) (sym later);
          fits = omega (arith, ap (λ (p : List Str × ℕ). length p.0) later);
          full = inr (no_slots i room _ (ap (λ (p : List Str × ℕ). length p.0) later) e);
          folds =
              ap (λ (p : List Str × ℕ). (count_of counts r + p.1) % 2 ^ 64) later
              ∙ add_mod (count_of counts r) (carried counts fresh);
        },
      )
]

All-tail :
    (counts : Map ℕ) (n : ℕ) (add rest : List Str)
    → All (λ r. count_of counts r ≤ n) (add ++ rest)
    → All (λ r. count_of counts r ≤ n) rest
All-tail counts n [] rest h = h
All-tail counts n (a ∷ add) rest h = All-tail counts n add rest h.1

small_mod : (n : ℕ) → n < 2 ^ 64 → n % 2 ^ 64 ≡ n
small_mod n h = omega arith

full_at_0 :
    (room : ℤ) (rest : List Str) (n : ℕ)
    → (rest ≡ []) ⊎ (n ≡ pos_part room - 0)
    → (rest ≡ []) ⊎ (n ≡ pos_part room)
full_at_0 room rest n (inl none_left) = inl none_left
full_at_0 room rest n (inr full) = inr (omega arith)

carried-append :
    (counts : Map ℕ) (xs ys : List Str)
    → carried counts (xs ++ ys) ≡ carried counts xs + carried counts ys
carried-append counts [] ys = omega arith
carried-append counts (x ∷ xs) ys = omega (arith, carried-append counts xs ys)

carried_swaps :
    (counts : Map ℕ) {xs ys : List Str} → Permᴰ xs ys → carried counts xs ≡ carried counts ys
carried_swaps counts Permᴰ.nil = refl
carried_swaps counts (Permᴰ.cons {a = a} {b = b} same rest) =
    omega (arith, ap (count_of counts) same, carried_swaps counts rest)
carried_swaps counts (Permᴰ.swap one two) =
    omega (arith, ap (count_of counts) one, ap (count_of counts) two)
carried_swaps counts (Permᴰ.trans one two) = carried_swaps counts one ∙ carried_swaps counts two

carried-Perm :
    (counts : Map ℕ) {xs ys : List Str} → Perm xs ys → carried counts xs ≡ carried counts ys
carried-Perm counts same = ∥∥₁_elim same (ℕ_set _ _) (carried_swaps counts)

after_append :
    (counts : Map ℕ) (add rest : List Str)
    → Descends (count_of counts) (add ++ rest)
    → All (λ a. All (λ r. count_of counts r ≤ count_of counts a) rest) add
after_append counts [] rest h = tt
after_append counts (a ∷ add) rest h =
    (All-tail counts (count_of counts a) add rest h.0, after_append counts add rest h.1)

-- planVocabulary splits the new values of a batch: those that it admits fit in the room, and fill it unless
-- every new value is admitted; each admitted value is at least as frequent as each one left out; and
-- what it returns as folded is the number of records that carry the values left out, when the batch
-- has less than 2^63 records.
pub plan_vocabulary-IsPlan :
    (names known : List Str) (counts : Map ℕ) (room : ℤ)
    → carried counts (fresh_names names known) < 2 ^ 63
    → (rest : List Str) × IsPlan
        (fresh_names names known)
        counts
        room
        (plan_vocabulary names known counts room).0
        rest
      × ((plan_vocabulary names known counts room).1 ≡ carried counts rest)
unfolding plan_vocabulary
plan_vocabulary-IsPlan names known counts room small =
    let rank = count_of counts in
    let sorted = sort_by (ranks_before rank) (fresh_names names known) in
    let (rest, cut) = plan_from-IsCut 0 room counts sorted in
    let plan = plan_from 0 room counts sorted in
    let parts : Perm (plan.0 ++ rest) (fresh_names names known) =
      subst (λ l. Perm l (fresh_names names known)) cut.parts
        (sort_by-Perm (ranks_before rank) (fresh_names names known)) in
    (
      rest,
      record {
        parts = parts;
        fits = omega (arith, cut.fits);
        full = full_at_0 room rest (length plan.0) cut.full;
        frequent =
            after_append counts plan.0 rest
              (subst (Descends rank) cut.parts (sort_by-Descends rank (fresh_names names known)));
      },
      cut.folds
          ∙ small_mod (carried counts rest)
              (omega (arith, small, carried-append counts plan.0 rest, carried-Perm counts parts)),
    )

-- A plan has no more values than there is room.
pub length-plan_vocabulary :
    (names known : List Str) (counts : Map ℕ) (room : ℤ)
    → length (plan_vocabulary names known counts room).0 ≤ pos_part room
unfolding plan_vocabulary
length-plan_vocabulary names known counts room = omega (
  arith,
  (plan_from-IsCut 0 room counts
      (sort_by (ranks_before (count_of counts)) (fresh_names names known))).1.fits,
)
