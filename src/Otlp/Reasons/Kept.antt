-- ===== src/Otlp/Reasons/Kept.antt =====
-- The error reasons of the records that are passed on.
use argvio.Prelude.Sort.{IsMember-map}
use argvio.Prelude.{
  Str, str_eq, str_eq_refl, ℕ, ◌+◌, ◌%◌, ◌^◌, ◌≡◌, refl, ap, ◌∙◌, sym, subst, ◌⊎◌, inl, inr, Bool,
  true, Option, none, some, List, [], ◌∷◌, member, length, ◌==◌, Result, ok, err, ok-injective,
  IsMember, arith, Bool-cases, some-eq-some, if_of_true,
}
use argvio.Prelude.Int.{ℤ}
use argvio.Prelude.Maps.{no_keys, Map, insert, has, lookup-insert, HasUniqueKeys}
use argvio.Allowlist.{Value, str}
use argvio.Storage.Vocabulary.{
  Vocabulary, Statement, Admission, count_of, error_reason_other, admit_error_reasons,
}
use argvio.Storage.Vocabulary.Stored.{IsStored, admit_error_reasons-IsStored}
use argvio.Otlp.Reasons.{
  attr_error_reason, as_str, reason_of, count_reason, count_reasons, reason_limit, fold_reason,
  fold_reasons, folded_by, cap_error_reasons,
}

has-count_reason :
    (counts : Map ℕ) (found : Option Str) (r : Str)
    → has r counts ≡ true
    → has r (count_reason counts found) ≡ true
has-count_reason counts none r h = h
has-count_reason counts (some s) r h =
    ground (arith, h, lookup-insert s r ((count_of counts s + 1) % 2 ^ 64) counts)

has-count_reasons_from :
    (counts : Map ℕ) (attrs : List (Map Value)) (r : Str)
    → has r counts ≡ true
    → has r (count_reasons counts attrs) ≡ true
unfolding count_reasons
has-count_reasons_from counts [] r h = h
has-count_reasons_from counts (a ∷ attrs) r h =
    has-count_reasons_from (count_reason counts (reason_of a)) attrs r
      (has-count_reason counts (reason_of a) r h)

counts_some : (counts : Map ℕ) (r : Str) → has r (count_reason counts (some r)) ≡ true
counts_some counts r =
    ground (arith, str_eq_refl r, lookup-insert r r ((count_of counts r + 1) % 2 ^ 64) counts)

-- Every reason that a record carries is counted.
has-count_reasons :
    (counts : Map ℕ) (attrs : List (Map Value)) (a : Map Value) (r : Str)
    → IsMember a attrs
    → reason_of a ≡ some r
    → has r (count_reasons counts attrs) ≡ true
unfolding count_reasons
has-count_reasons counts [] a r h e = absurd h
has-count_reasons counts (b ∷ attrs) a r (inl same) e =
    has-count_reasons_from (count_reason counts (reason_of b)) attrs r
      (ap (λ o. has r (count_reason counts o)) (ap reason_of (sym same) ∙ e) ∙ counts_some counts r)
has-count_reasons counts (b ∷ attrs) a r (inr later) e =
    has-count_reasons (count_reason counts (reason_of b)) attrs a r later e

reason-insert : (s : Str) (a : Map Value) → reason_of (insert attr_error_reason (str s) a) ≡ some s
reason-insert s a =
    let wrote = lookup-insert attr_error_reason attr_error_reason (str s) a in
    ap as_str (wrote ∙ if_of_true _ _ _ (str_eq_refl attr_error_reason))

reason-fold_reason :
    (admitted : List Str) (a : Map Value) (found : Option Str) (r : Str)
    → reason_of a ≡ found
    → reason_of (fold_reason admitted a found) ≡ some r
    → (str_eq error_reason_other r ≡ true) ⊎ (member admitted r ≡ true)
reason-fold_reason admitted a none r e h = cc (sym e ∙ h)
reason-fold_reason admitted a (some s) r e h = elim (Bool-cases (member admitted s)) [
  | inl kept ↦ inr (ap (member admitted) (some-eq-some (sym (rw kept at h) ∙ e)) ∙ kept)
  | inr folded ↦ inl (
      ap (str_eq error_reason_other)
        (some-eq-some (sym (rw folded at h) ∙ reason-insert error_reason_other a))
      ∙ str_eq_refl error_reason_other)
]

folded_by-IsStored :
    (attrs : List (Map Value)) (run : Vocabulary × Result Statement Admission)
    (made : List (Map Value)) (a : Map Value) (r : Str)
    → ((admission : Admission)
        → run.1 ≡ ok admission
        → member admission.admitted r ≡ true
        → IsStored run.0 r)
    → (folded_by attrs run).1 ≡ ok made
    → IsMember a made
    → reason_of a ≡ some r
    → IsStored (folded_by attrs run).0 r
unfolding fold_reasons
folded_by-IsStored attrs (after, err why) made a r stored h inside e = cc h
folded_by-IsStored attrs (after, ok admission) made a r stored h inside e =
    let (b, b_inside, same) =
      IsMember-map (λ b. fold_reason admission.admitted b (reason_of b)) a attrs
        (subst (IsMember a) (sym (ok-injective h)) inside) in
    elim (reason-fold_reason admission.admitted b (reason_of b) r refl
      (ap reason_of (sym same) ∙ e)) [
        | inl other ↦ inl other
        | inr kept ↦ stored admission refl kept
      ]

-- After capErrorReasons, the reason of every record is `other` or one of the tenant's rows, when the rows had
-- each reason once; records without a reason as text are not looked at.
pub cap_error_reasons-IsStored :
    (fails : Statement → Bool) (meanwhile : Vocabulary → Vocabulary) (db : Vocabulary) (max : ℤ)
    (at : ℕ) (attrs made : List (Map Value)) (a : Map Value) (r : Str)
    → HasUniqueKeys db.reasons
    → (cap_error_reasons fails meanwhile db max at attrs).1 ≡ ok made
    → IsMember a made
    → reason_of a ≡ some r
    → IsStored (cap_error_reasons fails meanwhile db max at attrs).0 r
unfolding cap_error_reasons
cap_error_reasons-IsStored fails meanwhile db max at attrs made a r unique h inside e =
    let counts = count_reasons [] attrs in
    elim (Bool-cases (length counts == 0)) [
      | inl empty ↦ absurd (
          no_keys counts r (ground (arith, empty)) (
            has-count_reasons [] attrs a r
              (subst (IsMember a) (sym (ok-injective (rw empty at h))) inside) e))
      | inr some_counted ↦ rw some_counted (
          folded_by-IsStored attrs
            (admit_error_reasons fails meanwhile db counts (reason_limit max) at) made a r
            (λ admission run admits.
              admit_error_reasons-IsStored fails meanwhile db counts (reason_limit max) at admission
                r unique run admits)
            (rw some_counted at h) inside e)
    ]
