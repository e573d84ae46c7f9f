-- ===== src/Storage/Vocabulary/Stored.antt =====
-- Reasons that may be stored as-is are rows of the vocabulary.
use argvio.Prelude.{
  Str, str_eq, str_eq_iff, ℕ, ◌-◌, ◌≡◌, refl, ap, ◌∙◌, sym, ◌⊎◌, inl, inr, Bool, true, false, ◌&&◌,
  ◌||◌, ◌==◌, List, [], ◌∷◌, ◌++◌, map, select, member, length, arith, Bool-cases, Result, ok, err,
  ok-injective, ltb,
}
use argvio.Prelude.Distinct.{IsDistinct, member_of_length, member-append, member-select}
use argvio.Prelude.Int.{sub_ℕ}
use argvio.Prelude.Maps.{Map, lookup, has, HasUniqueKeys}
use argvio.Prelude.Sort.{sort_strings}
use argvio.Storage.Dims.{keys}
use argvio.Storage.Vocabulary.{
  touch_if_stale, committed, Vocabulary, Statement, Admission, plan_vocabulary, known_error_reasons,
  all_known, touched, touch_error_reasons, insert_reasons, upsert_overflow, admit_locked,
  admit_error_reasons, error_reason_other, vocabulary_touch_interval, named,
}
use argvio.Storage.Vocabulary.Bounded.{admit_locked-ok}

-- The reason is `other`, or one of the rows.
abbrev pub IsStored : Vocabulary → Str → Type 0
IsStored db r = (str_eq error_reason_other r ≡ true) ⊎ (has r db.reasons ≡ true)

has-touched :
    (names : List Str) (at stale_before : ℕ) (rows : Map ℕ) (r : Str)
    → has r (map (touched names at stale_before) rows) ≡ has r rows
unfolding lookup
has-touched names at stale_before [] r = refl
has-touched names at stale_before (row ∷ rows) r =
    ground (arith, has-touched names at stale_before rows r)

has-append :
    (rows : Map ℕ) (k : Str) (n : ℕ) (r : Str)
    → has r (rows ++ (k, n) ∷ []) ≡ (has r rows || str_eq k r)
unfolding lookup
has-append [] k n r = ground arith
has-append (row ∷ rows) k n r = ground (arith, has-append rows k n r)

has-insert_reasons :
    (add : List Str) (at : ℕ) (rows : Map ℕ) (r : Str)
    → has r (insert_reasons add at rows) ≡ (has r rows || member add r)
unfolding insert_reasons member
has-insert_reasons [] at rows r = ground arith
has-insert_reasons (k ∷ add) at rows r =
    let same : str_eq k r ≡ true → has k rows ≡ has r rows =
      λ e. ap (λ j. has j rows) ((str_eq_iff k r).0 e) in
    ground (
      arith,
      same,
      has-append rows k at r,
      has-insert_reasons add at rows r,
      has-insert_reasons add at (rows ++ (k, at) ∷ []) r,
    )

has-upsert_overflow :
    (db : Vocabulary) (folded at : ℕ) (r : Str)
    → has r (upsert_overflow db folded at).reasons ≡ has r db.reasons
unfolding upsert_overflow
has-upsert_overflow db folded at r = elim (Bool-cases (ltb 0 folded)) [
  | inl e ↦ rw e refl
  | inr e ↦ rw e refl
]

has-touch_error_reasons :
    (db : Vocabulary) (names : List Str) (at stale_before : ℕ) (r : Str)
    → has r (touch_error_reasons db names at stale_before).reasons ≡ has r db.reasons
unfolding touch_error_reasons
has-touch_error_reasons db names at stale_before r = has-touched names at stale_before db.reasons r

-- The keys of the rows that a query selects by name.
member-known :
    (names : List Str) (rows : Map ℕ) (r : Str)
    → member (keys (select (λ row. member names row.0) rows)) r ≡ (member names r && has r rows)
unfolding keys member select lookup
member-known names [] r = ground arith
member-known names (row ∷ rows) r =
    let same : str_eq row.0 r ≡ true → member names row.0 ≡ member names r =
      λ e. ap (member names) ((str_eq_iff row.0 r).0 e) in
    ground (arith, same, member-known names rows r)

known-IsDistinct :
    (names : List Str) (rows : Map ℕ)
    → HasUniqueKeys rows
    → IsDistinct (keys (select (λ row. member names row.0) rows))
unfolding keys select
known-IsDistinct names [] h = tt
known-IsDistinct names (row ∷ rows) h =
    let rest = select (λ other. member names other.0) rows in
    elim (member names row.0)
      as (λ (b : Bool). IsDistinct (keys (elim b [ true ↦ row ∷ rest | false ↦ rest ]))) [
        | true ↦
            (ground (arith, member-known names rows row.0, h.0), known-IsDistinct names rows h.1)
        | false ↦ known-IsDistinct names rows h.1
      ]

all_known-IsStored :
    (db : Vocabulary) (names : List Str) (stale_before : ℕ) (r : Str)
    → HasUniqueKeys db.reasons
    → length (known_error_reasons db names stale_before).0 ≡ length names
    → member names r ≡ true
    → has r db.reasons ≡ true
unfolding known_error_reasons
all_known-IsStored db names stale_before r unique full named =
    let rows = keys (select (λ row. member names row.0) db.reasons) in
    let found =
      member_of_length rows names r (known-IsDistinct names db.reasons unique)
        (λ x h. ground (arith, h, member-known names db.reasons x)) (omega (arith, full)) named in
    ground (arith, found, member-known names db.reasons r)

admit_locked-IsStored :
    (fails : Statement → Bool) (db : Vocabulary) (names : List Str) (counts : Map ℕ)
    (limit at stale_before : ℕ) (after : Vocabulary) (admission : Admission) (r : Str)
    → admit_locked fails db names counts limit at stale_before ≡ ok (after, admission)
    → member admission.admitted r ≡ true
    → IsStored after r
admit_locked-IsStored fails db names counts limit at stale_before after admission r h admits =
    let known = (known_error_reasons db names stale_before).0 in
    let plan = plan_vocabulary names known counts (sub_ℕ limit (length db.reasons)) in
    let inserted : Vocabulary = record db { reasons = insert_reasons plan.0 at db.reasons } in
    let (afterwards, admitted) =
      admit_locked-ok fails db names counts limit at stale_before after admission h in
    let seen : has r after.reasons ≡ (has r db.reasons || member plan.0 r) =
      ap (λ (v : Vocabulary). has r v.reasons) afterwards
      ∙ has-upsert_overflow (touch_error_reasons inserted names at stale_before) plan.1 at r
      ∙ has-touch_error_reasons inserted names at stale_before r
      ∙ has-insert_reasons plan.0 at db.reasons r in
    let listed : member (error_reason_other ∷ select (member known) names ++ plan.0) r ≡ true =
      sym (ap (λ (a : Admission). member a.admitted r) admitted) ∙ admits in
    unfold member in
    unfold known_error_reasons in
    ground (
      arith,
      listed,
      seen,
      member-append (select (member known) names) plan.0 r,
      member-select (member known) names r,
      member-known names db.reasons r,
    )

committed-IsStored :
    (db : Vocabulary) (run : Result Statement (Vocabulary × Admission)) (admission : Admission)
    (r : Str)
    → ((after : Vocabulary) → run ≡ ok (after, admission) → IsStored after r)
    → (committed db run).1 ≡ ok admission
    → IsStored (committed db run).0 r
unfolding committed
committed-IsStored db (err at) admission r stored h = cc h
committed-IsStored db (ok (after, made)) admission r stored h =
    stored after (ap (λ a. ok (after, a)) (ok-injective h))

other_or_named :
    (db after : Vocabulary) (names : List Str) (admission : Admission) (r : Str)
    → (member names r ≡ true → has r db.reasons ≡ true)
    → has r after.reasons ≡ has r db.reasons
    → ◌≡◌ {A = Result Statement Admission} (ok (all_known names)) (ok admission)
    → member admission.admitted r ≡ true
    → IsStored after r
other_or_named db after names admission r stored kept answer admits =
    let listed : member (error_reason_other ∷ names) r ≡ true =
      ap (λ (a : Admission). member a.admitted r) (ok-injective answer) ∙ admits in
    unfold member in ground (arith, listed, stored, kept)

touch_if_stale-IsStored :
    (fails : Statement → Bool) (db : Vocabulary) (names : List Str) (at stale_before : ℕ)
    (stale : Bool) (admission : Admission) (r : Str)
    → (member names r ≡ true → has r db.reasons ≡ true)
    → (touch_if_stale fails db names at stale_before stale).1 ≡ ok admission
    → member admission.admitted r ≡ true
    → IsStored (touch_if_stale fails db names at stale_before stale).0 r
unfolding touch_if_stale
touch_if_stale-IsStored fails db names at stale_before false admission r stored answer admits =
    other_or_named db db names admission r stored refl answer admits
touch_if_stale-IsStored fails db names at stale_before true admission r stored answer admits =
    elim (Bool-cases (fails Statement.touch_known)) [
      | inl e ↦ cc (rw e at answer)
      | inr e ↦ rw e (
          other_or_named db (touch_error_reasons db names at stale_before) names admission r stored
            (has-touch_error_reasons db names at stale_before r) (rw e at answer) admits)
    ]

not_in_none : (r : Str) (db : Vocabulary) → member [] r ≡ true → has r db.reasons ≡ true
unfolding member
not_in_none r db h = cc h

-- A reason that AdmitErrorReasons lets a record keep is `other` or one of the tenant's rows when the call
-- returns, when the rows have each reason once.
pub admit_error_reasons-IsStored :
    (fails : Statement → Bool) (meanwhile : Vocabulary → Vocabulary) (db : Vocabulary)
    (counts : Map ℕ) (limit at : ℕ) (admission : Admission) (r : Str)
    → HasUniqueKeys db.reasons
    → (admit_error_reasons fails meanwhile db counts limit at).1 ≡ ok admission
    → member admission.admitted r ≡ true
    → IsStored (admit_error_reasons fails meanwhile db counts limit at).0 r
unfolding admit_error_reasons
admit_error_reasons-IsStored fails meanwhile db counts limit at admission r unique answer admits =
    let names = sort_strings (named counts) in
    let stale_before = at - vocabulary_touch_interval in
    let first = known_error_reasons db names stale_before in
    elim (Bool-cases (length names == 0)) [
      | inl e ↦
          rw e (other_or_named db db [] admission r (not_in_none r db) refl (rw e at answer) admits)
      | inr e ↦ rw e (elim (Bool-cases (fails Statement.read_known)) [
        | inl f ↦ cc (rw (e, f) at answer)
        | inr f ↦ rw f (elim (Bool-cases (length first.0 == length names)) [
          | inl g ↦ rw g (
              touch_if_stale-IsStored fails db names at stale_before first.1 admission r
                (all_known-IsStored db names stale_before r unique (ground (arith, g)))
                (rw (e, f, g) at answer) admits)
          | inr g ↦ rw g (
              committed-IsStored (meanwhile db)
                (admit_locked fails (meanwhile db) names counts limit at stale_before) admission r
                (λ after run.
                  admit_locked-IsStored fails (meanwhile db) names counts limit at stale_before
                    after admission r run admits)
                (rw (e, f, g) at answer))
        ])
      ])
    ]
