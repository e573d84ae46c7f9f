-- ===== src/Storage/Vocabulary/Bounded.antt =====
-- The rows stay within the limit, whatever fails and whatever runs in between, and what is admitted is in
-- the rows.
use argvio.Prelude.{
  Str, ℕ, suc, ◌+◌, ◌-◌, ◌≤◌, ◌≡◌, refl, ap, sym, inl, inr, Bool, List, [], ◌∷◌, ◌++◌, map, select,
  member, length, length-append, arith, Bool-cases, Result, ok, err, ok_of_check, ◌&&◌,
  ok-injective, ltb,
}
use argvio.Prelude.Int.{sub_ℕ}
use argvio.Prelude.Maps.{Map, has}
use argvio.Prelude.Sort.{sort_strings}
use argvio.Storage.Vocabulary.{
  touch_if_stale, committed, Vocabulary, Statement, Admission, plan_vocabulary, known_error_reasons,
  touched, touch_error_reasons, insert_reasons, upsert_overflow, admit_locked, admit_error_reasons,
  error_reason_other, vocabulary_touch_interval, named,
}
use argvio.Storage.Vocabulary.Plan.{length-plan_vocabulary}

abbrev size : Vocabulary → ℕ
size db = length db.reasons

length-map : {A B : Type 0} (f : A → B) (xs : List A) → length (map f xs) ≡ length xs
length-map f [] = refl
length-map f (x ∷ xs) = ap suc (length-map f xs)

size-touch_error_reasons :
    (db : Vocabulary) (names : List Str) (at stale_before : ℕ)
    → size (touch_error_reasons db names at stale_before) ≡ size db
unfolding touch_error_reasons
size-touch_error_reasons db names at stale_before =
    length-map (touched names at stale_before) db.reasons

length-insert_reasons :
    (add : List Str) (at : ℕ) (rows : Map ℕ)
    → length (insert_reasons add at rows) ≤ length rows + length add
unfolding insert_reasons
length-insert_reasons [] at rows = omega arith
length-insert_reasons (r ∷ add) at rows = elim (Bool-cases (has r rows)) [
  | inl e ↦ rw e (omega (arith, length-insert_reasons add at rows))
  | inr e ↦ rw e (
      omega (
        arith,
        length-insert_reasons add at (rows ++ (r, at) ∷ []),
        length-append rows ((r, at) ∷ []),
      ))
]

size-upsert_overflow :
    (db : Vocabulary) (folded at : ℕ) → size (upsert_overflow db folded at) ≡ size db
unfolding upsert_overflow
size-upsert_overflow db folded at = elim (Bool-cases (ltb 0 folded)) [
  | inl e ↦ rw e refl
  | inr e ↦ rw e refl
]

-- What a transaction that commits leaves and answers.
pub admit_locked-ok :
    (fails : Statement → Bool) (db : Vocabulary) (names : List Str) (counts : Map ℕ)
    (limit at stale_before : ℕ) (after : Vocabulary) (admission : Admission)
    → admit_locked fails db names counts limit at stale_before ≡ ok (after, admission)
    → let known = (known_error_reasons db names stale_before).0 in
      let plan = plan_vocabulary names known counts (sub_ℕ limit (length db.reasons)) in
      (after
        ≡ upsert_overflow
            (touch_error_reasons
              (record db { reasons = insert_reasons plan.0 at db.reasons })
              names
              at
              stale_before)
            plan.1
            at)
      × (admission ≡ record {
        admitted = error_reason_other ∷ select (member known) names ++ plan.0;
        folded = plan.1;
      })
unfolding admit_locked
admit_locked-ok fails db names counts limit at stale_before after admission h =
    let known = (known_error_reasons db names stale_before).0 in
    let plan = plan_vocabulary names known counts (sub_ℕ limit (length db.reasons)) in
    let h1 = ok_of_check (fails Statement.begin) Statement.begin _ h in
    let h2 = ok_of_check (fails Statement.lock) Statement.lock _ h1 in
    let h3 = ok_of_check (fails Statement.read_again) Statement.read_again _ h2 in
    let h4 = ok_of_check (fails Statement.count_rows) Statement.count_rows _ h3 in
    let h5 =
      ok_of_check (ltb 0 (length plan.0) && fails Statement.insert_new) Statement.insert_new _ h4 in
    let h6 = ok_of_check (fails Statement.touch_rows) Statement.touch_rows _ h5 in
    let h7 =
      ok_of_check (ltb 0 plan.1 && fails Statement.record_overflow) Statement.record_overflow _
        h6 in
    let h8 = ok_of_check (fails Statement.commit) Statement.commit _ h7 in
    let same = ok-injective h8 in (sym (ap (λ p. p.0) same), sym (ap (λ p. p.1) same))

size-admit_locked :
    (fails : Statement → Bool) (db : Vocabulary) (names : List Str) (counts : Map ℕ)
    (limit at stale_before : ℕ) (after : Vocabulary) (admission : Admission)
    → size db ≤ limit
    → admit_locked fails db names counts limit at stale_before ≡ ok (after, admission)
    → size after ≤ limit
size-admit_locked fails db names counts limit at stale_before after admission small h =
    let known = (known_error_reasons db names stale_before).0 in
    let plan = plan_vocabulary names known counts (sub_ℕ limit (length db.reasons)) in
    let inserted : Vocabulary = record db { reasons = insert_reasons plan.0 at db.reasons } in
    ground (
      arith,
      ap size ((admit_locked-ok fails db names counts limit at stale_before after admission h).0),
      size-upsert_overflow (touch_error_reasons inserted names at stale_before) plan.1 at,
      size-touch_error_reasons inserted names at stale_before,
      length-insert_reasons plan.0 at db.reasons,
      length-plan_vocabulary names known counts (sub_ℕ limit (length db.reasons)),
    )

size-touch_if_stale :
    (fails : Statement → Bool) (db : Vocabulary) (names : List Str) (at stale_before : ℕ)
    (stale : Bool)
    → size (touch_if_stale fails db names at stale_before stale).0 ≡ size db
unfolding touch_if_stale
size-touch_if_stale fails db names at stale_before stale =
    ground (arith, size-touch_error_reasons db names at stale_before)

size-committed :
    (db : Vocabulary) (run : Result Statement (Vocabulary × Admission)) (limit : ℕ)
    → size db ≤ limit
    → ((after : Vocabulary) (admission : Admission)
        → run ≡ ok (after, admission)
        → size after ≤ limit)
    → size (committed db run).0 ≤ limit
unfolding committed
size-committed db (err at) limit small h = small
size-committed db (ok (after, admission)) limit small h = h after admission refl

-- AdmitErrorReasons keeps a tenant's vocabulary within the limit: when its rows are within the limit both
-- at the first read and at the lock, after whatever other batches did in between, they are within it
-- afterwards, whichever statements fail.
pub admit_error_reasons-bound :
    (fails : Statement → Bool) (meanwhile : Vocabulary → Vocabulary) (db : Vocabulary)
    (counts : Map ℕ) (limit at : ℕ)
    → length db.reasons ≤ limit
    → length (meanwhile db).reasons ≤ limit
    → length (admit_error_reasons fails meanwhile db counts limit at).0.reasons ≤ limit
unfolding admit_error_reasons
admit_error_reasons-bound fails meanwhile db counts limit at small small_then =
    let names = sort_strings (named counts) in
    let stale_before = at - vocabulary_touch_interval in
    let stale = (known_error_reasons db names stale_before).1 in
    let run = admit_locked fails (meanwhile db) names counts limit at stale_before in
    ground (
      arith,
      size-touch_if_stale fails db names at stale_before stale,
      size-committed (meanwhile db) run limit small_then (λ after admission.
          size-admit_locked fails (meanwhile db) names counts limit at stale_before after admission
            small_then),
    )
