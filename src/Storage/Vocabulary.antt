-- ===== src/Storage/Vocabulary.antt =====
-- internal/storage/error_reasons.go: the capped vocabulary of one tenant's error reasons. The state is the
-- tenant's rows; the SQL statements are its changes. A count is a number of records: a non-negative
-- int64, added modulo 2^64. A time is in nanoseconds. A set of strings is the list of its members.
pub mod Plan
pub mod Bounded
pub mod Stored
use argvio.Prelude.{
  Str, bytes, str_eq, ℕ, ◌+◌, ◌-◌, ◌%◌, ◌^◌, Bool, true, false, not, ◌&&◌, Option, none, some, List,
  [], ◌∷◌, ◌++◌, map, any, select, member, length, ltb, ◌==◌, if◌then◌else◌, Result, ok, err, ◌>>◌,
  fail_if,
}
use argvio.Prelude.Int.{ℤ, pos, sub_ℕ, ltb_ℤ}
use argvio.Prelude.Maps.{Map, lookup, has}
use argvio.Prelude.Sort.{sort_by, sort_strings}
use argvio.Prelude.Sort.Ranked.{ranks_before}
use argvio.Storage.Dims.{keys}

abbrev pub error_reason_other : Str
error_reason_other = bytes "other"

-- counts[r]: 0 for a missing key
abbrev pub or_zero : Option ℕ → ℕ
or_zero none = 0
or_zero (some n) = n

abbrev pub count_of : Map ℕ → Str → ℕ
count_of counts r = or_zero (lookup r counts)

-- The loop over the new values, from the index `i` on.
unfoldable pub plan_from : ℕ → ℤ → Map ℕ → List Str → List Str × ℕ
plan_from i room counts [] = ([], 0)
plan_from i room counts (r ∷ fresh) =
    let (add, folded) = plan_from (i + 1) room counts fresh in
    if ltb_ℤ (pos i) room then (r ∷ add, folded) else (add, (count_of counts r + folded) % 2 ^ 64)

abbrev pub fresh_names : List Str → List Str → List Str
fresh_names names known = select (λ r. not (member known r)) names

unfoldable pub plan_vocabulary : List Str → List Str → Map ℕ → ℤ → List Str × ℕ
plan_vocabulary names known counts room =
    plan_from 0 room counts (sort_by (ranks_before (count_of counts)) (fresh_names names known))

-- The rows of one tenant: when each reason was last seen; how many records were folded, and when last.
pub record Vocabulary : Type 0 where
  pub reasons : Map ℕ
  pub overflow : Option (ℕ × ℕ)

-- The statements that can fail, in the order of the code.
pub data Statement : Type 0 where
  read_known : Statement
  touch_known : Statement
  begin : Statement
  lock : Statement
  read_again : Statement
  count_rows : Statement
  insert_new : Statement
  touch_rows : Statement
  record_overflow : Statement
  commit : Statement

-- The rows of `reason = ANY(names)`, and whether one was last seen before `stale_before`.
unfoldable pub known_error_reasons : Vocabulary → List Str → ℕ → List Str × Bool
known_error_reasons db names stale_before =
    let rows = select (λ row. member names row.0) db.reasons in
    (keys rows, any (λ row. ltb row.1 stale_before) rows)

abbrev pub touched : List Str → ℕ → ℕ → Str × ℕ → Str × ℕ
touched names at stale_before row =
    (row.0, if member names row.0 && ltb row.1 stale_before then at else row.1)

-- touchErrorReasons
unfoldable pub touch_error_reasons : Vocabulary → List Str → ℕ → ℕ → Vocabulary
touch_error_reasons db names at stale_before = record db {
  reasons = map (touched names at stale_before) db.reasons;
}

-- INSERT ... ON CONFLICT DO NOTHING
unfoldable pub insert_reasons : List Str → ℕ → Map ℕ → Map ℕ
insert_reasons [] at rows = rows
insert_reasons (r ∷ add) at rows =
    insert_reasons add at (if has r rows then rows else rows ++ (r, at) ∷ [])

abbrev greatest : ℕ → ℕ → ℕ
greatest a b = if ltb a b then b else a

abbrev pub overflow_after : Option (ℕ × ℕ) → ℕ → ℕ → ℕ × ℕ
overflow_after none folded at = (folded, at)
overflow_after (some (count, last)) folded at = (count + folded, greatest last at)

unfoldable pub upsert_overflow : Vocabulary → ℕ → ℕ → Vocabulary
upsert_overflow db folded at =
    if ltb 0 folded
    then record db { overflow = some (overflow_after db.overflow folded at) }
    else db

pub record Admission : Type 0 where
  pub admitted : List Str
  pub folded : ℕ

-- The transaction, under the lock: the rows when it commits.
unfoldable pub admit_locked :
    (Statement → Bool)
    → Vocabulary
    → List Str
    → Map ℕ
    → ℕ
    → ℕ
    → ℕ
    → Result Statement (Vocabulary × Admission)
admit_locked fails db names counts limit at stale_before =
    let known = (known_error_reasons db names stale_before).0 in
    let plan = plan_vocabulary names known counts (sub_ℕ limit (length db.reasons)) in
    let inserted = record db { reasons = insert_reasons plan.0 at db.reasons } in
    let seen = touch_error_reasons inserted names at stale_before in
    do
      fail_if (fails begin) begin
      fail_if (fails lock) lock
      fail_if (fails read_again) read_again
      fail_if (fails count_rows) count_rows
      fail_if (ltb 0 (length plan.0) && fails insert_new) insert_new
      fail_if (fails touch_rows) touch_rows
      fail_if (ltb 0 plan.1 && fails record_overflow) record_overflow
      fail_if (fails commit) commit
      ok (
        upsert_overflow seen plan.1 at,
        record {
          admitted = error_reason_other ∷ select (member known) names ++ plan.0;
          folded = plan.1;
        },
      )

-- A transaction that fails leaves the rows as they were.
unfoldable pub committed :
    Vocabulary → Result Statement (Vocabulary × Admission) → Vocabulary × Result Statement Admission
committed db (err at) = (db, err at)
committed db (ok (after, admission)) = (after, ok admission)

abbrev pub all_known : List Str → Admission
all_known names = record { admitted = error_reason_other ∷ names; folded = 0 }

-- Every reason is known: the rows are touched if one is stale.
unfoldable pub touch_if_stale :
    (Statement → Bool)
    → Vocabulary
    → List Str
    → ℕ
    → ℕ
    → Bool
    → Vocabulary × Result Statement Admission
touch_if_stale fails db names at stale_before stale =
    if not stale
    then (db, ok (all_known names))
    else (if fails touch_known
        then (db, err touch_known)
        else (touch_error_reasons db names at stale_before, ok (all_known names)))

-- vocabularyTouchInterval, in nanoseconds, as the times are
abbrev pub vocabulary_touch_interval : ℕ
vocabulary_touch_interval = 86400000000000

abbrev pub named : Map ℕ → List Str
named counts = select (λ r. not (str_eq r error_reason_other)) (keys counts)

-- AdmitErrorReasons. `meanwhile` is what other batches do to the rows between the first read and the lock.
unfoldable pub admit_error_reasons :
    (Statement → Bool)
    → (Vocabulary → Vocabulary)
    → Vocabulary
    → Map ℕ
    → ℕ
    → ℕ
    → Vocabulary × Result Statement Admission
admit_error_reasons fails meanwhile db counts limit at =
    let names = sort_strings (named counts) in
    let stale_before = at - vocabulary_touch_interval in
    let first = known_error_reasons db names stale_before in
    if length names == 0
    then (db, ok (all_known []))
    else (if fails read_known
        then (db, err read_known)
        else (if length first.0 == length names
            then touch_if_stale fails db names at stale_before first.1
            else committed (meanwhile db)
                (admit_locked fails (meanwhile db) names counts limit at stale_before)))
