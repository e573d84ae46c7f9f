-- ===== src/Otlp/Reasons.antt =====
-- internal/otlp/reasons.go: the cap on the error reasons of a tenant, before records are stored. The
-- attribute maps, which the code changes in place, are passed on; `admit` is Writer.AdmitErrorReasons of
-- Storage/Vocabulary, from the rows before to the rows after.
pub mod Kept
use argvio.Prelude.{
  Str, bytes, ℕ, ◌+◌, ◌%◌, ◌^◌, Bool, true, false, not, Option, none, some, List, [], ◌∷◌, map,
  member, length, ◌==◌, if◌then◌else◌, Result, ok, err,
}
use argvio.Prelude.Int.{ℤ, pos, leb_ℤ, pos_part}
use argvio.Prelude.Maps.{Map, lookup, insert}
use argvio.Allowlist.{Value, str}
use argvio.Storage.Vocabulary.{
  Vocabulary, Statement, Admission, count_of, error_reason_other, admit_error_reasons,
}

abbrev pub attr_error_reason : Str
attr_error_reason = bytes "cli.error.reason"

abbrev pub as_str : Option Value → Option Str
as_str (some (str s)) = some s
as_str v = none

-- a[attrErrorReason].(string)
abbrev pub reason_of : Map Value → Option Str
reason_of a = as_str (lookup attr_error_reason a)

abbrev pub count_reason : Map ℕ → Option Str → Map ℕ
count_reason counts none = counts
count_reason counts (some r) = insert r ((count_of counts r + 1) % 2 ^ 64) counts

unfoldable pub count_reasons : Map ℕ → List (Map Value) → Map ℕ
count_reasons counts [] = counts
count_reasons counts (a ∷ attrs) = count_reasons (count_reason counts (reason_of a)) attrs

abbrev pub default_max_error_reasons : ℕ
default_max_error_reasons = 100

unfoldable pub reason_limit : ℤ → ℕ
reason_limit max_error_reasons_per_tenant =
    if leb_ℤ max_error_reasons_per_tenant (pos 0)
    then default_max_error_reasons
    else pos_part max_error_reasons_per_tenant

abbrev pub fold_reason : List Str → Map Value → Option Str → Map Value
fold_reason admitted a none = a
fold_reason admitted a (some r) =
    if member admitted r then a else insert attr_error_reason (str error_reason_other) a

unfoldable pub fold_reasons : List Str → List (Map Value) → List (Map Value)
fold_reasons admitted attrs = map (λ a. fold_reason admitted a (reason_of a)) attrs

abbrev pub folded_by :
    List (Map Value)
    → Vocabulary × Result Statement Admission
    → Vocabulary × Result Statement (List (Map Value))
folded_by attrs (after, err why) = (after, err why)
folded_by attrs (after, ok admission) = (after, ok (fold_reasons admission.admitted attrs))

unfoldable pub cap_error_reasons :
    (Statement → Bool)
    → (Vocabulary → Vocabulary)
    → Vocabulary
    → ℤ
    → ℕ
    → List (Map Value)
    → Vocabulary × Result Statement (List (Map Value))
cap_error_reasons fails meanwhile db max_error_reasons_per_tenant at attrs =
    let counts = count_reasons [] attrs in
    let limit = reason_limit max_error_reasons_per_tenant in
    if length counts == 0
    then (db, ok attrs)
    else folded_by attrs (admit_error_reasons fails meanwhile db counts limit at)
