-- ===== src/Examples/StorageCases.antt =====
-- internal/storage and the caps of internal/otlp at concrete inputs.
use argvio.Prelude.{
  Str, bytes, str_eq, str_lt, select, member, any, ◌≡◌, refl, ◌≤◌, ◌<◌, ◌^◌, length, Bool, false,
  none, some, List, [], ◌∷◌, ok, inl, ℕ, arith, has_prefix, cut_prefix,
}
use argvio.Prelude.Int.{pos}
use argvio.Prelude.Maps.{Map, lookup, insert, HasUniqueKeys}
use argvio.Prelude.Sort.{sort_by, insert_by, sort_strings}
use argvio.Allowlist.{Value, str}
use argvio.Storage.Dims.{format_dims, parse_dims, keys, join_pairs, contains_byte, dim_value}
use argvio.Storage.Dims.Tuple.{parse_dims-format_dims}
use argvio.Storage.Vocabulary.{
  Vocabulary, Statement, plan_vocabulary, plan_from, fresh_names, admit_error_reasons,
  known_error_reasons, admit_locked, committed, insert_reasons, touch_error_reasons,
  upsert_overflow,
}
use argvio.Storage.Vocabulary.Plan.{IsPlan, carried, plan_vocabulary-IsPlan}
use argvio.Storage.Vocabulary.Bounded.{admit_error_reasons-bound}
use argvio.Storage.Vocabulary.Stored.{IsStored}
use argvio.Otlp.Catalog.{vendor_metric, text_at}
use argvio.Otlp.Reasons.{cap_error_reasons, count_reasons, fold_reasons, reason_limit}
use argvio.Otlp.Reasons.Kept.{cap_error_reasons-IsStored}
use argvio.Otlp.FoldDims.{
  fold_dims, fold_found, vendor_label_attr, check_dropped, collect_dims, add_label, without_dims,
}
use argvio.Otlp.FoldDims.Lossless.{fold_dims-lossless}

abbrev check_high : Map Str
check_high = (bytes "severity", bytes "high") ∷ (bytes "check", bytes "bola") ∷ []

format_check_high : format_dims check_high ≡ bytes "check=bola;severity=high"
unfolding format_dims sort_strings sort_by insert_by str_lt str_eq keys join_pairs lookup
format_check_high = refl

-- A plain label is the dimension `label`, and a folded tuple has every key.
plain_label : dim_value (bytes "bearer") (bytes "label") ≡ some (bytes "bearer")
unfolding dim_value parse_dims contains_byte any str_eq lookup
plain_label = refl

folded_label : dim_value (bytes "other") (bytes "check") ≡ some (bytes "other")
unfolding dim_value str_eq
folded_label = refl

parse_dims-format_dims_example :
    lookup (bytes "check") (parse_dims (format_dims check_high)) ≡ lookup (bytes "check") check_high
unfolding contains_byte any
parse_dims-format_dims_example =
    parse_dims-format_dims check_high (bytes "check")
      (((refl, refl), refl), (((refl, refl), refl), tt))

abbrev timeout : Str
timeout = bytes "timeout"

abbrev refused : Str
refused = bytes "refused"

-- One reason is known, and there is room for one more.
abbrev db : Vocabulary
db = record { reasons = (bytes "parse", 5) ∷ []; overflow = none }

abbrev batch : Map ℕ
batch = (timeout, 3) ∷ (refused, 1) ∷ []

abbrev none_fails : Statement → Bool
none_fails at = false

abbrev alone : Vocabulary → Vocabulary
alone v = v

batch_small : carried batch (fresh_names (refused ∷ timeout ∷ []) []) < 2 ^ 63
unfolding select member lookup str_eq
batch_small = omega arith

plan_vocabulary-IsPlan_example :
    (rest : List Str) × IsPlan
      (fresh_names (refused ∷ timeout ∷ []) [])
      batch
      (pos 1)
      (plan_vocabulary (refused ∷ timeout ∷ []) [] batch (pos 1)).0
      rest
    × ((plan_vocabulary (refused ∷ timeout ∷ []) [] batch (pos 1)).1 ≡ carried batch rest)
plan_vocabulary-IsPlan_example =
    plan_vocabulary-IsPlan (refused ∷ timeout ∷ []) [] batch (pos 1) batch_small

admitted_once : admit_error_reasons none_fails alone db batch 2 9 ≡ (
  record { reasons = (bytes "parse", 5) ∷ (timeout, 9) ∷ []; overflow = some (1, 9) },
  ok (record { admitted = bytes "other" ∷ timeout ∷ []; folded = 1 }),
)
unfolding admit_error_reasons sort_strings sort_by insert_by str_lt str_eq keys lookup
    known_error_reasons select member any admit_locked committed insert_reasons touch_error_reasons
    upsert_overflow plan_vocabulary plan_from
admitted_once = refl

admit_error_reasons-bound_example :
    length (admit_error_reasons none_fails alone db batch 2 9).0.reasons ≤ 2
admit_error_reasons-bound_example =
    admit_error_reasons-bound none_fails alone db batch 2 9 (omega arith) (omega arith)

abbrev failed_with : Str → Map Value
failed_with r = (bytes "cli.error.reason", str r) ∷ []

abbrev records : List (Map Value)
records = failed_with timeout ∷ failed_with refused ∷ failed_with timeout ∷ []

abbrev stored : List (Map Value)
stored = failed_with timeout ∷ failed_with (bytes "other") ∷ failed_with timeout ∷ []

capped : (cap_error_reasons none_fails alone db (pos 2) 9 records).1 ≡ ok stored
unfolding cap_error_reasons count_reasons fold_reasons reason_limit insert admit_error_reasons
    sort_strings sort_by insert_by str_lt str_eq keys lookup known_error_reasons select member any
    admit_locked committed insert_reasons touch_error_reasons upsert_overflow plan_vocabulary
    plan_from
capped = refl

db_once : HasUniqueKeys db.reasons
unfolding lookup
db_once = (refl, tt)

cap_error_reasons-IsStored_example :
    IsStored (cap_error_reasons none_fails alone db (pos 2) 9 records).0 timeout
unfolding str_eq lookup
cap_error_reasons-IsStored_example =
    cap_error_reasons-IsStored none_fails alone db (pos 2) 9 records stored (failed_with timeout)
      timeout db_once capped (inl refl) refl

abbrev vendor_counter : Map Value
vendor_counter =
    (bytes "cli.counter.name", str (bytes "findings"))
    ∷ (bytes "cli.dim.severity", str (bytes "high"))
    ∷ (bytes "cli.counter.label", str (bytes "bola"))
    ∷ []

abbrev as_label : Map Value
as_label =
    (bytes "cli.counter.name", str (bytes "findings"))
    ∷ (bytes "cli.counter.label", str (bytes "label=bola;severity=high"))
    ∷ []

folds : fold_dims (bytes "cli.counter") (pos 3) vendor_counter [] ≡ ok as_label
unfolding fold_dims fold_found vendor_label_attr vendor_metric check_dropped collect_dims add_label
    without_dims cut_prefix has_prefix insert lookup str_eq format_dims sort_strings sort_by
    insert_by str_lt keys join_pairs
folds = refl

vendor_counter_once : HasUniqueKeys vendor_counter
unfolding lookup str_eq
vendor_counter_once = (refl, (refl, (refl, tt)))

counter_label :
    vendor_metric (bytes "cli.counter")
    ≡ some (record {
      kind = bytes "counter";
      name_attr = bytes "cli.counter.name";
      label_attr = bytes "cli.counter.label";
    })
unfolding vendor_metric str_eq
counter_label = refl

fold_dims-lossless_example :
    (lookup (bytes "severity") (parse_dims (text_at (bytes "cli.counter.label") as_label))
      ≡ some (bytes "high"))
    × (lookup (bytes "cli.dim.severity") as_label ≡ none)
unfolding collect_dims contains_byte any cut_prefix insert lookup str_eq
fold_dims-lossless_example =
    fold_dims-lossless (bytes "cli.counter") _ (pos 3) vendor_counter as_label [] (bytes "severity")
      (bytes "high") counter_label vendor_counter_once (((refl, refl), refl), tt) refl folds refl
