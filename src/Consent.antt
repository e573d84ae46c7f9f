-- ===== src/Consent.antt =====
-- internal/consent/tier.go: the tier that a record declares, and the evaluation of one event
-- against the allowlist and the tenant's ceiling. An error or a reason is a constructor that holds
-- what its message shows. Attributes are iterated over in the order of their association list.
pub mod Filter
pub mod Evaluate
pub mod Tiers
use argvio.Prelude.{
  Str, bytes, str_eq, Bool, true, false, not, ◌&&◌, Option, none, some, List, [], ◌∷◌, ◌++◌, Result,
  ok, err, is_some, if◌then◌else◌,
}
use argvio.Prelude.Int.{ℤ, pos, ltb_ℤ}
use argvio.Prelude.Maps.{Map, lookup, insert, has}
use argvio.Allowlist.{
  Value, str, Schema, AttrDef, Tier, Set, tier_rank, is_allowed, is_standard_resource_attribute,
  attr_def_for,
}
use argvio.Allowlist.Check.{allowed_set, check_attribute}

unfoldable pub tier_attr_key : Str
tier_attr_key = bytes "cli.analytics.tier"

pub data EnforcementMode : Type 0 where
  strip reject : EnforcementMode
  other_mode : Str → EnforcementMode

pub data TierError : Type 0 where
  tier_missing : TierError
  tier_not_string : Value → TierError
  tier_unrecognized : Str → TierError

abbrev known_tier : Schema → Str → Result TierError Str
known_tier schema tier =
    if is_some (tier_rank schema tier) then ok tier else err (tier_unrecognized tier)

abbrev declared_tier : Schema → Option Value → Result TierError Str
declared_tier schema none = err tier_missing
declared_tier schema (some (str tier)) = known_tier schema tier
declared_tier schema (some v) = err (tier_not_string v)

-- v, ok := a[k]; if !ok { v, ok = b[k] }
abbrev pub or_else {ℓ} : {A : Type ℓ} → Option A → Option A → Option A
or_else none b = b
or_else (some a) b = some a

unfoldable pub resolve_tier : Schema → Map Value → Map Value → Result TierError Str
resolve_tier schema resource_attrs record_attrs =
    declared_tier schema
      (or_else (lookup tier_attr_key record_attrs) (lookup tier_attr_key resource_attrs))

pub record EventDef : Type 0 where
  pub found : Bool
  pub allowed_attributes : List Str
  pub required_attributes : List Str

pub data RejectReason : Type 0 where
  not_on_allowlist : RejectReason
  unknown_ceiling : Str → RejectReason
  exceeds_ceiling : Str → Str → RejectReason
  required_missing : Str → RejectReason

pub data Decision : Type 0 where
  rejected : RejectReason → Decision
  -- the effective tier, the kept attributes, the dropped keys
  accepted : Str → Map Value → List Str → Decision

-- rank, _ := TierRank(name): zero for an unknown tier
abbrev pub rank_or_zero : Option ℤ → ℤ
rank_or_zero none = pos 0
rank_or_zero (some r) = r

unfoldable pub tier_name_for_rank : List Tier → ℤ → Str
tier_name_for_rank [] rank = []
tier_name_for_rank (t ∷ tiers) rank =
    let rest = tier_name_for_rank tiers rank in
    if not (ltb_ℤ t.rank rank) && not (ltb_ℤ rank t.rank) then t.name else rest

-- The maps that the loop over the attributes fills.
pub record Filtered : Type 0 where
  pub kept : Map Value
  pub dropped : List Str

abbrev keep : Str → Value → Filtered → Filtered
keep k v acc = record acc { kept = insert k v acc.kept }

abbrev drop : Str → Filtered → Filtered
drop k acc = record acc { dropped = acc.dropped ++ k ∷ [] }

abbrev filter_defined : Schema → ℤ → Str → Value → Option AttrDef → Filtered → Filtered
filter_defined schema effective k v none acc = drop k acc
filter_defined schema effective k v (some def) acc =
    if is_some (check_attribute def v)
    then drop k acc
    else if ltb_ℤ effective (rank_or_zero (tier_rank schema def.min_tier))
    then drop k acc
    else keep k v acc

-- The body of the loop over the attributes.
unfoldable pub filter_attribute : Schema → Set → ℤ → Str → Value → Filtered → Filtered
filter_attribute schema allowed effective k v acc =
    if str_eq k tier_attr_key
    then acc
    else if not (is_allowed schema allowed k)
    then (if is_standard_resource_attribute schema k then keep k v acc else drop k acc)
    else filter_defined schema effective k v (attr_def_for schema k) acc

unfoldable pub filter_attributes : Schema → Set → ℤ → Map Value → Filtered → Filtered
filter_attributes schema allowed effective [] acc = acc
filter_attributes schema allowed effective ((k, v) ∷ rest) acc =
    filter_attributes schema allowed effective rest
      (filter_attribute schema allowed effective k v acc)

-- The first required key that was not kept.
unfoldable pub missing_required : List Str → Map Value → Option Str
missing_required [] kept = none
missing_required (k ∷ rest) kept = if has k kept then missing_required rest kept else some k

abbrev pub effective_rank : ℤ → ℤ → ℤ
effective_rank declared ceiling = if ltb_ℤ ceiling declared then ceiling else declared

abbrev is_reject : EnforcementMode → Bool
is_reject reject = true
is_reject mode = false

abbrev decide_required : Str → List Str → Filtered → Decision
decide_required tier required f = elim (missing_required required f.kept) [
  | none ↦ accepted tier f.kept f.dropped
  | some k ↦ rejected (required_missing k)
]

-- What follows once the ranks are known.
unfoldable pub evaluate_ranked : Schema → EventDef → ℤ → Map Value → Decision
evaluate_ranked schema def effective attrs =
    decide_required (tier_name_for_rank schema.consent_tiers effective) def.required_attributes (
      filter_attributes schema (allowed_set def.allowed_attributes) effective attrs
        (record { kept = []; dropped = [] }))

abbrev evaluate_ceiling :
    Schema → EventDef → Str → Str → EnforcementMode → Map Value → Option ℤ → Decision
evaluate_ceiling schema def declared_tier tenant_ceiling mode attrs none =
    rejected (unknown_ceiling tenant_ceiling)
evaluate_ceiling schema def declared_tier tenant_ceiling mode attrs (some ceiling) =
    let declared = rank_or_zero (tier_rank schema declared_tier) in
    if ltb_ℤ ceiling declared && is_reject mode
    then rejected (exceeds_ceiling declared_tier tenant_ceiling)
    else evaluate_ranked schema def (effective_rank declared ceiling) attrs

unfoldable pub evaluate_event :
    Schema → EventDef → Str → Str → EnforcementMode → Map Value → Decision
evaluate_event schema def declared_tier tenant_ceiling mode attrs =
    if not def.found
    then rejected not_on_allowlist
    else evaluate_ceiling schema def declared_tier tenant_ceiling mode attrs
        (tier_rank schema tenant_ceiling)
