-- ===== src/Allowlist.antt =====
-- internal/allowlist/schema.go: the schema of events, attributes and consent tiers, and the
-- lookups that ingest makes in it. A compiled regular expression is the predicate that its
-- MatchString computes. A map is an association list in its iteration order.
pub mod Check
pub mod Finalize
pub mod Lookups
use argvio.Prelude.{
  Str, bytes, str_eq, cut_prefix, has_prefix, trim_suffix, ℕ, ◌-◌, ◌≡◌, Bool, true, false, ◌&&◌,
  ◌||◌, Option, none, some, List, [], ◌∷◌, length, leb, ltb, ◌==◌, if◌then◌else◌,
}
use argvio.Prelude.Int.{ℤ, pos}
use argvio.Prelude.Float.{Float64}
use argvio.Prelude.Maps.{Map, lookup, insert, has}

-- A native attribute value, as internal/otlp hands it over.
pub data Value : Type 0 where
  str : Str → Value
  int64 : ℤ → Value
  boolean : Bool → Value
  float64 : Float64 → Value
  strings : List Str → Value

pub data AttrType : Type 0 where
  string int bool double string_array : AttrType
  unknown : Str → AttrType

pub record Tier : Type 0 where
  pub name : Str
  pub rank : ℤ

-- *regexp.Regexp; `none` is nil.
abbrev pub Regexp : Type 0
Regexp = Option (Str → Bool)

pub record AttrDef : Type 0 where
  pub key : Str
  pub attr_type : AttrType
  pub enum : List Str
  pub max_length : ℤ
  pub max_items : ℤ
  pub pattern : Str
  pub key_pattern : Str
  pub min_tier : Str
  pub pattern_re : Regexp
  pub key_pattern_re : Regexp

pub record MetricDef : Type 0 where
  pub name : Str
  pub metric_type : Str
  pub unit : Str
  pub monotonic : Bool
  pub temporality : Str
  pub explicit_bounds : List Float64
  pub required_attributes : List Str
  pub allowed_attributes : List Str

pub record SpanDef : Type 0 where
  pub name_pattern : Str
  pub allowed_attributes : List Str

pub record LogDef : Type 0 where
  pub event_name : Str
  pub allowed_attributes : List Str
  pub drop_body : Bool

-- map[string]struct{}
abbrev pub Set : Type 0
Set = Map (Unit {0})

pub record Schema : Type 0 where
  pub supported_signal_types : List Str
  pub standard_resource_attributes : List Str
  pub consent_tiers : List Tier
  pub attributes : Map AttrDef
  pub metrics : List MetricDef
  pub spans : List SpanDef
  pub logs : List LogDef
  -- built by finalize
  pub tier_ranks : Map ℤ
  pub standard_res_set : Set
  pub signal_type_set : Set
  pub metrics_by_name : Map MetricDef
  pub logs_by_name : Map LogDef
  pub families : List AttrDef

abbrev pub temporality_delta : Str
temporality_delta = bytes "delta"

abbrev pub temporality_cumulative : Str
temporality_cumulative = bytes "cumulative"

-- s.tierRank[name]; `none` is the unknown tier.
unfoldable pub tier_rank : Schema → Str → Option ℤ
tier_rank s name = lookup name s.tier_ranks

unfoldable pub is_known_signal_type : Schema → Str → Bool
is_known_signal_type s signal_type = has signal_type s.signal_type_set

unfoldable pub is_standard_resource_attribute : Schema → Str → Bool
is_standard_resource_attribute s key = has key s.standard_res_set

unfoldable pub metric_by_name : Schema → Str → Option MetricDef
metric_by_name s name = lookup name s.metrics_by_name

unfoldable pub log_event_by_name : Schema → Str → Option LogDef
log_event_by_name s name = lookup name s.logs_by_name

-- The bytes but the last, where the last is `*`.
unfoldable pub star_prefix : Str → Option Str
star_prefix [] = none
star_prefix (c ∷ []) = if c == b'*' then some [] else none
star_prefix (c ∷ d ∷ s) = elim (star_prefix (d ∷ s)) [ none ↦ none | some p ↦ some (c ∷ p) ]

unfoldable pub matches_pattern : Str → Str → Bool
unfolding star_prefix
matches_pattern pattern name =
    if str_eq pattern name
    then true
    else elim (star_prefix pattern) [ none ↦ false | some prefix ↦ has_prefix name prefix ]

unfoldable pub first_span : List SpanDef → Str → Option SpanDef
first_span [] name = none
first_span (sp ∷ spans) name =
    let rest = first_span spans name in
    if matches_pattern sp.name_pattern name then some sp else rest

unfoldable pub matching_span_def : Schema → Str → Option SpanDef
matching_span_def s name = first_span s.spans name

-- MatchString. On a nil pattern Go would panic; no family of a finalized schema has one.
abbrev pub match_string : Regexp → Str → Bool
match_string none s = false
match_string (some p) s = p s

abbrev pub family_suffix : Str
family_suffix = bytes ".*"

-- The key belongs to the family `f`: its prefix, and the rest matches the key pattern.
unfoldable pub family_matches : AttrDef → Str → Bool
family_matches f key = elim (cut_prefix key (trim_suffix f.key (bytes "*"))) [
  | none ↦ false
  | some rest ↦ match_string f.key_pattern_re rest
]

unfoldable pub first_family : List AttrDef → Str → Option Str
first_family [] key = none
first_family (f ∷ fs) key =
    let rest = first_family fs key in if family_matches f key then some f.key else rest

unfoldable pub family_of : Schema → Str → Option Str
family_of s key = if has key s.attributes then none else first_family s.families key

abbrev pub zero_attr_def : AttrDef
zero_attr_def = record {
  key = [];
  attr_type = unknown [];
  enum = [];
  max_length = pos 0;
  max_items = pos 0;
  pattern = [];
  key_pattern = [];
  min_tier = [];
  pattern_re = none;
  key_pattern_re = none;
}

-- m[k], the zero value where the key is missing.
abbrev pub attr_or_zero : Option AttrDef → AttrDef
attr_or_zero none = zero_attr_def
attr_or_zero (some d) = d

abbrev family_def : Schema → Str → Option Str → Option AttrDef
family_def s key none = none
family_def s key (some fam) = some (record (attr_or_zero (lookup fam s.attributes)) { key = key })

abbrev own_or_family_def : Schema → Str → Option AttrDef → Option AttrDef
own_or_family_def s key none = family_def s key (family_of s key)
own_or_family_def s key (some d) = some d

unfoldable pub attr_def_for : Schema → Str → Option AttrDef
attr_def_for s key = own_or_family_def s key (lookup key s.attributes)

abbrev allowed_family : Set → Option Str → Bool
allowed_family allowed none = false
allowed_family allowed (some fam) = has fam allowed

unfoldable pub is_allowed : Schema → Set → Str → Bool
is_allowed s allowed key =
    if has key allowed then true else allowed_family allowed (family_of s key)
