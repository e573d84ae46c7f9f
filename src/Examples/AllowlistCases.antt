-- ===== src/Examples/AllowlistCases.antt =====
-- internal/allowlist at concrete inputs.
use argvio.Prelude.{
  bytes, str_eq, has_prefix, cut_prefix, trim_suffix, ◌≡◌, refl, ◌↔◌, true, false, none, some,
}
use argvio.Prelude.Maps.{lookup, insert, has}
use argvio.Allowlist.{str, is_allowed, family_of, first_family, family_matches, matches_pattern}
use argvio.Allowlist.Check.{check_attribute, allowed_set}
use argvio.Allowlist.Check.Conforms.{ConformsAs, check_attribute_iff}
use argvio.Allowlist.Finalize.Sound.{IsFinal, finalize-IsFinal}
use argvio.Allowlist.Lookups.{HasDef, is_allowed-HasDef, IsMostSpecific, family_of-IsMostSpecific}
use argvio.Examples.Sample.{
  accept_all, parsed, schema, finalize-parsed, schema-IsFinal, counter_def, counter-RefsDefined,
  os_def,
}

finalize-IsFinal_example : IsFinal schema
finalize-IsFinal_example = finalize-IsFinal accept_all parsed schema refl finalize-parsed

dim_kind_allowed :
    is_allowed schema (allowed_set counter_def.allowed_attributes) (bytes "dim.kind") ≡ true
unfolding is_allowed allowed_set insert lookup str_eq family_of first_family family_matches
    cut_prefix trim_suffix
dim_kind_allowed = refl

is_allowed-HasDef_example : HasDef schema (bytes "dim.kind")
is_allowed-HasDef_example =
    is_allowed-HasDef schema counter_def.allowed_attributes (bytes "dim.kind") schema-IsFinal
      counter-RefsDefined dim_kind_allowed

family_of-dim_kind : family_of schema (bytes "dim.kind") ≡ some (bytes "dim.*")
unfolding lookup str_eq family_of first_family family_matches cut_prefix trim_suffix
family_of-dim_kind = refl

family_of-IsMostSpecific_example :
    (has (bytes "dim.kind") schema.attributes ≡ false)
    × IsMostSpecific schema.families (bytes "dim.kind") (bytes "dim.*")
family_of-IsMostSpecific_example =
    family_of-IsMostSpecific schema (bytes "dim.kind") (bytes "dim.*") schema-IsFinal
      family_of-dim_kind

check_attribute_iff_example :
    (check_attribute os_def (str (bytes "linux")) ≡ none)
    ↔ ConformsAs os_def.attr_type os_def (str (bytes "linux"))
check_attribute_iff_example = check_attribute_iff os_def (str (bytes "linux"))

matches_pattern_test :
    (matches_pattern (bytes "cli.*") (bytes "cli.run") ≡ true)
    × (matches_pattern (bytes "cli.*") (bytes "cl") ≡ false)
unfolding matches_pattern str_eq has_prefix
matches_pattern_test = (refl, refl)
