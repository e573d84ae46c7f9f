-- ===== src/Authn/Select.antt =====
-- internal/authn/authn.go: the tenant of a verified OIDC identity.
pub mod Admits
use argvio.Prelude.{
  Str, bytes, str_eq, Bool, true, false, not, ◌&&◌, ◌||◌, Option, none, some, List, [], ◌∷◌, Result,
  ok, err, ◌>>=◌, ◌>>◌, fail_if, or_fail, is_some, if◌then◌else◌,
}
use argvio.Prelude.Maps.{lookup}
use argvio.Tenant.Types.{Resolved, Membership, status_active}
use argvio.Authn.{
  AuthError, tenant_suspended, no_tenant_access, tenant_required, Claim, claim_text, Claims,
  Identity, Lookup, Resolver, Libraries, Verifier,
}

abbrev pub names : Option Str → Str → Bool
names none tenant_id = false
names (some h) tenant_id = str_eq h tenant_id

unfoldable pub tenant_matches : Libraries → Str → Str → Bool
tenant_matches lib hint tenant_id = names (lib.parse_uuid hint) tenant_id

-- The tenant_id claim: none where it is absent, an error where it is no UUID's text.
abbrev pub claimed : Libraries → Option Claim → Result AuthError (Option Str)
claimed lib none = ok none
claimed lib (some (claim_text s)) = (do
  tid ← or_fail (lib.parse_uuid s) no_tenant_access
  ok (some tid))
claimed lib (some c) = err no_tenant_access

unfoldable pub tenant_claim : Libraries → Claims → Result AuthError (Option Str)
tenant_claim lib claims = claimed lib (lookup (bytes "tenant_id") claims)

unfoldable pub has_membership : List Membership → Str → Bool
has_membership [] tenant_id = false
has_membership (m ∷ members) tenant_id =
    str_eq m.tenant.id tenant_id || has_membership members tenant_id

-- The loop that chooses the first membership that the hint names.
unfoldable pub find_hinted : Libraries → Str → List Membership → Option Membership
find_hinted lib hint [] = none
find_hinted lib hint (m ∷ members) =
    let rest = find_hinted lib hint members in
    if tenant_matches lib hint m.tenant.id then some m else rest

abbrev pub only_member : List Membership → Result AuthError Membership
only_member [] = err no_tenant_access
only_member (m ∷ []) = ok m
only_member (m ∷ n ∷ rest) = err tenant_required

unfoldable pub choose_member : Libraries → Str → List Membership → Result AuthError Membership
choose_member lib hint members =
    if str_eq hint []
    then only_member members
    else or_fail (find_hinted lib hint members) no_tenant_access

abbrev pub active_or_suspended : Identity → Str → Option Resolved → Result AuthError Identity
active_or_suspended id role none = err no_tenant_access
active_or_suspended id role (some r) =
    if str_eq r.tenant.status status_active
    then ok (record id { resolved = some r; role = role })
    else err tenant_suspended

unfoldable pub resolve_tenant : Resolver → Identity → Str → Str → Result AuthError Identity
resolve_tenant resolver id tenant_id role = do
  found ← resolver.resolve_by_tenant_id tenant_id
  active_or_suspended id role found

-- A claim that names no membership.
abbrev pub foreign_claim : Option Str → List Membership → Bool
foreign_claim none members = false
foreign_claim (some tenant_id) members = not (has_membership members tenant_id)

abbrev pub select_member :
    Libraries → Resolver → Identity → Str → Option Str → Result AuthError Identity
select_member lib resolver id hint claim = do
  fail_if (str_eq id.subject []) no_tenant_access
  members ← resolver.memberships id.issuer id.subject
  fail_if (foreign_claim claim members) no_tenant_access
  chosen ← choose_member lib hint members
  resolve_tenant resolver id chosen.tenant.id chosen.role

abbrev pub select_claimed :
    Libraries → Resolver → Bool → Identity → Str → Option Str → Result AuthError Identity
select_claimed lib resolver trust id hint none = select_member lib resolver id hint none
select_claimed lib resolver trust id hint (some tenant_id) =
    if trust
    then (do
      fail_if (not (str_eq hint []) && not (tenant_matches lib hint tenant_id)) no_tenant_access
      resolve_tenant resolver id tenant_id [])
    else select_member lib resolver id hint (some tenant_id)

unfoldable pub select_tenant : Libraries → Verifier → Identity → Str → Result AuthError Identity
select_tenant lib v id hint = do
  claim ← tenant_claim lib id.claims
  select_claimed lib v.resolver v.trust_tenant_id_claim id hint claim
