-- ===== src/Authn/Admin.antt =====
-- internal/authn/admin.go: the recognition of admins, their role, and the tenant an admin acts for.
use argvio.Prelude.{
  Str, bytes, str_eq, member, Bool, true, false, not, ◌&&◌, ◌||◌, Option, none, some, List, [], ◌∷◌,
  map, Result, ok, err, ◌>>=◌, or_fail, if◌then◌else◌,
}
use argvio.Prelude.Maps.{lookup}
use argvio.Tenant.Types.{Tenant, Resolved, Membership, status_active, known_role}
use argvio.Authn.{
  AuthError, unauthenticated, no_tenant_access, tenant_required, insufficient_scope,
  provider_unavailable, other_failure, Element, text, not_text, Claim, claim_text, claim_texts,
  claim_array, Claims, Identity, Resolver, OidcVerifier, OidcError, invalid_token, missing_scope,
  unavailable, oidc_failure, Libraries, AdminAccess, oidc,
}

unfoldable pub contains_text : List Element → Str → Bool
contains_text [] value = false
contains_text (text s ∷ rest) value = str_eq s value || contains_text rest value
contains_text (not_text ∷ rest) value = contains_text rest value

abbrev value_has : Option Claim → Str → Bool
value_has (some (claim_text s)) value = str_eq s value
value_has (some (claim_texts l)) value = member l value
value_has (some (claim_array l)) value = contains_text l value
value_has c value = false

unfoldable pub claim_has : Claims → Str → Str → Bool
claim_has claims name value = value_has (lookup name claims) value

unfoldable pub claim_rule : Str → Str → Identity → Option Str
unfolding claim_has contains_text member
claim_rule name value id = if claim_has id.claims name value then some (bytes "claim") else none

unfoldable pub subject_rule : Str → List Str → Identity → Option Str
unfolding member
subject_rule issuer subjects id =
    if not (str_eq id.subject []) && (str_eq id.issuer issuer && member subjects id.subject)
    then some (bytes "subjects")
    else none

abbrev role_of : Str → Option Claim → Str
role_of fallback (some (claim_text r)) = if known_role r then r else fallback
role_of fallback c = fallback

unfoldable pub role_for : AdminAccess → Identity → Str
role_for a id =
    if str_eq a.role_claim [] then a.role else role_of a.role (lookup a.role_claim id.claims)

abbrev pub mark_admin : AdminAccess → Str → Identity → Identity
mark_admin a rule id = record id { admin = true; admin_rule = rule; role = role_for a id }

-- The loop over the rules: the first that recognises the identity makes it an admin.
unfoldable pub admit_by : AdminAccess → List (Identity → Option Str) → Identity → Option Identity
admit_by a [] id = none
admit_by a (r ∷ rest) id =
    let later = admit_by a rest id in
    elim (r id) [ none ↦ later | some rule ↦ some (mark_admin a rule id) ]

unfoldable pub admit : AdminAccess → Identity → Option Identity
admit a id = admit_by a a.recognizers id

abbrev pub own_introspects : Option OidcVerifier → Bool
own_introspects none = false
own_introspects (some ov) = ov.introspection_enabled

unfoldable pub introspects : Option AdminAccess → Bool
introspects none = false
introspects (some a) = own_introspects a.verifier

abbrev pub auth_error : OidcError → AuthError
auth_error invalid_token = unauthenticated
auth_error missing_scope = insufficient_scope
auth_error unavailable = provider_unavailable
auth_error (oidc_failure why) = other_failure why

-- sub, _ := claims["sub"].(string)
abbrev text_claim : Option Claim → Str
text_claim (some (claim_text s)) = s
text_claim c = []

abbrev pub oidc_identity : Str → Claims → Identity
oidc_identity issuer claims = record {
  method = oidc;
  resolved = none;
  claims = claims;
  issuer = issuer;
  subject = text_claim (lookup (bytes "sub") claims);
  role = [];
  admin = false;
  admin_rule = [];
}

abbrev pub verified : OidcVerifier → Str → Bool → Result OidcError Claims
verified ov raw true = ov.introspect raw
verified ov raw false = ov.verify raw

abbrev pub identified : Str → Result OidcError Claims → Result AuthError Identity
identified issuer (ok claims) = ok (oidc_identity issuer claims)
identified issuer (err why) = err (auth_error why)

unfoldable pub verify_oidc : OidcVerifier → Str → Bool → Result AuthError Identity
verify_oidc ov raw opaque = identified ov.issuer_url (verified ov raw opaque)

-- The admin's identity, or why admin verification did not apply; none where nothing was wrong.
pub data AdminOutcome : Type 0 where
  is_admin : Identity → AdminOutcome
  not_admin : Option AuthError → AdminOutcome

abbrev pub admitted_or_not : Option Identity → AdminOutcome
admitted_or_not (some admin) = is_admin admin
admitted_or_not none = not_admin none

abbrev pub admit_verified : AdminAccess → Result AuthError Identity → AdminOutcome
admit_verified a (ok id) = admitted_or_not (admit a id)
admit_verified a (err why) = not_admin (some why)

abbrev pub try_own : AdminAccess → Option OidcVerifier → Str → Bool → AdminOutcome
try_own a none raw opaque = not_admin none
try_own a (some ov) raw opaque =
    if opaque && not ov.introspection_enabled
    then not_admin none
    else admit_verified a (verify_oidc ov raw opaque)

unfoldable pub authenticate_admin_first : Option AdminAccess → Str → Bool → AdminOutcome
authenticate_admin_first none raw opaque = not_admin none
authenticate_admin_first (some a) raw opaque = try_own a a.verifier raw opaque

abbrev is_unauthenticated : AuthError → Bool
is_unauthenticated unauthenticated = true
is_unauthenticated why = false

abbrev tells_more : AuthError → Bool
tells_more provider_unavailable = true
tells_more insufficient_scope = true
tells_more why = false

unfoldable pub prefer_admin_err : AuthError → Option AuthError → AuthError
prefer_admin_err user_err none = user_err
prefer_admin_err user_err (some admin_err) =
    if is_unauthenticated user_err && tells_more admin_err then admin_err else user_err

abbrev pub only_tenant : List Tenant → Result AuthError Str
only_tenant [] = err no_tenant_access
only_tenant (t ∷ []) = ok t.id
only_tenant (t ∷ u ∷ rest) = err tenant_required

abbrev pub active_or_refused : Identity → Option Resolved → Result AuthError Identity
active_or_refused id none = err no_tenant_access
active_or_refused id (some r) =
    if str_eq r.tenant.status status_active
    then ok (record id { resolved = some r })
    else err no_tenant_access

-- The tenant that the hint names, or the only active one where there is no hint.
abbrev pub wanted_tenant : Libraries → Resolver → Str → Result AuthError Str
wanted_tenant lib resolver hint =
    if str_eq hint []
    then (do tenants ← resolver.active_tenants; only_tenant tenants)
    else or_fail (lib.parse_uuid hint) no_tenant_access

unfoldable pub select_admin_tenant :
    Libraries → Resolver → Identity → Str → Result AuthError Identity
select_admin_tenant lib resolver id hint = do
  tenant_id ← wanted_tenant lib resolver hint
  found ← resolver.resolve_by_tenant_id tenant_id
  active_or_refused id found

abbrev as_member : Str → Tenant → Membership
as_member role t = record { tenant = t; role = role }

unfoldable pub admin_memberships : Resolver → Str → Result AuthError (List Membership)
admin_memberships resolver member_role = do
  tenants ← resolver.active_tenants
  ok (map (as_member member_role) tenants)
