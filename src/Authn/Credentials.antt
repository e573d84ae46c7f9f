-- ===== src/Authn/Credentials.antt =====
-- internal/authn/authn.go: the credential that a request carries, and the identity that it stands for.
pub mod Sound
pub mod Subject
pub mod Entitled
pub mod Granted
use argvio.Prelude.{
  Str, bytes, str_eq, has_prefix, split, member, Bool, true, false, not, ◌&&◌, ◌||◌, Option, none,
  some, List, [], ◌∷◌, ◌++◌, Result, ok, err, ◌>>=◌, ◌>>◌, fail_if, or_fail, is_some, if◌then◌else◌,
}
use argvio.Prelude.Maps.{lookup}
use argvio.Tenant.Types.{Resolved, Membership, status_active}
use argvio.Authn.{
  Method, api_key, jwt, oidc, AuthError, unauthenticated, tenant_suspended, no_tenant_access, Claim,
  claim_text, Claims, Identity, Lookup, Resolver, Libraries, AdminAccess, Verifier,
}
use argvio.Authn.Admin.{
  admit, introspects, verify_oidc, AdminOutcome, is_admin, not_admin, authenticate_admin_first,
  prefer_admin_err, select_admin_tenant, admin_memberships,
}
use argvio.Authn.Select.{tenant_matches, select_tenant}

unfoldable pub api_key_prefix : Str
api_key_prefix = bytes "argv_"

-- The loop over the extra scopes, which stops at the first tenant that is found.
unfoldable pub try_scopes : Resolver → Str → Option Resolved → List Str → Lookup
try_scopes resolver raw found [] = ok found
try_scopes resolver raw (some r) (scope ∷ rest) = ok (some r)
try_scopes resolver raw none (scope ∷ rest) = do
  found ← resolver.resolve raw scope
  try_scopes resolver raw found rest

abbrev pub key_identity : Resolved → Identity
key_identity r = record {
  method = api_key;
  resolved = some r;
  claims = [];
  issuer = [];
  subject = [];
  role = [];
  admin = false;
  admin_rule = [];
}

abbrev pub usable_key : Option Resolved → Result AuthError Identity
usable_key none = err unauthenticated
usable_key (some r) = do
  fail_if (is_some r.api_key.revoked_at) unauthenticated
  fail_if (not (str_eq r.tenant.status status_active)) tenant_suspended
  ok (key_identity r)

unfoldable pub authenticate_api_key : Verifier → Str → Result AuthError Identity
authenticate_api_key v raw = do
  fail_if (not (v.methods api_key)) unauthenticated
  first ← v.resolver.resolve raw v.api_key_scope
  found ← try_scopes v.resolver raw first v.extra_api_key_scopes
  usable_key found

abbrev pub tenant_id_of : Libraries → Option Claim → Option Str
tenant_id_of lib (some (claim_text s)) = lib.parse_uuid s
tenant_id_of lib c = none

unfoldable pub tenant_id_from_claims : Libraries → Claims → Option Str
tenant_id_from_claims lib claims = tenant_id_of lib (lookup (bytes "tenant_id") claims)

abbrev pub claims_identity : Method → Claims → Resolved → Identity
claims_identity method claims r = record {
  method = method;
  resolved = some r;
  claims = claims;
  issuer = [];
  subject = [];
  role = [];
  admin = false;
  admin_rule = [];
}

abbrev pub active_claims : Method → Claims → Option Resolved → Result AuthError Identity
active_claims method claims none = err unauthenticated
active_claims method claims (some r) =
    if str_eq r.tenant.status status_active
    then ok (claims_identity method claims r)
    else err tenant_suspended

unfoldable pub identity_from_claims :
    Libraries → Verifier → Method → Claims → Result AuthError Identity
identity_from_claims lib v method claims = do
  tid ← or_fail (tenant_id_from_claims lib claims) unauthenticated
  found ← v.resolver.resolve_by_tenant_id tid
  active_claims method claims found

unfoldable pub authenticate_jwt : Libraries → Verifier → Str → Result AuthError Identity
authenticate_jwt lib v raw = do
  claims ← or_fail (lib.parse_hs256 v.jwt_signing_key raw) unauthenticated
  identity_from_claims lib v jwt claims

abbrev pub admitted_or_same : AdminAccess → Option Identity → Identity → Identity
admitted_or_same a none id = id
admitted_or_same a (some admin) id = admin

-- Where admins are verified as users are, the verified identity may be an admin's.
abbrev pub admit_shared : Option AdminAccess → Identity → Identity
admit_shared none id = id
admit_shared (some a) id = if is_some a.verifier then id else admitted_or_same a (admit a id) id

abbrev pub verify_user :
    Option AdminAccess → Option AuthError → Result AuthError Identity → Result AuthError Identity
verify_user admin admin_err (ok id) = ok (admit_shared admin id)
verify_user admin admin_err (err why) = err (prefer_admin_err why admin_err)

abbrev is_refusal : AuthError → Bool
is_refusal unauthenticated = true
is_refusal why = false

-- An opaque token that only admin verification introspects is tried as an API key.
abbrev pub opaque_as_key : Verifier → Str → Option AuthError → Result AuthError Identity
opaque_as_key v raw none = authenticate_api_key v raw
opaque_as_key v raw (some why) = if is_refusal why then authenticate_api_key v raw else err why

abbrev pub after_admin : Verifier → Str → Bool → AdminOutcome → Result AuthError Identity
after_admin v raw opaque (is_admin id) = ok id
after_admin v raw opaque (not_admin why) =
    if opaque && not v.oidc_verifier.introspection_enabled
    then opaque_as_key v raw why
    else verify_user v.admin why (verify_oidc v.oidc_verifier raw opaque)

unfoldable pub authenticate_oidc : Verifier → Str → Bool → Result AuthError Identity
authenticate_oidc v raw opaque =
    after_admin v raw opaque (authenticate_admin_first v.admin raw opaque)

-- A token of three parts has a header, in its first.
abbrev header_of : Libraries → List Str → Option Str
header_of lib (header ∷ payload ∷ signature ∷ []) = lib.header_alg header
header_of lib parts = none

unfoldable pub peek_alg : Libraries → Str → Option Str
peek_alg lib raw = header_of lib (split b'.' raw)

unfoldable pub is_asymmetric_alg : Str → Bool
is_asymmetric_alg alg =
    member
      (bytes "RS256"
        ∷ bytes "RS384"
        ∷ bytes "RS512"
        ∷ bytes "PS256"
        ∷ bytes "PS384"
        ∷ bytes "PS512"
        ∷ bytes "ES256"
        ∷ bytes "ES384"
        ∷ bytes "ES512"
        ∷ [])
      alg

abbrev pub by_alg : Libraries → Verifier → Str → Option Str → Result AuthError Identity
by_alg lib v raw none =
    if v.methods oidc && (v.oidc_verifier.introspection_enabled || introspects v.admin)
    then authenticate_oidc v raw true
    else authenticate_api_key v raw
by_alg lib v raw (some alg) =
    if str_eq alg (bytes "HS256") && v.methods jwt
    then authenticate_jwt lib v raw
    else if is_asymmetric_alg alg && v.methods oidc
    then authenticate_oidc v raw false
    else err unauthenticated

unfoldable pub authenticate_subject : Libraries → Verifier → Str → Result AuthError Identity
authenticate_subject lib v raw =
    if str_eq raw []
    then err unauthenticated
    else if has_prefix raw api_key_prefix
    then authenticate_api_key v raw
    else by_alg lib v raw (peek_alg lib raw)

-- An API key and a JWT are bound to one tenant; the hint may only repeat it.
abbrev pub bound_or_selected :
    Libraries → Verifier → Identity → Str → Option Resolved → Result AuthError Identity
bound_or_selected lib v id hint none = select_tenant lib v id hint
bound_or_selected lib v id hint (some r) =
    if not (str_eq hint []) && not (tenant_matches lib hint r.tenant.id)
    then err no_tenant_access
    else ok id

abbrev pub act_for : Libraries → Verifier → Str → Identity → Result AuthError Identity
act_for lib v hint id =
    if id.admin
    then select_admin_tenant lib v.resolver id hint
    else bound_or_selected lib v id hint id.resolved

unfoldable pub authenticate_for_tenant :
    Libraries → Verifier → Str → Str → Result AuthError Identity
authenticate_for_tenant lib v raw hint = do
  id ← authenticate_subject lib v raw
  act_for lib v hint id

unfoldable pub authenticate : Libraries → Verifier → Str → Result AuthError Identity
authenticate lib v raw = authenticate_for_tenant lib v raw []

abbrev is_oidc : Method → Bool
is_oidc oidc = true
is_oidc method = false

unfoldable pub memberships : Verifier → Identity → Result AuthError (List Membership)
memberships v id =
    if id.admin
    then admin_memberships v.resolver id.role
    else if is_oidc id.method && not (str_eq id.subject [])
    then v.resolver.memberships id.issuer id.subject
    else ok []

unfoldable pub also_accept_api_key_scope : Str → Verifier → Verifier
also_accept_api_key_scope scope v = record v {
  extra_api_key_scopes = v.extra_api_key_scopes ++ scope ∷ [];
}
