-- ===== src/Examples/AuthnCases.antt =====
-- internal/authn and internal/config at concrete inputs: a user who is a member of two tenants.
use argvio.Prelude.{
  Str, bytes, str_eq, has_prefix, split, member, ◌≡◌, refl, ◌⊎◌, true, false, none, some, [], List,
  ◌∷◌, ok, err,
}
use argvio.Prelude.Int.{pos}
use argvio.Prelude.Maps.{lookup}
use argvio.Consent.{strip}
use argvio.Tenant.Types.{
  Tenant, Config, ApiKey, Resolved, Membership, status_active, known_role, viewer,
}
use argvio.Config.Auth.{
  IntrospectionConfig, OidcConfig, AdminOidcConfig, AuthConfig, effective, subject_allowlist,
  allowlist_loop, claim_enabled, admin_enabled, effective_role, has_method,
}
use argvio.Config.Auth.Admin.{effective_own_issuer}
use argvio.Config.Auth.Validate.{validate, validate_method, validate_introspection}
use argvio.Config.Auth.Validate.Usable.{IsSound, validate-IsSound}
use argvio.Authn.{
  Identity, Claims, claim_text, Libraries, OidcVerifier, Resolver, Verifier, oidc, tenant_required,
}
use argvio.Authn.Admin.{verify_oidc, authenticate_admin_first}
use argvio.Authn.Select.{
  tenant_claim, has_membership, find_hinted, tenant_matches, choose_member, resolve_tenant,
  select_tenant,
}
use argvio.Authn.Select.Admits.{select_tenant-admits}
use argvio.Authn.Credentials.{
  authenticate_for_tenant, authenticate_subject, authenticate_oidc, peek_alg, is_asymmetric_alg,
  api_key_prefix,
}
use argvio.Authn.Credentials.Granted.{Granted, authenticate_for_tenant-Granted}

abbrev pub acme : Tenant
acme = record { id = bytes "t1"; slug = bytes "acme"; name = bytes "Acme"; status = bytes "active" }

abbrev pub beta : Tenant
beta = record { id = bytes "t2"; slug = bytes "beta"; name = bytes "Beta"; status = bytes "active" }

abbrev pub config : Config
config = record {
  tenant_id = bytes "t1";
  tier_ceiling = bytes "basic";
  tier_enforcement_mode = strip;
  rate_limit_requests_per_sec = none;
  rate_limit_bytes_per_sec = none;
  rate_limit_burst = none;
  retention_traces_days = none;
  retention_logs_days = none;
  retention_metrics_days = none;
  metric_caps = record {
    max_counter_names = none;
    max_counter_labels_per_name = none;
    max_measure_names = none;
    max_measure_labels_per_name = none;
    max_metric_dims = none;
    max_dim_values_per_key = none;
    max_value_names = none;
    max_value_labels_per_name = none;
  };
  strict_metrics = false;
}

abbrev no_key : ApiKey
no_key = record {
  id = [];
  tenant_id = [];
  key_hash = [];
  key_prefix = [];
  scope = [];
  created_at = pos 0;
  revoked_at = none;
  last_used_at = none;
}

abbrev pub resolved : Resolved
resolved = record { tenant = acme; config = config; api_key = no_key }

abbrev resolver : Resolver
resolver = record {
  resolve = λ raw scope. ok none;
  resolve_by_tenant_id = λ tid. ok (some resolved);
  memberships = λ issuer subject. ok (
      record { tenant = beta; role = bytes "viewer" }
      ∷ record { tenant = acme; role = bytes "owner" }
      ∷ []);
  active_tenants = ok [];
}

abbrev alice : Claims
alice = (bytes "sub", claim_text (bytes "alice")) ∷ []

abbrev provider : OidcVerifier
provider = record {
  issuer_url = bytes "idp";
  introspection_enabled = false;
  verify = λ raw. ok alice;
  introspect = λ raw. ok alice;
}

abbrev server : Verifier
server = record {
  methods = λ m. true;
  jwt_signing_key = bytes "key";
  oidc_verifier = provider;
  resolver = resolver;
  api_key_scope = bytes "metrics_query";
  extra_api_key_scopes = [];
  trust_tenant_id_claim = false;
  admin = none;
}

abbrev libraries : Libraries
libraries = record {
  parse_uuid = λ s. some s;
  header_alg = λ h. some (bytes "RS256");
  parse_hs256 = λ key raw. none;
}

abbrev user : Identity
user = record {
  method = oidc;
  resolved = none;
  claims = alice;
  issuer = bytes "idp";
  subject = bytes "alice";
  role = [];
  admin = false;
  admin_rule = [];
}

abbrev owner : Identity
owner = record user { resolved = some resolved; role = bytes "owner" }

run_owner : authenticate_for_tenant libraries server (bytes "a.b.c") (bytes "t1") ≡ ok owner
unfolding authenticate_for_tenant authenticate_subject authenticate_oidc peek_alg split
    is_asymmetric_alg api_key_prefix has_prefix str_eq member verify_oidc authenticate_admin_first
    select_tenant tenant_claim lookup choose_member find_hinted tenant_matches resolve_tenant
    status_active
run_owner = refl

-- Without a hint a member of two tenants is asked which.
run_no_hint : authenticate_for_tenant libraries server (bytes "a.b.c") [] ≡ err tenant_required
unfolding authenticate_for_tenant authenticate_subject authenticate_oidc peek_alg split
    is_asymmetric_alg api_key_prefix has_prefix str_eq member verify_oidc authenticate_admin_first
    select_tenant tenant_claim lookup choose_member find_hinted tenant_matches resolve_tenant
    status_active
run_no_hint = refl

authenticate_for_tenant-Granted_example :
    Granted libraries server (bytes "a.b.c") (bytes "t1") owner
authenticate_for_tenant-Granted_example =
    authenticate_for_tenant-Granted libraries server (bytes "a.b.c") (bytes "t1") owner run_owner

no_claim : tenant_claim libraries user.claims ≡ ok none
unfolding tenant_claim lookup str_eq
no_claim = refl

is_acme_active : str_eq acme.status status_active ≡ true
unfolding str_eq status_active
is_acme_active = refl

abbrev two_members : List Membership
two_members =
    record { tenant = beta; role = bytes "viewer" }
    ∷ record { tenant = acme; role = bytes "owner" }
    ∷ []

is_member : has_membership two_members (bytes "t1") ≡ true
unfolding has_membership str_eq
is_member = refl

select_tenant-admits_example :
    (role : Str) × (select_tenant libraries server user (bytes "t1")
      ≡ ok (record user { resolved = some resolved; role = role }))
select_tenant-admits_example =
    select_tenant-admits libraries server user (bytes "t1") (bytes "t1") none two_members resolved
      refl (cc) no_claim tt refl (cc) refl refl is_acme_active is_member

abbrev introspection : IntrospectionConfig
introspection = record {
  enabled = true;
  endpoint = bytes "https://idp/i";
  client_id = bytes "argvio";
  client_secret = bytes "secret";
  cache_ttl = pos 1;
  negative_cache_ttl = pos 1;
}

abbrev users_oidc : OidcConfig
users_oidc = record {
  issuer_url = bytes "idp";
  audience = bytes "argvio";
  required_scopes = [];
  jwks_cache_ttl = pos 1;
  require_access_token_typ = false;
  trust_tenant_id_claim = false;
  introspection = introspection;
}

abbrev admins_oidc : AdminOidcConfig
admins_oidc = record {
  issuer_url = bytes "corp";
  audience = [];
  required_scopes = [];
  jwks_cache_ttl = pos 0;
  introspection = record {
    enabled = none;
    endpoint = [];
    client_id = [];
    client_secret = [];
    cache_ttl = pos 0;
    negative_cache_ttl = pos 0;
  };
}

effective_own_issuer_example :
    let eff = effective admins_oidc users_oidc in
    (eff.issuer_url ≡ bytes "corp")
    × (eff.introspection.endpoint ≡ [])
    × (eff.introspection.client_id ≡ [])
    × (eff.introspection.client_secret ≡ [])
    × ((eff.introspection.enabled ≡ false) ⊎ (admins_oidc.introspection.enabled ≡ some true))
effective_own_issuer_example = effective_own_issuer admins_oidc users_oidc (cc) (cc)

abbrev auth : AuthConfig
auth = record {
  methods = bytes "api_key" ∷ bytes "oidc" ∷ [];
  jwt_signing_key = [];
  oidc = users_oidc;
  admin = record {
    oidc = admins_oidc;
    claim = record { name = []; value = [] };
    subjects = bytes "root" ∷ [];
    role = [];
    role_claim = [];
  };
}

run_auth : validate (λ url. false) (λ s. s) auth ≡ []
unfolding validate validate_method validate_introspection str_eq has_method member known_role
    effective_role viewer admin_enabled subject_allowlist allowlist_loop claim_enabled effective
run_auth = refl

validate-IsSound_example : IsSound (λ s. s) auth
validate-IsSound_example = validate-IsSound (λ url. false) (λ s. s) auth run_auth
