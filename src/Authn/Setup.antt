-- ===== src/Authn/Setup.antt =====
-- internal/authn: how a verifier is built from the configuration. `new_oidc` is oidc.NewVerifier with the
-- settings that newOIDCVerifier hands it.
use argvio.Prelude.{
  Str, bytes, not, ◌&&◌, ◌||◌, Option, none, some, List, [], ◌∷◌, ◌++◌, if◌then◌else◌,
}
use argvio.Config.Auth.{
  OidcConfig, AdminConfig, AuthConfig, has_method, claim_enabled, subject_allowlist, is_empty,
  effective_role, effective, same_verification,
}
use argvio.Authn.{
  Method, api_key, jwt, oidc, Identity, OidcVerifier, Resolver, AdminAccess, Verifier,
}
use argvio.Authn.Admin.{claim_rule, subject_rule}

abbrev method_name : Method → Str
method_name api_key = bytes "api_key"
method_name jwt = bytes "jwt"
method_name oidc = bytes "oidc"

unfoldable pub new : (OidcConfig → OidcVerifier) → AuthConfig → Resolver → Str → Verifier
unfolding has_method
new new_oidc cfg resolver api_key_scope = record {
  methods = λ m. has_method cfg (method_name m);
  jwt_signing_key = cfg.jwt_signing_key;
  oidc_verifier = new_oidc cfg.oidc;
  resolver = resolver;
  api_key_scope = api_key_scope;
  extra_api_key_scopes = [];
  trust_tenant_id_claim = has_method cfg (bytes "oidc") && cfg.oidc.trust_tenant_id_claim;
  admin = none;
}

unfoldable pub recognizers_from_config :
    (Str → Str) → AdminConfig → Str → List (Identity → Option Str)
recognizers_from_config trim_space cfg issuer =
    let subjects = subject_allowlist trim_space cfg in
    (if claim_enabled cfg.claim then claim_rule cfg.claim.name cfg.claim.value ∷ [] else [])
    ++ (if is_empty subjects then [] else subject_rule issuer subjects ∷ [])

abbrev access :
    (OidcConfig → OidcVerifier)
    → AuthConfig
    → OidcConfig
    → List (Identity → Option Str)
    → AdminAccess
access new_oidc cfg eff recognizers = record {
  verifier = if same_verification eff cfg.oidc then none else some (new_oidc eff);
  recognizers = recognizers;
  role = effective_role cfg.admin;
  role_claim = cfg.admin.role_claim;
}

unfoldable pub enable_admin :
    (OidcConfig → OidcVerifier)
    → (Str → Str)
    → AuthConfig
    → List (Identity → Option Str)
    → Verifier
    → Verifier
enable_admin new_oidc trim_space cfg extra v =
    let eff = effective cfg.admin.oidc cfg.oidc in
    let recognizers = recognizers_from_config trim_space cfg.admin eff.issuer_url ++ extra in
    if is_empty recognizers || not (v.methods oidc)
    then v
    else record v { admin = some (access new_oidc cfg eff recognizers) }
