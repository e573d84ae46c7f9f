-- ===== src/Authn.antt =====
-- internal/authn: who a caller is, and which tenant it acts for. What the tenants' resolver, an OIDC
-- provider and the token libraries answer during a request are functions: the record of the resolver, that
-- of a verifier and that of the libraries. Reasons are constructors, and logging is left out.
pub mod Admin
pub mod Select
pub mod Credentials
pub mod Setup
use argvio.Prelude.{ℕ, Str, Bool, Option, List, Result}
use argvio.Prelude.Maps.{Map}
use argvio.Tenant.Types.{Tenant, Resolved, Membership}

pub data Method : Type 0 where
  api_key jwt oidc : Method

pub data AuthError : Type 0 where
  unauthenticated tenant_suspended no_tenant_access tenant_required : AuthError
  insufficient_scope provider_unavailable : AuthError
  other_failure : Str → AuthError

-- An element of a claim's array: a string, or something else.
pub data Element : Type 0 where
  text : Str → Element
  not_text : Element

-- The value of a claim, by the types that the code tells apart.
pub data Claim : Type 0 where
  claim_text : Str → Claim
  claim_texts : List Str → Claim
  claim_array : List Element → Claim
  other_claim : Claim

abbrev pub Claims : Type 0
Claims = Map Claim

pub record Identity : Type 0 where
  pub method : Method
  pub resolved : Option Resolved
  pub claims : Claims
  pub issuer : Str
  pub subject : Str
  pub role : Str
  pub admin : Bool
  pub admin_rule : Str

-- A lookup: the tenant, none where there is none, or an unexpected failure.
abbrev pub Lookup : Type 0
Lookup = Result AuthError (Option Resolved)

-- tenant.Resolver
pub record Resolver : Type 0 where
  pub resolve : Str → Str → Lookup
  pub resolve_by_tenant_id : Str → Lookup
  pub memberships : Str → Str → Result AuthError (List Membership)
  pub active_tenants : Result AuthError (List Tenant)

pub data OidcError : Type 0 where
  invalid_token missing_scope unavailable : OidcError
  oidc_failure : Str → OidcError

-- oidc.Verifier
pub record OidcVerifier : Type 0 where
  pub issuer_url : Str
  pub introspection_enabled : Bool
  pub verify : Str → Result OidcError Claims
  pub introspect : Str → Result OidcError Claims

-- uuid.Parse, the alg of a token's first part, and jwt.ParseWithClaims for HS256 with a key.
pub record Libraries : Type 0 where
  pub parse_uuid : Str → Option Str
  pub header_alg : Str → Option Str
  pub parse_hs256 : Str → Str → Option Claims

pub record AdminAccess : Type 0 where
  pub verifier : Option OidcVerifier
  pub recognizers : List (Identity → Option Str)
  pub role : Str
  pub role_claim : Str

-- The OIDC verifier is there where the method is on, and is read only then.
pub record Verifier : Type 0 where
  pub methods : Method → Bool
  pub jwt_signing_key : Str
  pub oidc_verifier : OidcVerifier
  pub resolver : Resolver
  pub api_key_scope : Str
  pub extra_api_key_scopes : List Str
  pub trust_tenant_id_claim : Bool
  pub admin : Option AdminAccess
