-- ===== src/Config/Auth.antt =====
-- internal/config/auth.go and admin.go: the settings of authentication. `trim_space` is strings.TrimSpace
-- and `is_absolute_url` is what url.Parse finds; a complaint is a constructor, with the key it is about.
pub mod Admin
pub mod Validate
use argvio.Prelude.{
  Str, bytes, str_eq, member, Bool, true, false, not, ◌&&◌, ◌||◌, Option, none, some, List, [], ◌∷◌,
  ◌++◌, if◌then◌else◌,
}
use argvio.Prelude.Int.{ℤ, pos, ltb_ℤ}
use argvio.Tenant.Types.{viewer}

pub record IntrospectionConfig : Type 0 where
  pub enabled : Bool
  pub endpoint : Str
  pub client_id : Str
  pub client_secret : Str
  pub cache_ttl : ℤ
  pub negative_cache_ttl : ℤ

pub record OidcConfig : Type 0 where
  pub issuer_url : Str
  pub audience : Str
  pub required_scopes : List Str
  pub jwks_cache_ttl : ℤ
  pub require_access_token_typ : Bool
  pub trust_tenant_id_claim : Bool
  pub introspection : IntrospectionConfig

pub record AdminClaimConfig : Type 0 where
  pub name : Str
  pub value : Str

-- `enabled` is a pointer: none inherits.
pub record AdminIntrospectionConfig : Type 0 where
  pub enabled : Option Bool
  pub endpoint : Str
  pub client_id : Str
  pub client_secret : Str
  pub cache_ttl : ℤ
  pub negative_cache_ttl : ℤ

pub record AdminOidcConfig : Type 0 where
  pub issuer_url : Str
  pub audience : Str
  pub required_scopes : List Str
  pub jwks_cache_ttl : ℤ
  pub introspection : AdminIntrospectionConfig

pub record AdminConfig : Type 0 where
  pub oidc : AdminOidcConfig
  pub claim : AdminClaimConfig
  pub subjects : List Str
  pub role : Str
  pub role_claim : Str

pub record AuthConfig : Type 0 where
  pub methods : List Str
  pub jwt_signing_key : Str
  pub oidc : OidcConfig
  pub admin : AdminConfig

unfoldable pub has_method : AuthConfig → Str → Bool
unfolding member
has_method a m = member a.methods m

unfoldable pub claim_enabled : AdminClaimConfig → Bool
claim_enabled c = not (str_eq c.name []) && not (str_eq c.value [])

-- The loop over the subjects, with those taken so far.
unfoldable pub allowlist_loop : (Str → Str) → List Str → List Str → List Str
allowlist_loop trim_space [] out = out
allowlist_loop trim_space (raw ∷ subjects) out =
    let s = trim_space raw in
    allowlist_loop trim_space subjects
      (if not (str_eq s []) && not (member out s) then out ++ s ∷ [] else out)

unfoldable pub subject_allowlist : (Str → Str) → AdminConfig → List Str
subject_allowlist trim_space a = allowlist_loop trim_space a.subjects []

abbrev pub is_empty {ℓ} : {A : Type ℓ} → List A → Bool
is_empty [] = true
is_empty (x ∷ xs) = false

unfoldable pub admin_enabled : (Str → Str) → AdminConfig → Bool
admin_enabled trim_space a =
    claim_enabled a.claim || not (is_empty (subject_allowlist trim_space a))

unfoldable pub effective_role : AdminConfig → Str
effective_role a = if str_eq a.role [] then viewer else a.role

-- if own != "" { eff = own }
abbrev pub or_own {ℓ} : {A : Type ℓ} → List A → List A → List A
or_own base [] = base
or_own base (x ∷ own) = x ∷ own

abbrev pub or_own_ttl : ℤ → ℤ → ℤ
or_own_ttl base own = if ltb_ℤ (pos 0) own then own else base

abbrev pub or_set : Bool → Option Bool → Bool
or_set base none = base
or_set base (some b) = b

-- Another issuer's endpoint and credentials are not inherited.
abbrev pub inherited : Bool → IntrospectionConfig → IntrospectionConfig
inherited true base = base
inherited false base = record base {
  enabled = false;
  endpoint = [];
  client_id = [];
  client_secret = [];
}

abbrev pub override : AdminIntrospectionConfig → IntrospectionConfig → IntrospectionConfig
override own base = record {
  enabled = or_set base.enabled own.enabled;
  endpoint = or_own base.endpoint own.endpoint;
  client_id = or_own base.client_id own.client_id;
  client_secret = or_own base.client_secret own.client_secret;
  cache_ttl = or_own_ttl base.cache_ttl own.cache_ttl;
  negative_cache_ttl = or_own_ttl base.negative_cache_ttl own.negative_cache_ttl;
}

unfoldable pub effective : AdminOidcConfig → OidcConfig → OidcConfig
effective a base =
    let issuer_url = or_own base.issuer_url a.issuer_url in
    record base {
      issuer_url = issuer_url;
      audience = or_own base.audience a.audience;
      required_scopes = or_own base.required_scopes a.required_scopes;
      jwks_cache_ttl = or_own_ttl base.jwks_cache_ttl a.jwks_cache_ttl;
      introspection =
          override a.introspection
            (inherited (str_eq issuer_url base.issuer_url) base.introspection);
    }

abbrev pub bool_eq : Bool → Bool → Bool
bool_eq true b = b
bool_eq false b = not b

abbrev pub int_eq : ℤ → ℤ → Bool
int_eq a b = not (ltb_ℤ a b) && not (ltb_ℤ b a)

unfoldable pub strs_eq : List Str → List Str → Bool
strs_eq [] [] = true
strs_eq [] (t ∷ ts) = false
strs_eq (s ∷ ss) [] = false
strs_eq (s ∷ ss) (t ∷ ts) = str_eq s t && strs_eq ss ts

unfoldable pub introspection_eq : IntrospectionConfig → IntrospectionConfig → Bool
introspection_eq c o =
    bool_eq c.enabled o.enabled
    && (str_eq c.endpoint o.endpoint
        && (str_eq c.client_id o.client_id
            && (str_eq c.client_secret o.client_secret
                && (int_eq c.cache_ttl o.cache_ttl
                    && int_eq c.negative_cache_ttl o.negative_cache_ttl))))

unfoldable pub same_verification : OidcConfig → OidcConfig → Bool
same_verification c o =
    str_eq c.issuer_url o.issuer_url
    && (str_eq c.audience o.audience
        && (int_eq c.jwks_cache_ttl o.jwks_cache_ttl
            && (bool_eq c.require_access_token_typ o.require_access_token_typ
                && (strs_eq c.required_scopes o.required_scopes
                    && introspection_eq c.introspection o.introspection))))
