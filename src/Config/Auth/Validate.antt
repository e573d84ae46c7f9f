-- ===== src/Config/Auth/Validate.antt =====
-- internal/config/auth.go and admin.go: the complaints about an authentication configuration. A setting is
-- named by its key; `bad_url` says what validateAbsoluteURL finds wrong with a URL.
pub mod Usable
use argvio.Prelude.{
  Str, bytes, str_eq, Bool, true, false, not, ◌&&◌, ◌||◌, Option, none, some, List, [], ◌∷◌, ◌++◌,
  is_some, if◌then◌else◌,
}
use argvio.Prelude.Int.{ℤ, pos, ltb_ℤ}
use argvio.Tenant.Types.{viewer, known_role}
use argvio.Config.Auth.{
  IntrospectionConfig, OidcConfig, AdminOidcConfig, AdminConfig, AuthConfig, has_method,
  admin_enabled, effective_role, effective, is_empty, int_eq,
}

pub data Complaint : Type 0 where
  must_be_set must_be_positive must_be_absolute_url requires_oidc : Str → Complaint
  no_methods set_together no_effect : Complaint
  unknown_method unknown_role : Str → Complaint

-- a != b
abbrev xor : Bool → Bool → Bool
xor true b = not b
xor false b = b

abbrev pub complain_if : Bool → Complaint → List Complaint
complain_if true why = why ∷ []
complain_if false why = []

abbrev pub unset : Str → Str → List Complaint
unset key value = complain_if (str_eq value []) (must_be_set key)

abbrev pub not_positive : Str → ℤ → List Complaint
not_positive key value = complain_if (not (ltb_ℤ (pos 0) value)) (must_be_positive key)

module _ (bad_url : Str → Bool) where
  abbrev pub bad_if_set : Str → Str → List Complaint
  bad_if_set key url = complain_if (not (str_eq url []) && bad_url url) (must_be_absolute_url key)

  unfoldable pub validate_introspection : Str → IntrospectionConfig → List Complaint
  validate_introspection key i =
      if not i.enabled
      then []
      else bad_if_set (key ++ bytes ".endpoint") i.endpoint
        ++ (unset (key ++ bytes ".client_id") i.client_id
            ++ (unset (key ++ bytes ".client_secret") i.client_secret
                ++ (not_positive (key ++ bytes ".cache_ttl") i.cache_ttl
                    ++ not_positive (key ++ bytes ".negative_cache_ttl") i.negative_cache_ttl)))

  unfoldable pub validate_oidc : OidcConfig → List Complaint
  validate_oidc o =
      unset (bytes "auth.oidc.issuer_url") o.issuer_url
      ++ (unset (bytes "auth.oidc.audience") o.audience
          ++ (not_positive (bytes "auth.oidc.jwks_cache_ttl") o.jwks_cache_ttl
              ++ (bad_if_set (bytes "auth.oidc.issuer_url") o.issuer_url
                  ++ validate_introspection (bytes "auth.oidc.introspection") o.introspection)))

  -- The switch on one configured method.
  unfoldable pub validate_method : AuthConfig → Str → List Complaint
  unfolding validate_oidc
  validate_method a m =
      if str_eq m (bytes "api_key")
      then []
      else if str_eq m (bytes "jwt")
      then unset (bytes "auth.jwt_signing_key") a.jwt_signing_key
      else if str_eq m (bytes "oidc")
      then validate_oidc a.oidc
      else unknown_method m ∷ []

  unfoldable pub validate_methods : AuthConfig → List Str → List Complaint
  validate_methods a [] = []
  validate_methods a (m ∷ methods) = validate_method a m ++ validate_methods a methods

  abbrev is_zero_ttl : ℤ → Bool
  is_zero_ttl t = int_eq t (pos 0)

  unfoldable pub is_zero : AdminOidcConfig → Bool
  is_zero a =
      let own = a.introspection in
      str_eq a.issuer_url []
      && (str_eq a.audience []
          && (is_empty a.required_scopes
              && (is_zero_ttl a.jwks_cache_ttl
                  && (not (is_some own.enabled)
                      && (str_eq own.endpoint []
                          && (str_eq own.client_id []
                              && (str_eq own.client_secret []
                                  && (is_zero_ttl own.cache_ttl
                                      && is_zero_ttl own.negative_cache_ttl))))))))

  abbrev issuer_fault : Str → List Complaint
  issuer_fault url =
      if str_eq url []
      then must_be_set (bytes "auth.admin.oidc.issuer_url") ∷ []
      else complain_if (bad_url url) (must_be_absolute_url (bytes "auth.admin.oidc.issuer_url"))

  unfoldable pub validate_effective : OidcConfig → List Complaint
  validate_effective eff =
      issuer_fault eff.issuer_url
      ++ (unset (bytes "auth.admin.oidc.audience") eff.audience
          ++ (not_positive (bytes "auth.admin.oidc.jwks_cache_ttl") eff.jwks_cache_ttl
              ++ validate_introspection (bytes "auth.admin.oidc.introspection") eff.introspection))

  unfoldable pub validate_admin : AuthConfig → Bool → List Complaint
  unfolding validate_effective is_zero
  validate_admin a recognition =
      let role = effective_role a.admin in
      complain_if (xor (str_eq a.admin.claim.name []) (str_eq a.admin.claim.value [])) set_together
      ++ (complain_if (not (known_role role)) (unknown_role role)
          ++ (if recognition
              then complain_if (not (has_method a (bytes "oidc")))
                  (requires_oidc (bytes "auth.admin"))
                ++ validate_effective (effective a.admin.oidc a.oidc)
              else complain_if
                  (not (is_zero a.admin.oidc)
                    || (not (str_eq a.admin.role_claim []) || not (str_eq role viewer)))
                  no_effect))

  unfoldable pub validate : (Str → Str) → AuthConfig → List Complaint
  unfolding validate_methods validate_admin
  validate trim_space a =
      complain_if (is_empty a.methods) no_methods
      ++ (validate_methods a a.methods
          ++ (complain_if (a.oidc.introspection.enabled && not (has_method a (bytes "oidc")))
                (requires_oidc (bytes "auth.oidc.introspection.enabled"))
              ++ validate_admin a (admin_enabled trim_space a.admin)))
