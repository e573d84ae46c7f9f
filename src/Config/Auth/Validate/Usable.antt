-- ===== src/Config/Auth/Validate/Usable.antt =====
-- internal/config/auth.go: what a configuration without complaints has.
use argvio.Prelude.{
  Str, bytes, str_eq, str_eq_iff, ◌≡◌, ◌≢◌, refl, Bool, true, false, not, ◌&&◌, List, [], ◌∷◌, ◌++◌,
  arith, All, ap, ◌⊎◌, Bool-cases, inl, inr,
}
use argvio.Prelude.Int.{ℤ, pos, ltb_ℤ}
use argvio.Config.Auth.{
  IntrospectionConfig, OidcConfig, AuthConfig, has_method, admin_enabled, effective, effective_role,
  is_empty,
}
use argvio.Tenant.Types.{known_role}
use argvio.Config.Auth.Validate.{
  Complaint, complain_if, unset, not_positive, bad_if_set, validate_introspection, validate_oidc,
  validate_method, validate_methods, validate_admin, validate_effective, validate,
}

append_nil : (a b : List Complaint) → a ++ b ≡ [] → (a ≡ []) × (b ≡ [])
append_nil [] b h = (refl, h)
append_nil (x ∷ a) b h = cc h

complain_if_nil : (b : Bool) (why : Complaint) → complain_if b why ≡ [] → b ≡ false
complain_if_nil true why h = cc h
complain_if_nil false why h = refl

unless : {P : Type 0} (b : Bool) → (b ≡ true → P) → (b ≡ false) ⊎ P
unless true p = inr (p refl)
unless false p = inl refl

-- Introspection has credentials and bounded caches.
pub record IsUsable (i : IntrospectionConfig) : Type 0 where
  pub client_id : str_eq i.client_id [] ≡ false
  pub client_secret : str_eq i.client_secret [] ≡ false
  pub cache_ttl : ltb_ℤ (pos 0) i.cache_ttl ≡ true
  pub negative_cache_ttl : ltb_ℤ (pos 0) i.negative_cache_ttl ≡ true

pub record IsOidc (o : OidcConfig) : Type 0 where
  pub issuer_url : str_eq o.issuer_url [] ≡ false
  pub audience : str_eq o.audience [] ≡ false
  pub jwks_cache_ttl : ltb_ℤ (pos 0) o.jwks_cache_ttl ≡ true
  pub introspection : (o.introspection.enabled ≡ false) ⊎ IsUsable o.introspection

positive_nil : (key : Str) (t : ℤ) → not_positive key t ≡ [] → ltb_ℤ (pos 0) t ≡ true
positive_nil key t h = elim (Bool-cases (ltb_ℤ (pos 0) t)) [
  | inl fine ↦ fine
  | inr bad ↦ cc (rw bad at h)
]

-- A configured method is known and has the settings that it needs.
abbrev pub IsServed : AuthConfig → Str → Type 0
IsServed a m =
    (m ≡ bytes "api_key")
    ⊎ (((m ≡ bytes "jwt") × (str_eq a.jwt_signing_key [] ≡ false))
        ⊎ ((m ≡ bytes "oidc") × IsOidc a.oidc))

pub record IsSound (trim_space : Str → Str) (a : AuthConfig) : Type 0 where
  pub some_method : a.methods ≢ []
  pub served : All (IsServed a) a.methods
  pub introspection : (a.oidc.introspection.enabled ≡ false) ⊎ (has_method a (bytes "oidc") ≡ true)
  pub admin_role : known_role (effective_role a.admin) ≡ true
  pub admin_method :
      (admin_enabled trim_space a.admin ≡ false) ⊎ (has_method a (bytes "oidc") ≡ true)
  pub admin_oidc :
      (admin_enabled trim_space a.admin ≡ false) ⊎ IsOidc (effective a.admin.oidc a.oidc)

module _ (bad_url : Str → Bool) where
  validate_introspection-IsUsable :
      (key : Str) (i : IntrospectionConfig)
      → validate_introspection bad_url key i ≡ []
      → i.enabled ≡ true
      → IsUsable i
  unfolding validate_introspection
  validate_introspection-IsUsable key i h on =
      let (_, h1) = append_nil (bad_if_set bad_url _ i.endpoint) _ (rw on at h) in
      let (id, h2) = append_nil (unset _ i.client_id) _ h1 in
      let (secret, h3) = append_nil (unset _ i.client_secret) _ h2 in
      let (ttl, neg) = append_nil (not_positive _ i.cache_ttl) _ h3 in
      record {
        client_id = complain_if_nil _ _ id;
        client_secret = complain_if_nil _ _ secret;
        cache_ttl = positive_nil _ i.cache_ttl ttl;
        negative_cache_ttl = positive_nil _ i.negative_cache_ttl neg;
      }

  validate_oidc-IsOidc : (o : OidcConfig) → validate_oidc bad_url o ≡ [] → IsOidc o
  unfolding validate_oidc
  validate_oidc-IsOidc o h =
      let (issuer, h1) = append_nil (unset _ o.issuer_url) _ h in
      let (audience, h2) = append_nil (unset _ o.audience) _ h1 in
      let (ttl, h3) = append_nil (not_positive _ o.jwks_cache_ttl) _ h2 in
      let (_, h4) = append_nil (bad_if_set bad_url _ o.issuer_url) _ h3 in
      record {
        issuer_url = complain_if_nil _ _ issuer;
        audience = complain_if_nil _ _ audience;
        jwks_cache_ttl = positive_nil _ o.jwks_cache_ttl ttl;
        introspection = unless _ (validate_introspection-IsUsable _ o.introspection h4);
      }

  validate_effective-IsOidc : (o : OidcConfig) → validate_effective bad_url o ≡ [] → IsOidc o
  unfolding validate_effective
  validate_effective-IsOidc o h =
      let (issuer, h1) = append_nil _ (unset _ o.audience ++ _) h in
      let (audience, h2) = append_nil (unset _ o.audience) _ h1 in
      let (ttl, h3) = append_nil (not_positive _ o.jwks_cache_ttl) _ h2 in
      record {
        issuer_url = elim (Bool-cases (str_eq o.issuer_url [])) [
          | inl missing ↦ cc (rw missing at issuer)
          | inr there ↦ there
        ];
        audience = complain_if_nil _ _ audience;
        jwks_cache_ttl = positive_nil _ o.jwks_cache_ttl ttl;
        introspection = unless _ (validate_introspection-IsUsable _ o.introspection h3);
      }

  validate_method-IsServed :
      (a : AuthConfig) (m : Str) → validate_method bad_url a m ≡ [] → IsServed a m
  unfolding validate_method
  validate_method-IsServed a m h = elim (Bool-cases (str_eq m (bytes "api_key"))) [
    | inl key ↦ inl ((str_eq_iff m _).0 key)
    | inr n1 ↦ elim (Bool-cases (str_eq m (bytes "jwt"))) [
      | inl jwt ↦ inr (inl ((str_eq_iff m _).0 jwt, complain_if_nil _ _ (rw (n1, jwt) at h)))
      | inr n2 ↦ elim (Bool-cases (str_eq m (bytes "oidc"))) [
        | inl oidc ↦
            inr
              (inr ((str_eq_iff m _).0 oidc, validate_oidc-IsOidc a.oidc (rw (n1, n2, oidc) at h)))
        | inr n3 ↦ cc (rw (n1, n2, n3) at h)
      ]
    ]
  ]

  validate_methods-IsServed :
      (a : AuthConfig) (methods : List Str)
      → validate_methods bad_url a methods ≡ []
      → All (IsServed a) methods
  unfolding validate_methods
  validate_methods-IsServed a [] h = tt
  validate_methods-IsServed a (m ∷ methods) h =
      let (first, rest) = append_nil (validate_method bad_url a m) _ h in
      (validate_method-IsServed a m first, validate_methods-IsServed a methods rest)

  -- A configuration without complaints serves only known methods, each with the settings it needs (a
  -- signing key; an issuer, an audience and positive lifetimes; credentials where introspection is on),
  -- gives admins a known role, and, where admins are recognised at all, verifies them by OIDC with such
  -- settings.
  pub validate-IsSound :
      (trim_space : Str → Str) (a : AuthConfig)
      → validate bad_url trim_space a ≡ []
      → IsSound trim_space a
  unfolding validate validate_admin
  validate-IsSound trim_space a h =
      let (some_method, h1) = append_nil (complain_if (is_empty a.methods) _) _ h in
      let (served, h2) = append_nil (validate_methods bad_url a a.methods) _ h1 in
      let (introspection, h3) =
        append_nil
          (complain_if (a.oidc.introspection.enabled && not (has_method a (bytes "oidc"))) _) _
          h2 in
      let (_, h4) =
        append_nil _ (complain_if (not (known_role (effective_role a.admin))) _ ++ _) h3 in
      let (role, h5) =
        append_nil (complain_if (not (known_role (effective_role a.admin))) _) _ h4 in
      record {
        some_method = λ none_set.
            cc (ap is_empty none_set, complain_if_nil (is_empty a.methods) _ some_method);
        served = validate_methods-IsServed a a.methods served;
        introspection = unless _ (λ on. ground (arith, on, complain_if_nil _ _ introspection));
        admin_role = ground (arith, complain_if_nil _ _ role);
        admin_method = unless _ λ on.
            let (method, _) =
              append_nil _ (validate_effective bad_url (effective a.admin.oidc a.oidc))
                (rw on at h5) in
            ground (arith, complain_if_nil _ _ method);
        admin_oidc = unless _ λ on.
            let (_, settings) =
              append_nil _ (validate_effective bad_url (effective a.admin.oidc a.oidc))
                (rw on at h5) in
            validate_effective-IsOidc _ settings;
      }
