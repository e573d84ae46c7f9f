-- ===== src/Authn/Credentials/Sound.antt =====
-- internal/authn/authn.go: what an identity is worth that AuthenticateSubject returns.
use argvio.Prelude.{
  Str, str_eq, ◌≡◌, refl, sym, ap, subst, ◌∙◌, ◌⊎◌, inl, inr, Bool, true, false, not, Option, none,
  some, List, [], ◌∷◌, IsMember, Result, ok, err, fail_if, or_fail, ok_of_bind, ok-injective,
  none_of_fail_if, true_of_fail_if, some_of_or_fail, is_some, Bool-cases, Option-cases,
  some-eq-some,
}
use argvio.Tenant.Types.{Resolved, status_active}
use argvio.Authn.{
  api_key, jwt, oidc, unauthenticated, Claims, Identity, Libraries, OidcVerifier, OidcError,
  AdminAccess, Verifier,
}
use argvio.Authn.Admin.{admit, admit_by, verify_oidc, identified}
use argvio.Authn.Credentials.{
  try_scopes, key_identity, usable_key, authenticate_api_key, tenant_id_from_claims,
  claims_identity, active_claims, identity_from_claims, authenticate_jwt,
}

-- The tenant may use the service.
abbrev pub IsActive : Resolved → Type 0
IsActive r = str_eq r.tenant.status status_active ≡ true

module _ (lib : Libraries) (v : Verifier) (raw : Str) where
  -- The user verifier accepts the token: as a JWT, or by introspection where that is on.
  abbrev pub VerifiedUser : Identity → Type 0
  VerifiedUser id =
      (v.methods oidc ≡ true) × ((opaque : Bool) × (verify_oidc v.oidc_verifier raw opaque ≡ ok id))

  -- The admins' verifier, or the shared one, accepts the token, and a rule recognises its identity.
  abbrev pub VerifiedAdmin : AdminAccess → Identity → Type 0
  VerifiedAdmin a admin =
      (v.methods oidc ≡ true)
      × ((ov : OidcVerifier) × (opaque : Bool) × (user : Identity) × ((a.verifier ≡ some ov)
            ⊎ ((a.verifier ≡ none) × (ov ≡ v.oidc_verifier)))
          × (verify_oidc ov raw opaque ≡ ok user)
          × (admit a user ≡ some admin))

  pub data Authenticated (id : Identity) : Type 0 where
    as_key :
        (scope : Str) (r : Resolved)
        → v.methods api_key ≡ true
        → IsMember scope (v.api_key_scope ∷ v.extra_api_key_scopes)
        → v.resolver.resolve raw scope ≡ ok (some r)
        → r.api_key.revoked_at ≡ none
        → IsActive r
        → id ≡ key_identity r
        → Authenticated id
    as_token :
        (claims : Claims) (tid : Str) (r : Resolved)
        → v.methods jwt ≡ true
        → lib.parse_hs256 v.jwt_signing_key raw ≡ some claims
        → tenant_id_from_claims lib claims ≡ some tid
        → v.resolver.resolve_by_tenant_id tid ≡ ok (some r)
        → IsActive r
        → id ≡ claims_identity jwt claims r
        → Authenticated id
    as_user : VerifiedUser id → id.admin ≡ false → id.resolved ≡ none → Authenticated id
    as_admin :
        (a : AdminAccess)
        → v.admin ≡ some a
        → VerifiedAdmin a id
        → id.admin ≡ true
        → id.resolved ≡ none
        → Authenticated id

  try_scopes-found :
      (found : Option Resolved) (first : Str) (scopes : List Str) (r : Resolved)
      → v.resolver.resolve raw first ≡ ok found
      → try_scopes v.resolver raw found scopes ≡ ok (some r)
      → (scope : Str) × IsMember scope (first ∷ scopes)
        × (v.resolver.resolve raw scope ≡ ok (some r))
  unfolding try_scopes
  try_scopes-found found first [] r e h = (first, inl refl, e ∙ h)
  try_scopes-found (some s) first (scope ∷ rest) r e h = (first, inl refl, e ∙ h)
  try_scopes-found none first (scope ∷ rest) r e h =
      let (found, asked, later) = ok_of_bind (v.resolver.resolve raw scope) _ h in
      let (there, among, answer) = try_scopes-found found scope rest r asked later in
      (there, inr among, answer)

  usable_key-ok :
      (found : Option Resolved) (id : Identity)
      → usable_key found ≡ ok id
      → (r : Resolved) × (found ≡ some r)
        × (r.api_key.revoked_at ≡ none)
        × IsActive r
        × (id ≡ key_identity r)
  usable_key-ok none id h = cc h
  usable_key-ok (some r) id h =
      let (_, live, h1) = ok_of_bind (fail_if (is_some r.api_key.revoked_at) unauthenticated) _ h in
      let (_, active, h2) =
        ok_of_bind (fail_if (not (str_eq r.tenant.status status_active)) _) _ h1 in
      (
        r,
        refl,
        none_of_fail_if r.api_key.revoked_at _ _ live,
        true_of_fail_if (str_eq r.tenant.status status_active) _ _ active,
        sym (ok-injective h2),
      )

  pub authenticate_api_key-Authenticated :
      (id : Identity) → authenticate_api_key v raw ≡ ok id → Authenticated id
  unfolding authenticate_api_key
  authenticate_api_key-Authenticated id h = elim (Bool-cases (v.methods api_key)) [
    | inl on ↦
        let (first, asked, h1) =
          ok_of_bind (v.resolver.resolve raw v.api_key_scope) _ (rw on at h) in
        let (found, tried, h2) = ok_of_bind (try_scopes v.resolver raw first _) _ h1 in
        let (r, there, live, active, is) = usable_key-ok found id h2 in
        let (scope, among, answer) =
          try_scopes-found first v.api_key_scope v.extra_api_key_scopes r asked (
            subst (λ f. try_scopes v.resolver raw first v.extra_api_key_scopes ≡ ok f) there
              tried) in
        as_key scope r on among answer live active is
    | inr off ↦ cc (rw off at h)
  ]

  active_claims-ok :
      (claims : Claims) (found : Option Resolved) (id : Identity)
      → active_claims jwt claims found ≡ ok id
      → (r : Resolved) × (found ≡ some r) × IsActive r × (id ≡ claims_identity jwt claims r)
  active_claims-ok claims none id h = cc h
  active_claims-ok claims (some r) id h = elim (Bool-cases (str_eq r.tenant.status status_active)) [
    | inl active ↦ (r, refl, active, sym (ok-injective (rw active at h)))
    | inr other ↦ cc (rw other at h)
  ]

  pub authenticate_jwt-Authenticated :
      (id : Identity) → v.methods jwt ≡ true → authenticate_jwt lib v raw ≡ ok id → Authenticated id
  unfolding authenticate_jwt identity_from_claims
  authenticate_jwt-Authenticated id on h =
      let (claims, parsed, h1) =
        ok_of_bind (or_fail (lib.parse_hs256 v.jwt_signing_key raw) _) _ h in
      let (tid, named, h2) = ok_of_bind (or_fail (tenant_id_from_claims lib claims) _) _ h1 in
      let (found, answer, h3) = ok_of_bind (v.resolver.resolve_by_tenant_id tid) _ h2 in
      let (r, there, active, is) = active_claims-ok claims found id h3 in
      as_token claims tid r on (some_of_or_fail _ _ claims parsed) (some_of_or_fail _ _ tid named)
        (answer ∙ ap (λ f. ok f) there) active is

  pub verify_oidc-plain :
      (issuer : Str) (claims : Result OidcError Claims) (id : Identity)
      → identified issuer claims ≡ ok id
      → (id.admin ≡ false) × (id.resolved ≡ none)
  verify_oidc-plain issuer (ok claims) id h =
      (ap (λ i. i.admin) (sym (ok-injective h)), ap (λ i. i.resolved) (sym (ok-injective h)))
  verify_oidc-plain issuer (err why) id h = cc h

  pub admit_by-admin :
      (a : AdminAccess) (rules : List (Identity → Option Str)) (id admin : Identity)
      → admit_by a rules id ≡ some admin
      → (admin.admin ≡ true) × (admin.resolved ≡ id.resolved)
  unfolding admit_by
  admit_by-admin a [] id admin h = cc h
  admit_by-admin a (rule ∷ rest) id admin h = elim (Option-cases (rule id)) [
    | inl passes ↦ admit_by-admin a rest id admin (rw passes at h)
    | inr (name, hit) ↦
        let same = some-eq-some (rw hit at h) in
        (ap (λ i. i.admin) (sym same), ap (λ i. i.resolved) (sym same))
  ]
