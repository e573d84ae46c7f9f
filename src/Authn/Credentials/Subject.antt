-- ===== src/Authn/Credentials/Subject.antt =====
-- internal/authn/authn.go: AuthenticateSubject, on every route that a credential may take.
use argvio.Prelude.{
  Str, [], bytes, str_eq, and_right, has_prefix, ◌≡◌, refl, ap, subst, ◌∙◌, inl, inr, Bool, true,
  false, not, ◌&&◌, ◌||◌, Option, none, some, Result, ok, err, ok-injective, is_some, Bool-cases,
  Option-cases,
}
use argvio.Authn.{
  jwt, oidc, AuthError, unauthenticated, tenant_suspended, no_tenant_access, tenant_required,
  insufficient_scope, provider_unavailable, other_failure, Identity, Libraries, OidcVerifier,
  AdminAccess, Verifier,
}
use argvio.Authn.Admin.{
  admit, verify_oidc, verified, AdminOutcome, is_admin, not_admin, authenticate_admin_first,
  try_own, admit_verified, introspects,
}
use argvio.Authn.Credentials.{
  authenticate_api_key, admit_shared, verify_user, opaque_as_key, after_admin, authenticate_oidc,
  by_alg, peek_alg, is_asymmetric_alg, authenticate_subject, api_key_prefix,
}
use argvio.Authn.Credentials.Sound.{
  Authenticated, as_user, as_admin, authenticate_api_key-Authenticated,
  authenticate_jwt-Authenticated, verify_oidc-plain, admit_by-admin,
}

module _ (lib : Libraries) (v : Verifier) (raw : Str) where
  plain :
      (ov : OidcVerifier) (opaque : Bool) (id : Identity)
      → verify_oidc ov raw opaque ≡ ok id
      → (id.admin ≡ false) × (id.resolved ≡ none)
  unfolding verify_oidc
  plain ov opaque id h = verify_oidc-plain lib v raw ov.issuer_url (verified ov raw opaque) id h

  admitted :
      (a : AdminAccess) (id admin : Identity)
      → admit a id ≡ some admin
      → (admin.admin ≡ true) × (admin.resolved ≡ id.resolved)
  unfolding admit
  admitted a id admin h = admit_by-admin lib v raw a a.recognizers id admin h

  -- With a verifier of its own.
  admit_verified-admin :
      (a : AdminAccess) (user : Result AuthError Identity) (id : Identity)
      → admit_verified a user ≡ is_admin id
      → (u : Identity) × (user ≡ ok u) × (admit a u ≡ some id)
  admit_verified-admin a (err why) id h = cc h
  admit_verified-admin a (ok u) id h = elim (Option-cases (admit a u)) [
    | inl no_rule ↦ cc (rw no_rule at h)
    | inr (admin, by_rule) ↦
        let same : is_admin admin ≡ is_admin id = rw by_rule at h in (u, refl, by_rule ∙ cc same)
  ]

  try_own-Authenticated :
      (a : AdminAccess) (own : Option OidcVerifier) (opaque : Bool) (id : Identity)
      → v.methods oidc ≡ true
      → v.admin ≡ some a
      → a.verifier ≡ own
      → try_own a own raw opaque ≡ is_admin id
      → Authenticated lib v raw id
  try_own-Authenticated a none opaque id on is_a own h = cc h
  try_own-Authenticated a (some ov) opaque id on is_a own h =
      elim (Bool-cases (opaque && not ov.introspection_enabled)) [
        | inl off ↦ cc (rw off at h)
        | inr goes ↦
            let (u, accepted, by_rule) =
              admit_verified-admin a (verify_oidc ov raw opaque) id (rw goes at h) in
            let (marked, same) = admitted a u id by_rule in
            let (_, unresolved) = plain ov opaque u accepted in
            as_admin a is_a (on, (ov, opaque, u, inl own, accepted, by_rule)) marked
              (same ∙ unresolved)
      ]

  admit_shared-Authenticated :
      (admin : Option AdminAccess) (opaque : Bool) (user : Identity)
      → v.methods oidc ≡ true
      → v.admin ≡ admin
      → verify_oidc v.oidc_verifier raw opaque ≡ ok user
      → Authenticated lib v raw (admit_shared admin user)
  admit_shared-Authenticated none opaque user on is_a accepted =
      let (unmarked, unresolved) = plain v.oidc_verifier opaque user accepted in
      as_user (on, (opaque, accepted)) unmarked unresolved
  admit_shared-Authenticated (some a) opaque user on is_a accepted =
      let (unmarked, unresolved) = plain v.oidc_verifier opaque user accepted in
      let as_is = as_user (on, (opaque, accepted)) unmarked unresolved in
      elim (Option-cases a.verifier) [
        | inr (ov, own) ↦ rw own as_is
        | inl shared ↦
            let none_own : is_some a.verifier ≡ false = ap is_some shared in
            elim (Option-cases (admit a user)) [
              | inl no_rule ↦ rw (none_own, no_rule) as_is
              | inr (admin, by_rule) ↦
                  let (marked, same) = admitted a user admin by_rule in
                  rw (none_own, by_rule)
                    (as_admin a is_a
                      (on, (v.oidc_verifier, opaque, user, inr (shared, refl), accepted, by_rule))
                      marked (same ∙ unresolved))
            ]
      ]

  opaque_as_key-ok :
      (why : Option AuthError) (id : Identity)
      → opaque_as_key v raw why ≡ ok id
      → authenticate_api_key v raw ≡ ok id
  opaque_as_key-ok none id h = h
  opaque_as_key-ok (some unauthenticated) id h = h
  opaque_as_key-ok (some tenant_suspended) id h = cc h
  opaque_as_key-ok (some no_tenant_access) id h = cc h
  opaque_as_key-ok (some tenant_required) id h = cc h
  opaque_as_key-ok (some insufficient_scope) id h = cc h
  opaque_as_key-ok (some provider_unavailable) id h = cc h
  opaque_as_key-ok (some (other_failure why)) id h = cc h

  verify_user-ok :
      (admin : Option AdminAccess) (why : Option AuthError) (user : Result AuthError Identity)
      (id : Identity)
      → verify_user admin why user ≡ ok id
      → (u : Identity) × (user ≡ ok u) × (admit_shared admin u ≡ id)
  verify_user-ok admin why (ok u) id h = (u, refl, ok-injective h)
  verify_user-ok admin why (err e) id h = cc h

  after_admin-Authenticated :
      (opaque : Bool) (first : AdminOutcome) (id : Identity)
      → v.methods oidc ≡ true
      → ((admin : Identity) → first ≡ is_admin admin → Authenticated lib v raw admin)
      → after_admin v raw opaque first ≡ ok id
      → Authenticated lib v raw id
  after_admin-Authenticated opaque (is_admin admin) id on ih h =
      subst (Authenticated lib v raw) (ok-injective h) (ih admin refl)
  after_admin-Authenticated opaque (not_admin why) id on ih h =
      elim (Bool-cases (opaque && not v.oidc_verifier.introspection_enabled)) [
        | inl off ↦
            authenticate_api_key-Authenticated lib v raw id (opaque_as_key-ok why id (rw off at h))
        | inr goes ↦
            let (u, accepted, same) =
              verify_user-ok v.admin why (verify_oidc v.oidc_verifier raw opaque) id
                (rw goes at h) in
            subst (Authenticated lib v raw) same
              (admit_shared-Authenticated v.admin opaque u on refl accepted)
      ]

  authenticate_admin_first-Authenticated :
      (admin : Option AdminAccess) (opaque : Bool) (id : Identity)
      → v.methods oidc ≡ true
      → v.admin ≡ admin
      → authenticate_admin_first admin raw opaque ≡ is_admin id
      → Authenticated lib v raw id
  unfolding authenticate_admin_first
  authenticate_admin_first-Authenticated none opaque id on is_a h = cc h
  authenticate_admin_first-Authenticated (some a) opaque id on is_a h =
      try_own-Authenticated a a.verifier opaque id on is_a refl h

  authenticate_oidc-Authenticated :
      (opaque : Bool) (id : Identity)
      → v.methods oidc ≡ true
      → authenticate_oidc v raw opaque ≡ ok id
      → Authenticated lib v raw id
  unfolding authenticate_oidc
  authenticate_oidc-Authenticated opaque id on h =
      after_admin-Authenticated opaque _ id on
        (λ admin. authenticate_admin_first-Authenticated v.admin opaque admin on refl) h

  by_alg-Authenticated :
      (alg : Option Str) (id : Identity) → by_alg lib v raw alg ≡ ok id → Authenticated lib v raw id
  by_alg-Authenticated none id h = elim (Bool-cases (v.methods oidc)) [
    | inl on ↦ elim (Bool-cases (v.oidc_verifier.introspection_enabled || introspects v.admin)) [
      | inl opaque ↦ authenticate_oidc-Authenticated true id on (rw (on, opaque) at h)
      | inr key ↦ authenticate_api_key-Authenticated lib v raw id (rw (on, key) at h)
    ]
    | inr off ↦ authenticate_api_key-Authenticated lib v raw id (rw off at h)
  ]
  by_alg-Authenticated (some alg) id h =
      elim (Bool-cases (str_eq alg (bytes "HS256") && v.methods jwt)) [
        | inl signed ↦
            authenticate_jwt-Authenticated lib v raw id (and_right _ _ signed) (rw signed at h)
        | inr other ↦ elim (Bool-cases (is_asymmetric_alg alg && v.methods oidc)) [
          | inl asymmetric ↦
              authenticate_oidc-Authenticated false id (and_right _ _ asymmetric)
                (rw (other, asymmetric) at h)
          | inr refused ↦ cc (rw (other, refused) at h)
        ]
      ]

  pub authenticate_subject-Authenticated :
      (id : Identity) → authenticate_subject lib v raw ≡ ok id → Authenticated lib v raw id
  unfolding authenticate_subject
  authenticate_subject-Authenticated id h = elim (Bool-cases (str_eq raw [])) [
    | inl nothing ↦ cc (rw nothing at h)
    | inr given ↦ elim (Bool-cases (has_prefix raw api_key_prefix)) [
      | inl key ↦ authenticate_api_key-Authenticated lib v raw id (rw (given, key) at h)
      | inr token ↦ by_alg-Authenticated (peek_alg lib raw) id (rw (given, token) at h)
    ]
  ]
