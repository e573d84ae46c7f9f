-- ===== src/Authn/Credentials/Entitled.antt =====
-- internal/authn/authn.go: the tenant that a credential gives access to.
use argvio.Prelude.{
  Str, str_eq, str_eq_iff, ◌≡◌, refl, sym, ap, subst, ◌∙◌, ◌⊎◌, inl, inr, true, false, Option, none,
  some, List, [], ◌∷◌, IsMember, ok, ok_of_bind, ok-injective, some_of_or_fail, Bool-cases,
  some-eq-some,
}
use argvio.Tenant.Types.{Resolved, Membership, status_active}
use argvio.Authn.{api_key, jwt, Claims, Identity, Libraries, AdminAccess, Verifier}
use argvio.Authn.Select.{
  tenant_claim, find_hinted, choose_member, only_member, resolve_tenant, active_or_suspended,
  tenant_matches,
}
use argvio.Authn.Credentials.{tenant_id_from_claims}
use argvio.Authn.Credentials.Sound.{IsActive, VerifiedUser, VerifiedAdmin}

module _ (lib : Libraries) (v : Verifier) (raw : Str) where
  -- Why a credential gives access to a tenant.
  pub data Entitles (id : Identity) (r : Resolved) : Type 0 where
    -- an API key of the tenant, of an accepted scope and not revoked
    by_key :
        (scope : Str)
        → v.methods api_key ≡ true
        → IsMember scope (v.api_key_scope ∷ v.extra_api_key_scopes)
        → v.resolver.resolve raw scope ≡ ok (some r)
        → r.api_key.revoked_at ≡ none
        → id.admin ≡ false
        → Entitles id r
    -- a JWT signed with the server's key that names the tenant
    by_token :
        (claims : Claims) (tid : Str)
        → v.methods jwt ≡ true
        → lib.parse_hs256 v.jwt_signing_key raw ≡ some claims
        → tenant_id_from_claims lib claims ≡ some tid
        → v.resolver.resolve_by_tenant_id tid ≡ ok (some r)
        → id.admin ≡ false
        → Entitles id r
    -- a membership of the verified user
    by_membership :
        (user : Identity) (members : List Membership) (m : Membership)
        → VerifiedUser lib v raw user
        → v.resolver.memberships user.issuer user.subject ≡ ok members
        → IsMember m members
        → v.resolver.resolve_by_tenant_id m.tenant.id ≡ ok (some r)
        → id.admin ≡ false
        → id.role ≡ m.role
        → Entitles id r
    -- the claim of the verified user, where it is trusted
    by_claim :
        (user : Identity) (tid : Str)
        → VerifiedUser lib v raw user
        → v.trust_tenant_id_claim ≡ true
        → tenant_claim lib user.claims ≡ ok (some tid)
        → v.resolver.resolve_by_tenant_id tid ≡ ok (some r)
        → id.admin ≡ false
        → Entitles id r
    -- the recognition as an admin
    by_admin :
        (a : AdminAccess) (admin : Identity) (tid : Str)
        → v.admin ≡ some a
        → VerifiedAdmin lib v raw a admin
        → v.resolver.resolve_by_tenant_id tid ≡ ok (some r)
        → id.admin ≡ true
        → id.role ≡ admin.role
        → Entitles id r

  find_hinted-IsMember :
      (hint : Str) (members : List Membership) (m : Membership)
      → find_hinted lib hint members ≡ some m
      → IsMember m members × (tenant_matches lib hint m.tenant.id ≡ true)
  unfolding find_hinted
  find_hinted-IsMember hint [] m h = cc h
  find_hinted-IsMember hint (n ∷ members) m h =
      elim (Bool-cases (tenant_matches lib hint n.tenant.id)) [
        | inl hit ↦
            let same : n ≡ m = some-eq-some (rw hit at h) in
            (
              inl (sym same),
              subst (λ (k : Membership). tenant_matches lib hint k.tenant.id ≡ true) same hit,
            )
        | inr miss ↦
            let (there, hit) = find_hinted-IsMember hint members m (rw miss at h) in
            (inr there, hit)
      ]

  only_member-IsMember :
      (members : List Membership) (m : Membership) → only_member members ≡ ok m → IsMember m members
  only_member-IsMember [] m h = cc h
  only_member-IsMember (n ∷ []) m h = inl (sym (ok-injective h))
  only_member-IsMember (n ∷ k ∷ rest) m h = cc h

  pub choose_member-IsMember :
      (hint : Str) (members : List Membership) (m : Membership)
      → choose_member lib hint members ≡ ok m
      → IsMember m members × ((hint ≡ []) ⊎ (tenant_matches lib hint m.tenant.id ≡ true))
  unfolding choose_member
  choose_member-IsMember hint members m h = elim (Bool-cases (str_eq hint [])) [
    | inl no_hint ↦
        (only_member-IsMember members m (rw no_hint at h), inl ((str_eq_iff hint []).0 no_hint))
    | inr hinted ↦
        let found = some_of_or_fail (find_hinted lib hint members) _ m (rw hinted at h) in
        let (there, hit) = find_hinted-IsMember hint members m found in (there, inr hit)
  ]

  active_or_suspended-ok :
      (user : Identity) (role : Str) (found : Option Resolved) (id : Identity)
      → active_or_suspended user role found ≡ ok id
      → (r : Resolved) × (found ≡ some r)
        × IsActive r
        × (record user { resolved = some r; role = role } ≡ id)
  active_or_suspended-ok user role none id h = cc h
  active_or_suspended-ok user role (some r) id h =
      elim (Bool-cases (str_eq r.tenant.status status_active)) [
        | inl active ↦ (r, refl, active, ok-injective (rw active at h))
        | inr other ↦ cc (rw other at h)
      ]

  pub resolve_tenant-ok :
      (user : Identity) (tid role : Str) (id : Identity)
      → resolve_tenant v.resolver user tid role ≡ ok id
      → (r : Resolved) × (v.resolver.resolve_by_tenant_id tid ≡ ok (some r))
        × IsActive r
        × (record user { resolved = some r; role = role } ≡ id)
  unfolding resolve_tenant
  resolve_tenant-ok user tid role id h =
      let (found, answer, h1) = ok_of_bind (v.resolver.resolve_by_tenant_id tid) _ h in
      let (r, there, active, same) = active_or_suspended-ok user role found id h1 in
      (r, answer ∙ ap (λ f. ok f) there, active, same)
