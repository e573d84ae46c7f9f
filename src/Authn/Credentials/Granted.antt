-- ===== src/Authn/Credentials/Granted.antt =====
-- internal/authn/authn.go: AuthenticateForTenant, from the credential and the hint to the tenant.
use argvio.Prelude.{
  Str, str_eq, str_eq_iff, ◌≡◌, refl, sym, ap, subst, ◌∙◌, ◌⊎◌, inl, inr, true, false, not, ◌&&◌,
  Option, none, some, [], ok, fail_if, ok_of_bind, ok-injective, some_of_or_fail, false_of_fail_if,
  if_of_true, if_of_false, arith, Bool-cases, Option-cases,
}
use argvio.Tenant.Types.{Resolved, status_active}
use argvio.Authn.{no_tenant_access, Identity, Libraries, AdminAccess, Verifier}
use argvio.Authn.Admin.{select_admin_tenant, wanted_tenant, active_or_refused}
use argvio.Authn.Select.{
  tenant_claim, choose_member, select_member, select_claimed, select_tenant, tenant_matches,
  foreign_claim,
}
use argvio.Authn.Credentials.{bound_or_selected, authenticate_subject, authenticate_for_tenant}
use argvio.Authn.Credentials.Sound.{
  IsActive, Authenticated, as_key, as_token, as_user, as_admin, VerifiedUser, VerifiedAdmin,
}
use argvio.Authn.Credentials.Subject.{authenticate_subject-Authenticated}
use argvio.Authn.Credentials.{act_for}
use argvio.Authn.Credentials.Entitled.{
  Entitles, by_key, by_token, by_membership, by_claim, by_admin, choose_member-IsMember,
  resolve_tenant-ok,
}

module _ (lib : Libraries) (v : Verifier) (raw : Str) where
  -- The tenant is the one that the hint names, by its id or by the lookup of the hint; or there is none.
  abbrev pub FollowsHint : Str → Resolved → Type 0
  FollowsHint hint r =
      (hint ≡ [])
      ⊎ ((asked : Str) × (lib.parse_uuid hint ≡ some asked)
          × ((r.tenant.id ≡ asked) ⊎ (v.resolver.resolve_by_tenant_id asked ≡ ok (some r))))

  abbrev pub Granted : Str → Identity → Type 0
  Granted hint id =
      (r : Resolved) × (id.resolved ≡ some r)
      × IsActive r
      × Entitles lib v raw id r
      × FollowsHint hint r

  matches-asked :
      (hint tid : Str) → tenant_matches lib hint tid ≡ true → lib.parse_uuid hint ≡ some tid
  unfolding tenant_matches
  matches-asked hint tid h = elim (Option-cases (lib.parse_uuid hint)) [
    | inl bad ↦ cc (rw bad at h)
    | inr (asked, parsed) ↦
        parsed ∙ ap (λ (t : Str). some t) ((str_eq_iff asked tid).0 (rw parsed at h))
  ]

  -- A check that the hint, where there is one, names the tenant.
  hint_checked :
      (hint tid : Str)
      → (not (str_eq hint []) && not (tenant_matches lib hint tid)) ≡ false
      → (hint ≡ []) ⊎ (lib.parse_uuid hint ≡ some tid)
  hint_checked hint tid h = elim (Bool-cases (str_eq hint [])) [
    | inl no_hint ↦ inl ((str_eq_iff hint []).0 no_hint)
    | inr hinted ↦ inr (matches-asked hint tid (ground (arith, hinted, h)))
  ]

  bound-Granted :
      (hint : Str) (id : Identity) (r : Resolved) (out : Identity)
      → id.resolved ≡ some r
      → IsActive r
      → Entitles lib v raw id r
      → bound_or_selected lib v id hint (some r) ≡ ok out
      → Granted hint out
  bound-Granted hint id r out resolved active entitled h =
      elim (Bool-cases (not (str_eq hint []) && not (tenant_matches lib hint r.tenant.id))) [
        | inl refused ↦ cc (rw refused at h)
        | inr goes ↦ subst (Granted hint) (ok-injective (rw goes at h)) (
          r,
          resolved,
          active,
          entitled,
          elim (hint_checked hint r.tenant.id goes) [
            | inl none_given ↦ inl none_given
            | inr parsed ↦ inr (r.tenant.id, parsed, inl refl)
          ],
        )
      ]

  select_member-Granted :
      (user : Identity) (hint : Str) (claim : Option Str) (id : Identity)
      → VerifiedUser lib v raw user
      → user.admin ≡ false
      → select_member lib v.resolver user hint claim ≡ ok id
      → Granted hint id
  select_member-Granted user hint claim id accepted unmarked h =
      let (_, _, h1) = ok_of_bind (fail_if (str_eq user.subject []) no_tenant_access) _ h in
      let (members, listed, h2) =
        ok_of_bind (v.resolver.memberships user.issuer user.subject) _ h1 in
      let (_, _, h3) = ok_of_bind (fail_if (foreign_claim claim members) no_tenant_access) _ h2 in
      let (m, chosen, h4) = ok_of_bind (choose_member lib hint members) _ h3 in
      let (among, hinted) = choose_member-IsMember lib v raw hint members m chosen in
      let (r, answer, active, same) = resolve_tenant-ok lib v raw user m.tenant.id m.role id h4 in
      subst (Granted hint) same (
        r,
        refl,
        active,
        by_membership user members m accepted listed among answer unmarked refl,
        elim hinted [
          | inl none_given ↦ inl none_given
          | inr hit ↦ inr (m.tenant.id, matches-asked hint m.tenant.id hit, inr answer)
        ],
      )

  select_claimed-Granted :
      (user : Identity) (hint : Str) (claim : Option Str) (id : Identity)
      → VerifiedUser lib v raw user
      → user.admin ≡ false
      → tenant_claim lib user.claims ≡ ok claim
      → select_claimed lib v.resolver v.trust_tenant_id_claim user hint claim ≡ ok id
      → Granted hint id
  select_claimed-Granted user hint none id accepted unmarked read h =
      select_member-Granted user hint none id accepted unmarked h
  select_claimed-Granted user hint (some tid) id accepted unmarked read h =
      elim (Bool-cases v.trust_tenant_id_claim) [
        | inr careful ↦
            select_member-Granted user hint (some tid) id accepted unmarked (rw careful at h)
        | inl trusted ↦
            let (_, checked, h1) =
              ok_of_bind
                (fail_if (not (str_eq hint []) && not (tenant_matches lib hint tid))
                  no_tenant_access)
                _ (rw trusted at h) in
            let (r, answer, active, same) = resolve_tenant-ok lib v raw user tid [] id h1 in
            subst (Granted hint) same (
              r,
              refl,
              active,
              by_claim user tid accepted trusted read answer unmarked,
              elim (hint_checked hint tid (false_of_fail_if _ _ _ checked)) [
                | inl none_given ↦ inl none_given
                | inr parsed ↦ inr (tid, parsed, inr answer)
              ],
            )
      ]

  select_tenant-Granted :
      (user : Identity) (hint : Str) (id : Identity)
      → VerifiedUser lib v raw user
      → user.admin ≡ false
      → select_tenant lib v user hint ≡ ok id
      → Granted hint id
  unfolding select_tenant
  select_tenant-Granted user hint id accepted unmarked h =
      let (claim, read, h1) = ok_of_bind (tenant_claim lib user.claims) _ h in
      select_claimed-Granted user hint claim id accepted unmarked read h1

  active_or_refused-ok :
      (admin : Identity) (found : Option Resolved) (id : Identity)
      → active_or_refused admin found ≡ ok id
      → (r : Resolved) × (found ≡ some r) × IsActive r × (record admin { resolved = some r } ≡ id)
  active_or_refused-ok admin none id h = cc h
  active_or_refused-ok admin (some r) id h =
      elim (Bool-cases (str_eq r.tenant.status status_active)) [
        | inl active ↦ (r, refl, active, ok-injective (rw active at h))
        | inr other ↦ cc (rw other at h)
      ]

  wanted_tenant-hint :
      (hint tid : Str)
      → wanted_tenant lib v.resolver hint ≡ ok tid
      → (hint ≡ []) ⊎ (lib.parse_uuid hint ≡ some tid)
  wanted_tenant-hint hint tid h = elim (Bool-cases (str_eq hint [])) [
    | inl no_hint ↦ inl ((str_eq_iff hint []).0 no_hint)
    | inr hinted ↦ inr (some_of_or_fail (lib.parse_uuid hint) _ tid (rw hinted at h))
  ]

  select_admin_tenant-Granted :
      (a : AdminAccess) (admin : Identity) (hint : Str) (id : Identity)
      → v.admin ≡ some a
      → VerifiedAdmin lib v raw a admin
      → admin.admin ≡ true
      → select_admin_tenant lib v.resolver admin hint ≡ ok id
      → Granted hint id
  unfolding select_admin_tenant
  select_admin_tenant-Granted a admin hint id is_a accepted marked h =
      let (tid, wanted, h1) = ok_of_bind (wanted_tenant lib v.resolver hint) _ h in
      let (found, answered, h2) = ok_of_bind (v.resolver.resolve_by_tenant_id tid) _ h1 in
      let (r, there, active, same) = active_or_refused-ok admin found id h2 in
      let answer = answered ∙ ap (λ f. ok f) there in
      subst (Granted hint) same (
        r,
        refl,
        active,
        by_admin a admin tid is_a accepted answer marked refl,
        elim (wanted_tenant-hint hint tid wanted) [
          | inl none_given ↦ inl none_given
          | inr parsed ↦ inr (tid, parsed, inr answer)
        ],
      )

  act_for-Granted :
      (hint : Str) (user id : Identity)
      → Authenticated lib v raw user
      → act_for lib v hint user ≡ ok id
      → Granted hint id
  act_for-Granted hint user id (as_key scope r on among answer live active is) h =
      bound-Granted hint user r id (ap (λ u. u.resolved) is) active
        (by_key scope on among answer live (ap (λ u. u.admin) is))
        (subst (λ u. act_for lib v hint u ≡ ok id → bound_or_selected lib v u hint (some r) ≡ ok id)
          (sym is) (λ e. e) h)
  act_for-Granted hint user id (as_token claims tid r on parsed named answer active is) h =
      bound-Granted hint user r id (ap (λ u. u.resolved) is) active
        (by_token claims tid on parsed named answer (ap (λ u. u.admin) is))
        (subst (λ u. act_for lib v hint u ≡ ok id → bound_or_selected lib v u hint (some r) ≡ ok id)
          (sym is) (λ e. e) h)
  act_for-Granted hint user id (as_user accepted unmarked unresolved) h =
      let unbound = sym (if_of_false user.admin _ _ unmarked) ∙ h in
      let selected : select_tenant lib v user hint ≡ ok id =
        subst (λ o. bound_or_selected lib v user hint o ≡ ok id) unresolved unbound in
      select_tenant-Granted user hint id accepted unmarked selected
  act_for-Granted hint user id (as_admin a is_a accepted marked unresolved) h =
      select_admin_tenant-Granted a user hint id is_a accepted marked
        (sym (if_of_true user.admin _ _ marked) ∙ h)

  -- Whoever is authenticated acts for an active tenant, and for one that the credential entitles it to: the
  -- tenant of an unrevoked API key of an accepted scope, the one that a JWT under the server's key names, a
  -- tenant that the verified user is a member of (with the role it has there) or that its trusted claim
  -- names, or, for a recognised admin alone, any. A hint only chooses: where there is one, it is the
  -- tenant's.
  pub authenticate_for_tenant-Granted :
      (hint : Str) (id : Identity)
      → authenticate_for_tenant lib v raw hint ≡ ok id
      → Granted hint id
  unfolding authenticate_for_tenant
  authenticate_for_tenant-Granted hint id h =
      let (user, authenticated, h1) = ok_of_bind (authenticate_subject lib v raw) _ h in
      act_for-Granted hint user id (authenticate_subject-Authenticated lib v raw user authenticated)
        h1
