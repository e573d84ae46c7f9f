-- ===== src/Authn/Select/Admits.antt =====
-- internal/authn/authn.go: which members get in.
use argvio.Prelude.{
  Str, str_eq, str_eq_iff, str_eq_refl, str_eq_other, ◌≡◌, ◌≢◌, refl, sym, ap, subst, ◌∙◌, inl, inr,
  true, false, not, Option, none, some, List, [], ◌∷◌, ok, Bool-cases, if_of_true, if_of_false,
}
use argvio.Tenant.Types.{Resolved, Membership, status_active}
use argvio.Authn.{Identity, Libraries, Verifier}
use argvio.Authn.Select.{
  tenant_claim, has_membership, tenant_matches, find_hinted, choose_member, foreign_claim,
  resolve_tenant, select_member, select_claimed, select_tenant,
}

-- The claim is absent, or names a membership.
abbrev pub ClaimsMembership : Option Str → List Membership → Type 0
ClaimsMembership none members = Unit
ClaimsMembership (some tid) members = has_membership members tid ≡ true

module _ (lib : Libraries) (v : Verifier) (user : Identity) (hint tid : Str) (claim : Option Str)
    (members : List Membership) (r : Resolved) (asked : lib.parse_uuid hint ≡ some tid)
    (given : hint ≢ []) (read : tenant_claim lib user.claims ≡ ok claim)
    (claims_own : ClaimsMembership claim members) (careful : v.trust_tenant_id_claim ≡ false)
    (named : user.subject ≢ [])
    (listed : v.resolver.memberships user.issuer user.subject ≡ ok members)
    (answer : v.resolver.resolve_by_tenant_id tid ≡ ok (some r))
    (active : str_eq r.tenant.status status_active ≡ true) where
  matches-hint : (t : Str) → tenant_matches lib hint t ≡ str_eq tid t
  unfolding tenant_matches
  matches-hint t = rw asked refl

  find_hinted-there :
      (ms : List Membership)
      → has_membership ms tid ≡ true
      → (m : Membership) × (find_hinted lib hint ms ≡ some m) × (m.tenant.id ≡ tid)
  unfolding has_membership find_hinted
  find_hinted-there [] h = cc h
  find_hinted-there (m ∷ ms) h = elim (Bool-cases (str_eq m.tenant.id tid)) [
    | inl hit ↦
        let same = (str_eq_iff m.tenant.id tid).0 hit in
        let found : tenant_matches lib hint m.tenant.id ≡ true =
          matches-hint m.tenant.id
          ∙ subst (λ t. str_eq tid t ≡ true) (sym same) (str_eq_refl tid) in
        (m, if_of_true _ _ _ found, same)
    | inr miss ↦
        let other : tenant_matches lib hint m.tenant.id ≡ false =
          matches-hint m.tenant.id
          ∙ str_eq_other tid m.tenant.id (λ e. cc (miss, (str_eq_iff m.tenant.id tid).1 (sym e))) in
        let (n, found, same) = find_hinted-there ms (rw miss at h) in
        (n, if_of_false _ _ _ other ∙ found, same)
  ]

  not_foreign : (c : Option Str) → ClaimsMembership c members → foreign_claim c members ≡ false
  not_foreign none own = refl
  not_foreign (some t) own = ap not own

  select_member-admits :
      has_membership members tid ≡ true
      → (role : Str) × (select_member lib v.resolver user hint claim
          ≡ ok (record user { resolved = some r; role = role }))
  unfolding choose_member resolve_tenant
  select_member-admits among =
      let (m, found, same) = find_hinted-there members among in
      let there = ap v.resolver.resolve_by_tenant_id same ∙ answer in
      (
        m.role,
        rw
            (
              str_eq_other user.subject [] named,
              listed,
              not_foreign claim claims_own,
              str_eq_other hint [] given,
              found,
              there,
              active,
            )
            refl,
      )

  -- A member gets in: where the hint is the UUID of a tenant that the verified user is a member of, its
  -- tenant_id claim is absent or names a membership, such claims are not trusted, and the tenant is found
  -- active, the user acts for that tenant.
  pub select_tenant-admits :
      has_membership members tid ≡ true
      → (role : Str) × (select_tenant lib v user hint
          ≡ ok (record user { resolved = some r; role = role }))
  unfolding select_tenant
  select_tenant-admits among =
      let (role, done) = select_member-admits among in (role, rw read (by_claim claim done))
    where
      by_claim :
          {out : Identity} (c : Option Str)
          → select_member lib v.resolver user hint c ≡ ok out
          → select_claimed lib v.resolver v.trust_tenant_id_claim user hint c ≡ ok out
      by_claim none done = done
      by_claim (some t) done = rw careful done
