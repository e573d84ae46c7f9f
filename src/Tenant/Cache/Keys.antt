-- ===== src/Tenant/Cache/Keys.antt =====
-- internal/tenant/cache.go: the keys of the four kinds of lookup.
use argvio.Prelude.{Str, bytes, ◌≡◌, ◌≢◌, refl, sym, subst, [], ◌∷◌, ◌++◌, All, arith}
use argvio.Tenant.Cache.{cache_key, tenant_key, memberships_key, active_tenants_key}

-- One lookup, by its arguments.
pub data Query : Type 0 where
  by_key : Str → Str → Query
  by_tenant : Str → Query
  members_of : Str → Str → Query
  all_tenants : Query

unfoldable pub key_of : (Str → Str) → Query → Str
unfolding cache_key tenant_key memberships_key active_tenants_key
key_of digest (by_key raw_key scope) = cache_key digest raw_key scope
key_of digest (by_tenant tenant_id) = tenant_key tenant_id
key_of digest (members_of issuer subject) = memberships_key digest issuer subject
key_of digest all_tenants = active_tenants_key

abbrev pub HasNoNul : Str → Type 0
HasNoNul = All (λ c. c ≢ 0)

-- A scope is a fixed word and an issuer a URL: neither holds a NUL byte.
abbrev pub IsPlain : Query → Type 0
IsPlain (by_key raw_key scope) = HasNoNul scope
IsPlain (members_of issuer subject) = HasNoNul issuer
IsPlain q = Unit

-- What the keys rely on: distinct texts have distinct digests, and a digest, which is written in
-- hexadecimal digits, has no colon and no dash.
pub record IsDigest (digest : Str → Str) : Type 0 where
  pub injective : (s t : Str) → digest s ≡ digest t → s ≡ t
  pub no_mark : (s : Str) → All (λ c. (c ≢ 58) × (c ≢ 45)) (digest s)

nul_inside : (c d : Str) → ¬ HasNoNul (c ++ 0 ∷ d)
nul_inside [] d h = h.0 refl
nul_inside (x ∷ c) d h = nul_inside c d h.1

-- Texts joined by a NUL byte are told apart, where no second one holds it.
join_right : (a b c d : Str) → HasNoNul b → HasNoNul d → a ++ 0 ∷ b ≡ c ++ 0 ∷ d → (a ≡ c) × (b ≡ d)
join_right [] b [] d hb hd e = ground (arith, e)
join_right [] b (y ∷ c) d hb hd e =
    let inside : b ≡ c ++ 0 ∷ d = ground (arith, e) in
    absurd (nul_inside c d (subst HasNoNul inside hb))
join_right (x ∷ a) b [] d hb hd e =
    let inside : a ++ 0 ∷ b ≡ d = ground (arith, e) in
    absurd (nul_inside a b (subst HasNoNul (sym inside) hd))
join_right (x ∷ a) b (y ∷ c) d hb hd e =
    let (p, q) = join_right a b c d hb hd (ground (arith, e)) in (ground (arith, p, e), q)

-- The same, where no first one holds it.
join_left : (a b c d : Str) → HasNoNul a → HasNoNul c → a ++ 0 ∷ b ≡ c ++ 0 ∷ d → (a ≡ c) × (b ≡ d)
join_left [] b [] d ha hc e = ground (arith, e)
join_left [] b (y ∷ c) d ha hc e = absurd (hc.0 (ground (arith, e)))
join_left (x ∷ a) b [] d ha hc e = absurd (ha.0 (ground (arith, e)))
join_left (x ∷ a) b (y ∷ c) d ha hc e =
    let (p, q) = join_left a b c d ha.1 hc.1 (ground (arith, e)) in (ground (arith, p, e), q)

module _ {digest : Str → Str} (laws : IsDigest digest) where
  digest-tenant_key : (s tenant_id : Str) → digest s ≢ bytes "tid:" ++ tenant_id
  digest-tenant_key s tenant_id e = (subst (All _) e (laws.no_mark s)).1.1.1.0.0 refl

  digest-memberships_key : (s t : Str) → digest s ≢ bytes "mem:" ++ digest t
  digest-memberships_key s t e = (subst (All _) e (laws.no_mark s)).1.1.1.0.0 refl

  digest-active_tenants_key : (s : Str) → digest s ≢ bytes "active-tenants"
  digest-active_tenants_key s e = (subst (All _) e (laws.no_mark s)).1.1.1.1.1.1.0.1 refl

  -- Lookups with one key are the same lookup, where scopes and issuers hold no NUL byte and digests
  -- never collide and hold no colon and no dash.
  pub key_of-injective :
      (q r : Query) → IsPlain q → IsPlain r → key_of digest q ≡ key_of digest r → q ≡ r
  unfolding key_of cache_key tenant_key memberships_key active_tenants_key
  key_of-injective (by_key k s) (by_key l t) hq hr e =
      let (p, q) = join_right k s l t hq hr (laws.injective _ _ e) in cc (p, q)
  key_of-injective (by_key k s) (by_tenant i) hq hr e = absurd (digest-tenant_key _ i e)
  key_of-injective (by_key k s) (members_of i j) hq hr e = absurd (digest-memberships_key _ _ e)
  key_of-injective (by_key k s) all_tenants hq hr e = absurd (digest-active_tenants_key _ e)
  key_of-injective (by_tenant i) (by_key l t) hq hr e = absurd (digest-tenant_key _ i (sym e))
  key_of-injective (by_tenant i) (by_tenant j) hq hr e = ground (arith, e)
  key_of-injective (by_tenant i) (members_of j s) hq hr e = ground (arith, e)
  key_of-injective (by_tenant i) all_tenants hq hr e = ground (arith, e)
  key_of-injective (members_of i s) (by_key l t) hq hr e =
      absurd (digest-memberships_key _ _ (sym e))
  key_of-injective (members_of i s) (by_tenant j) hq hr e = ground (arith, e)
  key_of-injective (members_of i s) (members_of j t) hq hr e =
      let (p, q) = join_left i s j t hq hr (laws.injective _ _ (ground (arith, e))) in cc (p, q)
  key_of-injective (members_of i s) all_tenants hq hr e = ground (arith, e)
  key_of-injective all_tenants (by_key l t) hq hr e = absurd (digest-active_tenants_key _ (sym e))
  key_of-injective all_tenants (by_tenant j) hq hr e = ground (arith, e)
  key_of-injective all_tenants (members_of j t) hq hr e = ground (arith, e)
  key_of-injective all_tenants all_tenants hq hr e = refl
