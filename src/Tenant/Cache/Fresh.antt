-- ===== src/Tenant/Cache/Fresh.antt =====
-- internal/tenant/cache.go: what a cached answer is worth: how old it may be.
use argvio.Prelude.{
  Str, ◌≡◌, refl, subst, ap, Bool, true, Option, none, some, List, Result, ok, err, ◌⊎◌, Bool-cases,
  inl, inr, ok-injective, ◌∙◌, some-eq-some,
}
use argvio.Prelude.Int.{ℤ, ◌≤ℤ◌, ◌+ℤ◌, ltb_ℤ}
use argvio.Prelude.Maps.{lookup}
use argvio.Tenant.Cache.{
  Cache, CacheEntry, Store, StoreError, not_found, store_failed, if_live, live_entry, settle,
  resolve_with, resolve_by_tenant_id,
}
use argvio.Tenant.Cache.Reachable.{
  outcome, lifetime, is_nonempty, Answers, Reachable, WrittenBy, FromStore, entry-FromStore,
}
use argvio.Tenant.Cache.Keys.{Query, by_tenant, key_of, IsPlain, IsDigest}

pub if_live-some :
    {R M T : Type 0} (now : ℤ) (o : Option (CacheEntry R M T)) (e : CacheEntry R M T)
    → if_live now o ≡ some e
    → (o ≡ some e) × (ltb_ℤ now e.expires_at ≡ true)
if_live-some now none e h = cc
if_live-some now (some f) e h = elim (Bool-cases (ltb_ℤ now f.expires_at)) [
  | inl t ↦
      let same : some f ≡ some e = rw t at h in
      (same, subst (λ g. ltb_ℤ now g.expires_at ≡ true) (some-eq-some same) t)
  | inr late ↦ cc (rw late at h)
]

pub settle-outcome :
    {R M T : Type 0} (k : Str) (stored : ℤ) (a : Result StoreError R) (c : Cache R M T)
    (v : Option R × Bool)
    → (settle k stored a c).1 ≡ ok v
    → outcome a ≡ some v
unfolding settle
settle-outcome k stored (ok r) c v h = ap (λ x. some x) (ok-injective h)
settle-outcome k stored (err not_found) c v h = ap (λ x. some x) (ok-injective h)
settle-outcome k stored (err (store_failed why)) c v h = cc

-- A served list is what the store answers in this very call, or what it answered to the same question
-- before: written to the cache by now, with a lifetime, which depends on whether it is empty, not over.
abbrev pub FreshList : {M : Type 0} → ℤ → (ℤ → Result StoreError (List M)) → ℤ → ℤ → List M → Type 0
FreshList ttl answer_at asked now ms =
    (answer_at asked ≡ ok ms)
    ⊎ ((before : ℤ) × (stored : ℤ) × (before ≤ℤ stored)
        × (stored ≤ℤ now)
        × (answer_at before ≡ ok ms)
        × (ltb_ℤ now (stored +ℤ lifetime ttl (is_nonempty ms)) ≡ true))

-- The same of an answer: what the store answers in this very call, or an answer to the same question
-- that was written to the cache by now and whose lifetime is not over.
abbrev pub Fresh : {R : Type 0} → ℤ → (ℤ → Result StoreError R) → ℤ → ℤ → Option R × Bool → Type 0
Fresh ttl answer_at asked now a =
    (outcome (answer_at asked) ≡ some a)
    ⊎ ((before : ℤ) × (stored : ℤ) × (before ≤ℤ stored)
        × (stored ≤ℤ now)
        × (outcome (answer_at before) ≡ some a)
        × (ltb_ℤ now (stored +ℤ lifetime ttl a.1) ≡ true))

module _ {R M T : Type 0} (digest : Str → Str) (ttl : ℤ) (world : ℤ → Store R M T)
    (laws : IsDigest digest) {c : Cache R M T} (reached : Reachable digest ttl world c) where
  live-FromStore :
      (q : Query) (e : CacheEntry R M T) (now : ℤ)
      → WrittenBy digest ttl world now reached
      → IsPlain q
      → live_entry (key_of digest q) now c ≡ some e
      → FromStore digest ttl world now q e × (ltb_ℤ now e.expires_at ≡ true)
  unfolding live_entry
  live-FromStore q e now w p live =
      let (there, lt) = if_live-some now (lookup (key_of digest q) c.entries) e live in
      (entry-FromStore digest ttl world laws reached now q e w p there, lt)

  answered-Fresh :
      (k : Str) (answer_at : ℤ → Result StoreError R) (now asked stored : ℤ) (a : Option R × Bool)
      (live : Option (CacheEntry R M T))
      → ((e : CacheEntry R M T)
          → live ≡ some e
          → ((at : ℤ) × (until : ℤ) × (at ≤ℤ until)
              × (until ≤ℤ now)
              × Answers digest ttl (answer_at at) until e)
            × (ltb_ℤ now e.expires_at ≡ true))
      → (resolve_with k (answer_at asked) stored c live).1 ≡ ok a
      → Fresh ttl answer_at asked now a
  answered-Fresh k answer_at now asked stored a none f h =
      inl (settle-outcome k stored (answer_at asked) c a h)
  answered-Fresh k answer_at now asked stored a (some e) f h =
      let ((at, until, order, by_now, (from, expires)), lt) = f e refl in
      let same : (e.resolved, e.found) ≡ a = ok-injective h in
      inr (
        at,
        until,
        order,
        by_now,
        from ∙ ap (λ x. some x) same,
        subst (λ (x : Option R × Bool). ltb_ℤ now (until +ℤ lifetime ttl x.1) ≡ true) same
            (subst (λ t. ltb_ℤ now t ≡ true) expires lt),
      )

  -- ResolveByTenantID, in the same way.
  pub resolve_by_tenant_id-Fresh :
      (tenant_id : Str) (now asked stored : ℤ) (a : Option R × Bool)
      → WrittenBy digest ttl world now reached
      → (resolve_by_tenant_id digest (world asked) tenant_id now stored c).1 ≡ ok a
      → Fresh ttl (λ t. (world t).lookup_by_tenant_id tenant_id) asked now a
  unfolding resolve_by_tenant_id key_of
  resolve_by_tenant_id-Fresh i now asked stored a w =
      answered-Fresh _ _ now asked stored a _
        (λ e live. live-FromStore (by_tenant i) e now w tt live)
