-- ===== src/Tenant/Cache/Eviction.antt =====
-- internal/tenant/cache.go: how long an entry serves, and what the janitor takes.
use argvio.Prelude.{
  Str, str_eq_refl, ◌≡◌, refl, Bool, true, false, Option, none, some, List, [], ◌∷◌, Result, ok,
  err, arith, Bool-cases, inl, inr, some-eq-some, str_eq, str_eq_iff, subst, sym, ap, ◌∙◌,
  Option-cases, err-injective, ◌≢◌, if◌then◌else◌,
}
use argvio.Prelude.Int.{ℤ, ◌+ℤ◌, ◌≤ℤ◌, ltb_ℤ}
use argvio.Prelude.Maps.{Map, has, lookup, HasUniqueKeys, lookup-insert, insert-HasUniqueKeys}
use argvio.Tenant.Cache.{
  Cache, CacheEntry, Store, StoreError, not_found, store_failed, new_cache, set, live_entry,
  if_live, settle, settle_memberships, settle_tenants, resolve, resolve_with, cache_key, evict,
  evict_entries,
}
use argvio.Tenant.Cache.Keys.{Query, by_key, by_tenant, members_of, all_tenants}
use argvio.Tenant.Cache.Reachable.{outcome, fill, Reachable, started, filled, evicted}

module _ {R M T : Type 0} where
  abbrev expired : ℤ → Option (CacheEntry R M T) → Bool
  expired now none = false
  expired now (some e) = ltb_ℤ e.expires_at now

  missing : (k : Str) (m : Map (CacheEntry R M T)) → has k m ≡ false → lookup k m ≡ none
  missing k m h = elim (Option-cases (lookup k m)) [ inl e ↦ e | inr (v, e) ↦ cc (rw e at h) ]

  lookup-evict_entries :
      (now : ℤ) (k : Str) (m : Map (CacheEntry R M T))
      → HasUniqueKeys m
      → lookup k (evict_entries now m) ≡ (if expired now (lookup k m) then none else lookup k m)
  unfolding lookup evict_entries
  lookup-evict_entries now k [] u = refl
  lookup-evict_entries now k ((j, e) ∷ m) u =
      let later = lookup-evict_entries now k m u.1 in
      elim (Bool-cases (str_eq j k)) [
        | inl hit ↦
            let gone = subst (λ i. lookup i m ≡ none) ((str_eq_iff j k).0 hit) (missing j m u.0) in
            ground (arith, later, gone, hit)
        | inr miss ↦ ground (arith, later, miss)
      ]

  if_live-evicted :
      (tick now : ℤ) (o : Option (CacheEntry R M T))
      → tick ≤ℤ now
      → if_live now (if expired tick o then none else o) ≡ if_live now o
  if_live-evicted tick now none le = refl
  if_live-evicted tick now (some e) le = ground arith

  evict_entries-HasUniqueKeys :
      (now : ℤ) (m : Map (CacheEntry R M T)) → HasUniqueKeys m → HasUniqueKeys (evict_entries now m)
  unfolding evict_entries
  evict_entries-HasUniqueKeys now [] u = tt
  evict_entries-HasUniqueKeys now ((j, e) ∷ m) u = elim (Bool-cases (ltb_ℤ e.expires_at now)) [
    | inl t ↦ rw t (evict_entries-HasUniqueKeys now m u.1)
    | inr f ↦ rw f (
      rw (lookup-evict_entries now j m u.1, missing j m u.0) refl,
      evict_entries-HasUniqueKeys now m u.1,
    )
  ]

  module _ (digest : Str → Str) (ttl : ℤ) (world : ℤ → Store R M T) where
    settle-HasUniqueKeys :
        (k : Str) (stored : ℤ) (a : Result StoreError R) (c : Cache R M T)
        → HasUniqueKeys c.entries
        → HasUniqueKeys (settle k stored a c).0.entries
    unfolding settle set
    settle-HasUniqueKeys k stored (ok r) c u = insert-HasUniqueKeys k _ c.entries u
    settle-HasUniqueKeys k stored (err not_found) c u = insert-HasUniqueKeys k _ c.entries u
    settle-HasUniqueKeys k stored (err (store_failed why)) c u = u

    settle_memberships-HasUniqueKeys :
        (k : Str) (stored : ℤ) (a : Result StoreError (List M)) (c : Cache R M T)
        → HasUniqueKeys c.entries
        → HasUniqueKeys (settle_memberships k stored a c).0.entries
    unfolding settle_memberships set
    settle_memberships-HasUniqueKeys k stored (ok ms) c u = insert-HasUniqueKeys k _ c.entries u
    settle_memberships-HasUniqueKeys k stored (err why) c u = u

    settle_tenants-HasUniqueKeys :
        (stored : ℤ) (a : Result StoreError (List T)) (c : Cache R M T)
        → HasUniqueKeys c.entries
        → HasUniqueKeys (settle_tenants stored a c).0.entries
    unfolding settle_tenants set
    settle_tenants-HasUniqueKeys stored (ok ts) c u = insert-HasUniqueKeys _ _ c.entries u
    settle_tenants-HasUniqueKeys stored (err why) c u = u

    fill-HasUniqueKeys :
        (q : Query) (store : Store R M T) (stored : ℤ) (c : Cache R M T)
        → HasUniqueKeys c.entries
        → HasUniqueKeys (fill digest ttl q store stored c).entries
    unfolding fill
    fill-HasUniqueKeys (by_key k s) store stored c = settle-HasUniqueKeys _ stored _ c
    fill-HasUniqueKeys (by_tenant i) store stored c = settle-HasUniqueKeys _ stored _ c
    fill-HasUniqueKeys (members_of i s) store stored c =
        settle_memberships-HasUniqueKeys _ stored _ c
    fill-HasUniqueKeys all_tenants store stored c = settle_tenants-HasUniqueKeys stored _ c

    Reachable-HasUniqueKeys :
        (c : Cache R M T) → Reachable digest ttl world c → HasUniqueKeys c.entries
    unfolding new_cache evict
    Reachable-HasUniqueKeys _ started = tt
    Reachable-HasUniqueKeys _ (filled q asked stored p le r) =
        fill-HasUniqueKeys q (world asked) stored _ (Reachable-HasUniqueKeys _ r)
    Reachable-HasUniqueKeys _ (evicted now r) =
        evict_entries-HasUniqueKeys now _ (Reachable-HasUniqueKeys _ r)

    -- A tick of the janitor changes no lookup from its time on.
    pub live_entry-evict :
        (c : Cache R M T) (k : Str) (tick now : ℤ)
        → Reachable digest ttl world c
        → tick ≤ℤ now
        → live_entry k now (evict tick c) ≡ live_entry k now c
    unfolding live_entry evict
    live_entry-evict c k tick now r le =
        let left = lookup-evict_entries tick k c.entries (Reachable-HasUniqueKeys c r) in
        rw left (if_live-evicted tick now (lookup k c.entries) le)

  abbrev pub lifetime_in : Cache R M T → Bool → ℤ
  lifetime_in c true = c.ttl
  lifetime_in c false = c.neg_ttl

  resolve-set :
      (digest : Str → Str) (store : Store R M T) (k s : Str) (now later : ℤ) (e : CacheEntry R M T)
      (c : Cache R M T)
      → ltb_ℤ now e.expires_at ≡ true
      → let c' = set (cache_key digest k s) e c in
        resolve digest store k s now later c' ≡ (c', ok (e.resolved, e.found))
  unfolding resolve live_entry set
  resolve-set digest store k s now later e c lt =
      let key = cache_key digest k s in
      rw (lookup-insert key key e c.entries, str_eq_refl key, lt) refl

  served :
      (digest : Str → Str) (store : Store R M T) (k s : Str) (now later stored : ℤ)
      (e : CacheEntry R M T) (c : Cache R M T) (a : Option R × Bool)
      → (e.resolved, e.found) ≡ a
      → e.expires_at ≡ stored +ℤ lifetime_in c e.found
      → ltb_ℤ now (stored +ℤ lifetime_in c a.1) ≡ true
      → let c' = set (cache_key digest k s) e c in
        resolve digest store k s now later c' ≡ (c', ok a)
  served digest store k s now later stored e c a same ends lt =
      let in_time =
        subst (λ (b : Option R × Bool). ltb_ℤ now (stored +ℤ lifetime_in c b.1) ≡ true) (sym same)
          lt in
      resolve-set digest store k s now later e c
        (subst (λ t. ltb_ℤ now t ≡ true) (sym ends) in_time)
      ∙ ap (λ b. (set (cache_key digest k s) e c, ok b)) same

  -- An answer that was cached is served, without the store, until its lifetime is over: a store that
  -- would now answer otherwise, or fail, is not asked, and the cache stays as it is.
  pub resolve-settle :
      (digest : Str → Str) (store : Store R M T) (raw_key scope : Str) (stored now later : ℤ)
      (answer : Result StoreError R) (c : Cache R M T) (a : Option R × Bool)
      → outcome answer ≡ some a
      → ltb_ℤ now (stored +ℤ lifetime_in c a.1) ≡ true
      → let c' = (settle (cache_key digest raw_key scope) stored answer c).0 in
        resolve digest store raw_key scope now later c' ≡ (c', ok a)
  unfolding resolve settle live_entry set
  resolve-settle digest store k s stored now later (ok r) c a h lt =
      served digest store k s now later stored _ c a (some-eq-some h) refl lt
  resolve-settle digest store k s stored now later (err not_found) c a h lt =
      served digest store k s now later stored _ c a (some-eq-some h) refl lt
  resolve-settle digest store k s stored now later (err (store_failed why)) c a h lt = cc

  resolve_with_errs :
      (k : Str) (answer : Result StoreError R) (stored : ℤ) (c : Cache R M T)
      (live : Option (CacheEntry R M T)) (why : StoreError)
      → (resolve_with k answer stored c live).1 ≡ err why
      → ((resolve_with k answer stored c live).0 ≡ c)
        × (live ≡ none)
        × (answer ≡ err why)
        × (why ≢ not_found)
  unfolding settle
  resolve_with_errs k (ok r) stored c none why h = cc
  resolve_with_errs k (err not_found) stored c none why h = cc
  resolve_with_errs k (err (store_failed w)) stored c none why h =
      (refl, refl, ap (λ e. err e) (err-injective h), λ e. cc (err-injective h, e))
  resolve_with_errs k answer stored c (some e) why h = cc

  -- Resolve fails only when the store failed in this very call, for no cached entry, and then leaves
  -- the cache as it was: a failure is never cached, and never reported for a key that is not found.
  pub resolve_errs :
      (digest : Str → Str) (store : Store R M T) (raw_key scope : Str) (now stored : ℤ)
      (c : Cache R M T) (why : StoreError)
      → (resolve digest store raw_key scope now stored c).1 ≡ err why
      → ((resolve digest store raw_key scope now stored c).0 ≡ c)
        × (live_entry (cache_key digest raw_key scope) now c ≡ none)
        × (store.lookup_by_raw_api_key raw_key scope ≡ err why)
        × (why ≢ not_found)
  unfolding resolve
  resolve_errs digest store k s now stored c why h = resolve_with_errs _ _ stored c _ why h
