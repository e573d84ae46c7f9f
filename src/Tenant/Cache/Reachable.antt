-- ===== src/Tenant/Cache/Reachable.antt =====
-- internal/tenant/cache.go: where the entries come from. Lookups run at the same time, so the states
-- are those that writes and janitor ticks reach in any order; `world t` is the store at time t.
use argvio.Prelude.{
  Str, ◌≡◌, refl, sym, subst, ap, Bool, true, false, Option, none, some, List, [], ◌∷◌, All, Result,
  ok, err, Bool-cases, inl, inr,
}
use argvio.Prelude.Int.{ℤ, ◌≤ℤ◌, ◌+ℤ◌, ltb_ℤ}
use argvio.Prelude.Maps.{lookup, insert-All, lookup-All}
use argvio.Tenant.Cache.{
  Cache, CacheEntry, Store, StoreError, not_found, store_failed, neg_ttl_of, new_cache, set, settle,
  settle_memberships, settle_tenants, evict, evict_entries, active_tenants_key, cache_key,
  tenant_key, memberships_key,
}
use argvio.Tenant.Cache.Keys.{
  Query, by_key, by_tenant, members_of, all_tenants, key_of, IsPlain, IsDigest, key_of-injective,
}

abbrev pub is_nonempty {ℓ} : {A : Type ℓ} → List A → Bool
is_nonempty [] = false
is_nonempty (x ∷ xs) = true

-- The answer that a store's answer amounts to; none for a failure.
abbrev pub outcome : {R : Type 0} → Result StoreError R → Option (Option R × Bool)
outcome (ok r) = some (some r, true)
outcome (err not_found) = some (none, false)
outcome (err (store_failed why)) = none

-- How long a positive and a negative answer may be served.
abbrev pub lifetime : ℤ → Bool → ℤ
lifetime ttl true = ttl
lifetime ttl false = neg_ttl_of ttl

module _ {R M T : Type 0} (digest : Str → Str) (ttl : ℤ) where
  -- The write that ends a lookup.
  unfoldable pub fill : Query → Store R M T → ℤ → Cache R M T → Cache R M T
  unfolding settle settle_memberships settle_tenants
  fill (by_key k scope) store stored c =
      (settle (cache_key digest k scope) stored (store.lookup_by_raw_api_key k scope) c).0
  fill (by_tenant i) store stored c =
      (settle (tenant_key i) stored (store.lookup_by_tenant_id i) c).0
  fill (members_of i s) store stored c =
      (settle_memberships (memberships_key digest i s) stored (store.list_memberships i s) c).0
  fill all_tenants store stored c = (settle_tenants stored store.list_active_tenants c).0

  abbrev pub Answers : Result StoreError R → ℤ → CacheEntry R M T → Type 0
  Answers a stored e =
      (outcome a ≡ some (e.resolved, e.found)) × (e.expires_at ≡ stored +ℤ lifetime ttl e.found)

  -- The entry holds what the store answers, until its lifetime from `stored` on is over.
  abbrev pub Holds : Query → Store R M T → ℤ → CacheEntry R M T → Type 0
  Holds (by_key k scope) store stored e = Answers (store.lookup_by_raw_api_key k scope) stored e
  Holds (by_tenant i) store stored e = Answers (store.lookup_by_tenant_id i) stored e
  Holds (members_of i s) store stored e =
      (store.list_memberships i s ≡ ok e.memberships)
      × (e.expires_at ≡ stored +ℤ lifetime ttl (is_nonempty e.memberships))
  Holds all_tenants store stored e =
      (store.list_active_tenants ≡ ok e.tenants) × (e.expires_at ≡ stored +ℤ neg_ttl_of ttl)

  module _ (world : ℤ → Store R M T) where
    pub data Reachable : Cache R M T → Type 0 where
      started : Reachable (new_cache ttl)
      filled :
          {c : Cache R M T} (q : Query) (asked stored : ℤ)
          → IsPlain q
          → asked ≤ℤ stored
          → Reachable c
          → Reachable (fill q (world asked) stored c)
      evicted : {c : Cache R M T} (now : ℤ) → Reachable c → Reachable (evict now c)

    -- The clock does not run back: each write of the run is given a reading of it at this time or before. In the
    -- code a lookup reads it for its write before the write, and for the test after its look at the entry.
    abbrev pub WrittenBy : ℤ → {c : Cache R M T} → Reachable c → Type 0
    WrittenBy now started = Unit
    WrittenBy now (filled q asked stored p le r) = (stored ≤ℤ now) × WrittenBy now r
    WrittenBy now (evicted tick r) = WrittenBy now r

    -- Where an entry comes from: a lookup of its key that asked the store and then wrote, both in the past.
    abbrev pub FromStore : ℤ → Query → CacheEntry R M T → Type 0
    FromStore now q e =
        (asked : ℤ) × (stored : ℤ) × (asked ≤ℤ stored)
        × (stored ≤ℤ now)
        × Holds q (world asked) stored e

    abbrev Origin : ℤ → Str → CacheEntry R M T → Type 0
    Origin now k e = (q : Query) × IsPlain q × (k ≡ key_of digest q) × FromStore now q e

    record HasOrigins (now : ℤ) (c : Cache R M T) : Type 0 where
      ttl_set : c.ttl ≡ ttl
      neg_ttl_set : c.neg_ttl ≡ neg_ttl_of ttl
      origins : All (λ e. Origin now e.0 e.1) c.entries

    set-HasOrigins :
        (now : ℤ) (k : Str) (e : CacheEntry R M T) (c : Cache R M T)
        → Origin now k e
        → HasOrigins now c
        → HasOrigins now (set k e c)
    unfolding set
    set-HasOrigins now k e c o h = record {
      ttl_set = h.ttl_set;
      neg_ttl_set = h.neg_ttl_set;
      origins = insert-All (Origin now) k e c.entries o h.origins;
    }

    settle-HasOrigins :
        (now : ℤ) (k : Str) (stored : ℤ) (a : Result StoreError R) (c : Cache R M T)
        → ((e : CacheEntry R M T) → Answers a stored e → Origin now k e)
        → HasOrigins now c
        → HasOrigins now (settle k stored a c).0
    unfolding settle
    settle-HasOrigins now k stored (ok r) c f h =
        set-HasOrigins now k _ c (f _ (refl, ap (λ t. stored +ℤ t) h.ttl_set)) h
    settle-HasOrigins now k stored (err not_found) c f h =
        set-HasOrigins now k _ c (f _ (refl, ap (λ t. stored +ℤ t) h.neg_ttl_set)) h
    settle-HasOrigins now k stored (err (store_failed why)) c f h = h

    settle_memberships-HasOrigins :
        (now : ℤ) (k : Str) (stored : ℤ) (a : Result StoreError (List M)) (c : Cache R M T)
        → ((e : CacheEntry R M T)
            → a ≡ ok e.memberships
            → e.expires_at ≡ stored +ℤ lifetime ttl (is_nonempty e.memberships)
            → Origin now k e)
        → HasOrigins now c
        → HasOrigins now (settle_memberships k stored a c).0
    unfolding settle_memberships
    settle_memberships-HasOrigins now k stored (ok []) c f h =
        set-HasOrigins now k _ c (f _ refl (ap (λ t. stored +ℤ t) h.neg_ttl_set)) h
    settle_memberships-HasOrigins now k stored (ok (m ∷ ms)) c f h =
        set-HasOrigins now k _ c (f _ refl (ap (λ t. stored +ℤ t) h.ttl_set)) h
    settle_memberships-HasOrigins now k stored (err why) c f h = h

    settle_tenants-HasOrigins :
        (now : ℤ) (stored : ℤ) (a : Result StoreError (List T)) (c : Cache R M T)
        → ((e : CacheEntry R M T)
            → a ≡ ok e.tenants
            → e.expires_at ≡ stored +ℤ neg_ttl_of ttl
            → Origin now active_tenants_key e)
        → HasOrigins now c
        → HasOrigins now (settle_tenants stored a c).0
    unfolding settle_tenants
    settle_tenants-HasOrigins now stored (ok ts) c f h =
        set-HasOrigins now _ _ c (f _ refl (ap (λ t. stored +ℤ t) h.neg_ttl_set)) h
    settle_tenants-HasOrigins now stored (err why) c f h = h

    fill-HasOrigins :
        (now : ℤ) (q : Query) (asked stored : ℤ) (c : Cache R M T)
        → IsPlain q
        → asked ≤ℤ stored
        → stored ≤ℤ now
        → HasOrigins now c
        → HasOrigins now (fill q (world asked) stored c)
    unfolding fill key_of
    fill-HasOrigins now (by_key k s) asked stored c p le by h =
        settle-HasOrigins now _ stored _ c
          (λ e a. (by_key k s, p, refl, (asked, stored, le, by, a))) h
    fill-HasOrigins now (by_tenant i) asked stored c p le by h =
        settle-HasOrigins now _ stored _ c
          (λ e a. (by_tenant i, p, refl, (asked, stored, le, by, a))) h
    fill-HasOrigins now (members_of i s) asked stored c p le by h =
        settle_memberships-HasOrigins now _ stored _ c
          (λ e a x. (members_of i s, p, refl, (asked, stored, le, by, (a, x)))) h
    fill-HasOrigins now all_tenants asked stored c p le by h =
        settle_tenants-HasOrigins now stored _ c
          (λ e a x. (all_tenants, p, refl, (asked, stored, le, by, (a, x)))) h

    evict_entries-All :
        (now tick : ℤ) (m : List (Str × CacheEntry R M T))
        → All (λ e. Origin now e.0 e.1) m
        → All (λ e. Origin now e.0 e.1) (evict_entries tick m)
    unfolding evict_entries
    evict_entries-All now tick [] h = tt
    evict_entries-All now tick ((k, e) ∷ m) h = elim (Bool-cases (ltb_ℤ e.expires_at tick)) [
      | inl t ↦ rw t (evict_entries-All now tick m h.1)
      | inr f ↦ rw f (h.0, evict_entries-All now tick m h.1)
    ]

    Reachable-HasOrigins :
        (now : ℤ) (c : Cache R M T) (r : Reachable c) → WrittenBy now r → HasOrigins now c
    unfolding new_cache evict
    Reachable-HasOrigins now _ started w = record {
      ttl_set = refl;
      neg_ttl_set = refl;
      origins = tt;
    }
    Reachable-HasOrigins now _ (filled q asked stored p le r) w =
        fill-HasOrigins now q asked stored _ p le w.0 (Reachable-HasOrigins now _ r w.1)
    Reachable-HasOrigins now _ (evicted tick r) w =
        let h = Reachable-HasOrigins now _ r w in
        record {
          ttl_set = h.ttl_set;
          neg_ttl_set = h.neg_ttl_set;
          origins = evict_entries-All now tick _ h.origins;
        }

    module _ (laws : IsDigest digest) {c : Cache R M T} (reached : Reachable c) where
      -- Whatever entry a lookup finds, whoever wrote it, came from the store for this very lookup.
      pub entry-FromStore :
          (now : ℤ) (q : Query) (e : CacheEntry R M T)
          → WrittenBy now reached
          → IsPlain q
          → lookup (key_of digest q) c.entries ≡ some e
          → FromStore now q e
      entry-FromStore now q e written p found =
          let h = Reachable-HasOrigins now c reached written in
          let (r, pr, same, from) =
            lookup-All (Origin now) (key_of digest q) e c.entries h.origins found in
          subst (λ i. FromStore now i e) (sym (key_of-injective laws q r p pr same)) from
