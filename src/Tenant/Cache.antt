-- ===== src/Tenant/Cache.antt =====
-- internal/tenant/cache.go: lookups of tenants, cached with a lifetime. The store is what its queries
-- answer when they run; `digest` is hex.EncodeToString of sha256.Sum256. A time is an integer of
-- nanoseconds, and each call is given the clock's readings: `now` at the look into the cache, `stored`
-- at the write. A tenant's id is its text. The lock's critical sections are the single functions.
pub mod Keys
pub mod Reachable
pub mod Fresh
pub mod Eviction
use argvio.Prelude.{
  ℕ, ◌/◌, ◌^◌, suc, Str, bytes, Bool, true, false, Option, none, some, List, [], ◌∷◌, ◌++◌, Result,
  ok, err, if◌then◌else◌,
}
use argvio.Prelude.Int.{ℤ, pos, negsuc, ltb_ℤ, sub_ℕ, ◌+ℤ◌}
use argvio.Prelude.Maps.{Map, lookup, insert}

pub data StoreError : Type 0 where
  not_found : StoreError
  store_failed : Str → StoreError

pub record CacheEntry (R M T : Type 0) : Type 0 where
  pub resolved : Option R
  pub found : Bool
  pub memberships : List M
  pub tenants : List T
  pub expires_at : ℤ

pub record Cache (R M T : Type 0) : Type 0 where
  pub ttl : ℤ
  pub neg_ttl : ℤ
  pub entries : Map (CacheEntry R M T)

-- What the store's queries answer at one time.
pub record Store (R M T : Type 0) : Type 0 where
  pub lookup_by_raw_api_key : Str → Str → Result StoreError R
  pub lookup_by_tenant_id : Str → Result StoreError R
  pub list_memberships : Str → Str → Result StoreError (List M)
  pub list_active_tenants : Result StoreError (List T)

abbrev pub second : ℤ
second = pos (10 ^ 9)

-- ttl / 4, towards zero
abbrev pub quarter : ℤ → ℤ
quarter (pos n) = pos (n / 4)
quarter (negsuc n) = sub_ℕ 0 (suc n / 4)

unfoldable pub neg_ttl_of : ℤ → ℤ
neg_ttl_of ttl = let neg = quarter ttl in if ltb_ℤ neg second then second else neg

unfoldable pub cache_key : (Str → Str) → Str → Str → Str
cache_key digest raw_key scope = digest (raw_key ++ 0 ∷ scope)

unfoldable pub tenant_key : Str → Str
tenant_key tenant_id = bytes "tid:" ++ tenant_id

unfoldable pub memberships_key : (Str → Str) → Str → Str → Str
memberships_key digest issuer subject = bytes "mem:" ++ digest (issuer ++ 0 ∷ subject)

unfoldable pub active_tenants_key : Str
active_tenants_key = bytes "active-tenants"

abbrev is_empty {ℓ} : {A : Type ℓ} → List A → Bool
is_empty [] = true
is_empty (x ∷ xs) = false

-- resolved and found, or the error
abbrev pub Answer : Type 0 → Type 0
Answer R = Result StoreError (Option R × Bool)

module _ {R M T : Type 0} where
  unfoldable pub new_cache : ℤ → Cache R M T
  new_cache ttl = record { ttl = ttl; neg_ttl = neg_ttl_of ttl; entries = [] }

  abbrev pub if_live : ℤ → Option (CacheEntry R M T) → Option (CacheEntry R M T)
  if_live now none = none
  if_live now (some e) = if ltb_ℤ now e.expires_at then some e else none

  -- The entry that a lookup may answer with: not yet expired.
  unfoldable pub live_entry : Str → ℤ → Cache R M T → Option (CacheEntry R M T)
  live_entry key now c = if_live now (lookup key c.entries)

  unfoldable pub set : Str → CacheEntry R M T → Cache R M T → Cache R M T
  set key e c = record c { entries = insert key e c.entries }

  -- The switch on what the store answered.
  unfoldable pub settle : Str → ℤ → Result StoreError R → Cache R M T → Cache R M T × Answer R
  settle key stored (ok r) c = (
    set key
        (record {
          resolved = some r;
          found = true;
          memberships = [];
          tenants = [];
          expires_at = stored +ℤ c.ttl;
        })
        c,
    ok (some r, true),
  )
  settle key stored (err not_found) c = (
    set key
        (record {
          resolved = none;
          found = false;
          memberships = [];
          tenants = [];
          expires_at = stored +ℤ c.neg_ttl;
        })
        c,
    ok (none, false),
  )
  settle key stored (err (store_failed why)) c = (c, err (store_failed why))

  abbrev pub resolve_with :
      Str
      → Result StoreError R
      → ℤ
      → Cache R M T
      → Option (CacheEntry R M T)
      → Cache R M T × Answer R
  resolve_with key answer stored c none = settle key stored answer c
  resolve_with key answer stored c (some e) = (c, ok (e.resolved, e.found))

  module _ (digest : Str → Str) (store : Store R M T) where
    unfoldable pub resolve : Str → Str → ℤ → ℤ → Cache R M T → Cache R M T × Answer R
    resolve raw_key scope now stored c =
        let key = cache_key digest raw_key scope in
        resolve_with key (store.lookup_by_raw_api_key raw_key scope) stored c (live_entry key now c)

    unfoldable pub resolve_by_tenant_id : Str → ℤ → ℤ → Cache R M T → Cache R M T × Answer R
    resolve_by_tenant_id tenant_id now stored c =
        let key = tenant_key tenant_id in
        resolve_with key (store.lookup_by_tenant_id tenant_id) stored c (live_entry key now c)

  unfoldable pub settle_memberships :
      Str → ℤ → Result StoreError (List M) → Cache R M T → Cache R M T × Result StoreError (List M)
  settle_memberships key stored (err e) c = (c, err e)
  settle_memberships key stored (ok ms) c =
      let ttl = if is_empty ms then c.neg_ttl else c.ttl in
      (
        set key
            (record {
              resolved = none;
              found = false;
              memberships = ms;
              tenants = [];
              expires_at = stored +ℤ ttl;
            })
            c,
        ok ms,
      )

  abbrev pub memberships_with :
      Str
      → Result StoreError (List M)
      → ℤ
      → Cache R M T
      → Option (CacheEntry R M T)
      → Cache R M T × Result StoreError (List M)
  memberships_with key answer stored c none = settle_memberships key stored answer c
  memberships_with key answer stored c (some e) = (c, ok e.memberships)

  unfoldable pub list_memberships_cached :
      (Str → Str)
      → Store R M T
      → Str
      → Str
      → ℤ
      → ℤ
      → Cache R M T
      → Cache R M T × Result StoreError (List M)
  list_memberships_cached digest store issuer subject now stored c =
      let key = memberships_key digest issuer subject in
      memberships_with key (store.list_memberships issuer subject) stored c (live_entry key now c)

  unfoldable pub settle_tenants :
      ℤ → Result StoreError (List T) → Cache R M T → Cache R M T × Result StoreError (List T)
  settle_tenants stored (err e) c = (c, err e)
  settle_tenants stored (ok ts) c = (
    set active_tenants_key
        (record {
          resolved = none;
          found = false;
          memberships = [];
          tenants = ts;
          expires_at = stored +ℤ c.neg_ttl;
        })
        c,
    ok ts,
  )

  abbrev tenants_with :
      Result StoreError (List T)
      → ℤ
      → Cache R M T
      → Option (CacheEntry R M T)
      → Cache R M T × Result StoreError (List T)
  tenants_with answer stored c none = settle_tenants stored answer c
  tenants_with answer stored c (some e) = (c, ok e.tenants)

  unfoldable pub active_tenants :
      Store R M T → ℤ → ℤ → Cache R M T → Cache R M T × Result StoreError (List T)
  active_tenants store now stored c =
      tenants_with store.list_active_tenants stored c (live_entry active_tenants_key now c)

  -- The janitor's loop over the entries: those past their time are deleted.
  unfoldable pub evict_entries : ℤ → Map (CacheEntry R M T) → Map (CacheEntry R M T)
  evict_entries now [] = []
  evict_entries now ((k, e) ∷ m) =
      let rest = evict_entries now m in if ltb_ℤ e.expires_at now then rest else (k, e) ∷ rest

  -- One tick of the janitor.
  unfoldable pub evict : ℤ → Cache R M T → Cache R M T
  evict now c = record c { entries = evict_entries now c.entries }
