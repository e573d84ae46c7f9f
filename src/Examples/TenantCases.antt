-- ===== src/Examples/TenantCases.antt =====
-- internal/tenant at concrete inputs: a key that the store knows until time 100 and revokes then, with
-- a TTL of two minutes.
use argvio.Prelude.{
  ℕ, ◌+◌, ◌^◌, Str, bytes, ◌≡◌, ◌≢◌, ◌*◌, refl, false, none, [], ◌∷◌, map, ok, err, arith, All,
  if◌then◌else◌,
}
use argvio.Prelude.Int.{ℤ, pos, ltb_ℤ}
use argvio.Prelude.Maps.{lookup}
use argvio.Tenant.Cache.{
  Cache, Store, not_found, store_failed, resolve, settle, new_cache, cache_key, neg_ttl_of,
  live_entry, evict,
}
use argvio.Tenant.Cache.Keys.{members_of, IsDigest, key_of-injective, by_key}
use argvio.Tenant.Cache.Reachable.{fill, Reachable, started, filled, evicted}
use argvio.Tenant.Cache.Fresh.{Fresh}
use argvio.Tenant.Cache.Eviction.{live_entry-evict, resolve-settle, resolve_errs}

abbrev shift : Str → Str
shift = map (λ c. c + 59)

shift-injective : (s t : Str) → shift s ≡ shift t → s ≡ t
shift-injective [] [] e = refl
shift-injective [] (d ∷ t) e = cc
shift-injective (c ∷ s) [] e = cc
shift-injective (c ∷ s) (d ∷ t) e =
    let rest = shift-injective s t (ground (arith, e)) in ground (arith, rest, e)

shift-no_mark : (s : Str) → All (λ c. (c ≢ 58) × (c ≢ 45)) (shift s)
shift-no_mark [] = tt
shift-no_mark (c ∷ s) = ((omega arith, omega arith), shift-no_mark s)

shift-IsDigest : IsDigest shift
shift-IsDigest = record { injective = shift-injective; no_mark = shift-no_mark }

abbrev two_minutes : ℤ
two_minutes = pos (120 * 10 ^ 9)

abbrev the_key : Str
the_key = bytes "k"

abbrev ingest : Str
ingest = bytes "in"

-- The tenants are numbers here: the key stands for tenant 7 until it is revoked at time 100.
abbrev world : ℤ → Store ℕ ℕ ℕ
world t = record {
  lookup_by_raw_api_key = λ k s. if ltb_ℤ t (pos 100) then ok 7 else err not_found;
  lookup_by_tenant_id = λ i. err not_found;
  list_memberships = λ i s. ok [];
  list_active_tenants = ok (7 ∷ []);
}

abbrev empty : Cache ℕ ℕ ℕ
empty = new_cache two_minutes

abbrev filled_once : Cache ℕ ℕ ℕ
filled_once = fill shift two_minutes (by_key the_key ingest) (world (pos 10)) (pos 20) empty

abbrev ticked : Cache ℕ ℕ ℕ
ticked = evict (pos 50) filled_once

ingest-IsPlain : All (λ c. c ≢ 0) ingest
ingest-IsPlain = (omega arith, (omega arith, tt))

filled_once-Reachable : Reachable shift two_minutes world filled_once
filled_once-Reachable =
    filled (by_key the_key ingest) (pos 10) (pos 20) ingest-IsPlain (omega arith) started

ticked-Reachable : Reachable shift two_minutes world ticked
ticked-Reachable = evicted (pos 50) filled_once-Reachable

key_of-injective_example : by_key the_key ingest ≡ by_key the_key ingest
key_of-injective_example =
    key_of-injective shift-IsDigest (by_key the_key ingest) (by_key the_key ingest) ingest-IsPlain
      ingest-IsPlain refl

live_entry-evict_example :
    live_entry (cache_key shift the_key ingest) (pos 60) ticked
    ≡ live_entry (cache_key shift the_key ingest) (pos 60) filled_once
live_entry-evict_example =
    live_entry-evict shift two_minutes world filled_once (cache_key shift the_key ingest) (pos 50)
      (pos 60) filled_once-Reachable (omega arith)

resolve-settle_example :
    let c = (settle (cache_key shift the_key ingest) (pos 20) (err not_found) empty).0 in
    resolve shift (world (pos 55)) the_key ingest (pos 50) (pos 60) c ≡ (c, ok (none, false))
unfolding new_cache neg_ttl_of
resolve-settle_example =
    resolve-settle shift (world (pos 55)) the_key ingest (pos 20) (pos 50) (pos 60) (err not_found)
      empty (none, false) refl refl

abbrev down : Store ℕ ℕ ℕ
down = record {
  lookup_by_raw_api_key = λ k s. err (store_failed (bytes "down"));
  lookup_by_tenant_id = λ i. err (store_failed (bytes "down"));
  list_memberships = λ i s. err (store_failed (bytes "down"));
  list_active_tenants = err (store_failed (bytes "down"));
}

run_down :
    (resolve shift down the_key ingest (pos 5) (pos 6) empty).1 ≡ err (store_failed (bytes "down"))
unfolding resolve settle live_entry lookup new_cache
run_down = refl

resolve_errs_example :
    ((resolve shift down the_key ingest (pos 5) (pos 6) empty).0 ≡ empty)
    × (live_entry (cache_key shift the_key ingest) (pos 5) empty ≡ none)
    × (down.lookup_by_raw_api_key the_key ingest ≡ err (store_failed (bytes "down")))
    × (store_failed (bytes "down") ≢ not_found)
resolve_errs_example =
    resolve_errs shift down the_key ingest (pos 5) (pos 6) empty (store_failed (bytes "down"))
      run_down

abbrev issuer : Str
issuer = bytes "i"

abbrev members : Cache ℕ ℕ ℕ
members = fill shift two_minutes (members_of issuer the_key) (world (pos 10)) (pos 20) empty

issuer-IsPlain : All (λ c. c ≢ 0) issuer
issuer-IsPlain = (omega arith, tt)

members-Reachable : Reachable shift two_minutes world members
members-Reachable =
    filled (members_of issuer the_key) (pos 10) (pos 20) issuer-IsPlain (omega arith) started
