-- ===== src/RateLimit.antt =====
-- internal/ratelimit/limiter.go: request and byte limits per tenant and method. The limiters of
-- golang.org/x/time/rate are a parameter: their state, how one is made from its rate and burst, and what
-- AllowN answers at a time and leaves. An identity is its method and its resolved tenant, which callers
-- have set. A run of `allow` is one request after another, as their order at the lock.
pub mod Isolated
use argvio.Prelude.{
  Str, str_eq, ℕ, ◌-◌, ◌+◌, ◌*◌, ◌/◌, ◌%◌, ◌^◌, Bool, true, false, not, ◌&&◌, Option, none, some,
  List, [], ◌∷◌, ltb, ◌==◌, if◌then◌else◌,
}
use argvio.Prelude.Int.{ℤ, pos, negsuc, leb_ℤ}
use argvio.Prelude.Float.{Float64, float_eq, magnitude, is_negative_bit}
use argvio.Tenant.Types.{Resolved, Config}
use argvio.Authn.{Method, api_key, jwt, oidc}

pub record Defaults : Type 0 where
  pub requests_per_second : Float64
  pub bytes_per_second : Float64
  pub burst : ℤ

abbrev zero_burst : ℤ → Bool
zero_burst (pos n) = n == 0
zero_burst (negsuc n) = false

unfoldable pub zero_defaults : Defaults → Bool
zero_defaults d =
    float_eq d.requests_per_second 0 && float_eq d.bytes_per_second 0 && zero_burst d.burst

abbrev pub BucketKey : Type 0
BucketKey = Str × Method

abbrev method_eq : Method → Method → Bool
method_eq api_key api_key = true
method_eq jwt jwt = true
method_eq oidc oidc = true
method_eq m n = false

unfoldable pub same_key : BucketKey → BucketKey → Bool
same_key j k = str_eq j.0 k.0 && method_eq j.1 k.1

-- The significand and the exponent of a float64 that is not below zero.
abbrev significand : ℕ → ℕ
significand m = if ltb m (2 ^ 52) then m else m % 2 ^ 52 + 2 ^ 52

abbrev truncated : ℕ → ℕ
truncated m =
    let e = if ltb m (2 ^ 52) then 1 else m / 2 ^ 52 in
    if ltb e 1075 then significand m / 2 ^ (1075 - e) else significand m * 2 ^ (e - 1075)

-- int(x): towards zero, and the least int for what does not fit, as amd64 converts.
unfoldable pub int_of_float : Float64 → ℤ
int_of_float x =
    if ltb (magnitude x) (1086 * 2 ^ 52)
    then (if is_negative_bit x && not (truncated (magnitude x) == 0)
        then negsuc (truncated (magnitude x) - 1)
        else pos (truncated (magnitude x)))
    else negsuc (2 ^ 63 - 1)

abbrev or_default : {A : Type 0} → Option A → A → A
or_default none a = a
or_default (some b) a = b

-- The defaults of the method, unless they are all zero.
abbrev pick_defaults : Defaults → Option Defaults → Defaults
pick_defaults defaults none = defaults
pick_defaults defaults (some d) = if zero_defaults d then defaults else d

unfoldable pub defaults_for : Defaults → (Method → Option Defaults) → Method → Defaults
defaults_for defaults per_method m = pick_defaults defaults (per_method m)

-- What a new bucket is made with: the tenant's own settings over the defaults.
unfoldable pub settings : Defaults → Config → Defaults
settings d config = record {
  requests_per_second = or_default config.rate_limit_requests_per_sec d.requests_per_second;
  bytes_per_second = or_default config.rate_limit_bytes_per_sec d.bytes_per_second;
  burst = or_default config.rate_limit_burst d.burst;
}

-- The burst of bytes is one second of them, at least 1.
unfoldable pub byte_burst : Float64 → ℤ
byte_burst bps = let n = int_of_float bps in if leb_ℤ n (pos 0) then pos 1 else n

-- A request to the limiter, with the times at which it reads the clock.
pub record Request : Type 0 where
  pub method : Method
  pub resolved : Resolved
  pub n_bytes : ℤ
  pub first_now : ℤ
  pub then_now : ℤ

abbrev pub bucket_key : Request → BucketKey
bucket_key r = (r.resolved.tenant.id, r.method)

pub record Rates : Type 1 where
  pub Rate : Type 0
  pub new_limiter : Float64 → ℤ → Rate
  pub allow_n : Rate → ℤ → ℤ → Bool × Rate

module _ (rates : Rates) where
  pub record Bucket : Type 0 where
    pub requests : rates.Rate
    pub bytes : rates.Rate

  pub record Limiter : Type 0 where
    pub defaults : Defaults
    pub per_method : Method → Option Defaults
    pub buckets : List (BucketKey × Bucket)

  -- b, ok := l.buckets[key]
  unfoldable pub bucket_at : BucketKey → List (BucketKey × Bucket) → Option Bucket
  bucket_at key [] = none
  bucket_at key (entry ∷ rest) =
      let found = bucket_at key rest in if same_key entry.0 key then some entry.1 else found

  -- l.buckets[key] = b
  unfoldable pub put_bucket :
      BucketKey → Bucket → List (BucketKey × Bucket) → List (BucketKey × Bucket)
  put_bucket key b [] = (key, b) ∷ []
  put_bucket key b (entry ∷ rest) =
      let later = put_bucket key b rest in
      if same_key entry.0 key then (entry.0, b) ∷ rest else entry ∷ later

  unfoldable pub new : Defaults → (Method → Option Defaults) → Limiter
  new defaults per_method = record { defaults = defaults; per_method = per_method; buckets = [] }

  unfoldable pub new_bucket : Defaults → Config → Bucket
  new_bucket d config =
      let s = settings d config in
      record {
        requests = rates.new_limiter s.requests_per_second s.burst;
        bytes = rates.new_limiter s.bytes_per_second (byte_burst s.bytes_per_second);
      }

  abbrev pub found_or_new : Defaults → (Method → Option Defaults) → Request → Option Bucket → Bucket
  found_or_new defaults per_method r none =
      new_bucket (defaults_for defaults per_method r.method) r.resolved.config
  found_or_new defaults per_method r (some b) = b

  unfoldable pub bucket_for : Limiter → Request → Bucket
  bucket_for l r = found_or_new l.defaults l.per_method r (bucket_at (bucket_key r) l.buckets)

  -- One request, then its bytes only if the request may pass.
  unfoldable pub allow_in : Bucket → Request → Bool × Bucket
  allow_in b r =
      let (allowed, requests) = rates.allow_n b.requests r.first_now (pos 1) in
      let (fits, bytes) = rates.allow_n b.bytes r.then_now r.n_bytes in
      if not allowed
      then (false, record b { requests = requests })
      else (fits, record { requests = requests; bytes = bytes })

  unfoldable pub allow : Limiter → Request → Bool × Limiter
  allow l r =
      let (answer, b) = allow_in (bucket_for l r) r in
      (answer, record l { buckets = put_bucket (bucket_key r) b l.buckets })
