-- ===== src/Examples/LimiterCases.antt =====
-- internal/ratelimit at concrete inputs, with limiters that count down from their burst.
use argvio.Prelude.{
  str_eq, ◌+◌, ◌*◌, ◌^◌, if◌then◌else◌, ◌≡◌, refl, Bool, true, false, none, some, Option, List, [],
  ◌∷◌,
}
use argvio.Prelude.Int.{ℤ, pos, leb_ℤ, ◌-ℤ◌}
use argvio.Prelude.Float.{float_eq, float_le, is_nan, float_key}
use argvio.Authn.{Method, api_key, jwt}
use argvio.RateLimit.{
  Rates, Defaults, Request, new, allow, allow_in, bucket_for, bucket_at, put_bucket, new_bucket,
  settings, byte_burst, int_of_float, defaults_for, zero_defaults, same_key,
}
use argvio.RateLimit.Isolated.{allow_all}
use argvio.Examples.AuthnCases.{resolved, beta}

abbrev take_n : ℤ → ℤ → ℤ → Bool × ℤ
take_n left now n = if leb_ℤ n left then (true, left -ℤ n) else (false, left)

abbrev countdown : Rates
countdown = record { Rate = ℤ; new_limiter = λ rate burst. burst; allow_n = take_n }

-- 1.0 and 100.0
abbrev defaults : Defaults
defaults = record {
  requests_per_second = 1023 * 2 ^ 52;
  bytes_per_second = 1029 * 2 ^ 52 + 9 * 2 ^ 48;
  burst = pos 1;
}

hundred : byte_burst (1029 * 2 ^ 52 + 9 * 2 ^ 48) ≡ pos 100
unfolding byte_burst int_of_float
hundred = refl

abbrev no_override : Method → Option Defaults
no_override m = none

abbrev for_acme : Method → Request
for_acme m = record {
  method = m;
  resolved = resolved;
  n_bytes = pos 10;
  first_now = pos 0;
  then_now = pos 0;
}

abbrev for_beta : Request
for_beta = record {
  method = api_key;
  resolved = record resolved { tenant = beta };
  n_bytes = pos 10;
  first_now = pos 0;
  then_now = pos 0;
}

abbrev traffic : List Request
traffic = for_acme api_key ∷ for_beta ∷ for_acme api_key ∷ for_acme jwt ∷ []

-- The second request of the same tenant and method is over the burst; the others have their own buckets.
answered :
    allow_all countdown (new countdown defaults no_override) traffic
    ≡ (for_acme api_key, true)
      ∷ (for_beta, true)
      ∷ (for_acme api_key, false)
      ∷ (for_acme jwt, true)
      ∷ []
unfolding allow_all new allow allow_in bucket_for bucket_at put_bucket new_bucket settings
    byte_burst int_of_float defaults_for same_key str_eq
answered = refl

-- Defaults of a method that are zero in one place only are taken whole: the burst is 0, so nothing passes.
abbrev some_jwt : Method → Option Defaults
some_jwt m = some (record {
  requests_per_second = 1023 * 2 ^ 52;
  bytes_per_second = 1023 * 2 ^ 52;
  burst = pos 0;
})

partly_set_refuses : (allow countdown (new countdown defaults some_jwt) (for_acme jwt)).0 ≡ false
unfolding new allow allow_in bucket_for bucket_at put_bucket new_bucket settings byte_burst
    int_of_float defaults_for zero_defaults float_eq float_le is_nan float_key same_key str_eq
partly_set_refuses = refl
