-- ===== src/RateLimit/Isolated.antt =====
-- internal/ratelimit/limiter.go: the answers of a limiter to requests in turn, and those of one bucket alone.
use argvio.Prelude.{
  Str, ◌&&◌, str_eq, Bool, true, false, Option, some, List, [], ◌∷◌, if◌then◌else◌, select,
}
use argvio.Authn.{Method, api_key, jwt, oidc}
use argvio.RateLimit.{
  Rates, Bucket, Limiter, Defaults, BucketKey, Request, found_or_new, allow_in, allow,
}

-- The same tenant and the same method.
abbrev pub belongs : BucketKey → BucketKey → Bool
belongs (s, api_key) (t, m) = str_eq s t && elim m [ api_key ↦ true | jwt ↦ false | oidc ↦ false ]
belongs (s, jwt) (t, m) = str_eq s t && elim m [ api_key ↦ false | jwt ↦ true | oidc ↦ false ]
belongs (s, oidc) (t, m) = str_eq s t && elim m [ api_key ↦ false | jwt ↦ false | oidc ↦ true ]

-- The request is of the tenant with this id, and uses this method.
abbrev pub is_from : Str → Method → Request → Bool
is_from tenant_id m r = belongs (r.resolved.tenant.id, r.method) (tenant_id, m)

module _ (rates : Rates) where
  -- The answers of a limiter to requests in turn, each with its request.
  unfoldable pub allow_all : Limiter rates → List Request → List (Request × Bool)
  allow_all l [] = []
  allow_all l (r ∷ later) =
      let (answer, next) = allow rates l r in (r, answer) ∷ allow_all next later

  -- One bucket, that the first request makes with its settings and that keeps them: what the limiter is for
  -- a single tenant and method.
  unfoldable pub allow_alone :
      Defaults → (Method → Option Defaults) → Option (Bucket rates) → List Request → List Bool
  allow_alone defaults per_method b [] = []
  allow_alone defaults per_method b (r ∷ later) =
      let (answer, next) = allow_in rates (found_or_new rates defaults per_method r b) r in
      answer ∷ allow_alone defaults per_method (some next) later

  unfoldable pub answers_for : Str → Method → List (Request × Bool) → List Bool
  answers_for tenant_id m [] = []
  answers_for tenant_id m (a ∷ rest) =
      let later = answers_for tenant_id m rest in
      if is_from tenant_id m a.0 then a.1 ∷ later else later

  abbrev pub requests_for : Str → Method → List Request → List Request
  requests_for tenant_id m = select (is_from tenant_id m)
