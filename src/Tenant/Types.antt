-- ===== src/Tenant/Types.antt =====
-- internal/tenant/types.go and internal/role: rows of the tenant tables. A UUID is its canonical text, a
-- time its nanoseconds.
use argvio.Prelude.{Str, bytes, str_eq, Bool, ◌||◌, Option}
use argvio.Prelude.Int.{ℤ}
use argvio.Prelude.Float.{Float64}
use argvio.Consent.{EnforcementMode}
use argvio.Otlp.Limits.{MetricCaps}

pub record Tenant : Type 0 where
  pub id : Str
  pub slug : Str
  pub name : Str
  pub status : Str

unfoldable pub status_active : Str
status_active = bytes "active"

pub record Config : Type 0 where
  pub tenant_id : Str
  pub tier_ceiling : Str
  pub tier_enforcement_mode : EnforcementMode
  pub rate_limit_requests_per_sec : Option Float64
  pub rate_limit_bytes_per_sec : Option Float64
  pub rate_limit_burst : Option ℤ
  pub retention_traces_days : Option ℤ
  pub retention_logs_days : Option ℤ
  pub retention_metrics_days : Option ℤ
  pub metric_caps : MetricCaps
  pub strict_metrics : Bool

pub record ApiKey : Type 0 where
  pub id : Str
  pub tenant_id : Str
  pub key_hash : Str
  pub key_prefix : Str
  pub scope : Str
  pub created_at : ℤ
  pub revoked_at : Option ℤ
  pub last_used_at : Option ℤ

pub record Resolved : Type 0 where
  pub tenant : Tenant
  pub config : Config
  pub api_key : ApiKey

pub record Membership : Type 0 where
  pub tenant : Tenant
  pub role : Str

unfoldable pub viewer : Str
viewer = bytes "viewer"

unfoldable pub admin_role : Str
admin_role = bytes "admin"

unfoldable pub known_role : Str → Bool
unfolding viewer admin_role
known_role r = str_eq r viewer || str_eq r admin_role
