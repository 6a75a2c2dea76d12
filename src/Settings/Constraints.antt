-- ===== src/Settings/Constraints.antt =====
-- The constraints that the fields of class Settings in src/app/settings.py declare: bounds and patterns,
-- which pydantic checks before the model validator runs.
use fastapi_chassis.Base.{ℕ, Bool, ◌&&◌, leb, [], ◌∷◌, is_in}
use fastapi_chassis.Settings.Fields.{
  ServerFields, LogFields, DatabaseFields, SqliteFields, AuthFields, HardeningFields,
  RateLimitFields, CacheFields,
}
use fastapi_chassis.Settings.Fields.{Settings}

abbrev within : ℕ → ℕ → ℕ → Bool
within lo hi n = leb lo n && leb n hi

pub server_allowed : ServerFields → Bool
server_allowed s = within 1 65535 s.port

pub log_allowed : LogFields → Bool
log_allowed s =
    is_in s.log_level ("DEBUG" ∷ "INFO" ∷ "WARNING" ∷ "ERROR" ∷ "CRITICAL" ∷ [])
    && is_in s.log_format ("text" ∷ "json" ∷ [])

pub database_allowed : DatabaseFields → Bool
database_allowed s =
    is_in s.database_backend ("sqlite" ∷ "postgres" ∷ "custom" ∷ [])
    && within 1 65535 s.database_postgres_port
    && within 1 100 s.database_pool_size
    && within 0 100 s.database_max_overflow
    && within 1 60 s.database_connect_timeout_seconds
    && within 1 30 s.database_health_timeout_seconds

pub sqlite_allowed : SqliteFields → Bool
sqlite_allowed s =
    is_in s.database_sqlite_journal_mode
      ("wal" ∷ "delete" ∷ "truncate" ∷ "persist" ∷ "memory" ∷ "off" ∷ [])
    && is_in s.database_sqlite_synchronous ("off" ∷ "normal" ∷ "full" ∷ "extra" ∷ [])
    && within 0 60000 s.database_sqlite_busy_timeout

pub auth_allowed : AuthFields → Bool
auth_allowed s =
    within 5 86400 s.auth_jwks_cache_ttl_seconds
    && within 0 86400 s.auth_jwks_max_stale_seconds
    && within 0 300 s.auth_clock_skew_seconds
    && within 1 60 s.auth_http_timeout_seconds

pub hardening_allowed : HardeningFields → Bool
hardening_allowed s =
    within 1 300 s.request_timeout
    && within 1024 104857600 s.max_request_body_bytes
    && within 0 63072000 s.security_hsts_max_age_seconds

pub rate_limiting_allowed : RateLimitFields → Bool
rate_limiting_allowed s =
    within 1 10000 s.rate_limit_requests
    && within 1 3600 s.rate_limit_window_seconds
    && is_in s.rate_limit_key_strategy ("ip" ∷ "authorization" ∷ [])
    && is_in s.rate_limit_storage_backend ("memory" ∷ "redis" ∷ [])
    && within 1 65535 s.redis_port
    && within 0 15 s.redis_db

pub caching_allowed : CacheFields → Bool
caching_allowed s =
    is_in s.cache_backend ("memory" ∷ "redis" ∷ [])
    && within 1 86400 s.cache_default_ttl_seconds
    && within 1 1000000 s.cache_max_entries
    && within 0 15 s.cache_redis_db
    && within 1 30 s.cache_health_timeout_seconds

unfoldable pub allowed : Settings → Bool
unfolding server_allowed log_allowed database_allowed sqlite_allowed auth_allowed hardening_allowed
    rate_limiting_allowed caching_allowed
allowed s =
    server_allowed s.server
    && log_allowed s.log
    && database_allowed s.database
    && sqlite_allowed s.sqlite
    && auth_allowed s.auth
    && hardening_allowed s.hardening
    && rate_limiting_allowed s.rate_limiting
    && caching_allowed s.caching
