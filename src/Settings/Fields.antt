-- ===== src/Settings/Fields.antt =====
-- The fields of class Settings in src/app/settings.py, one record for each commented group, see
-- Defaults for their values. A signed number is a sign, true for minus, with a magnitude.
use fastapi_chassis.Base.{ℕ, String, Bool, List}

-- Application Metadata
pub record AppFields : Type 0 where
  pub app_name : String
  pub app_version : String
  pub app_description : String
  pub debug : Bool
  pub docs_enabled : Bool
  pub redoc_enabled : Bool
  pub openapi_enabled : Bool

-- Server Configuration
pub record ServerFields : Type 0 where
  pub host : String
  pub port : ℕ

-- Logging
pub record LogFields : Type 0 where
  pub log_level : String
  pub log_format : String
  pub log_text_template : String
  pub log_date_format : String
  pub logging_config_path : String
  pub log_redact_headers : Bool

-- Database
pub record DatabaseFields : Type 0 where
  pub database_backend : String
  pub database_sqlite_path : String
  pub database_postgres_host : String
  pub database_postgres_port : ℕ
  pub database_postgres_name : String
  pub database_postgres_user : String
  pub database_postgres_password : String
  pub database_url : String
  pub alembic_database_url : String
  pub database_echo : Bool
  pub database_pool_size : ℕ
  pub database_max_overflow : ℕ
  pub database_pool_pre_ping : Bool
  pub database_connect_timeout_seconds : ℕ
  pub database_health_timeout_seconds : ℕ

-- SQLite production pragmas
pub record SqliteFields : Type 0 where
  pub database_sqlite_journal_mode : String
  pub database_sqlite_synchronous : String
  pub database_sqlite_busy_timeout : ℕ
  pub database_sqlite_cache_size : Bool × ℕ
  pub database_sqlite_mmap_size : ℕ
  pub database_sqlite_foreign_keys : Bool

-- Stateless JWT resource-server auth
pub record AuthFields : Type 0 where
  pub auth_enabled : Bool
  pub auth_jwt_issuer : String
  pub auth_jwt_audience : String
  pub auth_jwt_algorithms : List String
  pub auth_jwt_secret : String
  pub auth_jwt_public_key : String
  pub auth_jwks_url : String
  pub auth_require_exp : Bool
  pub auth_require_issuer : Bool
  pub auth_require_audience : Bool
  pub auth_jwks_cache_ttl_seconds : ℕ
  pub auth_jwks_max_stale_seconds : ℕ
  pub auth_require_warmup : Bool
  pub auth_clock_skew_seconds : ℕ
  pub auth_http_timeout_seconds : ℕ

-- CORS
pub record CorsFields : Type 0 where
  pub cors_allowed_origins : List String
  pub cors_allow_credentials : Bool
  pub cors_allowed_methods : List String
  pub cors_allowed_headers : List String
  pub cors_expose_headers : List String

-- Middleware and request hardening
pub record HardeningFields : Type 0 where
  pub request_timeout : ℕ
  pub max_request_body_bytes : ℕ
  pub trusted_hosts : List String
  pub security_headers_enabled : Bool
  pub security_hsts_enabled : Bool
  pub security_hsts_max_age_seconds : ℕ
  pub security_referrer_policy : String
  pub security_permissions_policy : String
  pub security_content_security_policy : String
  pub security_trust_proxy_proto_header : Bool
  pub security_trusted_proxies : List String

-- Metrics and tracing
pub record TelemetryFields : Type 0 where
  pub metrics_enabled : Bool
  pub metrics_prefix : String
  pub otel_enabled : Bool
  pub otel_service_name : String
  pub otel_service_version : String
  pub otel_environment : String
  pub otel_exporter_otlp_endpoint : String
  pub otel_exporter_otlp_headers : String

-- Health and readiness
pub record HealthFields : Type 0 where
  pub health_check_path : String
  pub readiness_check_path : String
  pub readiness_include_details : Bool

-- Utility endpoints
pub record UtilityFields : Type 0 where
  pub info_endpoint_enabled : Bool
  pub endpoints_listing_enabled : Bool

-- Rate limiting
pub record RateLimitFields : Type 0 where
  pub rate_limit_enabled : Bool
  pub rate_limit_requests : ℕ
  pub rate_limit_window_seconds : ℕ
  pub rate_limit_key_strategy : String
  pub rate_limit_storage_url : String
  pub rate_limit_storage_backend : String
  pub redis_host : String
  pub redis_port : ℕ
  pub redis_db : ℕ
  pub redis_password : String
  pub rate_limit_trust_proxy_headers : Bool
  pub rate_limit_proxy_headers : List String
  pub rate_limit_trusted_proxies : List String

-- Cache
pub record CacheFields : Type 0 where
  pub cache_enabled : Bool
  pub cache_backend : String
  pub cache_default_ttl_seconds : ℕ
  pub cache_max_entries : ℕ
  pub cache_key_prefix : String
  pub cache_redis_db : ℕ
  pub cache_storage_url : String
  pub cache_health_timeout_seconds : ℕ

pub record Settings : Type 0 where
  pub app : AppFields
  pub open app use *
  pub server : ServerFields
  pub open server use *
  pub log : LogFields
  pub open log use *
  pub database : DatabaseFields
  pub open database use *
  pub sqlite : SqliteFields
  pub open sqlite use *
  pub auth : AuthFields
  pub open auth use *
  pub cors : CorsFields
  pub open cors use *
  pub hardening : HardeningFields
  pub open hardening use *
  pub telemetry : TelemetryFields
  pub open telemetry use *
  pub health : HealthFields
  pub open health use *
  pub utility : UtilityFields
  pub open utility use *
  pub rate_limiting : RateLimitFields
  pub open rate_limiting use *
  pub caching : CacheFields
  pub open caching use *
