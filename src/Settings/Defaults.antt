-- ===== src/Settings/Defaults.antt =====
-- The default values of the fields of class Settings in src/app/settings.py.
use fastapi_chassis.Base.{true, false, [], ◌∷◌}
use fastapi_chassis.Settings.Fields.{
  AppFields, ServerFields, LogFields, DatabaseFields, SqliteFields, AuthFields, CorsFields,
  HardeningFields, TelemetryFields, HealthFields, UtilityFields, RateLimitFields, CacheFields,
  Settings,
}

abbrev pub app_defaults : AppFields
app_defaults = record {
  app_name = "FastAPI Chassis";
  app_version = "1.0.0";
  app_description = "Production-ready FastAPI template with Builder pattern configuration";
  debug = false;
  docs_enabled = false;
  redoc_enabled = false;
  openapi_enabled = false;
}

abbrev pub server_defaults : ServerFields
server_defaults = record { host = "127.0.0.1"; port = 8000 }

abbrev pub log_defaults : LogFields
log_defaults = record {
  log_level = "INFO";
  log_format = "text";
  log_text_template =
      "%(asctime)s | %(levelname)-8s | %(name)s | request_id=%(request_id)s | correlation_id=%(correlation_id)s | %(module)s:%(funcName)s:%(lineno)d | %(message)s";
  log_date_format = "%Y-%m-%d %H:%M:%S";
  logging_config_path = "";
  log_redact_headers = false;
}

abbrev pub database_defaults : DatabaseFields
database_defaults = record {
  database_backend = "sqlite";
  database_sqlite_path = "./data/app.db";
  database_postgres_host = "postgres";
  database_postgres_port = 5432;
  database_postgres_name = "fastapi_chassis";
  database_postgres_user = "fastapi";
  database_postgres_password = "";
  database_url = "";
  alembic_database_url = "";
  database_echo = false;
  database_pool_size = 5;
  database_max_overflow = 10;
  database_pool_pre_ping = true;
  database_connect_timeout_seconds = 5;
  database_health_timeout_seconds = 2;
}

abbrev pub sqlite_defaults : SqliteFields
sqlite_defaults = record {
  database_sqlite_journal_mode = "wal";
  database_sqlite_synchronous = "normal";
  database_sqlite_busy_timeout = 5000;
  database_sqlite_cache_size = (true, 64000);
  database_sqlite_mmap_size = 0;
  database_sqlite_foreign_keys = true;
}

abbrev pub auth_defaults : AuthFields
auth_defaults = record {
  auth_enabled = false;
  auth_jwt_issuer = "";
  auth_jwt_audience = "";
  auth_jwt_algorithms = "HS256" ∷ [];
  auth_jwt_secret = "";
  auth_jwt_public_key = "";
  auth_jwks_url = "";
  auth_require_exp = true;
  auth_require_issuer = true;
  auth_require_audience = true;
  auth_jwks_cache_ttl_seconds = 300;
  auth_jwks_max_stale_seconds = 3600;
  auth_require_warmup = false;
  auth_clock_skew_seconds = 30;
  auth_http_timeout_seconds = 5;
}

abbrev pub cors_defaults : CorsFields
cors_defaults = record {
  cors_allowed_origins = "http://localhost:3000" ∷ "http://127.0.0.1:3000" ∷ [];
  cors_allow_credentials = false;
  cors_allowed_methods = "GET" ∷ "POST" ∷ "PUT" ∷ "PATCH" ∷ "DELETE" ∷ "OPTIONS" ∷ [];
  cors_allowed_headers =
      "Authorization" ∷ "Content-Type" ∷ "X-Request-ID" ∷ "X-Correlation-ID" ∷ [];
  cors_expose_headers = "X-Request-ID" ∷ "X-Correlation-ID" ∷ "X-RateLimit-Remaining" ∷ [];
}

abbrev pub hardening_defaults : HardeningFields
hardening_defaults = record {
  request_timeout = 30;
  max_request_body_bytes = 5242880;
  trusted_hosts = "localhost" ∷ "127.0.0.1" ∷ "test" ∷ "testserver" ∷ [];
  security_headers_enabled = true;
  security_hsts_enabled = false;
  security_hsts_max_age_seconds = 31536000;
  security_referrer_policy = "no-referrer";
  security_permissions_policy = "geolocation=(), camera=(), microphone=()";
  security_content_security_policy = "default-src 'none'; frame-ancestors 'none'";
  security_trust_proxy_proto_header = false;
  security_trusted_proxies = [];
}

abbrev pub telemetry_defaults : TelemetryFields
telemetry_defaults = record {
  metrics_enabled = false;
  metrics_prefix = "http";
  otel_enabled = false;
  otel_service_name = "";
  otel_service_version = "";
  otel_environment = "development";
  otel_exporter_otlp_endpoint = "http://localhost:4318/v1/traces";
  otel_exporter_otlp_headers = "";
}

abbrev pub health_defaults : HealthFields
health_defaults = record {
  health_check_path = "/healthcheck";
  readiness_check_path = "/ready";
  readiness_include_details = false;
}

abbrev pub utility_defaults : UtilityFields
utility_defaults = record { info_endpoint_enabled = false; endpoints_listing_enabled = false }

abbrev pub rate_limiting_defaults : RateLimitFields
rate_limiting_defaults = record {
  rate_limit_enabled = false;
  rate_limit_requests = 100;
  rate_limit_window_seconds = 60;
  rate_limit_key_strategy = "ip";
  rate_limit_storage_url = "";
  rate_limit_storage_backend = "memory";
  redis_host = "redis";
  redis_port = 6379;
  redis_db = 0;
  redis_password = "";
  rate_limit_trust_proxy_headers = false;
  rate_limit_proxy_headers = "X-Forwarded-For" ∷ "X-Real-IP" ∷ [];
  rate_limit_trusted_proxies = [];
}

abbrev pub caching_defaults : CacheFields
caching_defaults = record {
  cache_enabled = false;
  cache_backend = "memory";
  cache_default_ttl_seconds = 300;
  cache_max_entries = 10000;
  cache_key_prefix = "cache:";
  cache_redis_db = 1;
  cache_storage_url = "";
  cache_health_timeout_seconds = 2;
}

-- `Settings()` before validation, with no environment
abbrev pub defaults : Settings
defaults = record {
  app = app_defaults;
  server = server_defaults;
  log = log_defaults;
  database = database_defaults;
  sqlite = sqlite_defaults;
  auth = auth_defaults;
  cors = cors_defaults;
  hardening = hardening_defaults;
  telemetry = telemetry_defaults;
  health = health_defaults;
  utility = utility_defaults;
  rate_limiting = rate_limiting_defaults;
  caching = caching_defaults;
}
