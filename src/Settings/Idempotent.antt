-- ===== src/Settings/Idempotent.antt =====
-- Running the resolvers of src/app/settings.py on settings that they resolved changes nothing.
use fastapi_chassis.Base.{String, true, false, ◌||◌, ◌==◌, ◌≡◌}
use fastapi_chassis.Base.Text.{is_true}
use fastapi_chassis.Settings.Fields.{Settings, DatabaseFields}
use fastapi_chassis.Settings.Resolve.{
  resolve_logging_defaults, resolve_otel_defaults, resolve_rate_limit_storage_defaults,
  resolve_cache_storage_defaults, default_csp, resolve_csp_for_docs,
}

-- the settings that `resolve` returns, over resolved database settings
abbrev resolved : String → Settings → DatabaseFields → Settings
resolved bundled s d = record s {
  log = resolve_logging_defaults bundled s.log;
  database = d;
  telemetry = resolve_otel_defaults s.app s.telemetry;
  rate_limiting = resolve_rate_limit_storage_defaults s.rate_limiting;
  caching = resolve_cache_storage_defaults s.rate_limiting s.caching;
  hardening = resolve_csp_for_docs s.app s.hardening;
}

-- What the resolvers give: the URLs of the database and the path of the logging file are there, and so are the URL of
-- each store that is in Redis and, if the application has them, the name and the version for tracing; and if
-- a page of documentation is on, the policy for the content is not the default one, which blocks it.
pub record IsDerived (t : Settings) : Type 0 where
  pub logging_file : is_true t.log.logging_config_path ≡ true
  pub database : is_true t.database.database_url ≡ true
  pub alembic : is_true t.database.alembic_database_url ≡ true
  pub service_name : is_true t.app.app_name ≡ true → is_true t.telemetry.otel_service_name ≡ true
  pub service_version :
      is_true t.app.app_version ≡ true → is_true t.telemetry.otel_service_version ≡ true
  pub limits :
      (t.rate_limiting.rate_limit_storage_backend == "redis") ≡ true
      → is_true t.rate_limiting.rate_limit_storage_url ≡ true
  pub cache :
      (t.caching.cache_backend == "redis") ≡ true → is_true t.caching.cache_storage_url ≡ true
  pub documentation :
      (t.app.docs_enabled || t.app.redoc_enabled) ≡ true
      → (t.hardening.security_content_security_policy == default_csp) ≡ false
