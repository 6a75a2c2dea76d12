-- ===== src/Fixtures/Configuration.antt =====
-- Settings that turn authentication on, before and after the validators of src/app/settings.py.
use fastapi_chassis.Base.{String, true, ◌≡◌, refl}
use fastapi_chassis.Base.Text.{starts, drop_text}
use fastapi_chassis.Fixtures.{addresses}
use fastapi_chassis.Settings.Result.{ok}
use fastapi_chassis.Settings.Resolve.{
  resolve_database_defaults, resolve_rate_limit_storage_defaults, resolve_csp_for_docs,
  resolve_logging_defaults, resolve_otel_defaults, resolve_cache_storage_defaults,
}
use fastapi_chassis.Settings.Validate.{
  resolve_paths_and_defaults, resolve, check_all, validate_auth_settings, validate_enabled_auth,
  validate_proxy_settings, validate_cors_credentials, validate_health_paths,
}
use fastapi_chassis.Settings.Fields.{Settings}
use fastapi_chassis.Settings.Defaults.{defaults, auth_defaults, database_defaults}

abbrev pub bundled : String
bundled = "/app/log_config/config.json"

abbrev pub with_auth : Settings
with_auth = record defaults {
  auth = record auth_defaults {
    auth_enabled = true;
    auth_jwt_secret = "0123456789abcdef0123456789abcdef";
    auth_jwt_issuer = "https://issuer";
    auth_jwt_audience = "api";
  };
}

abbrev pub accepted : Settings
accepted = record with_auth {
  log = record with_auth.log { logging_config_path = bundled };
  database = record database_defaults {
    database_url = "sqlite+aiosqlite:///./data/app.db";
    alembic_database_url = "sqlite:///./data/app.db";
  };
  telemetry = record with_auth.telemetry {
    otel_service_name = "FastAPI Chassis";
    otel_service_version = "1.0.0";
  };
}

pub with_auth-accepted : resolve_paths_and_defaults addresses bundled with_auth ≡ ok accepted
unfolding resolve_paths_and_defaults resolve resolve_database_defaults starts check_all
    validate_auth_settings validate_enabled_auth validate_proxy_settings
    resolve_rate_limit_storage_defaults resolve_csp_for_docs validate_cors_credentials
    validate_health_paths resolve_logging_defaults drop_text resolve_otel_defaults
    resolve_cache_storage_defaults
with_auth-accepted = refl
