-- ===== src/Settings/Tests.antt =====
-- Tests on the settings of src/app/settings.py, and concrete uses of the theorems about them.
use fastapi_chassis.Base.{true, ◌≡◌, refl}
use fastapi_chassis.Base.Text.{starts}
use fastapi_chassis.Fixtures.{addresses}
use fastapi_chassis.Fixtures.Configuration.{bundled, with_auth, accepted, with_auth-accepted}
use fastapi_chassis.Settings.Result.{ok, value_error}
use fastapi_chassis.Settings.Defaults.{defaults, auth_defaults, database_defaults}
use fastapi_chassis.Settings.Constraints.{allowed}
use fastapi_chassis.Settings.Resolve.{derive_database_url, resolve_database_defaults}
use fastapi_chassis.Settings.Validate.{
  resolve_paths_and_defaults, resolve, check_all, validate_auth_settings, validate_enabled_auth,
}
use fastapi_chassis.Settings.Accepted.{IsAccepted, resolve_paths_and_defaults-IsAccepted}

defaults-allowed : allowed defaults ≡ true
unfolding allowed
defaults-allowed = refl

short_secret :
    resolve_paths_and_defaults addresses bundled (record defaults {
      auth = record auth_defaults { auth_enabled = true; auth_jwt_secret = "short" };
    })
    ≡ value_error "auth_jwt_secret must be at least 32 characters when HS* algorithms are enabled"
unfolding resolve_paths_and_defaults resolve resolve_database_defaults starts check_all
    validate_auth_settings validate_enabled_auth
short_secret = refl

resolve_paths_and_defaults-IsAccepted_example : IsAccepted addresses accepted
resolve_paths_and_defaults-IsAccepted_example =
    resolve_paths_and_defaults-IsAccepted addresses bundled with_auth accepted with_auth-accepted

default_url : derive_database_url database_defaults ≡ ok "sqlite+aiosqlite:///./data/app.db"
unfolding derive_database_url
default_url = refl
