-- ===== src/Builder/SetupTests.antt =====
-- The theorems on the application that is built at concrete inputs: the clock is a counter beside the state of the
-- auth service, the database answers, the ping of the cache runs out of time, and the provider of keys is down.
use fastapi_chassis.Base.{ℕ, ◌+◌, String, true, some}
use fastapi_chassis.Outcome.{returned, raised, timeout_error, Task}
use fastapi_chassis.Fixtures.Tokens.{jwt_library}
use fastapi_chassis.Settings.Fields.{Settings}
use fastapi_chassis.Settings.Defaults.{defaults, caching_defaults, telemetry_defaults}
use fastapi_chassis.Auth.Jwks.{JwksState, Fetch}
use fastapi_chassis.Tracing
use fastapi_chassis.Builder.Setup.{Checks}
use fastapi_chassis.Builder.Ready.{service_checks}

abbrev State : Type 0
State = JwksState String × ℕ

abbrev tick : State → State × ℕ
tick (auth, n) = ((auth, n + 1), n + 1)

abbrev select_1 : Task State (Unit {0})
select_1 s = (s, returned tt)

abbrev slow_ping : Task State (Unit {0})
slow_ping (auth, n) = ((auth, n + 2000), raised timeout_error)

abbrev provider_down : Fetch String
provider_down = record {
  on_entry = 5;
  meanwhile = λ s. s;
  on_lock = 5;
  answer = raised timeout_error;
  on_answer = 6;
}

abbrev caching : Settings
caching = record defaults {
  caching = record caching_defaults { cache_enabled = true };
  telemetry = record telemetry_defaults { metrics_enabled = true };
}

abbrev checks : Checks State
checks = service_checks jwt_library tick (some select_1) (some slow_ping) provider_down caching true
