-- ===== src/Logging/Tests.antt =====
-- Runs of the logging, and its theorems at concrete inputs.
use fastapi_chassis.Base.{ℕ, String, true, false, none, some, [], ◌∷◌, ◌≡◌, refl}
use fastapi_chassis.Base.Text.{starts}
use fastapi_chassis.Base.Text.Search.{occurs}
use fastapi_chassis.Outcome.{Outcome, returned, other_error}
use fastapi_chassis.Logging.Context.{initial, get_request_id, get_correlation_id}
use fastapi_chassis.Logging.Filters.{LogRecord, suppress_endpoints}
use fastapi_chassis.Logging.Scopes.{
  Work, finished, failing, logging, serving, run, scoped, run-eq-scoped,
}
use fastapi_chassis.Logging.Setup.{LoggingConfig}

abbrev says : String → LogRecord
says message = record { message = message; request_id = none; correlation_id = none }

-- A path of the application that holds "/metrics" is held back too.
held_back :
    (suppress_endpoints ("/metrics" ∷ []) (says "GET /metrics HTTP/1.1") ≡ false)
    × (suppress_endpoints ("/metrics" ∷ []) (says "GET /api/metrics-report HTTP/1.1") ≡ false)
    × (suppress_endpoints ("/metrics" ∷ []) (says "GET /api/v1/me HTTP/1.1") ≡ true)
unfolding suppress_endpoints occurs starts
held_back = (refl, refl, refl)

-- A request that serves another, which raises: its record has its own identifiers.
abbrev nested : Work
nested =
    serving "r1" "c1"
      (logging (says "before")
        (serving "r2" "c1" (logging (says "inside") (failing (other_error "down"))) finished))
      finished

run-eq-scoped_example :
    run nested initial
    ≡ (initial, scoped nested (get_request_id initial) (get_correlation_id initial))
run-eq-scoped_example = run-eq-scoped nested initial

inside_has_own :
    (run nested initial).1.0
    ≡ record { message = "before"; request_id = some "r1"; correlation_id = some "c1" }
      ∷ record { message = "inside"; request_id = some "r2"; correlation_id = some "c1" }
      ∷ []
unfolding run get_request_id get_correlation_id
inside_has_own = refl

-- a configuration whose handler names a formatter that is not there, and which is accepted
abbrev file : LoggingConfig ℕ
file = record {
  formatters = [];
  handlers = ("console", record { formatter = some "missing"; others = 7 }) ∷ [];
  others = 0;
}

abbrev load : String → Outcome (LoggingConfig ℕ)
load path = returned file

abbrev accept : LoggingConfig ℕ → Outcome (Unit {0})
accept config = returned tt
