-- ===== src/Builder/Setup.antt =====
-- The other methods of FastAPIAppBuilder in src/app/app_builder.py, and `create_app` of src/app/__init__.py, as
-- functions of the application that is built. The checks that are registered are arguments, and so is how the
-- set-up of logging, tracing and metrics ends; for the metrics a missing package is no error. Log messages are left
-- out.
use fastapi_chassis.Base.{String, Bool, not, none, some, List, [], ◌∷◌, ◌++◌, map, if◌then◌else◌}
use fastapi_chassis.Outcome.{Outcome, returned, ◌>>=◌}
use fastapi_chassis.Settings.Fields.{Settings}
use fastapi_chassis.Readiness.{ReadinessCheck, ReadinessRegistry, register, ok}
use fastapi_chassis.Routes.Health.{AppAttributes, create_health_router}
use fastapi_chassis.Tracing.{TracingState, Event, configure_tracing, instrument_fastapi_app}

-- The middleware classes, in Starlette's sense: the last one added is the outermost.
pub data Middleware : Type 0 where
  prometheus : List String → Middleware
  timeout body_size_limit rate_limit request_id request_logging : Middleware
  security_headers trusted_host cors : Middleware

-- The exceptions that have a handler.
pub data Handled : Type 0 where
  validation_errors http_exceptions other_exceptions : Handled

-- `unset` names the attributes of `app.state` that are None until the lifespan sets them.
pub record Application (S : Type 0) : Type 0 where
  pub attributes : AppAttributes
  pub unset : List String
  pub readiness_registry : ReadinessRegistry S
  pub middleware : List Middleware
  pub handlers : List Handled
  pub routes : List String

abbrev pub metrics_path : String
metrics_path = "/metrics"

-- the routes of src/app/routes/api.py
abbrev pub api_routes : List String
api_routes = "/api/v1/me" ∷ "/api/v1/reports" ∷ "/api/v1/admin" ∷ "/api/v1/cached-time" ∷ []

-- What readiness is asked of: `check_database_readiness`, the check of the auth service, `check_cache_readiness`.
pub record Checks (S : Type 0) : Type 0 where
  pub database : ReadinessCheck S
  pub auth : ReadinessCheck S
  pub cache : ReadinessCheck S

module _ {S : Type 0} (c : Checks S) (s : Settings) where
  -- `_ready`
  unfoldable pub ready : ReadinessCheck S
  ready t = (t, returned (ok "application" "ok" none))

  -- `FastAPI(…)` in `__init__`
  unfoldable pub new_app : Application S
  new_app = record {
    attributes = record {
      title = s.app_name;
      version = s.app_version;
      docs_url = if s.docs_enabled then some "/docs" else none;
      redoc_url = if s.redoc_enabled then some "/redoc" else none;
      openapi_url = if s.openapi_enabled then some "/openapi.json" else none;
    };
    unset = [];
    readiness_registry = [];
    middleware = [];
    handlers = [];
    routes = [];
  }

  unfoldable pub setup_settings : Application S → Application S
  unfolding ready
  setup_settings app = record app { readiness_registry = register "application" ready [] }

  unfoldable pub setup_database : Application S → Application S
  setup_database app = record app {
    unset = app.unset ++ ("db_engine" ∷ "db_session_factory" ∷ []);
    readiness_registry = register "database" c.database app.readiness_registry;
  }

  unfoldable pub setup_auth : Application S → Application S
  setup_auth app = record app {
    unset = app.unset ++ ("auth_service" ∷ []);
    readiness_registry = register "auth" c.auth app.readiness_registry;
  }

  unfoldable pub setup_cache : Application S → Application S
  setup_cache app = record app {
    unset = app.unset ++ ("cache_store" ∷ []);
    readiness_registry =
        if s.cache_enabled
        then register "cache" c.cache app.readiness_registry
        else app.readiness_registry;
  }

  abbrev pub with_metrics : Application S → Application S
  with_metrics app = record app {
    middleware =
        app.middleware
        ++ (prometheus (s.health_check_path ∷ s.readiness_check_path ∷ metrics_path ∷ []) ∷ []);
    routes = app.routes ++ (metrics_path ∷ []);
  }

  -- `returned false` is ImportError, which is caught, and any other exception is raised again.
  unfoldable pub setup_metrics : Outcome Bool → Application S → Outcome (Application S)
  setup_metrics installed app =
      if not s.metrics_enabled
      then returned app
      else installed >>= λ found. returned (if found then with_metrics app else app)

  unfoldable pub setup_error_handlers : Application S → Application S
  setup_error_handlers app = record app {
    handlers = validation_errors ∷ http_exceptions ∷ other_exceptions ∷ [];
  }

  unfoldable pub setup_routes : Application S → Application S
  setup_routes app = record app {
    routes = app.routes ++ (map (λ r. r.0) (create_health_router s) ++ api_routes);
  }

  unfoldable pub add_middleware : Application S → Application S
  add_middleware app = record app {
    middleware =
        app.middleware
        ++ (timeout
            ∷ body_size_limit
            ∷ ((if s.rate_limit_enabled then rate_limit ∷ [] else [])
                ++ (request_id
                    ∷ request_logging
                    ∷ ((if s.security_headers_enabled then security_headers ∷ [] else [])
                        ++ (trusted_host ∷ cors ∷ [])))));
  }

  -- The builder's chain in `create_app`: the set-ups of logging, tracing and metrics may raise.
  unfoldable pub create_app :
      Outcome String
      → Outcome (Unit {0})
      → Outcome Bool
      → TracingState
      → Outcome (Application S × (TracingState × List Event))
  unfolding new_app setup_settings setup_database setup_auth setup_cache setup_metrics
      setup_error_handlers setup_routes add_middleware
  create_app setup_logging setup_tracing metrics_installed tracing = setup_logging >>= λ _.
      setup_tracing >>= λ _.
      setup_metrics metrics_installed
        (setup_cache (setup_auth (setup_database (setup_settings new_app))))
      >>= λ app.
          let (configured, events) = configure_tracing s tracing in
          returned (
            add_middleware (setup_routes (setup_error_handlers app)),
            (configured, events ++ instrument_fastapi_app s),
          )
