-- ===== src/Builder/Ready.antt =====
-- What the application that `create_app` of src/app/__init__.py builds answers on readiness, with the checks of
-- src/app/db/health.py, src/app/auth/service.py and src/app/cache/health.py. The state is that of the auth service with
-- the rest of the process.
use fastapi_chassis.Base.{ℕ, String, Bool, Option, List, [], ◌∷◌, if◌then◌else◌, ◌≡◌}
use fastapi_chassis.Outcome.{Outcome, returned, raised, other_error, Task}
use fastapi_chassis.Settings.Fields.{Settings}
use fastapi_chassis.Readiness.{ReadinessCheckResult, ReadinessCheck}
use fastapi_chassis.Readiness.Probes.{check_cache_readiness, check_database_readiness}
use fastapi_chassis.Auth.Jwks.{Jwks, JwksState, Fetch}
use fastapi_chassis.Auth.Service.{JwtLibrary}
use fastapi_chassis.Auth.Ready.{auth_readiness}
use fastapi_chassis.Builder.Setup.{
  Application, Checks, ready, setup_settings, setup_database, setup_auth, setup_cache, new_app,
}

-- what the lifespan sets
abbrev pub placeholders : List String
placeholders = "db_engine" ∷ "db_session_factory" ∷ "auth_service" ∷ "cache_store" ∷ []

-- AttributeError
abbrev pub no_service : String
no_service = "'NoneType' object has no attribute 'readiness_check'"

module _ (jwt : JwtLibrary) where
  open jwt use {Data}

  abbrev Returns : JwksState Data × Outcome ReadinessCheckResult → Type 0
  Returns o = (t : JwksState Data) × (r : ReadinessCheckResult) × (o ≡ (t, returned r))

  module _ {World : Type 0} (perf_counter : JwksState Data × World → (JwksState Data × World) × ℕ)
      (select_1 ping : Option (Task (JwksState Data × World) (Unit {0}))) (f : Fetch Data)
      (s : Settings) (has_service : Bool) where
    -- `auth_readiness_check` of `setup_auth`, on the part of the state that the auth service keeps. There is no service on
    -- the state of the application until the lifespan has made it.
    unfoldable pub auth_readiness_check : ReadinessCheck (JwksState Data × World)
    auth_readiness_check (auth_service, world) =
        let (left, outcome) = auth_readiness jwt s.auth f auth_service in
        if has_service
        then ((left, world), outcome)
        else ((auth_service, world), raised (other_error no_service))

    abbrev pub service_checks : Checks (JwksState Data × World)
    service_checks = record {
      database = check_database_readiness perf_counter select_1;
      auth = auth_readiness_check;
      cache = check_cache_readiness perf_counter ping;
    }

    -- The checks in the order in which they run, with the cache's if caching is on.
    abbrev pub registered : Bool → List (String × ReadinessCheck (JwksState Data × World))
    registered caching =
        ("application", ready service_checks s)
        ∷ ("database", check_database_readiness perf_counter select_1)
        ∷ ("auth", auth_readiness_check)
        ∷ (if caching then ("cache", check_cache_readiness perf_counter ping) ∷ [] else [])

    -- the application after `setup_settings`, `setup_database`, `setup_auth` and `setup_cache`
    abbrev wired : Application (JwksState Data × World)
    wired = setup_cache service_checks s (
        setup_auth service_checks s (
          setup_database service_checks s
            (setup_settings service_checks s (new_app service_checks s))))
