-- ===== src/Readiness/Probes.antt =====
-- src/app/cache/health.py and src/app/db/health.py. The time limit of asyncio and the ping of the store or
-- of the database are parameters.
use Prim.Native.String.{◌++◌}
use fastapi_chassis.Base.{ℕ, String, ◌-◌, Option, none, some}
use fastapi_chassis.Outcome.{
  Outcome, returned, raised, Task, Exn, authentication_error, invalid_token, http_exception,
  timeout_error, other_error,
}
use fastapi_chassis.Readiness.{ReadinessCheckResult, ok, error}

-- `str(exc)`
abbrev pub exn_text : Exn → String
exn_text (authentication_error e) = e
exn_text (invalid_token e) = e
exn_text (http_exception status detail _) = detail
exn_text timeout_error = ""
exn_text (other_error e) = e

abbrev pub cache_failure : Exn → ℕ → ReadinessCheckResult
cache_failure timeout_error latency_ms =
    error "cache" "Timed out while checking cache connectivity" (some latency_ms)
cache_failure e latency_ms = error "cache" ("Cache check failed: " ++ exn_text e) (some latency_ms)

abbrev pub database_failure : Exn → ℕ → ReadinessCheckResult
database_failure timeout_error latency_ms =
    error "database" "Timed out while checking database connectivity" (some latency_ms)
database_failure e latency_ms =
    error "database" ("Database check failed: " ++ exn_text e) (some latency_ms)

module _ {S : Type 0} (perf_counter : S → S × ℕ) where
  -- the result after an attempt, with the time since `started`
  abbrev pub reported :
      ℕ
      → (Exn → ℕ → ReadinessCheckResult)
      → (ℕ → ReadinessCheckResult)
      → S × Outcome (Unit {0})
      → S × Outcome ReadinessCheckResult
  reported started failure success (s, returned _) =
      let now = perf_counter s in (now.0, returned (success (now.1 - started)))
  reported started failure success (s, raised e) =
      let now = perf_counter s in (now.0, returned (failure e (now.1 - started)))

  -- The argument is the ping of the store under the time limit, or `none` if there is no store.
  unfoldable pub check_cache_readiness : Option (Task S (Unit {0})) → Task S ReadinessCheckResult
  check_cache_readiness none s = (s, returned (error "cache" "Cache store not initialized" none))
  check_cache_readiness (some ping) s =
      let started = perf_counter s in
      reported started.1 cache_failure (λ latency_ms. ok "cache" "ok" (some latency_ms))
        (ping started.0)

  -- The argument is `SELECT 1` on a connection under the time limit, or `none` if there is no engine.
  unfoldable pub check_database_readiness : Option (Task S (Unit {0})) → Task S ReadinessCheckResult
  check_database_readiness none s =
      (s, returned (error "database" "Database engine not initialized" none))
  check_database_readiness (some select_1) s =
      let started = perf_counter s in
      reported started.1 database_failure (λ latency_ms. ok "database" "ok" (some latency_ms))
        (select_1 started.0)
