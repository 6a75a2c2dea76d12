-- ===== src/Readiness/Probing.antt =====
-- The probes of src/app/cache/health.py and src/app/db/health.py always return a result.
use fastapi_chassis.Base.{ℕ, ◌≡◌, refl, Bool, true, false, Option, none, some}
use fastapi_chassis.Outcome.{
  Outcome, returned, raised, Task, authentication_error, invalid_token, http_exception,
  timeout_error, other_error,
}
use fastapi_chassis.Readiness.{ReadinessCheckResult, ok}
use fastapi_chassis.Readiness.Probes.{
  check_cache_readiness, check_database_readiness, reported, cache_failure, database_failure,
}

abbrev returns : Outcome (Unit {0}) → Bool
returns (returned _) = true
returns (raised _) = false

-- whether an attempt is there and returns from a state
abbrev pub succeeds : {S : Type 0} → Option (Task S (Unit {0})) → S → Bool
succeeds none s = false
succeeds (some attempt) s = returns (attempt s).1

module _ {S : Type 0} (perf_counter : S → S × ℕ) where
  -- A result comes out of a run, and it is healthy exactly in one case.
  abbrev Gives : S × Outcome ReadinessCheckResult → Bool → Type 0
  Gives o healthy =
      (t : S) × (r : ReadinessCheckResult) × (o ≡ (t, returned r)) × (r.is_healthy ≡ healthy)

  cache_failure-Gives :
      (started : ℕ) (o : S × Outcome (Unit {0}))
      → Gives
          (reported perf_counter started cache_failure (λ l. ok "cache" "ok" (some l)) o)
          (returns o.1)
  cache_failure-Gives started (s, returned _) = (_, _, refl, refl)
  cache_failure-Gives started (s, raised timeout_error) = (_, _, refl, refl)
  cache_failure-Gives started (s, raised (authentication_error e)) = (_, _, refl, refl)
  cache_failure-Gives started (s, raised (invalid_token e)) = (_, _, refl, refl)
  cache_failure-Gives started (s, raised (http_exception c d hs)) = (_, _, refl, refl)
  cache_failure-Gives started (s, raised (other_error e)) = (_, _, refl, refl)

  database_failure-Gives :
      (started : ℕ) (o : S × Outcome (Unit {0}))
      → Gives
          (reported perf_counter started database_failure (λ l. ok "database" "ok" (some l)) o)
          (returns o.1)
  database_failure-Gives started (s, returned _) = (_, _, refl, refl)
  database_failure-Gives started (s, raised timeout_error) = (_, _, refl, refl)
  database_failure-Gives started (s, raised (authentication_error e)) = (_, _, refl, refl)
  database_failure-Gives started (s, raised (invalid_token e)) = (_, _, refl, refl)
  database_failure-Gives started (s, raised (http_exception c d hs)) = (_, _, refl, refl)
  database_failure-Gives started (s, raised (other_error e)) = (_, _, refl, refl)

  check_cache_readiness-Gives :
      (ping : Option (Task S (Unit {0}))) (s : S)
      → Gives (check_cache_readiness perf_counter ping s) (succeeds ping (perf_counter s).0)
  unfolding check_cache_readiness
  check_cache_readiness-Gives none s = (_, _, refl, refl)
  check_cache_readiness-Gives (some ping) s =
      cache_failure-Gives (perf_counter s).1 (ping (perf_counter s).0)

  check_database_readiness-Gives :
      (select_1 : Option (Task S (Unit {0}))) (s : S)
      → Gives
          (check_database_readiness perf_counter select_1 s)
          (succeeds select_1 (perf_counter s).0)
  unfolding check_database_readiness
  check_database_readiness-Gives none s = (_, _, refl, refl)
  check_database_readiness-Gives (some select_1) s =
      database_failure-Gives (perf_counter s).1 (select_1 (perf_counter s).0)

  -- Whatever the store and the database do, timeouts and other exceptions included, both probes
  -- return a result, and it is healthy exactly if there is a store or an engine and its ping returned.
  pub probes_total :
      (ping select_1 : Option (Task S (Unit {0}))) (s : S)
      → ((t : S) × (r : ReadinessCheckResult) × (check_cache_readiness perf_counter ping s
            ≡ (t, returned r))
          × (r.is_healthy ≡ succeeds ping (perf_counter s).0))
        × ((t : S) × (r : ReadinessCheckResult) × (check_database_readiness perf_counter select_1 s
              ≡ (t, returned r))
            × (r.is_healthy ≡ succeeds select_1 (perf_counter s).0))
  probes_total ping select_1 s =
      (check_cache_readiness-Gives ping s, check_database_readiness-Gives select_1 s)
