-- ===== src/Readiness.antt =====
-- src/app/readiness/registry.py and the two probes in src/app/cache/health.py and
-- src/app/db/health.py. A check is code over the state `S` of the application. `perf_counter` reads
-- the clock of that state, in milliseconds, and the rounding of a latency for display is a parameter.
pub mod Probes
pub mod Run
pub mod Probing
mod Tests
use fastapi_chassis.Base.{ℕ, String, ◌-◌, Bool, true, false, Option, none, some, List, [], ◌∷◌}
use fastapi_chassis.Base.Dict.{Dict, put}
use fastapi_chassis.Outcome.{Outcome, returned, raised, Task, next}
use fastapi_chassis.Starlette.{Json, null, flag, num, text, object, Fields, end, field}

pub record ReadinessCheckResult : Type 0 where
  pub name : String
  pub is_healthy : Bool
  pub detail : String
  pub latency_ms : Option ℕ

abbrev pub ok : String → String → Option ℕ → ReadinessCheckResult
ok name detail latency_ms = record {
  name = name;
  is_healthy = true;
  detail = detail;
  latency_ms = latency_ms;
}

abbrev pub error : String → String → Option ℕ → ReadinessCheckResult
error name detail latency_ms = record {
  name = name;
  is_healthy = false;
  detail = detail;
  latency_ms = latency_ms;
}

abbrev pub latency_json : (ℕ → ℕ) → Option ℕ → Json
latency_json round none = null
latency_json round (some latency) = num (round latency)

unfoldable pub as_payload : (ℕ → ℕ) → Bool → ReadinessCheckResult → Json
as_payload round include_detail r = object (
    field "healthy" (flag r.is_healthy)
      (field "latency_ms" (latency_json round r.latency_ms) (detail_field include_detail)))
  where
    detail_field : Bool → Fields
    detail_field true = field "detail" (text r.detail) end
    detail_field false = end

module _ (S : Type 0) where
  abbrev pub ReadinessCheck : Type 0
  ReadinessCheck = Task S ReadinessCheckResult

  -- the checks by name, in the order of registration
  abbrev pub ReadinessRegistry : Type 0
  ReadinessRegistry = Dict ReadinessCheck

module _ {S : Type 0} where
  unfoldable pub register : String → ReadinessCheck S → ReadinessRegistry S → ReadinessRegistry S
  register name check checks = put name check checks

  module _ (perf_counter : S → S × ℕ) where
    -- `if result.latency_ms is None: result.latency_ms = ...`
    abbrev pub with_latency : ℕ → ReadinessCheckResult → Option ℕ → Task S ReadinessCheckResult
    with_latency started result (some _) s = (s, returned result)
    with_latency started result none s =
        let now = perf_counter s in
        (now.0, returned (record result { latency_ms = some (now.1 - started) }))

    unfoldable pub timed : ℕ → ReadinessCheckResult → Task S ReadinessCheckResult
    timed started result s = with_latency started result result.latency_ms s

    -- one turn of the loop
    unfoldable pub run_check : ReadinessCheck S → Task S ReadinessCheckResult
    unfolding timed
    run_check check s = let started = perf_counter s in next (check started.0) (timed started.1)

    unfoldable pub run : ReadinessRegistry S → Task S (List ReadinessCheckResult)
    unfolding run_check
    run [] s = (s, returned [])
    run ((name, check) ∷ checks) s =
        next (run_check check s)
          (λ result t. next (run checks t) (λ results u. (u, returned (result ∷ results))))
