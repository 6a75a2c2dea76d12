-- ===== src/Routes/Ready.antt =====
-- When the readiness endpoint of src/app/routes/health.py says that the application is ready.
use fastapi_chassis.Base.{
  ℕ, ◌≡◌, refl, ap, Bool, true, All, all, List, [], ◌∷◌, ◌↔◌, ◌⊎◌, inl, inr, arith, Bool-cases,
}
use fastapi_chassis.Outcome.{returned, next}
use fastapi_chassis.Readiness.{ReadinessCheckResult, ReadinessRegistry}
use fastapi_chassis.Readiness.Run.{Results, run-Results, run_total, IsTotal}
use fastapi_chassis.Routes.Health.{readiness_response, readiness_check}

abbrev pub AllHealthy : List ReadinessCheckResult → Type 0
AllHealthy results = All (λ r. r.is_healthy ≡ true) results

all-AllHealthy :
    (results : List ReadinessCheckResult)
    → (all (λ r. r.is_healthy) results ≡ true) ↔ AllHealthy results
all-AllHealthy [] = ((λ h. tt), (λ h. refl))
all-AllHealthy (r ∷ rs) = let (f, g) = all-AllHealthy rs in ground (arith, f, g)

status_lem :
    (round : ℕ → ℕ) (details : Bool) (results : List ReadinessCheckResult)
    → ((AllHealthy results) × ((readiness_response round details results).status_code ≡ 200))
      ⊎ ((AllHealthy results → ⊥) × ((readiness_response round details results).status_code ≡ 503))
unfolding readiness_response
status_lem round details results = elim (Bool-cases (all (λ r. r.is_healthy) results)) [
  | inl e ↦ inl ((all-AllHealthy results).0 e, rw (e) refl)
  | inr e ↦ inr ((λ h. ground (arith, e, (all-AllHealthy results).1 h)), rw (e) refl)
]

-- If every registered check returns a result in every state then the readiness endpoint answers: it
-- runs each check once, in the order of registration, and the status is 200 if all results are
-- healthy, and 503 if not.
pub readiness_check-answers :
    {S : Type 0} (perf_counter : S → S × ℕ) (round : ℕ → ℕ) (details : Bool)
    (registry : ReadinessRegistry S) (s : S)
    → All (λ c. IsTotal perf_counter c.1) registry
    → (t : S) × (results : List ReadinessCheckResult) × Results perf_counter registry s results t
      × (readiness_check perf_counter round details registry s
          ≡ (t, returned (readiness_response round details results)))
      × (((AllHealthy results) × ((readiness_response round details results).status_code ≡ 200))
          ⊎ ((AllHealthy results → ⊥)
              × ((readiness_response round details results).status_code ≡ 503)))
unfolding readiness_check
readiness_check-answers perf_counter round details registry s total =
    let (t, results, e) = run_total perf_counter registry total s in
    (
      t,
      results,
      run-Results perf_counter registry s t results e,
      ap (λ o. next o (λ results t. (t, returned (readiness_response round details results)))) e,
      status_lem round details results,
    )
