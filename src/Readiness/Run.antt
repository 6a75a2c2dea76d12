-- ===== src/Readiness/Run.antt =====
-- What a run of the registry of src/app/readiness/registry.py returns.
use fastapi_chassis.Base.{
  ℕ, String, ◌≡◌, refl, sym, ◌∙◌, All, true, Option, Option-cases, none, some, List, [], ◌∷◌, inl,
  inr, arith, ap,
}
use fastapi_chassis.Base.Dict.{is_some}
use fastapi_chassis.Outcome.{returned, next, next-eq-returned, returned_value, returned_state}
use fastapi_chassis.Readiness.{
  with_latency, ReadinessCheckResult, ReadinessCheck, ReadinessRegistry, timed, run_check, run,
}

module _ {S : Type 0} (perf_counter : S → S × ℕ) where
  -- The results of the checks, one for each in their order, each from the state that the one before
  -- it left, and each with a latency.
  pub data Results : ReadinessRegistry S → S → List ReadinessCheckResult → S → Type 0 where
    none_left : {s : S} → Results [] s [] s
    then_check :
        {name : String} {check : ReadinessCheck S} {checks : ReadinessRegistry S} {s t u : S}
        {result : ReadinessCheckResult} {results : List ReadinessCheckResult}
        → run_check perf_counter check s ≡ (t, returned result)
        → is_some result.latency_ms ≡ true
        → Results checks t results u
        → Results ((name, check) ∷ checks) s (result ∷ results) u

  timed_latency :
      (now : ℕ) (result r : ReadinessCheckResult) (s t : S)
      → timed perf_counter now result s ≡ (t, returned r)
      → is_some r.latency_ms ≡ true
  unfolding timed
  timed_latency now result r s t h = elim (Option-cases result.latency_ms) [
    | inl e ↦ by_result e
    | inr (l, e) ↦ by_result e
  ]
    where
      by_result : {o : Option ℕ} → result.latency_ms ≡ o → is_some r.latency_ms ≡ true
      by_result {o = none} e = ground arith
      by_result {o = some l} e = ground arith

  pub run-Results :
      (checks : ReadinessRegistry S) (s u : S) (results : List ReadinessCheckResult)
      → run perf_counter checks s ≡ (u, returned results)
      → Results checks s results u
  unfolding run run_check
  run-Results [] s u results h = rw (sym (returned_state h), sym (returned_value h)) none_left
  run-Results ((name, check) ∷ checks) s u results h =
      let (t, result, h1, k) =
        next-eq-returned (run_check perf_counter check s)
          (λ result t.
            next (run perf_counter checks t) (λ results u. (u, returned (result ∷ results))))
          h in
      let (v, rs, h2, e) =
        next-eq-returned (run perf_counter checks t) (λ results u. (u, returned (result ∷ results)))
          k in
      let (w, r, h3, h4) =
        next-eq-returned (check (perf_counter s).0) (timed perf_counter (perf_counter s).1) h1 in
      rw (sym (returned_state e), sym (returned_value e))
        (then_check h1 (timed_latency (perf_counter s).1 r result w t h4)
          (run-Results checks t v rs h2))

  -- A check that returns a result in every state.
  abbrev pub IsTotal : ReadinessCheck S → Type 0
  IsTotal check = (s : S) → (t : S) × (r : ReadinessCheckResult) × (check s ≡ (t, returned r))

  with_latency_total :
      (now : ℕ) (r : ReadinessCheckResult) (o : Option ℕ) (t : S)
      → (u : S) × (q : ReadinessCheckResult) × (with_latency perf_counter now r o t
          ≡ (u, returned q))
  with_latency_total now r none t = (_, _, refl)
  with_latency_total now r (some l) t = (_, _, refl)

  pub run_check-IsTotal :
      (check : ReadinessCheck S) → IsTotal check → IsTotal (run_check perf_counter check)
  unfolding run_check timed
  run_check-IsTotal check total s =
      let (t, r, e) = total (perf_counter s).0 in
      let (u, q, k) = with_latency_total (perf_counter s).1 r r.latency_ms t in
      (u, q, ap (λ o. next o (timed perf_counter (perf_counter s).1)) e ∙ k)

  -- A run of checks that each return a result returns.
  pub run_total :
      (checks : ReadinessRegistry S)
      → All (λ c. IsTotal c.1) checks
      → (s : S)
      → (t : S) × (results : List ReadinessCheckResult) × (run perf_counter checks s
          ≡ (t, returned results))
  unfolding run
  run_total [] h s = (s, [], refl)
  run_total ((name, check) ∷ checks) (h, hs) s =
      let (t, r, e) = run_check-IsTotal check h s in
      let (u, rs, k) = run_total checks hs t in (u, r ∷ rs, rw (e, k) refl)
