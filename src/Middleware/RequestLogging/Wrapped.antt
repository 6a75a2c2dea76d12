-- ===== src/Middleware/RequestLogging/Wrapped.antt =====
-- `RequestLoggingMiddleware.__call__` of src/app/middleware/request_logging.py as an application round another, without
-- the record that it logs.
use fastapi_chassis.Base.{
  ℕ, String, Bool, true, false, Option, not, List, [], ◌∷◌, if◌then◌else◌, ◌≡◌, refl, ap,
  Bool-cases, inl, inr,
}
use fastapi_chassis.Asgi.{
  Scope, is_http, Application, Delivery, message, disconnect, Sent, App, done, raise, receive, send,
  Ending, run,
}
use fastapi_chassis.Asgi.Protocol.{Phase, idle, after, Allowed, Allowed_map, Speaks}
use fastapi_chassis.Middleware.RequestId.{undecodable}
use fastapi_chassis.Middleware.RequestLogging.{
  Observed, nothing_observed, observe, passed_on, logged_run,
}
use fastapi_chassis.Middleware.RequestLogging.Entry.{Libraries, request_logging}

module _ (decode : String → Option String) where
  -- What `send_wrapper` makes of the inner application.
  unfoldable pub logged : Observed → App → App
  logged o done = done
  logged o (raise e) = raise e
  logged o (receive k) = receive (λ d. logged o (k d))
  logged o (send m app) =
      let (seen, passes) = observe decode m o in
      let rest = logged seen app in if passes then send m rest else raise undecodable

  pub run-logged :
      (o : Observed) (ds : List Delivery) (app : App)
      → run ds (logged o app) ≡ (logged_run decode o ds app).0
  unfolding run logged logged_run
  run-logged o ds done = refl
  run-logged o ds (raise e) = refl
  run-logged o [] (receive k) = run-logged o [] (k (message disconnect))
  run-logged o (d ∷ ds) (receive k) = run-logged o ds (k d)
  run-logged o ds (send m app) =
      let seen = observe decode m o in
      sent (logged seen.0 app) seen.0 (logged_run decode seen.0 ds app) seen.1
        (run-logged seen.0 ds app)
    where
      sent :
          (a : App) (q : Observed) (l : (List Sent × Ending) × Observed) (passes : Bool)
          → run ds a ≡ l.0
          → run ds (if passes then send m a else raise undecodable)
            ≡ (passed_on decode m (q, passes) l).0
      sent a q l true e = ap (λ (x : List Sent × Ending). (m ∷ x.0, x.1)) e
      sent a q l false e = refl

  -- The log leaves the order of a response as it is, an identifier that cannot be decoded included.
  pub logged-Speaks :
      (p : Phase) (o : Observed) (app : App) → Speaks p app → Speaks p (logged o app)
  unfolding logged
  logged-Speaks p o done s = s
  logged-Speaks p o (raise e) s = s
  logged-Speaks p o (receive k) s = λ d. logged-Speaks p o (k d) (s d)
  logged-Speaks p o (send m app) s =
      let seen = observe decode m o in
      sent (logged seen.0 app) seen.1 (Allowed_map (after p m) (λ q. logged-Speaks q seen.0 app) s)
    where
      sent :
          (a : App) (passes : Bool)
          → Allowed (after p m) (λ q. Speaks q a)
          → Speaks p (if passes then send m a else raise undecodable)
      sent a true h = h
      sent a false h = tt

  unfoldable pub request_logging_middleware : Application → Application
  request_logging_middleware app scope =
      if not (is_http scope) then app scope else logged nothing_observed (app scope)

  pub request_logging-Speaks :
      (app : Application) (scope : Scope)
      → Speaks idle (app scope)
      → Speaks idle (request_logging_middleware app scope)
  unfolding request_logging_middleware
  request_logging-Speaks app scope s = elim (Bool-cases (is_http scope)) [
    | inl http ↦ rw http (logged-Speaks idle nothing_observed (app scope) s)
    | inr other ↦ rw other s
  ]

  -- What is sent is what the run with the log says.
  pub run-request_logging :
      (l : Libraries) (redact_headers : Bool) (started ended : ℕ) (app : Application)
      (scope : Scope) (ds : List Delivery)
      → run ds (request_logging_middleware app scope)
        ≡ (request_logging l decode redact_headers started ended app scope ds).0
  unfolding request_logging_middleware request_logging
  run-request_logging l redact_headers started ended app scope ds =
      elim (Bool-cases (is_http scope)) [
        | inl http ↦ rw http (run-logged nothing_observed ds (app scope))
        | inr other ↦ rw other refl
      ]
