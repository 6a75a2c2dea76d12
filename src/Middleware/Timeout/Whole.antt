-- ===== src/Middleware/Timeout/Whole.antt =====
-- Whenever the time runs out, the client gets a whole response.
use fastapi_chassis.Base.{
  ℕ, zero, suc, ◌≡◌, ◌≢◌, refl, Bool, true, false, none, List, [], ◌∷◌, arith, ap, ◌<◌, Bool-cases,
  inl, inr,
}
use fastapi_chassis.Asgi.{
  Scope, is_http, request_too_large, timeout_error, other, Sent, start, body, Delivery, message,
  disconnect, App, done, raise, receive, send, Application, run, Ending, returned, raised, Received,
}
use fastapi_chassis.Asgi.Protocol.{Phase, idle, started, finished, after, Speaks, phase_after}
use fastapi_chassis.Starlette.{Responses, respond-Speaks}
use fastapi_chassis.Middleware.Timeout.{
  Progress, note, gateway_timeout, on_timeout, watched, limit_time,
}

-- The flags say which phase the response is in.
abbrev Notes : Phase → Progress → Type 0
Notes idle p = (p.response_started ≡ false) × (p.response_completed ≡ false)
Notes started p = (p.response_started ≡ true) × (p.response_completed ≡ false)
Notes finished p = (p.response_started ≡ true) × (p.response_completed ≡ true)

module _ (r : Responses) (timeout : ℕ) (scope : Scope) where
  on_timeout-Speaks :
      (q : Phase) (p : Progress) → Notes q p → Speaks q (on_timeout r timeout scope p)
  unfolding on_timeout gateway_timeout
  on_timeout-Speaks idle p h = rw h.0 (respond-Speaks r 504 _ _)
  on_timeout-Speaks started p h = rw (h.0, h.1) (unfold after in refl)
  on_timeout-Speaks finished p h = rw (h.0, h.1) refl

  watched-Speaks :
      (n : ℕ) (q : Phase) (p : Progress) (app : App)
      → Notes q p
      → Speaks q app
      → Speaks q (watched r timeout scope n false p app)
  unfolding watched after note
  watched-Speaks zero q p app h s = on_timeout-Speaks q p h
  watched-Speaks (suc n) q p done h s = s
  watched-Speaks (suc n) q p (raise timeout_error) h s = on_timeout-Speaks q p h
  watched-Speaks (suc n) q p (raise request_too_large) h s = s
  watched-Speaks (suc n) q p (raise (other e)) h s = tt
  watched-Speaks (suc n) q p (receive k) h s = λ d. watched-Speaks n q p (k d) h (s d)
  watched-Speaks (suc n) idle p (send (start status headers) app) h s =
      watched-Speaks n started _ app (refl, h.1) s
  watched-Speaks (suc n) started p (send (body bytes true) app) h s =
      watched-Speaks n started _ app (h.0, rw (h.1) refl) s
  watched-Speaks (suc n) started p (send (body bytes false) app) h s =
      watched-Speaks n finished _ app (h.0, rw (h.1) refl) s
  watched-Speaks (suc n) idle p (send (body _ _) app) h s = absurd s
  watched-Speaks (suc n) started p (send (start _ _) app) h s = absurd s
  watched-Speaks (suc n) finished p (send _ app) h s = absurd s

abbrev idle_progress : Progress
idle_progress = record { response_started = false; response_completed = false }

-- Whenever the time runs out, if not while a send waits: an application that keeps the order of a
-- response keeps it under the time limit, so that if it returns the client has a whole response.
pub limit_time-Speaks :
    (r : Responses) (timeout n : ℕ) (app : Application) (scope : Scope)
    → Speaks idle (app scope)
    → Speaks idle (limit_time r timeout n false app scope)
unfolding limit_time
limit_time-Speaks r timeout n app scope s = elim (Bool-cases (is_http scope)) [
  | inl http ↦
      rw http (watched-Speaks r timeout scope n idle idle_progress (app scope) (refl, refl) s)
  | inr not_http ↦ rw not_http s
]

-- The steps of a run.
unfoldable pub steps : List Delivery → App → ℕ
steps ds done = 0
steps ds (raise e) = 0
steps [] (receive k) = suc (steps [] (k (Delivery.message Received.disconnect)))
steps (d ∷ ds) (receive k) = suc (steps ds (k d))
steps ds (send m app) = suc (steps ds app)

run-watched :
    (r : Responses) (timeout : ℕ) (scope : Scope) (n : ℕ) (in_send : Bool) (p : Progress)
    (ds : List Delivery) (app : App)
    → steps ds app < n
    → (run ds app).1 ≢ raised timeout_error
    → run ds (watched r timeout scope n in_send p app) ≡ run ds app
unfolding run watched steps
run-watched r timeout scope zero b p ds app lt ok = elim lt [ ]
run-watched r timeout scope (suc n) b p ds done lt ok = refl
run-watched r timeout scope (suc n) b p ds (raise timeout_error) lt ok = absurd (ok refl)
run-watched r timeout scope (suc n) b p ds (raise request_too_large) lt ok = refl
run-watched r timeout scope (suc n) b p ds (raise (other e)) lt ok = refl
run-watched r timeout scope (suc n) b p [] (receive k) lt ok =
    run-watched r timeout scope n b p [] (k (Delivery.message Received.disconnect)) (omega arith) ok
run-watched r timeout scope (suc n) b p (d ∷ ds) (receive k) lt ok =
    run-watched r timeout scope n b p ds (k d) (omega arith) ok
run-watched r timeout scope (suc n) b p ds (send m app) lt ok =
    let same = run-watched r timeout scope n b (note m p) ds app (omega arith) ok in
    ap (λ (o : List Sent × Ending). (m ∷ o.0, o.1)) same

-- A run of the inner application that ends before the time runs out, and not by a TimeoutError, is
-- not changed.
pub run-limit_time :
    (r : Responses) (timeout n : ℕ) (in_send : Bool) (app : Application) (scope : Scope)
    (ds : List Delivery)
    → steps ds (app scope) < n
    → (run ds (app scope)).1 ≢ raised timeout_error
    → run ds (limit_time r timeout n in_send app scope) ≡ run ds (app scope)
unfolding limit_time
run-limit_time r timeout n in_send app scope ds lt ok = elim (Bool-cases (is_http scope)) [
  | inl http ↦ rw http (run-watched r timeout scope n in_send idle_progress ds (app scope) lt ok)
  | inr not_http ↦ rw not_http
]

abbrev next_delivery : List Delivery → Delivery
next_delivery [] = message disconnect
next_delivery (d ∷ ds) = d

abbrev later_deliveries : List Delivery → List Delivery
later_deliveries [] = []
later_deliveries (d ∷ ds) = ds

-- After that many steps, all of which receive, the application sends the start of its response.
abbrev pub StartWaits : ℕ → List Delivery → App → Type 0
StartWaits zero ds (send (start _ _) app) = Unit
StartWaits (suc n) ds (receive k) = StartWaits n (later_deliveries ds) (k (next_delivery ds))
StartWaits _ _ _ = ⊥

unstarted_lem :
    (r : Responses) (timeout : ℕ) (scope : Scope) (n : ℕ) (ds : List Delivery) (app : App)
    → StartWaits n ds app
    → run ds (
        watched r timeout scope n true
          (record { response_started = false; response_completed = false })
          app)
      ≡ (body [] false ∷ [], returned)
unfolding run watched on_timeout note
unstarted_lem r timeout scope zero ds (send (start _ _) app) w = refl
unstarted_lem r timeout scope zero ds (send (body _ _) app) w = elim w [ ]
unstarted_lem r timeout scope zero ds (receive k) w = elim w [ ]
unstarted_lem r timeout scope zero ds done w = elim w [ ]
unstarted_lem r timeout scope zero ds (raise e) w = elim w [ ]
unstarted_lem r timeout scope (suc n) ds done w = elim w [ ]
unstarted_lem r timeout scope (suc n) ds (raise e) w = elim w [ ]
unstarted_lem r timeout scope (suc n) ds (send m app) w = elim w [ ]
unstarted_lem r timeout scope (suc n) [] (receive k) w =
    unstarted_lem r timeout scope n [] (k (message disconnect)) w
unstarted_lem r timeout scope (suc n) (d ∷ ds) (receive k) w =
    unstarted_lem r timeout scope n ds (k d) w

-- If the time runs out while the start of an HTTP response waits to be sent, whatever was received before it, then all
-- that goes out is the end of a body, without a start: no response at all, and not the 504.
pub limit_time_in_send :
    (r : Responses) (timeout n : ℕ) (app : Application) (scope : Scope) (ds : List Delivery)
    → is_http scope ≡ true
    → StartWaits n ds (app scope)
    → (run ds (limit_time r timeout n true app scope) ≡ (body [] false ∷ [], returned))
      × (phase_after idle (run ds (limit_time r timeout n true app scope)).0 ≡ none)
unfolding limit_time
limit_time_in_send r timeout n app scope ds http waits =
    let same = unstarted_lem r timeout scope n ds (app scope) waits in
    rw (http, same) (refl, unfold phase_after after in refl)
