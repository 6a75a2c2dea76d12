-- ===== src/Middleware/BodySize/Limit.antt =====
-- What the inner application sees of a request under the body limit, and what the client gets.
use fastapi_chassis.Base.{
  ℕ, ◌+◌, ◌≤◌, ◌<◌, ◌≡◌, refl, sym, String, Bool, true, false, Option, none, some, List, [], ◌∷◌,
  ◌++◌, ltb, arith, length,
}
use fastapi_chassis.Base.Text.{parse_int}
use fastapi_chassis.Asgi.{
  Scope, is_http, request, disconnect, Delivery, message, failed, Failure, request_too_large,
  timeout_error, other, Sent, App, done, raise, receive, send, Application, Ending, returned,
  raised, run,
}
use fastapi_chassis.Asgi.Protocol.{status_of}
use fastapi_chassis.Starlette.{Responses, respond}
use fastapi_chassis.Middleware.BodySize.{
  total_after, receive_wrapper, on_failure, limited, content_length, body_size_limit,
  too_large_response, bad_length_response, admit, checked, exceeds,
}

-- The body bytes of the messages among the deliveries.
unfoldable pub body_bytes : List Delivery → ℕ
body_bytes [] = 0
body_bytes (message (request bytes _) ∷ ds) = length bytes + body_bytes ds
body_bytes (message disconnect ∷ ds) = body_bytes ds
body_bytes (failed _ ∷ ds) = body_bytes ds

-- What the inner application is delivered when `ds` arrives, after `total` bytes.
unfoldable pub limit_stream : ℕ → ℕ → List Delivery → List Delivery
unfolding receive_wrapper
limit_stream limit total [] = []
limit_stream limit total (d ∷ ds) =
    receive_wrapper limit total d ∷ limit_stream limit (total_after total d) ds

bytes_over :
    (limit total : ℕ) (ds : List Delivery)
    → limit < total
    → body_bytes (limit_stream limit total ds) ≡ 0
unfolding body_bytes limit_stream total_after
bytes_over limit total [] over = refl
bytes_over limit total (message (request b more) ∷ ds) over =
    ground (arith, bytes_over limit (total + length b) ds)
bytes_over limit total (message disconnect ∷ ds) over = bytes_over limit total ds over
bytes_over limit total (failed e ∷ ds) over = bytes_over limit total ds over

bytes_within :
    (limit total : ℕ) (ds : List Delivery)
    → total ≤ limit
    → total + body_bytes (limit_stream limit total ds) ≤ limit
unfolding body_bytes limit_stream total_after
bytes_within limit total [] h = omega arith
bytes_within limit total (message (request b more) ∷ ds) h =
    ground (arith, bytes_within limit (total + length b) ds, bytes_over limit (total + length b) ds)
bytes_within limit total (message disconnect ∷ ds) h = bytes_within limit total ds h
bytes_within limit total (failed e ∷ ds) h = bytes_within limit total ds h

-- A request within the limit is delivered as it arrives.
limit_stream_within :
    (limit total : ℕ) (ds : List Delivery)
    → total + body_bytes ds ≤ limit
    → limit_stream limit total ds ≡ ds
unfolding body_bytes limit_stream total_after
limit_stream_within limit total [] h = refl
limit_stream_within limit total (message (request b more) ∷ ds) h =
    ground (arith, limit_stream_within limit (total + length b) ds)
limit_stream_within limit total (message disconnect ∷ ds) h =
    ground (arith, limit_stream_within limit total ds h)
limit_stream_within limit total (failed e ∷ ds) h =
    ground (arith, limit_stream_within limit total ds h)

module _ (r : Responses) (limit : ℕ) where
  -- The end of a run of the inner application, with the answer to a body that is too large.
  abbrev pub recovered : List Sent × Ending → List Sent × Ending
  recovered (ms, returned) = (ms, returned)
  recovered (ms, raised request_too_large) =
      (ms ++ (run [] (too_large_response r limit)).0, returned)
  recovered (ms, raised timeout_error) = (ms, raised timeout_error)
  recovered (ms, raised (other n)) = (ms, raised (other n))

  recovered-cons :
      (m : Sent) (o : List Sent × Ending)
      → recovered (m ∷ o.0, o.1) ≡ (m ∷ (recovered o).0, (recovered o).1)
  recovered-cons m (ms, returned) = refl
  recovered-cons m (ms, raised request_too_large) = refl
  recovered-cons m (ms, raised timeout_error) = refl
  recovered-cons m (ms, raised (other n)) = refl

  run-too_large :
      (ds : List Delivery)
      → run ds (too_large_response r limit) ≡ ((run [] (too_large_response r limit)).0, returned)
  unfolding run too_large_response respond
  run-too_large ds = refl

  run-on_failure :
      (ds : List Delivery) (e : Failure) → run ds (on_failure r limit e) ≡ recovered ([], raised e)
  unfolding on_failure
  run-on_failure ds request_too_large = run-too_large ds
  run-on_failure ds timeout_error = unfold run in refl
  run-on_failure ds (other n) = unfold run in refl

  run-limited :
      (total : ℕ) (ds : List Delivery) (app : App)
      → run ds (limited r limit total app) ≡ recovered (run (limit_stream limit total ds) app)
  unfolding run limited limit_stream
  run-limited total ds done = refl
  run-limited total ds (raise e) = run-on_failure ds e
  run-limited total [] (receive k) = run-limited total [] (k (message disconnect))
  run-limited total (d ∷ ds) (receive k) =
      run-limited (total_after total d) ds (k (receive_wrapper limit total d))
  run-limited total ds (send m app) =
      rw (run-limited total ds app) (sym (recovered-cons m (run (limit_stream limit total ds) app)))

  -- The declared length lets the request through.
  abbrev pub Admits : Option String → Type 0
  Admits none = Unit
  Admits (some value) = (n : Bool × ℕ) × (parse_int value ≡ some n) × (exceeds limit n ≡ false)

  admit-eq :
      (o : Option String) (app : App) → Admits o → admit r limit o app ≡ limited r limit 0 app
  unfolding admit checked
  admit-eq none app h = refl
  admit-eq (some value) app (n, parsed, fits) = rw (parsed, fits)

  -- For an HTTP request whose declared length is missing or within the limit, the run is that of the
  -- inner application on the limited deliveries, with the answer 413 after what it sent if it ends in
  -- RequestTooLargeError. Those deliveries hold no more body bytes than the limit, and are the
  -- arrivals themselves if these hold no more.
  pub run-body_size_limit :
      (app : Application) (scope : Scope) (ds : List Delivery)
      → is_http scope ≡ true
      → Admits (content_length scope.headers)
      → (run ds (body_size_limit r limit app scope)
          ≡ recovered (run (limit_stream limit 0 ds) (app scope)))
        × (body_bytes (limit_stream limit 0 ds) ≤ limit)
        × (body_bytes ds ≤ limit → limit_stream limit 0 ds ≡ ds)
  run-body_size_limit app scope ds http admitted = (
    unfold body_size_limit in
        rw (http, admit-eq _ (app scope) admitted) (run-limited 0 ds (app scope)),
    omega (arith, bytes_within limit 0 ds),
    λ h. limit_stream_within limit 0 ds (omega arith),
  )

  -- Whatever the inner application, it is not run if the declared length is no integer, which is
  -- answered 400, or is over the limit, which is answered 413.
  pub body_size_limit_rejects :
      (app : Application) (scope : Scope) (ds : List Delivery) (value : String)
      → is_http scope ≡ true
      → content_length scope.headers ≡ some value
      → (parse_int value ≡ none
          → (run ds (body_size_limit r limit app scope) ≡ run [] (bad_length_response r limit))
            × (status_of (run ds (body_size_limit r limit app scope)).0 ≡ some 400))
        × ((n : ℕ)
            → parse_int value ≡ some (false, n)
            → limit < n
            → (run ds (body_size_limit r limit app scope) ≡ run [] (too_large_response r limit))
              × (status_of (run ds (body_size_limit r limit app scope)).0 ≡ some 413))
  unfolding body_size_limit too_large_response bad_length_response respond run admit checked exceeds
  body_size_limit_rejects app scope ds value http declared = (
    λ bad. rw (http, declared, bad) (refl, refl),
    λ n parsed over.
        let too_many : ltb limit n ≡ true = ground arith in
        rw (http, declared, parsed, too_many) (refl, refl),
  )
