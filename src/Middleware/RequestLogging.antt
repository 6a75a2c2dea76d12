-- ===== src/Middleware/RequestLogging.antt =====
-- src/app/middleware/request_logging.py. Its `send_wrapper` reads each start and passes every message on, so what
-- it does is a run that also gives what was observed. Decoding as UTF-8 (`none` is UnicodeDecodeError) and
-- the parsing and encoding of queries are parameters.
pub mod Entry
pub mod Unique
pub mod Identified
pub mod Wrapped
use fastapi_chassis.Base.{
  ℕ, String, Bool, true, false, Option, none, some, List, [], ◌∷◌, map, if◌then◌else◌, leb, or_else,
  ◌≡◌, ◌⊎◌, inl, inr, refl, sym, ap, ◌∙◌, arith,
}
use fastapi_chassis.Base.Text.{is_true, parse_int}
use fastapi_chassis.Base.Dict.{Dict, lookup}
use fastapi_chassis.Asgi.{
  Headers, Delivery, message, disconnect, Sent, start, body, App, done, raise, receive, send,
  Ending, returned, raised, run,
}
use fastapi_chassis.Middleware.RequestId.{lowered, undecodable}

-- the variables that `send_wrapper` sets
pub record Observed : Type 0 where
  pub status_code : ℕ
  pub request_id : String
  pub correlation_id : String
  pub response_bytes : Option (Bool × ℕ)

abbrev pub nothing_observed : Observed
nothing_observed = record {
  status_code = 500;
  request_id = "-";
  correlation_id = "-";
  response_bytes = none;
}

module _ (decode : String → Option String) where
  -- the assignments after the identifiers are decoded; false if one cannot be
  abbrev pub with_response_ids :
      Observed → Dict String → Option String → Option String → Observed × Bool
  with_response_ids o headers none _ = (o, false)
  with_response_ids o headers (some request_id) none = (record o { request_id = request_id }, false)
  with_response_ids o headers (some request_id) (some correlation_id) = (
    record o {
      request_id = request_id;
      correlation_id = correlation_id;
      response_bytes = sized (lookup "content-length" headers) o.response_bytes;
    },
    true,
  )
    where
      sized : Option String → Option (Bool × ℕ) → Option (Bool × ℕ)
      sized none before = before
      sized (some content_length) before = parse_int content_length

  -- whether the message is passed on, with what is known after it
  unfoldable pub observe : Sent → Observed → Observed × Bool
  observe (start status headers) o =
      let d = lowered [] headers in
      with_response_ids (record o { status_code = status }) d
        (decode (or_else (lookup "x-request-id" d) "-"))
        (decode (or_else (lookup "x-correlation-id" d) "-"))
  observe (body _ _) o = (o, true)

  abbrev pub passed_on :
      Sent → Observed × Bool → (List Sent × Ending) × Observed → (List Sent × Ending) × Observed
  passed_on m (o, false) later = (([], raised undecodable), o)
  passed_on m (_, true) ((ms, e), o) = ((m ∷ ms, e), o)

  -- a run with what is observed when it ends, which `finally` logs
  unfoldable pub logged_run : Observed → List Delivery → App → (List Sent × Ending) × Observed
  unfolding observe
  logged_run o ds done = (([], returned), o)
  logged_run o ds (raise e) = (([], raised e), o)
  logged_run o [] (receive k) = logged_run o [] (k (message disconnect))
  logged_run o (d ∷ ds) (receive k) = logged_run o ds (k d)
  logged_run o ds (send m app) = passed_on m (observe m o) (logged_run (observe m o).0 ds app)

unfoldable pub outcome_from_status : ℕ → String
outcome_from_status status_code =
    if leb 500 status_code
    then "server_error"
    else if leb 400 status_code
    then "client_error"
    else "success"

abbrev redact : String × String → String × String
redact (key, _) = (key, "[redacted]")

module _ (parse_qsl : String → List (String × String))
    (urlencode : List (String × String) → String) where
  unfoldable pub sanitize_query_string : String → String
  sanitize_query_string query_string =
      if is_true query_string then urlencode (map redact (parse_qsl query_string)) else ""

  redact_keys :
      (ps qs : List (String × String))
      → map (λ p. p.0) ps ≡ map (λ p. p.0) qs
      → map redact ps ≡ map redact qs
  redact_keys ps qs h =
      map_map ps ∙ ap (map (λ (k : String). (k, "[redacted]"))) h ∙ sym (map_map qs)
    where
      map_map :
          (ps : List (String × String))
          → map redact ps ≡ map (λ k. (k, "[redacted]")) (map (λ p. p.0) ps)
      map_map [] = refl
      map_map ((k, v) ∷ ps) = ap (λ rest. (k, "[redacted]") ∷ rest) (map_map ps)

  -- What is logged of a query does not depend on its values: two queries, both empty or neither,
  -- with the same names in the same order are logged alike.
  pub sanitize_query_string_values :
      (q1 q2 : String)
      → is_true q1 ≡ is_true q2
      → map (λ (p : String × String). p.0) (parse_qsl q1)
        ≡ map (λ (p : String × String). p.0) (parse_qsl q2)
      → sanitize_query_string q1 ≡ sanitize_query_string q2
  unfolding sanitize_query_string
  sanitize_query_string_values q1 q2 t h = rw (t) (
      ap (λ s. if is_true q2 then s else "")
        (ap urlencode (redact_keys (parse_qsl q1) (parse_qsl q2) h)))

-- The status of the last start, or another if there is none.
abbrev pub last_status : ℕ → List Sent → ℕ
last_status n [] = n
last_status n (start status _ ∷ ms) = last_status status ms
last_status n (body _ _ ∷ ms) = last_status n ms

module _ (decode : String → Option String) where
  -- A logged run is the run itself, or it ends with the error of an identifier that cannot be decoded.
  pub logged_run-ends :
      (o : Observed) (ds : List Delivery) (app : App)
      → ((logged_run decode o ds app).0 ≡ run ds app)
        ⊎ ((logged_run decode o ds app).0.1 ≡ raised undecodable)
  unfolding logged_run run
  logged_run-ends o ds done = inl refl
  logged_run-ends o ds (raise e) = inl refl
  logged_run-ends o [] (receive k) = logged_run-ends o [] (k (message disconnect))
  logged_run-ends o (d ∷ ds) (receive k) = logged_run-ends o ds (k d)
  logged_run-ends o ds (send m app) =
      passed (observe decode m o) (logged_run decode (observe decode m o).0 ds app) (run ds app)
        (logged_run-ends (observe decode m o).0 ds app)
    where
      passed :
          (p : Observed × Bool) (l : (List Sent × Ending) × Observed) (r : List Sent × Ending)
          → (l.0 ≡ r) ⊎ (l.0.1 ≡ raised undecodable)
          → ((passed_on decode m p l).0 ≡ (m ∷ r.0, r.1))
            ⊎ ((passed_on decode m p l).0.1 ≡ raised undecodable)
      passed (q, true) ((ms, e), w) r (inl h) =
          inl (ap (λ (x : List Sent × Ending). (m ∷ x.0, x.1)) h)
      passed (q, true) ((ms, e), w) r (inr h) = inr h
      passed (q, false) l r h = inr refl

  -- Both identifiers on a start can be decoded.
  abbrev pub Decodable : Headers → Type 0
  Decodable headers =
      let d = lowered [] headers in
      (request_id : String) × (correlation_id : String) × (decode
          (or_else (lookup "x-request-id" d) "-")
        ≡ some request_id)
      × (decode (or_else (lookup "x-correlation-id" d) "-") ≡ some correlation_id)

  -- And so it is on every start that an application sends.
  abbrev pub AreDecodable : App → Type 0
  AreDecodable done = Unit
  AreDecodable (raise e) = Unit
  AreDecodable (receive k) = (d : Delivery) → AreDecodable (k d)
  AreDecodable (send (start status headers) app) = Decodable headers × AreDecodable app
  AreDecodable (send (body bytes more) app) = AreDecodable app

  Passes : Sent → Observed → Type 0
  Passes m o =
      ((observe decode m o).1 ≡ true)
      × ((ms : List Sent)
          → last_status (observe decode m o).0.status_code ms ≡ last_status o.status_code (m ∷ ms))

  observe-Passes :
      (m : Sent) (app : App) (o : Observed)
      → AreDecodable (send m app)
      → Passes m o × AreDecodable app
  unfolding observe Passes
  observe-Passes (body _ _) app o h = ((refl, λ ms. refl), h)
  observe-Passes (start status headers) app o ((r, c, e, k), h) = (rw (e, k) (refl, λ ms. refl), h)

  -- Logging changes no message and no ending, if the identifiers on the responses can be decoded, and
  -- the status that it logs is that of the last start, or 500 if no response was started.
  pub logged_run-eq-run :
      (o : Observed) (ds : List Delivery) (app : App)
      → AreDecodable app
      → ((logged_run decode o ds app).0 ≡ run ds app)
        × ((logged_run decode o ds app).1.status_code ≡ last_status o.status_code (run ds app).0)
  unfolding logged_run run Passes
  logged_run-eq-run o ds done h = (refl, refl)
  logged_run-eq-run o ds (raise e) h = (refl, refl)
  logged_run-eq-run o [] (receive k) h =
      logged_run-eq-run o [] (k (message disconnect)) (h (message disconnect))
  logged_run-eq-run o (d ∷ ds) (receive k) h = logged_run-eq-run o ds (k d) (h d)
  logged_run-eq-run o ds (send m app) h =
      let ((passes, status), later) = observe-Passes m app o h in
      let (same, last) = logged_run-eq-run (observe decode m o).0 ds app later in
      passed (observe decode m o) (logged_run decode (observe decode m o).0 ds app) (run ds app)
        passes same (last ∙ status (run ds app).0)
    where
      passed :
          (p : Observed × Bool) (l : (List Sent × Ending) × Observed) (r : List Sent × Ending)
          → p.1 ≡ true
          → l.0 ≡ r
          → l.1.status_code ≡ last_status o.status_code (m ∷ r.0)
          → ((passed_on decode m p l).0 ≡ (m ∷ r.0, r.1))
            × ((passed_on decode m p l).1.status_code ≡ last_status o.status_code (m ∷ r.0))
      passed (q, true) ((ms, e), w) r h k s = (ap (λ (x : List Sent × Ending). (m ∷ x.0, x.1)) k, s)
      passed (q, false) l r h k s = ground arith
