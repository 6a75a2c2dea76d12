-- ===== src/Middleware/RequestLogging/Identified.antt =====
-- The request log of src/app/middleware/request_logging.py round the identifiers of
-- src/app/middleware/request_id.py, as src/app/app_builder.py puts them.
use fastapi_chassis.Base.{
  map, ℕ, String, Bool, true, false, some, List, [], ◌∷◌, if◌then◌else◌, ◌≡◌, refl, ap, ◌∙◌, arith,
}
use fastapi_chassis.Asgi.{
  Scope, is_http, Headers, Delivery, message, disconnect, Sent, start, body, App, done, raise,
  receive, send, Application, Ending, run,
}
use fastapi_chassis.Middleware.Headers.{change, with_headers, run-with_headers}
use fastapi_chassis.Middleware.RequestId.{Utf8, stamp, with_ids, upstream_id, request_id_middleware}
use fastapi_chassis.Middleware.RequestLogging.Entry.{Entry, Libraries, log_entry, request_logging}
use fastapi_chassis.Middleware.RequestLogging.{
  last_status, AreDecodable, logged_run-eq-run, Observed, nothing_observed, observe, passed_on,
  logged_run,
}
use fastapi_chassis.Middleware.RequestLogging.Unique.{AreUnique, IsUnique, stamped_ids}

abbrev pub any_start : List Sent → Bool
any_start [] = false
any_start (start _ _ ∷ ms) = true
any_start (body _ _ ∷ ms) = any_start ms

module _ (utf8 : Utf8) (r c : String) where
  -- the identifiers that are known after a run
  abbrev Knows : Observed → Observed → List Sent → Type 0
  Knows before after ms =
      (after.request_id ≡ (if any_start ms then r else before.request_id))
      × (after.correlation_id ≡ (if any_start ms then c else before.correlation_id))

  observe-stamp :
      (status : ℕ) (hs : Headers) (o : Observed)
      → AreUnique hs
      → ((observe utf8.decode (start status (stamp utf8 r c hs)) o).1 ≡ true)
        × ((observe utf8.decode (start status (stamp utf8 r c hs)) o).0.request_id ≡ r)
        × ((observe utf8.decode (start status (stamp utf8 r c hs)) o).0.correlation_id ≡ c)
  unfolding observe
  observe-stamp status hs o u =
      let (one, two) = stamped_ids utf8 r c hs u in
      rw (one, two, utf8.decode-encode r, utf8.decode-encode c) (refl, refl, refl)

  logged_run-Knows :
      (o : Observed) (ds : List Delivery) (app : App)
      → IsUnique app
      → Knows o (logged_run utf8.decode o ds (with_headers (stamp utf8 r c) app)).1 (run ds app).0
  unfolding logged_run with_headers run
  logged_run-Knows o ds done u = (refl, refl)
  logged_run-Knows o ds (raise e) u = (refl, refl)
  logged_run-Knows o [] (receive k) u =
      logged_run-Knows o [] (k (message disconnect)) (u (message disconnect))
  logged_run-Knows o (d ∷ ds) (receive k) u = logged_run-Knows o ds (k d) (u d)
  logged_run-Knows o ds (send (body bytes more) app) u = logged_run-Knows o ds app u
  logged_run-Knows o ds (send (start status hs) app) (u, us) =
      let seen = observe utf8.decode (start status (stamp utf8 r c hs)) o in
      let (passes, one, two) = observe-stamp status hs o u in
      let (first, second) = logged_run-Knows seen.0 ds app us in
      let same = logged_after (start status (stamp utf8 r c hs)) seen _ passes in
      (
        ap (λ (x : Observed). x.request_id) same ∙ (first ∙ settled (any_start (run ds app).0) one),
        ap (λ (x : Observed). x.correlation_id) same
            ∙ (second ∙ settled (any_start (run ds app).0) two),
      )
    where
      logged_after :
          (m : Sent) (p : Observed × Bool) (l : (List Sent × Ending) × Observed)
          → p.1 ≡ true
          → (passed_on utf8.decode m p l).1 ≡ l.1
      logged_after m (q, true) ((ms, e), o) h = refl
      logged_after m (q, false) l h = ground arith

      settled : {before now : String} (b : Bool) → before ≡ now → (if b then now else before) ≡ now
      settled true e = refl
      settled false e = e

stamped-AreDecodable :
    (utf8 : Utf8) (r c : String) (app : App)
    → IsUnique app
    → AreDecodable utf8.decode (with_headers (stamp utf8 r c) app)
unfolding with_headers
stamped-AreDecodable utf8 r c done u = tt
stamped-AreDecodable utf8 r c (raise e) u = tt
stamped-AreDecodable utf8 r c (receive k) u = λ d. stamped-AreDecodable utf8 r c (k d) (u d)
stamped-AreDecodable utf8 r c (send (body bytes more) app) u = stamped-AreDecodable utf8 r c app u
stamped-AreDecodable utf8 r c (send (start status hs) app) (u, us) =
    let (one, two) = stamped_ids utf8 r c hs u in
    (
      (r, c, rw one (utf8.decode-encode r), rw two (utf8.decode-encode c)),
      stamped-AreDecodable utf8 r c app us,
    )

last_status-change :
    (f : Headers → Headers) (n : ℕ) (ms : List Sent)
    → last_status n (map (change f) ms) ≡ last_status n ms
last_status-change f n [] = refl
last_status-change f n (start status hs ∷ ms) = last_status-change f status ms
last_status-change f n (body bytes more ∷ ms) = last_status-change f n ms

-- With the log round the identifiers, what is sent is what the identifiers send, and one record is logged, with the status
-- of the last start, or 500 if there was none, and the identifiers that the response has in its headers: the request's own
-- and the caller's if a response was started, and "-" for both if none was, as when the handler raised before. The
-- request is of HTTP, the identifier that its headers give can be decoded, and each start of the inner application has one header at most of
-- either name.
pub request_logging-request_id :
    (l : Libraries) (utf8 : Utf8) (redact_headers : Bool) (started ended : ℕ)
    (request_id correlation_id : String) (app : Application) (scope : Scope) (ds : List Delivery)
    → is_http scope ≡ true
    → utf8.decode (upstream_id utf8 request_id scope.headers) ≡ some correlation_id
    → IsUnique (app (with_ids request_id correlation_id scope))
    → let out =
        request_logging l utf8.decode redact_headers started ended
          (request_id_middleware utf8 request_id app)
          scope
          ds in
      let sent = (run ds (app (with_ids request_id correlation_id scope))).0 in
      (out.0 ≡ run ds (request_id_middleware utf8 request_id app scope))
      × (e : Entry) × (out.1 ≡ e ∷ [])
      × (e.http_status_code ≡ last_status 500 sent)
      × (e.request_id ≡ (if any_start sent then request_id else "-"))
      × (e.correlation_id ≡ (if any_start sent then correlation_id else "-"))
unfolding request_logging log_entry request_id_middleware
request_logging-request_id l utf8 redact started ended r c app scope ds http up u =
    let (first, second) =
      logged_run-Knows utf8 r c nothing_observed ds (app (with_ids r c scope)) u in
    let stamped = with_headers (stamp utf8 r c) (app (with_ids r c scope)) in
    let (same, status) =
      logged_run-eq-run utf8.decode nothing_observed ds stamped
        (stamped-AreDecodable utf8 r c (app (with_ids r c scope)) u) in
    let last =
      status
      ∙ ap (λ (o : List Sent × Ending). last_status 500 o.0)
          (run-with_headers (stamp utf8 r c) ds (app (with_ids r c scope)))
      ∙ last_status-change (stamp utf8 r c) 500 (run ds (app (with_ids r c scope))).0 in
    rw (http, up) (same, _, refl, last, first, second)
