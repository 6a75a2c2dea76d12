-- ===== src/Builder/Refused.antt =====
-- What the whole stack of src/app/app_builder.py sends and logs of a request that the limiter refuses.
use fastapi_chassis.Base.{
  ℕ, String, true, false, ◌≤◌, ◌<◌, ◌/◌, Option, some, List, [], ◌∷◌, map, if◌then◌else◌, ◌≡◌, refl,
  ap, ◌∙◌, or_else, is_in,
}
use fastapi_chassis.Asgi.{Scope, is_http, Delivery, Sent, Ending, App, Application, run}
use fastapi_chassis.Starlette.{HeaderMaps, Responses, respond}
use fastapi_chassis.Proxy.{IpAddresses}
use fastapi_chassis.RateLimit.Store.{RateLimitStore, replay, IsFixedWindow}
use fastapi_chassis.RateLimit.{RateLimitDecision}
use fastapi_chassis.Middleware.RequestLogging.{last_status}
use fastapi_chassis.RateLimit.Count.{hits_in, IsOrdered}
use fastapi_chassis.RateLimit.Key.{build_rate_limit_key}
use fastapi_chassis.RateLimit.Middleware.{RateLimitSettings, rate_limited, expected, run-rate_limit}
use fastapi_chassis.Middleware.Headers.{change}
use fastapi_chassis.Middleware.RequestId.{
  Utf8, stamp, run-request_id, upstream_id, with_ids, request_id_middleware,
}
use fastapi_chassis.Middleware.RequestLogging.Wrapped.{
  request_logging_middleware, run-request_logging,
}
use fastapi_chassis.Middleware.RequestLogging.Entry.{Entry, Libraries, request_logging}
use fastapi_chassis.Middleware.RequestLogging.Unique.{IsUnique}
use fastapi_chassis.Middleware.RequestLogging.Identified.{any_start, request_logging-request_id}
use fastapi_chassis.Middleware.SecurityHeaders.{
  secured, run-security_headers, SecuritySettings, security_headers,
}
use fastapi_chassis.Builder.{
  Stack, Moment, innermost, when_limited, when_secured, application, application_log,
}

module _ (r : Responses) (h : HeaderMaps) (sha256 : String → String) (utf8 : Utf8)
    (ip : IpAddresses) (stack : Stack ip) (m : Moment) (c : RateLimitStore) where
  refused_lem :
      (limits : RateLimitSettings ip) (d : RateLimitDecision) (ds : List Delivery)
      → let sent = (run ds (rate_limited r h sha256 ip limits d m.later)).0 in
        (last_status 500 sent ≡ 429) × (any_start sent ≡ true)
  unfolding rate_limited respond run
  refused_lem limits d ds = (refl, refl)

  -- What the identifiers and the log make of the response.
  refused_answer :
      (l : Libraries) (limits : RateLimitSettings ip) (limited : Application)
      (d : RateLimitDecision) (scope : Scope) (correlation_id : String) (ds : List Delivery)
      → is_http scope ≡ true
      → utf8.decode (upstream_id utf8 m.new_id scope.headers) ≡ some correlation_id
      → IsUnique (rate_limited r h sha256 ip limits d m.later)
      → limited (with_ids m.new_id correlation_id scope)
        ≡ rate_limited r h sha256 ip limits d m.later
      → let refused = run ds (rate_limited r h sha256 ip limits d m.later) in
        let inside = request_id_middleware utf8 m.new_id limited in
        (run ds (request_logging_middleware utf8.decode inside scope)
          ≡ (map (change (stamp utf8 m.new_id correlation_id)) refused.0, refused.1))
        × (e : Entry) × ((request_logging l utf8.decode stack.redact_headers m.started m.ended
              inside scope ds).1
            ≡ e ∷ [])
        × (e.http_status_code ≡ 429)
        × (e.request_id ≡ m.new_id)
        × (e.correlation_id ≡ correlation_id)
  refused_answer l limits limited d scope correlation ds http decoded unique refused =
      let (same, entry, logs, status, own, caller) =
        request_logging-request_id l utf8 stack.redact_headers m.started m.ended m.new_id
          correlation limited scope ds http decoded (rw refused unique) in
      let (stamped_run, _) = run-request_id utf8 m.new_id limited scope ds http in
      let (is_429, starts) = refused_lem limits d ds in
      let chosen : String → App → String = λ id a. if any_start (run ds a).0 then id else "-" in
      (
        run-request_logging utf8.decode l stack.redact_headers m.started m.ended
              (request_id_middleware utf8 m.new_id limited) scope ds
            ∙ same
            ∙ (stamped_run correlation decoded).0
            ∙ ap (λ a. (map (change (stamp utf8 m.new_id correlation)) (run ds a).0, (run ds a).1))
                refused,
        entry,
        logs,
        status ∙ ap (λ a. last_status 500 (run ds a).0) refused ∙ is_429,
        own ∙ ap (chosen m.new_id) refused ∙ rw starts refl,
        caller ∙ ap (chosen correlation) refused ∙ rw starts refl,
      )

  -- If the stack limits requests over a store that counts in fixed windows and sets security headers, and an HTTP request
  -- outside the exempt paths comes from a client that is over its limit, then no handler runs, whatever it is, and what goes out is the one 429 response, with the limit's headers,
  -- the request's identifiers and the security headers; and one record is logged, with status 429 and the same
  -- identifiers. The identifier that the headers of the request give can be decoded, and the response of the limiter itself has one header at most of either
  -- name.
  pub application_over_limit :
      (l : Libraries) (start : c.State) (counts : IsFixedWindow c start)
      (limits : RateLimitSettings ip) (secures : SecuritySettings ip.Network)
      (history : List (String × ℕ)) (handler : Application) (scope : Scope)
      (correlation_id : String) (ds : List Delivery)
      → stack.rate_limiting ≡ some limits
      → stack.security ≡ some secures
      → 0 < limits.window_seconds
      → IsOrdered m.now history
      → is_http scope ≡ true
      → is_in (or_else scope.path "") limits.exempt_paths ≡ false
      → utf8.decode (upstream_id utf8 m.new_id scope.headers) ≡ some correlation_id
      → let seen = with_ids m.new_id correlation_id scope in
        let d = expected r h sha256 ip limits m.now history seen in
        let refused = rate_limited r h sha256 ip limits d m.later in
        let state = replay c start limits.limit limits.window_seconds history in
        IsUnique refused
        → limits.limit
          ≤ hits_in limits.window_seconds
              (build_rate_limit_key h sha256 ip limits.key seen)
              (m.now / limits.window_seconds)
              history
        → (run ds (application r h sha256 utf8 ip stack m c state handler scope) ≡ (
          map
              (change (secured h ip secures scope))
              (map (change (stamp utf8 m.new_id correlation_id)) (run ds refused).0),
          (run ds refused).1,
        ))
          × (e : Entry) × (application_log r h sha256 utf8 ip stack m c l state handler scope ds
              ≡ e ∷ [])
          × (e.http_status_code ≡ 429)
          × (e.request_id ≡ m.new_id)
          × (e.correlation_id ≡ correlation_id)
  unfolding application application_log with_ids
  application_over_limit l start counts limits secures history handler scope correlation ds e k w o
        http path decoded unique over =
      let seen = with_ids m.new_id correlation scope in
      let state = replay c start limits.limit limits.window_seconds history in
      let inner = innermost r h sha256 utf8 ip stack m c handler in
      let limited : Option (RateLimitSettings ip) → Application =
        λ o. when_limited r h sha256 utf8 ip stack m c o state inner in
      let logged : Option (RateLimitSettings ip) → Application = λ o.
        request_logging_middleware utf8.decode (request_id_middleware utf8 m.new_id (limited o)) in
      let (_, _, refused) =
        run-rate_limit r h sha256 ip c limits start counts m.now m.later history inner seen ds w o
          http path in
      let (secured_run, _, _) =
        run-security_headers h ip secures (logged (some limits)) scope ds http in
      let (sent, entry, logs, status, own, caller) =
        refused_answer l limits (limited (some limits))
          (expected r h sha256 ip limits m.now history seen) scope correlation ds http decoded
          unique (refused over) in
      (
        ap
              (λ o.
                run ds
                  (when_secured r h sha256 utf8 ip stack m c o (logged stack.rate_limiting) scope))
              k
            ∙ ap (λ o. run ds (security_headers h ip secures (logged o) scope)) e
            ∙ secured_run
            ∙ ap (λ (x : List Sent × Ending). (map (change (secured h ip secures scope)) x.0, x.1))
                sent,
        entry,
        ap
              (λ o.
                (request_logging l utf8.decode stack.redact_headers m.started m.ended
                  (request_id_middleware utf8 m.new_id (limited o)) scope ds).1)
              e
            ∙ logs,
        status,
        own,
        caller,
      )
