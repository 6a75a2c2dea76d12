-- ===== src/RateLimit/Middleware.antt =====
-- `RateLimitMiddleware.__call__` of src/app/middleware/rate_limit.py over any store. The
-- clock is read once for the hit (`now`), and twice `later`: when the retry delay of a refusal is made, and when the
-- headers are.
use fastapi_chassis.Base.{
  ℕ, ◌+◌, ◌-◌, ◌/◌, ◌≤◌, ◌<◌, String, true, false, not, List, [], ◌∷◌, map, if◌then◌else◌, or_else,
  is_in, ◌≡◌, refl, arith, Bool-cases, inl, inr,
}
use fastapi_chassis.Base.Text.{print_nat}
use fastapi_chassis.Asgi.{Scope, is_http, Headers, Delivery, App, Application, run}
use fastapi_chassis.Asgi.Protocol.{Speaks, idle}
use fastapi_chassis.Starlette.{
  HeaderMaps, Responses, respond, respond-Speaks, text, num, object, field, end,
}
use fastapi_chassis.Proxy.{IpAddresses}
use fastapi_chassis.Middleware.Headers.{change, with_headers, with_headers-Speaks, run-with_headers}
use fastapi_chassis.RateLimit.{RateLimitDecision, decide_hit}
use fastapi_chassis.RateLimit.Store.{RateLimitStore, replay, IsFixedWindow}
use fastapi_chassis.RateLimit.Count.{hits_in, IsOrdered}
use fastapi_chassis.RateLimit.Key.{KeySettings, build_rate_limit_key}

pub decision_headers : RateLimitDecision → ℕ → List (String × String)
decision_headers d later =
    ("X-RateLimit-Limit", print_nat d.limit)
    ∷ ("X-RateLimit-Remaining", print_nat d.remaining)
    ∷ ("X-RateLimit-Reset", print_nat d.reset_at_epoch)
    ∷ ("Retry-After", print_nat (d.reset_at_epoch - later))
    ∷ []

-- `for key_name, value in …: headers[key_name] = value`
pub set_all : HeaderMaps → List (String × String) → Headers → Headers
set_all h [] hs = hs
set_all h ((k, v) ∷ kvs) hs = set_all h kvs (h.set_header k v hs)

pub record RateLimitSettings (ip : IpAddresses) : Type 0 where
  pub limit : ℕ
  pub window_seconds : ℕ
  pub key : KeySettings ip
  pub exempt_paths : List String

module _ (r : Responses) (h : HeaderMaps) (sha256 : String → String) (ip : IpAddresses)
    (s : RateLimitSettings ip) where
  unfoldable pub rate_limited : RateLimitDecision → ℕ × ℕ → App
  unfolding decision_headers
  rate_limited d later =
      respond r 429
        (object (
          field "error" (text "rate_limited") (
            field "detail" (text "Request rate limit exceeded")
              (field "retry_after_seconds" (num (d.reset_at_epoch - later.0)) end))))
        (decision_headers d later.1)

  pub decided : RateLimitDecision → ℕ × ℕ → App → App
  unfolding decision_headers set_all rate_limited
  decided d later app =
      if not d.allowed
      then rate_limited d later
      else with_headers (set_all h (decision_headers d later.1)) app

  -- The decision on an HTTP request after a history of hits.
  abbrev pub expected : ℕ → List (String × ℕ) → Scope → RateLimitDecision
  expected now history scope = decide_hit s.limit s.window_seconds (now / s.window_seconds) (
      hits_in s.window_seconds (build_rate_limit_key h sha256 ip s.key scope)
        (now / s.window_seconds) history
      + 1)

  run-decided :
      (d : RateLimitDecision) (later : ℕ × ℕ) (app : App) (ds : List Delivery)
      → d.allowed ≡ true
      → run ds (decided d later app)
        ≡ (map (change (set_all h (decision_headers d later.1))) (run ds app).0, (run ds app).1)
  unfolding decided
  run-decided d later app ds ok =
      rw ok (run-with_headers (set_all h (decision_headers d later.1)) ds app)

  decided_over :
      (d : RateLimitDecision) (later : ℕ × ℕ) (app : App)
      → d.allowed ≡ false
      → decided d later app ≡ rate_limited d later
  unfolding decided
  decided_over d later app over = rw over

  decided-Speaks :
      (d : RateLimitDecision) (later : ℕ × ℕ) (app : App)
      → Speaks idle app
      → Speaks idle (decided d later app)
  unfolding decided rate_limited
  decided-Speaks d later app speaks = elim (Bool-cases d.allowed) [
    | inl e ↦ rw (e) (with_headers-Speaks (set_all h (decision_headers d later.1)) idle app speaks)
    | inr e ↦ rw (e) (respond-Speaks r 429 _ (decision_headers d later.1))
  ]

module _ (r : Responses) (h : HeaderMaps) (sha256 : String → String) (ip : IpAddresses)
    (c : RateLimitStore) (s : RateLimitSettings ip) where
  unfoldable pub rate_limit : ℕ → ℕ × ℕ → c.State → Application → Scope → c.State × App
  rate_limit now later state app scope =
      let checked =
        c.hit now (build_rate_limit_key h sha256 ip s.key scope) s.limit s.window_seconds state in
      if not (is_http scope)
      then (state, app scope)
      else if is_in (or_else scope.path "") s.exempt_paths
      then (state, app scope)
      else (checked.0, decided r h sha256 ip s checked.1 later (app scope))

  rate_limit-eq :
      (now : ℕ) (later : ℕ × ℕ) (state : c.State) (app : Application) (scope : Scope)
      → is_http scope ≡ true
      → is_in (or_else scope.path "") s.exempt_paths ≡ false
      → let checked =
          c.hit now (build_rate_limit_key h sha256 ip s.key scope) s.limit s.window_seconds state in
        rate_limit now later state app scope
        ≡ (checked.0, decided r h sha256 ip s checked.1 later (app scope))
  unfolding rate_limit
  rate_limit-eq now later state app scope http path = rw (http, path)

  -- Over a store that counts in fixed windows, after an ordered history of hits, an HTTP request outside the
  -- exempt paths is counted as one more hit. If the earlier hits of its key in its window are fewer than the limit
  -- the inner application runs, with the limit's headers set on the start of its response; if not it
  -- does not run, whatever it is, and the answer is the 429 response.
  pub run-rate_limit :
      (start : c.State) (counts : IsFixedWindow c start) (now : ℕ) (later : ℕ × ℕ)
      (history : List (String × ℕ)) (app : Application) (scope : Scope) (ds : List Delivery)
      → 0 < s.window_seconds
      → IsOrdered now history
      → is_http scope ≡ true
      → is_in (or_else scope.path "") s.exempt_paths ≡ false
      → let out =
          rate_limit now later (replay c start s.limit s.window_seconds history) app scope in
        let key = build_rate_limit_key h sha256 ip s.key scope in
        let earlier = hits_in s.window_seconds key (now / s.window_seconds) history in
        let d = expected r h sha256 ip s now history scope in
        (out.0 ≡ replay c start s.limit s.window_seconds ((key, now) ∷ history))
        × (earlier < s.limit
            → run ds out.1 ≡ (
              map (change (set_all h (decision_headers d later.1))) (run ds (app scope)).0,
              (run ds (app scope)).1,
            ))
        × (s.limit ≤ earlier → out.1 ≡ rate_limited r h sha256 ip s d later)
  run-rate_limit start counts now later history app scope ds w o http path =
      let state = replay c start s.limit s.window_seconds history in
      let key = build_rate_limit_key h sha256 ip s.key scope in
      let d = expected r h sha256 ip s now history scope in
      rw (rate_limit-eq now later state app scope http path) (
        rw (counts.decides s.limit s.window_seconds now key history w o) (
          unfold replay in refl,
          λ few.
              run-decided r h sha256 ip s d later (app scope) ds
                (unfold decide_hit in ground arith),
          λ many.
              decided_over r h sha256 ip s d later (app scope) (unfold decide_hit in ground arith),
        ))

  -- The limiter leaves the order of a response as it is.
  pub rate_limit-Speaks :
      (now : ℕ) (later : ℕ × ℕ) (state : c.State) (app : Application) (scope : Scope)
      → Speaks idle (app scope)
      → Speaks idle (rate_limit now later state app scope).1
  unfolding rate_limit
  rate_limit-Speaks now later state app scope speaks = elim (Bool-cases (is_http scope)) [
    | inr e ↦ rw (e) speaks
    | inl e ↦ elim (Bool-cases (is_in (or_else scope.path "") s.exempt_paths)) [
      | inl k ↦ rw (e, k) speaks
      | inr k ↦ rw (e, k) (decided-Speaks r h sha256 ip s _ later (app scope) speaks)
    ]
  ]
