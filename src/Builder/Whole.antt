-- ===== src/Builder/Whole.antt =====
-- What holds of the whole stack of src/app/app_builder.py.
use fastapi_chassis.Base.{
  String, Bool, true, false, Option, none, some, List, [], ◌∷◌, if◌then◌else◌, ◌≡◌, refl, ap, ◌∙◌,
  All,
}
use fastapi_chassis.Base.Dict.{is_some}
use fastapi_chassis.Asgi.{Scope, Application}
use fastapi_chassis.Asgi.Protocol.{idle, Speaks}
use fastapi_chassis.Starlette.{HeaderMaps, Responses}
use fastapi_chassis.Proxy.{IpAddresses, parse_trusted_proxies, cons_network}
use fastapi_chassis.Settings.Result.{ok}
use fastapi_chassis.Settings.Fields.{Settings}
use fastapi_chassis.Settings.Validate.{resolve_paths_and_defaults}
use fastapi_chassis.Settings.Accepted.{resolve_paths_and_defaults-IsAccepted}
use fastapi_chassis.RateLimit.Store.{RateLimitStore}
use fastapi_chassis.RateLimit.Middleware.{RateLimitSettings, rate_limit-Speaks}
use fastapi_chassis.Middleware.BodySize.Order.{body_size_limit-Speaks}
use fastapi_chassis.Middleware.Timeout.Whole.{limit_time-Speaks}
use fastapi_chassis.Middleware.RequestId.{Utf8, upstream_id, request_id-Speaks}
use fastapi_chassis.Middleware.RequestLogging.Wrapped.{request_logging-Speaks}
use fastapi_chassis.Middleware.SecurityHeaders.{SecuritySettings, security_headers-Speaks}
use fastapi_chassis.Builder.{
  rate_limit_arguments, security_arguments, Stack, setup_middleware, added, with_both, Moment,
  innermost, when_limited, when_secured, application,
}

module _ (ip : IpAddresses) where
  parse_lem :
      (proxies : List String)
      → All (λ proxy. (n : ip.Network) × (ip.ip_network proxy ≡ some n)) proxies
      → (networks : List ip.Network) × (parse_trusted_proxies ip proxies ≡ some networks)
  unfolding parse_trusted_proxies
  parse_lem [] h = ([], refl)
  parse_lem (p ∷ ps) ((n, e), hs) =
      let (ns, k) = parse_lem ps hs in
      (
        n ∷ ns,
        ap (λ o. cons_network ip o (parse_trusted_proxies ip ps)) e
            ∙ ap (cons_network ip (some n)) k,
      )

  by_flags :
      (s : Settings) (ns ms : List ip.Network) (limits secures : Bool)
      → is_some (
          with_both ip s
            (if limits then added ip (rate_limit_arguments ip s) (some ns) else some none)
            (if secures then added ip (security_arguments ip s) (some ms) else some none))
        ≡ true
  by_flags s ns ms true true = refl
  by_flags s ns ms true false = refl
  by_flags s ns ms false true = refl
  by_flags s ns ms false false = refl

  -- Settings that were accepted give a stack: no middleware of it raises when it is made.
  pub setup_middleware-is_some :
      (bundled : String) (raw s : Settings)
      → resolve_paths_and_defaults ip bundled raw ≡ ok s
      → is_some (setup_middleware ip s) ≡ true
  unfolding setup_middleware
  setup_middleware-is_some bundled raw s h =
      let (_, _, rate, secure, _, _) = resolve_paths_and_defaults-IsAccepted ip bundled raw s h in
      let (ns, e) = parse_lem s.rate_limit_trusted_proxies rate.1 in
      let (ms, k) = parse_lem s.security_trusted_proxies secure.1 in
      rw (e, k) (by_flags s ns ms s.rate_limit_enabled s.security_headers_enabled)

module _ (r : Responses) (h : HeaderMaps) (sha256 : String → String) (utf8 : Utf8)
    (ip : IpAddresses) (stack : Stack ip) (m : Moment) (c : RateLimitStore) where
  limited-Speaks :
      (o : Option (RateLimitSettings ip)) (state : c.State) (app : Application)
      → ((scope : Scope) → Speaks idle (app scope))
      → (scope : Scope) → Speaks idle (when_limited r h sha256 utf8 ip stack m c o state app scope)
  limited-Speaks none state app s scope = s scope
  limited-Speaks (some settings) state app s scope =
      rate_limit-Speaks r h sha256 ip c settings m.now m.later state app scope (s scope)

  secured-Speaks :
      (o : Option (SecuritySettings ip.Network)) (app : Application) (scope : Scope)
      → Speaks idle (app scope)
      → Speaks idle (when_secured r h sha256 utf8 ip stack m c o app scope)
  secured-Speaks none app scope s = s
  secured-Speaks (some settings) app scope s = security_headers-Speaks h ip settings app scope s

  -- Any handler that keeps the order of a response, and lets RequestTooLargeError out only before its response has
  -- started, keeps it under the whole stack, whatever the limits are and whenever the time runs out, if not while a send
  -- waits, for a request whose identifier can be decoded: so if the stack returns the client has one whole response.
  pub application-Speaks :
      (state : c.State) (handler : Application) (scope : Scope) (correlation_id : String)
      → ((sc : Scope) → Speaks idle (handler sc))
      → m.timeout_in_send ≡ false
      → utf8.decode (upstream_id utf8 m.new_id scope.headers) ≡ some correlation_id
      → Speaks idle (application r h sha256 utf8 ip stack m c state handler scope)
  unfolding application innermost
  application-Speaks state handler scope correlation speaks e d =
      secured-Speaks stack.security _ scope (
        request_logging-Speaks utf8.decode _ scope (
          request_id-Speaks utf8 m.new_id _
            (limited-Speaks stack.rate_limiting state _ (λ sc.
              body_size_limit-Speaks r stack.max_request_body_bytes _ sc (
                rw (e)
                  (limit_time-Speaks r stack.request_timeout m.timeout_at handler sc (speaks sc)))))
            scope correlation d))
