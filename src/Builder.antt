-- ===== src/Builder.antt =====
-- src/app/app_builder.py: the middleware that `setup_middleware` adds, and the application that they make.
-- Starlette runs them in reverse order, so the last one added is the outermost. TrustedHostMiddleware and
-- CORSMiddleware are not under src/ and stand outside this stack.
pub mod Whole
pub mod Refused
mod Tests
pub mod Setup
pub mod Ready
mod SetupTests
use fastapi_chassis.Base.Text.{lower}
use fastapi_chassis.Base.{
  map, ℕ, String, Bool, true, false, Option, none, some, List, [], ◌∷◌, if◌then◌else◌,
}
use fastapi_chassis.Asgi.{Scope, Delivery, App, Application}
use fastapi_chassis.Starlette.{HeaderMaps, Responses}
use fastapi_chassis.Proxy.{IpAddresses, parse_trusted_proxies}
use fastapi_chassis.Settings.Fields.{Settings}
use fastapi_chassis.RateLimit.Store.{RateLimitStore}
use fastapi_chassis.RateLimit.Key.{KeySettings}
use fastapi_chassis.RateLimit.Middleware.{RateLimitSettings, rate_limit}
use fastapi_chassis.Middleware.BodySize.{body_size_limit}
use fastapi_chassis.Middleware.Timeout.{limit_time}
use fastapi_chassis.Middleware.RequestId.{Utf8, request_id_middleware}
use fastapi_chassis.Middleware.RequestLogging.Wrapped.{request_logging_middleware}
use fastapi_chassis.Middleware.RequestLogging.Entry.{Entry, Libraries, request_logging}
use fastapi_chassis.Middleware.SecurityHeaders.{SecuritySettings, security_headers}

module _ (ip : IpAddresses) where
  -- the attributes that RateLimitMiddleware makes of its arguments: names of headers in lower case, networks
  -- parsed. Its store, which the storage URL chooses, is in RateLimit/Factory.
  abbrev pub rate_limit_arguments : Settings → List ip.Network → RateLimitSettings ip
  rate_limit_arguments s networks = record {
    limit = s.rate_limit_requests;
    window_seconds = s.rate_limit_window_seconds;
    key = record {
      key_strategy = s.rate_limit_key_strategy;
      trust_proxy_headers = s.rate_limit_trust_proxy_headers;
      proxy_headers = map lower s.rate_limit_proxy_headers;
      trusted_proxies = networks;
    };
    exempt_paths = s.health_check_path ∷ s.readiness_check_path ∷ "/metrics" ∷ "/favicon.ico" ∷ [];
  }

  -- the arguments of SecurityHeadersMiddleware, its networks parsed
  abbrev pub security_arguments : Settings → List ip.Network → SecuritySettings ip.Network
  security_arguments s networks = record {
    hsts_enabled = s.security_hsts_enabled;
    hsts_max_age_seconds = s.security_hsts_max_age_seconds;
    referrer_policy = s.security_referrer_policy;
    permissions_policy = s.security_permissions_policy;
    content_security_policy = s.security_content_security_policy;
    trust_proxy_proto_header = s.security_trust_proxy_proto_header;
    trusted_proxies = networks;
  }

  -- The middleware that was added; `none` is one that is switched off.
  pub record Stack : Type 0 where
    pub request_timeout : ℕ
    pub max_request_body_bytes : ℕ
    pub redact_headers : Bool
    pub rate_limiting : Option (RateLimitSettings ip)
    pub security : Option (SecuritySettings ip.Network)

  -- `if enabled: add_middleware(...)`; `none` if the constructor raises, as a network does not parse
  abbrev pub added {ℓ} :
      {A : Type ℓ} → (List ip.Network → A) → Option (List ip.Network) → Option (Option A)
  added arguments none = none
  added arguments (some networks) = some (some (arguments networks))

  abbrev pub with_both :
      Settings
      → Option (Option (RateLimitSettings ip))
      → Option (Option (SecuritySettings ip.Network))
      → Option Stack
  with_both s (some rate) (some secure) = some (record {
    request_timeout = s.request_timeout;
    max_request_body_bytes = s.max_request_body_bytes;
    redact_headers = s.log_redact_headers;
    rate_limiting = rate;
    security = secure;
  })
  with_both s _ _ = none

  -- `none` if a constructor raises
  unfoldable pub setup_middleware : Settings → Option Stack
  setup_middleware s =
      with_both s
        (if s.rate_limit_enabled
          then added (rate_limit_arguments s)
              (parse_trusted_proxies ip s.rate_limit_trusted_proxies)
          else some none)
        (if s.security_headers_enabled
          then added (security_arguments s) (parse_trusted_proxies ip s.security_trusted_proxies)
          else some none)

-- What one request meets: three readings of the limiter's clock and two of the log's, the moment of a timeout, and its new
-- identifier.
pub record Moment : Type 0 where
  pub now : ℕ
  pub later : ℕ × ℕ
  pub started : ℕ
  pub ended : ℕ
  pub timeout_at : ℕ
  pub timeout_in_send : Bool
  pub new_id : String

module _ (r : Responses) (h : HeaderMaps) (sha256 : String → String) (utf8 : Utf8)
    (ip : IpAddresses) (stack : Stack ip) (m : Moment) (c : RateLimitStore) where
  -- the body limit round the time limit
  unfoldable pub innermost : Application → Application
  innermost handler =
      body_size_limit r stack.max_request_body_bytes
        (limit_time r stack.request_timeout m.timeout_at m.timeout_in_send handler)

  abbrev pub when_limited : Option (RateLimitSettings ip) → c.State → Application → Application
  when_limited none state app scope = app scope
  when_limited (some s) state app scope =
      (rate_limit r h sha256 ip c s m.now m.later state app scope).1

  abbrev pub when_secured : Option (SecuritySettings ip.Network) → Application → Application
  when_secured none app = app
  when_secured (some s) app = security_headers h ip s app

  -- the application from the identifiers inwards, which the log is round
  abbrev pub inside_log : c.State → Application → Application
  inside_log state handler =
      request_id_middleware utf8 m.new_id
        (when_limited stack.rate_limiting state (innermost handler))

  -- The application that answers a request, over the store of the limiter.
  unfoldable pub application : c.State → Application → Application
  application state handler =
      when_secured stack.security
        (request_logging_middleware utf8.decode (inside_log state handler))

  -- What is logged of the request.
  unfoldable pub application_log :
      Libraries → c.State → Application → Scope → List Delivery → List Entry
  application_log l state handler scope ds =
      (request_logging l utf8.decode stack.redact_headers m.started m.ended
        (inside_log state handler) scope ds).1
