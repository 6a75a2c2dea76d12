-- ===== src/Middleware/SecurityHeaders.antt =====
-- src/app/middleware/security_headers.py
use Prim.Native.String.{◌++◌}
use fastapi_chassis.Base.{
  ℕ, String, Bool, true, false, ◌&&◌, Option, none, some, List, map, ◌==◌, if◌then◌else◌, cond, ◌≡◌,
  refl, ap, ◌∙◌, Bool-cases, inl, inr, or_else,
}
use fastapi_chassis.Base.Text.{lower, is_true, print_nat}
use fastapi_chassis.Asgi.{Scope, is_http, Headers, Delivery, Application, run}
use fastapi_chassis.Asgi.Protocol.{idle, Speaks}
use fastapi_chassis.Starlette.{HeaderMaps}
use fastapi_chassis.Proxy.{IpAddresses, is_trusted_proxy, normalize_forwarded_proto}
use fastapi_chassis.Middleware.Headers.{change, with_headers, with_headers-Speaks, run-with_headers}

-- The arguments of the class, the networks parsed.
pub record SecuritySettings (Network : Type 0) : Type 0 where
  pub hsts_enabled : Bool
  pub hsts_max_age_seconds : ℕ
  pub referrer_policy : String
  pub permissions_policy : String
  pub content_security_policy : String
  pub trust_proxy_proto_header : Bool
  pub trusted_proxies : List Network

module _ (h : HeaderMaps) (ip : IpAddresses) (s : SecuritySettings ip.Network) where
  open h use {get_header, set_header}

  -- the headers but for Strict-Transport-Security
  unfoldable pub fixed_headers : Headers → Headers
  fixed_headers hs =
      let set = set_header "Cache-Control" "no-store" (
        set_header "Permissions-Policy" s.permissions_policy (
          set_header "Referrer-Policy" s.referrer_policy (
            set_header "X-Frame-Options" "DENY"
              (set_header "X-Content-Type-Options" "nosniff" hs)))) in
      if is_true s.content_security_policy
      then set_header "Content-Security-Policy" s.content_security_policy set
      else set

  unfoldable pub forwarded_proto : Scope → Option String
  forwarded_proto scope =
      if s.trust_proxy_proto_header
        && is_trusted_proxy ip (or_else scope.client "unknown") s.trusted_proxies
      then normalize_forwarded_proto (get_header "x-forwarded-proto" scope.headers)
      else none

  -- `forwarded_proto or scope.get("scheme", "http")`: a forwarded protocol is no empty text
  unfoldable pub request_scheme : Scope → String
  unfolding forwarded_proto
  request_scheme scope = or_else (forwarded_proto scope) (or_else scope.scheme "http")

  unfoldable pub hsts_value : String
  hsts_value = "max-age=" ++ (print_nat s.hsts_max_age_seconds ++ "; includeSubDomains")

  -- what `send_wrapper` does to the headers of a start
  unfoldable pub secured : Scope → Headers → Headers
  unfolding fixed_headers request_scheme hsts_value
  secured scope hs =
      if s.hsts_enabled && (request_scheme scope == "https")
      then set_header "Strict-Transport-Security" hsts_value (fixed_headers hs)
      else fixed_headers hs

  unfoldable pub security_headers : Application → Application
  unfolding secured
  security_headers app scope =
      if is_http scope then with_headers (secured scope) (app scope) else app scope

  -- The policy by lower-case header name: what the middleware sets, or what was there.
  abbrev fixed_policy : String → Option String → Option String
  fixed_policy name before =
      if "cache-control" == name
      then some "no-store"
      else if "permissions-policy" == name
      then some s.permissions_policy
      else if "referrer-policy" == name
      then some s.referrer_policy
      else if "x-frame-options" == name
      then some "DENY"
      else if "x-content-type-options" == name
      then some "nosniff"
      else before

  abbrev content_policy : String → Option String → Option String
  content_policy name before =
      if is_true s.content_security_policy && ("content-security-policy" == name)
      then some s.content_security_policy
      else fixed_policy name before

  abbrev pub policy : Scope → String → Option String → Option String
  policy scope name before =
      if (s.hsts_enabled && (request_scheme scope == "https"))
        && ("strict-transport-security" == name)
      then some hsts_value
      else content_policy name before

  five_lem :
      (j : String) (hs : Headers)
      → get_header j (
          set_header "Cache-Control" "no-store" (
            set_header "Permissions-Policy" s.permissions_policy (
              set_header "Referrer-Policy" s.referrer_policy (
                set_header "X-Frame-Options" "DENY"
                  (set_header "X-Content-Type-Options" "nosniff" hs)))))
        ≡ fixed_policy (lower j) (get_header j hs)
  unfolding lower
  five_lem j hs =
      rw
        (
          h.get-set j "Cache-Control" "no-store" _,
          h.get-set j "Permissions-Policy" s.permissions_policy _,
          h.get-set j "Referrer-Policy" s.referrer_policy _,
          h.get-set j "X-Frame-Options" "DENY" _,
          h.get-set j "X-Content-Type-Options" "nosniff" hs,
        )
        refl

  content_lem :
      (j : String) (hs : Headers)
      → get_header j (fixed_headers hs) ≡ content_policy (lower j) (get_header j hs)
  unfolding fixed_headers lower
  content_lem j hs = elim (Bool-cases (is_true s.content_security_policy)) [
    | inl e ↦ rw (e) (
        h.get-set j "Content-Security-Policy" s.content_security_policy _
        ∙ ap (cond ("content-security-policy" == lower j) (some s.content_security_policy))
            (five_lem j hs))
    | inr e ↦ rw (e) (five_lem j hs)
  ]

  secured_lem :
      (scope : Scope) (j : String) (hs : Headers)
      → get_header j (secured scope hs) ≡ policy scope (lower j) (get_header j hs)
  unfolding secured lower
  secured_lem scope j hs = elim (Bool-cases (s.hsts_enabled && (request_scheme scope == "https"))) [
    | inl e ↦ rw (e) (
        h.get-set j "Strict-Transport-Security" hsts_value _
        ∙ ap (cond ("strict-transport-security" == lower j) (some hsts_value)) (content_lem j hs))
    | inr e ↦ rw (e) (content_lem j hs)
  ]

  untrusted_scheme :
      (scope : Scope)
      → (s.trust_proxy_proto_header
          && is_trusted_proxy ip (or_else scope.client "unknown") s.trusted_proxies)
        ≡ false
      → request_scheme scope ≡ or_else scope.scheme "http"
  unfolding request_scheme
  untrusted_scheme scope e = rw (e) refl

  -- On an HTTP request the inner application runs and every start that it sends goes out with each
  -- header as the policy says: the fixed ones set, a content policy if there is one, HSTS if it is
  -- enabled and the scheme is https, and all others left alone. A peer that is no trusted proxy does
  -- not choose that scheme by a header.
  pub run-security_headers :
      (app : Application) (scope : Scope) (ds : List Delivery)
      → is_http scope ≡ true
      → (run ds (security_headers app scope)
          ≡ (map (change (secured scope)) (run ds (app scope)).0, (run ds (app scope)).1))
        × ((j : String) (hs : Headers)
            → get_header j (secured scope hs) ≡ policy scope (lower j) (get_header j hs))
        × ((s.trust_proxy_proto_header
                && is_trusted_proxy ip (or_else scope.client "unknown") s.trusted_proxies)
              ≡ false
            → request_scheme scope ≡ or_else scope.scheme "http")
  unfolding security_headers
  run-security_headers app scope ds http = (
    rw (http) (run-with_headers (secured scope) ds (app scope)),
    secured_lem scope,
    untrusted_scheme scope,
  )

  -- The security headers leave the order of a response as it is.
  pub security_headers-Speaks :
      (app : Application) (scope : Scope)
      → Speaks idle (app scope)
      → Speaks idle (security_headers app scope)
  unfolding security_headers
  security_headers-Speaks app scope speaks = elim (Bool-cases (is_http scope)) [
    | inl e ↦ rw (e) (with_headers-Speaks (secured scope) idle _ speaks)
    | inr e ↦ rw (e) speaks
  ]
