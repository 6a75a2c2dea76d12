-- ===== src/Middleware/HeaderTests.antt =====
-- Uses of the theorems on the middlewares that set headers, at concrete inputs.
use fastapi_chassis.Base.{String, true, false, none, some, [], ◌∷◌, map, ◌≡◌, refl, ◌&&◌, or_else}
use fastapi_chassis.Base.Text.{lower}
use fastapi_chassis.Base.Dict.{lookup, put}
use fastapi_chassis.Asgi.{Scope, Headers, raise, run}
use fastapi_chassis.Fixtures.{header_maps, addresses, Host, proxy, utf8, http_scope, hello}
use fastapi_chassis.Proxy.{is_trusted_proxy}
use fastapi_chassis.Middleware.Headers.{change}
use fastapi_chassis.Middleware.RequestId.{
  upstream_id, stamp, with_ids, undecodable, request_id_middleware, Stamped, run-request_id,
}
use fastapi_chassis.Middleware.SecurityHeaders.{
  SecuritySettings, secured, security_headers, policy, request_scheme, run-security_headers,
}

abbrev traced : Scope
traced = http_scope none (("X-Request-Id", "upstream") ∷ [])

upstream_found : upstream_id utf8 "own" traced.headers ≡ "upstream"
unfolding upstream_id lower lookup put
upstream_found = refl

run-request_id_example :
    ((correlation_id : String)
      → utf8.decode (upstream_id utf8 "own" traced.headers) ≡ some correlation_id
      → (run [] (request_id_middleware utf8 "own" hello traced) ≡ (
        map
            (change (stamp utf8 "own" correlation_id))
            (run [] (hello (with_ids "own" correlation_id traced))).0,
        (run [] (hello (with_ids "own" correlation_id traced))).1,
      ))
        × (lookup "request_id" (with_ids "own" correlation_id traced).state ≡ some "own")
        × (lookup "correlation_id" (with_ids "own" correlation_id traced).state
            ≡ some correlation_id)
        × ((hs : Headers)
            → Stamped utf8 "own" correlation_id hs (stamp utf8 "own" correlation_id hs)))
    × (utf8.decode (upstream_id utf8 "own" traced.headers) ≡ none
        → request_id_middleware utf8 "own" hello traced ≡ raise undecodable)
run-request_id_example = run-request_id utf8 "own" hello traced [] refl

abbrev strict : SecuritySettings Host
strict = record {
  hsts_enabled = true;
  hsts_max_age_seconds = 60;
  referrer_policy = "no-referrer";
  permissions_policy = "camera=()";
  content_security_policy = "default-src 'none'";
  trust_proxy_proto_header = true;
  trusted_proxies = proxy ∷ [];
}

abbrev forged : Scope
forged = http_scope (some "203.0.113.9") (("X-Forwarded-Proto", "https") ∷ [])

run-security_headers_example :
    (run [] (security_headers header_maps addresses strict hello forged) ≡ (
      map (change (secured header_maps addresses strict forged)) (run [] (hello forged)).0,
      (run [] (hello forged)).1,
    ))
    × ((j : String) (hs : Headers)
        → header_maps.get_header j (secured header_maps addresses strict forged hs)
          ≡ policy header_maps addresses strict forged (lower j) (header_maps.get_header j hs))
    × ((strict.trust_proxy_proto_header
            && is_trusted_proxy addresses (or_else forged.client "unknown") strict.trusted_proxies)
          ≡ false
        → request_scheme header_maps addresses strict forged ≡ or_else forged.scheme "http")
run-security_headers_example =
    run-security_headers header_maps addresses strict hello forged [] refl
