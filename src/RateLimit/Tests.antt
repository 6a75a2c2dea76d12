-- ===== src/RateLimit/Tests.antt =====
-- Runs of the rate limiter, and its theorems at concrete inputs.
use Prim.Native.Nat.{min}
use fastapi_chassis.Base.{
  ℕ, ◌+◌, ◌-◌, ◌≤◌, ◌<◌, String, ◌≡◌, ◌≢◌, ◌↔◌, refl, true, false, none, some, List, [], ◌∷◌, arith,
  eq_iff, map, ◌&&◌,
}
use fastapi_chassis.Base.Text.{print_nat}
use fastapi_chassis.Base.Dict.{lookup, put, pop, IsDistinct}
use fastapi_chassis.Base.Text.{lower, starts, drop_text, strip, split_on}
use fastapi_chassis.Fixtures.{
  header_maps, responses, addresses, proxy, http_scope, hello, get_first,
}
use fastapi_chassis.Asgi.{Scope, run}
use fastapi_chassis.Proxy.{is_trusted_proxy, get_forwarded_client_ip}
use fastapi_chassis.Middleware.Headers.{change}
use fastapi_chassis.RateLimit.Key.{build_rate_limit_key, IsAddressKey, build_rate_limit_key_by_ip}
use fastapi_chassis.RateLimit.Middleware.{
  RateLimitSettings, set_all, decision_headers, rate_limit, rate_limited, expected, run-rate_limit,
}
use fastapi_chassis.RateLimit.Store
use fastapi_chassis.RateLimit.Store.{memory_limits, memory_limits-IsFixedWindow}
use fastapi_chassis.RateLimit.{Buckets, hit, replay}
use fastapi_chassis.RateLimit.Count.{hits_in}
use fastapi_chassis.RateLimit.Decide.{allowed_in, hit-replay, allowed_in-replay}

run_hits : Unit {0}
unfolding hit replay lookup put pop print_nat hits_in allowed_in
run_hits = tt

-- Three hits in the window 6 of ten seconds, the latest first, and one in the window before.
abbrev hits : List (String × ℕ)
hits = ("ip:b", 66) ∷ ("ip:a", 65) ∷ ("ip:a", 61) ∷ ("ip:a", 59) ∷ []

third_is_refused :
    ((hit 67 "ip:a" 2 10 (replay 2 10 hits)).1.allowed ≡ false)
    × ((hit 67 "ip:b" 2 10 (replay 2 10 hits)).1.allowed ≡ true)
    × ((hit 67 "ip:b" 2 10 (replay 2 10 hits)).1.reset_at_epoch ≡ 70)
    × (replay 2 10 hits ≡ ("ip:a:6", (6, 2)) ∷ ("ip:b:6", (6, 1)) ∷ [])
unfolding run_hits
third_is_refused = (refl, refl, refl, refl)

hit-replay_example :
    let d = (hit 67 "ip:a" 2 10 (replay 2 10 hits)).1 in
    ((d.allowed ≡ true) ↔ (hits_in 10 "ip:a" 6 hits < 2))
    × (d.limit ≡ 2)
    × (d.remaining ≡ 2 - (hits_in 10 "ip:a" 6 hits + 1))
    × (67 < d.reset_at_epoch)
    × (d.reset_at_epoch ≤ 77)
hit-replay_example = hit-replay 2 10 67 "ip:a" hits (omega arith) (omega arith)

allowed_in-replay_example : allowed_in 2 10 "ip:a" 6 hits ≡ min (hits_in 10 "ip:a" 6 hits) 2
allowed_in-replay_example = allowed_in-replay 2 10 67 "ip:a" 6 hits (omega arith) (omega arith)

b_stored : lookup "ip:b:6" (replay 2 10 hits) ≡ some (6, 1)
unfolding run_hits
b_stored = refl

abbrev earlier_hits : List (String × ℕ)
earlier_hits = ("ip:a", 65) ∷ ("ip:a", 61) ∷ ("ip:a", 59) ∷ []

abbrev two_windows : Buckets
two_windows = ("ip:a:5", (5, 4)) ∷ ("ip:a:6", (6, 1)) ∷ []

two_windows-IsDistinct : IsDistinct two_windows
unfolding lookup
two_windows-IsDistinct = (refl, (refl, tt))

-- A limiter of two hits in ten seconds that trusts 10.0.0.1 to name the client.
abbrev settings : RateLimitSettings addresses
settings = record {
  limit = 2;
  window_seconds = 10;
  key = record {
    key_strategy = "ip";
    trust_proxy_headers = true;
    proxy_headers = "x-forwarded-for" ∷ [];
    trusted_proxies = proxy ∷ [];
  };
  exempt_paths = "/healthcheck" ∷ [];
}

-- The hash is not looked at here.
abbrev sha : String → String
sha token = token

abbrev proxied : Scope
proxied = http_scope (some "10.0.0.1") (("X-Forwarded-For", "203.0.113.9") ∷ [])

keys :
    (build_rate_limit_key header_maps sha addresses settings.key proxied ≡ "ip:203.0.113.9")
    × (build_rate_limit_key header_maps sha addresses settings.key
          (http_scope (some "203.0.113.9") (("X-Forwarded-For", "1.2.3.4") ∷ []))
        ≡ "ip:203.0.113.9")
    × (build_rate_limit_key header_maps sha addresses
          (record settings.key { key_strategy = "authorization" })
          (http_scope none (("Authorization", "BEARER  abc ") ∷ []))
        ≡ "authorization:abc")
unfolding build_rate_limit_key get_forwarded_client_ip get_first lower starts drop_text strip
    split_on
keys = (refl, refl, refl)

ip_ne : ◌≢◌ {A = String} "ip" "authorization"
ip_ne = ground (arith, eq_iff "ip" "authorization")

build_rate_limit_key_by_ip_example :
    ((true && is_trusted_proxy addresses "10.0.0.1" (proxy ∷ [])) ≡ false
      → build_rate_limit_key header_maps sha addresses settings.key proxied ≡ "ip:10.0.0.1")
    × IsAddressKey header_maps sha addresses settings.key proxied
        (build_rate_limit_key header_maps sha addresses settings.key proxied)
build_rate_limit_key_by_ip_example =
    build_rate_limit_key_by_ip header_maps sha addresses settings.key proxied ip_ne

run-rate_limit_example :
    let out =
      rate_limit responses header_maps sha addresses memory_limits settings 67
        (67, 68)
        (Store.replay memory_limits [] 2 10 hits)
        hello
        proxied in
    let key = build_rate_limit_key header_maps sha addresses settings.key proxied in
    let earlier = hits_in 10 key 6 hits in
    let d = expected responses header_maps sha addresses settings 67 hits proxied in
    (out.0 ≡ Store.replay memory_limits [] 2 10 ((key, 67) ∷ hits))
    × (earlier < 2
        → run [] out.1 ≡ (
          map (change (set_all header_maps (decision_headers d 68))) (run [] (hello proxied)).0,
          (run [] (hello proxied)).1,
        ))
    × (2 ≤ earlier → out.1 ≡ rate_limited responses header_maps sha addresses settings d (67, 68))
run-rate_limit_example =
    run-rate_limit responses header_maps sha addresses memory_limits settings []
      memory_limits-IsFixedWindow 67 (67, 68) hits hello proxied [] (omega arith) (omega arith) refl
      refl
