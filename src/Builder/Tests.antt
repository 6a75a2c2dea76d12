-- ===== src/Builder/Tests.antt =====
-- The theorems on the middleware stack at concrete inputs: one request for every ten seconds, and a client
-- that has made one already.
use fastapi_chassis.Base.{ℕ, String, ◌≤◌, ◌≡◌, refl, false, some, List, [], ◌∷◌, map, arith}
use fastapi_chassis.Base.Dict.{lookup, put}
use fastapi_chassis.Asgi.{Scope, run, App}
use fastapi_chassis.Asgi.Protocol.{Speaks, idle, after}
use fastapi_chassis.Fixtures.{
  utf8, header_maps, responses, addresses, Host, http_scope, hello, get_first,
}
use fastapi_chassis.Fixtures.RedisServer.{dict_redis, at-empty}
use fastapi_chassis.RateLimit.RedisStore.{redis_limits}
use fastapi_chassis.RateLimit.RedisCount.{redis_limits-IsFixedWindow}
use fastapi_chassis.RateLimit.Store.{RateLimitStore, replay}
use fastapi_chassis.RateLimit.Count.{hits_in}
use fastapi_chassis.RateLimit.Key.{build_rate_limit_key}
use fastapi_chassis.RateLimit.Middleware.{RateLimitSettings, expected, rate_limited}
use fastapi_chassis.Middleware.Headers.{change}
use fastapi_chassis.Middleware.RequestId.{stamp, with_ids, upstream_id}
use fastapi_chassis.Middleware.SecurityHeaders.{SecuritySettings, secured}
use fastapi_chassis.Builder.{Stack, Moment, application, application_log}
use fastapi_chassis.Builder.Whole.{application-Speaks}
use fastapi_chassis.Builder.Refused.{application_over_limit}
use fastapi_chassis.Starlette.{respond}
use fastapi_chassis.Base.Text.{lower}
use fastapi_chassis.Base.{true}
use fastapi_chassis.Middleware.RequestLogging.Unique.{IsUnique}
use fastapi_chassis.Middleware.RequestLogging.Entry.{Entry, Libraries}

abbrev limits : RateLimitSettings addresses
limits = record {
  limit = 1;
  window_seconds = 10;
  key = record {
    key_strategy = "ip";
    trust_proxy_headers = false;
    proxy_headers = [];
    trusted_proxies = [];
  };
  exempt_paths = "/ready" ∷ [];
}

abbrev secures : SecuritySettings Host
secures = record {
  hsts_enabled = false;
  hsts_max_age_seconds = 60;
  referrer_policy = "no-referrer";
  permissions_policy = "camera=()";
  content_security_policy = "";
  trust_proxy_proto_header = false;
  trusted_proxies = [];
}

abbrev stack : Stack addresses
stack = record {
  request_timeout = 30;
  max_request_body_bytes = 1024;
  redact_headers = true;
  rate_limiting = some limits;
  security = some secures;
}

abbrev moment : Moment
moment = record {
  now = 67;
  later = (67, 68);
  started = 5;
  ended = 9;
  timeout_at = 1;
  timeout_in_send = false;
  new_id = "own";
}

abbrev caller : Scope
caller = http_scope (some "203.0.113.9") []

-- nothing is decoded or encoded
abbrev libraries : Libraries
libraries = record {
  decode_replace = λ s. s;
  parse_qsl = λ query. [];
  urlencode = λ pairs. "";
  round = λ n. n;
}

-- counters in Redis
abbrev counters : RateLimitStore
counters = redis_limits dict_redis

abbrev hits : List (String × ℕ)
hits = ("ip:203.0.113.9", 61) ∷ []

upstream : some (upstream_id utf8 "own" caller.headers) ≡ some "own"
unfolding upstream_id lookup put
upstream = refl

over :
    1
    ≤ hits_in 10
        (build_rate_limit_key header_maps
          (λ t. t)
          addresses
          limits.key
          (with_ids "own" "own" caller))
        6
        hits
unfolding build_rate_limit_key with_ids hits_in get_first
over = omega arith

hello-Speaks : (sc : Scope) → Speaks idle (hello sc)
unfolding after
hello-Speaks sc = refl

application-Speaks_example : Speaks idle (
    application responses header_maps
      (λ t. t)
      utf8
      addresses
      stack
      moment
      counters
      (replay counters [] 1 10 hits)
      hello
      caller)
application-Speaks_example =
    application-Speaks responses header_maps (λ t. t) utf8 addresses stack moment counters
      (replay counters [] 1 10 hits) hello caller "own" hello-Speaks refl upstream

abbrev answer : App
answer =
    rate_limited responses header_maps (λ t. t) addresses limits
      (expected responses header_maps (λ t. t) addresses limits 67 hits
        (with_ids "own" "own" caller))
      (67, 68)

unique : IsUnique answer
unfolding respond rate_limited lower
unique = ((refl, refl), tt)

application_over_limit_example :
    let state = replay counters [] 1 10 hits in
    (run [] (
        application responses header_maps
          (λ t. t)
          utf8
          addresses
          stack
          moment
          counters
          state
          hello
          caller)
      ≡ (
        map
            (change (secured header_maps addresses secures caller))
            (map (change (stamp utf8 "own" "own")) (run [] answer).0),
        (run [] answer).1,
      ))
    × (e : Entry) × (application_log responses header_maps
          (λ t. t)
          utf8
          addresses
          stack
          moment
          counters
          libraries
          state
          hello
          caller
          []
        ≡ e ∷ [])
    × (e.http_status_code ≡ 429)
    × (e.request_id ≡ "own")
    × (e.correlation_id ≡ "own")
application_over_limit_example =
    application_over_limit responses header_maps (λ t. t) utf8 addresses stack moment counters
      libraries [] (redis_limits-IsFixedWindow dict_redis [] (λ t b k. at-empty t _)) limits secures
      hits hello caller "own" [] refl refl (omega arith) (omega arith) refl refl upstream unique
      over
