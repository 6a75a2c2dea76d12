-- ===== src/RateLimit/RedisTests.antt =====
-- Runs of the Redis limiter, and its theorems at concrete inputs.
use Prim.Native.String.{◌++◌, char_at}
use text.Mathlib.TextLemmas.{cons-append, head-eq_of_cons-eq}
use fastapi_chassis.Base.{
  ℕ, ◌+◌, ◌<◌, String, ◌≡◌, ◌≢◌, refl, sym, ap, ◌∙◌, true, false, List, arith,
}
use fastapi_chassis.Base.Text.{print_nat, same_code}
use fastapi_chassis.Base.Dict.{lookup, put, pop}
use fastapi_chassis.Cache.{set_call}
use fastapi_chassis.Cache.Store.{serve}
use fastapi_chassis.Cache.RedisStore.{prefixed, clear, redis_cache}
use fastapi_chassis.Redis.{countable}
use fastapi_chassis.RateLimit
use fastapi_chassis.RateLimit.{decide_hit}
use fastapi_chassis.RateLimit.Store.{replay}
use fastapi_chassis.RateLimit.RedisStore.{redis_key, hit, redis_limits}
use fastapi_chassis.RateLimit.RedisCount.{redis_limits-agrees}
use fastapi_chassis.RateLimit.Count.{hits_in}
use fastapi_chassis.RateLimit.Interleaving.{
  Command, counts, expires, execute_all, hits_of, hit-execute_all,
}
use fastapi_chassis.RateLimit.SharedServer.{cache-keeps_limits}
use fastapi_chassis.Fixtures.RedisServer.{dict_redis, at-empty}

-- Three hits in the window 6 of ten seconds, the latest first, and one in the window before.
abbrev hits : List (String × ℕ)
hits =
    List.◌∷◌ ("ip:b", 66)
      (List.◌∷◌ ("ip:a", 65) (List.◌∷◌ ("ip:a", 61) (List.◌∷◌ ("ip:a", 59) List.[])))

third_is_refused :
    ((hit dict_redis 67 "ip:a" 2 10 (replay (redis_limits dict_redis) List.[] 2 10 hits)).1.allowed
      ≡ false)
    × ((hit dict_redis 67 "ip:b" 2 10
          (replay (redis_limits dict_redis) List.[] 2 10 hits)).1.allowed
        ≡ true)
unfolding hit replay lookup put pop print_nat
third_is_refused = (refl, refl)

redis_limits-agrees_example :
    (hit dict_redis 67 "ip:a" 2 10 (replay (redis_limits dict_redis) List.[] 2 10 hits)).1
    ≡ (RateLimit.hit 67 "ip:a" 2 10 (RateLimit.replay 2 10 hits)).1
redis_limits-agrees_example =
    redis_limits-agrees dict_redis List.[] 2 10 67 "ip:a" hits (λ t b k. at-empty t _) (omega arith)
      (omega arith)

-- No key of the cache is a counter's name: they begin with different letters.
apart : (b : ℕ) (k j : String) → prefixed dict_redis "cache:" j ≢ redis_key b k
unfolding redis_key
apart b k j e =
    let head = head-eq_of_cons-eq (
      sym (cons-append (char_at "c" 0) "ache:" j)
      ∙ (e ∙ cons-append (char_at "r" 0) "ate_limit:" (print_nat b ++ (":" ++ k)))) in
    absurd (ground (arith, ap (same_code (char_at "c" 0)) head))

counted :
    countable
      (dict_redis.seen 67 (redis_key 6 "ip:a") (replay (redis_limits dict_redis) List.[] 2 10 hits))
    ≡ true
unfolding hit replay lookup put pop print_nat redis_key
counted = refl

cache-keeps_limits_example :
    (0 < 10
      → (hit dict_redis 67 "ip:a" 2 10 (
          serve
            (redis_cache dict_redis "cache:")
            65
            (set_call "a" List.[] 10)
            (replay (redis_limits dict_redis) List.[] 2 10 hits))).1
        ≡ (hit dict_redis 67 "ip:a" 2 10 (replay (redis_limits dict_redis) List.[] 2 10 hits)).1)
    × ((hit dict_redis 67 "ip:a" 2 10
          (clear dict_redis "cache:" (replay (redis_limits dict_redis) List.[] 2 10 hits))).1
        ≡ decide_hit 2 10 6 1)
cache-keeps_limits_example =
    cache-keeps_limits dict_redis "cache:" 2 10 65 67 "ip:a" (set_call "a" List.[] 10)
      (replay (redis_limits dict_redis) List.[] 2 10 hits) (omega arith) (apart 6 "ip:a") counted

-- Two workers count a hit each before either counter gets its time to live.
abbrev schedule : List (ℕ × Command)
schedule =
    List.◌∷◌ (63, expires 6 "ip:a")
      (List.◌∷◌ (62, counts "ip:a") (List.◌∷◌ (61, counts "ip:a") List.[]))

hit-execute_all_example :
    (hit dict_redis 67 "ip:a" 2 10 (execute_all dict_redis 10 List.[] schedule)).1
    ≡ decide_hit 2 10 6 (hits_in 10 "ip:a" 6 (hits_of schedule) + 1)
hit-execute_all_example =
    hit-execute_all dict_redis 10 (omega arith) List.[] 2 67 "ip:a" schedule (λ t b k. at-empty t _)
      (omega arith, omega arith, (omega arith, (omega arith, tt)))
