-- ===== src/Cache/RedisTests.antt =====
-- Runs of the Redis cache, and its theorems at concrete inputs.
use fastapi_chassis.Base.{ℕ, String, ◌≡◌, ◌≢◌, refl, true, false, none, some, List, [], ◌∷◌, arith}
use fastapi_chassis.Base.Dict.{lookup, put}
use fastapi_chassis.Outcome.{returned, raised, other_error}
use fastapi_chassis.Settings.Fields.{Settings}
use fastapi_chassis.Settings.Defaults.{defaults, caching_defaults}
use fastapi_chassis.Cache
use fastapi_chassis.Cache.{init, Call, set_call}
use fastapi_chassis.Cache.Store.{run, serve, memory_cache}
use fastapi_chassis.Cache.RedisStore.{get, set, exists, prefixed, redis_cache}
use fastapi_chassis.Cache.RedisExact.{redis_cache-agrees}
use fastapi_chassis.Cache.Factory.{
  no_redis, in_redis, memory_cache_store, create_cache_store, IsReliable,
  create_cache_store-IsReliable,
}
use fastapi_chassis.Fixtures.RedisServer.{dict_redis, at-empty}

abbrev calls : List (ℕ × Call)
calls = (5, set_call "b" (2 ∷ []) 8) ∷ (5, set_call "a" (1 ∷ []) 10) ∷ []

-- "b" is there until 13
reads :
    ((get dict_redis "cache:" 12 "b" (run (redis_cache dict_redis "cache:") [] calls)).1
      ≡ some (2 ∷ []))
    × ((get dict_redis "cache:" 13 "b" (run (redis_cache dict_redis "cache:") [] calls)).1 ≡ none)
unfolding run serve get set lookup put
reads = (refl, refl)

redis_cache-agrees_example :
    ((get dict_redis "cache:" 7 "b" (run (redis_cache dict_redis "cache:") [] calls)).1
      ≡ (Cache.get 7 "b" (run memory_cache (init 3) calls)).1)
    × ((exists dict_redis "cache:" 7 "b" (run (redis_cache dict_redis "cache:") [] calls)).1
        ≡ (Cache.exists 7 "b" (run memory_cache (init 3) calls)).1)
redis_cache-agrees_example =
    redis_cache-agrees dict_redis "cache:" 3 [] 7 calls "b" (λ t j. at-empty t _) (omega arith)
      (omega arith, (omega arith, tt)) (omega arith, (omega arith, tt))

abbrev on_redis : Settings
on_redis = record defaults {
  caching = record caching_defaults {
    cache_backend = "redis";
    cache_storage_url = "redis://r:6379/1";
  };
}

abbrev empty_server : String → dict_redis.State
empty_server url = []

create_cache_store-IsReliable_example :
    (◌≡◌ {A = String} "redis" "redis"
      → true ≡ false
      → create_cache_store dict_redis empty_server true on_redis ≡ raised (other_error no_redis))
    × (◌≡◌ {A = String} "redis" "redis"
        → true ≡ true
        → (create_cache_store dict_redis empty_server true on_redis
            ≡ returned (in_redis dict_redis empty_server true on_redis))
          × (((t : ℕ) (j : String)
                → dict_redis.seen t
                    (prefixed dict_redis on_redis.cache_key_prefix j)
                    (empty_server on_redis.cache_storage_url)
                  ≡ none)
              → IsReliable on_redis.cache_max_entries
                  (in_redis dict_redis empty_server true on_redis)))
    × (◌≢◌ {A = String} "redis" "redis"
        → (create_cache_store dict_redis empty_server true on_redis
            ≡ returned (memory_cache_store dict_redis empty_server true on_redis.cache_max_entries))
          × IsReliable on_redis.cache_max_entries
              (memory_cache_store dict_redis empty_server true on_redis.cache_max_entries))
create_cache_store-IsReliable_example =
    create_cache_store-IsReliable dict_redis empty_server true on_redis
