-- ===== src/Routes/Tests.antt =====
-- The theorem on the cached time at concrete inputs, over the in-process store and over Redis. Every text
-- is encoded as one byte here, which reads back as "12:00".
use fastapi_chassis.Base.{ℕ, String, ◌+◌, ◌≤◌, ◌<◌, ◌≡◌, refl, true, none, [], ◌∷◌, arith}
use fastapi_chassis.Base.Dict.{lookup}
use fastapi_chassis.Settings.Fields.{Settings}
use fastapi_chassis.Settings.Defaults.{defaults, caching_defaults}
use fastapi_chassis.Cache.{init, get, get_entry}
use fastapi_chassis.Cache.Store.{memory_cache, memory_cache-IsCacheStore}
use fastapi_chassis.Cache.RedisStore
use fastapi_chassis.Cache.RedisStore.{redis_cache, redis_cache-IsCacheStore}
use fastapi_chassis.Fixtures.RedisServer.{dict_redis}
use fastapi_chassis.Routes.Api.{
  Encoding, get_cached_time, time_answer, time_key, get_cached_time_repeats,
}

abbrev codes : Encoding
codes = record { encode = λ s. 12 ∷ []; decode = λ b. "12:00" }

abbrev cached : Settings
cached = record defaults { caching = record caching_defaults { cache_enabled = true } }

empty_miss : (get 1000 time_key (init 10)).1 ≡ none
unfolding get lookup get_entry
empty_miss = refl

server_miss : (RedisStore.get dict_redis "cache:" 1000 time_key []).1 ≡ none
unfolding RedisStore.get lookup
server_miss = refl

memory_repeats :
    (get_cached_time codes cached memory_cache 1200 "12:03"
      (get_cached_time codes cached memory_cache 1000 "12:00" (init 10)).0).1
    ≡ time_answer "12:00" "cache"
memory_repeats =
    let both =
      get_cached_time_repeats codes cached memory_cache memory_cache-IsCacheStore 1000 1200 "12:00"
        "12:03" (init 10) refl (omega arith) refl empty_miss (omega arith) in
    (both.1 (omega arith)).0

get_cached_time_repeats_example :
    let first = get_cached_time codes cached (redis_cache dict_redis "cache:") 1000 "12:00" [] in
    (first.1 ≡ time_answer "12:00" "live")
    × (1200 < 1000 + 300
        → ((get_cached_time codes cached (redis_cache dict_redis "cache:") 1200 "12:03" first.0).1
            ≡ time_answer "12:00" "cache")
          × ((u : ℕ) (k : String)
              → 1200 ≤ u
              → (RedisStore.get dict_redis "cache:" u k
                  (get_cached_time codes cached
                    (redis_cache dict_redis "cache:")
                    1200
                    "12:03"
                    first.0).0).1
                ≡ (RedisStore.get dict_redis "cache:" u k first.0).1))
    × (1000 + 300 ≤ 1200
        → (get_cached_time codes cached (redis_cache dict_redis "cache:") 1200 "12:03" first.0).1
          ≡ time_answer "12:03" "live")
get_cached_time_repeats_example =
    get_cached_time_repeats codes cached (redis_cache dict_redis "cache:")
      (redis_cache-IsCacheStore dict_redis "cache:") 1000 1200 "12:00" "12:03" [] refl (omega arith)
      refl server_miss (omega arith)
