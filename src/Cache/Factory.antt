-- ===== src/Cache/Factory.antt =====
-- `create_cache_store` of src/app/cache/store.py, and what holds of the store whichever it makes. The import of
-- the redis package may fail; a URL names a server, and the state that it is in.
use fastapi_chassis.Base.{
  ℕ, ◌≤◌, String, Bool, true, false, none, ◌≢◌, List, ◌≡◌, refl, ◌==◌, eq_iff, if◌then◌else◌,
  Bool-cases, inl, inr, arith,
}
use fastapi_chassis.Outcome.{Outcome, returned, raised, other_error}
use fastapi_chassis.Redis.{Redis}
use fastapi_chassis.Settings.Fields.{Settings}
use fastapi_chassis.Cache.{Call, init}
use fastapi_chassis.Cache.History.{last_write}
use fastapi_chassis.Cache.Exact.{live, IsOrdered, sets, get-replay_exact}
use fastapi_chassis.Cache.Store.{
  CacheStore, IsCacheStore, run, memory_cache, run-memory_cache, memory_cache-IsCacheStore,
}
use fastapi_chassis.Cache.RedisStore.{redis_cache, redis_cache-IsCacheStore, prefixed}
use fastapi_chassis.Cache.RedisExact.{IsServing, get-run_redis}

-- a store with the state it starts in
pub record Created : Type 1 where
  pub store : CacheStore
  pub start : store.State

-- What a client of a created store can rely on: the laws of a store, and that it answers as a map with
-- expiring entries while `n` values or fewer have been set, on calls that do not close it.
pub record IsReliable (n : ℕ) (c : Created) : Type 0 where
  pub laws : IsCacheStore c.store
  pub exact :
      (now : ℕ) (h : List (ℕ × Call)) (k : String)
      → sets h ≤ n
      → IsServing h
      → IsOrdered now h
      → (c.store.get now k (run c.store c.start h)).1 ≡ live now (last_write k h)

abbrev pub no_redis : String
no_redis =
    "The 'redis' package is required for Redis-backed caching. Install it with: uv sync --extra redis"

module _ (r : Redis) (from_url : String → r.State) (redis_installed : Bool) where
  -- the constructor of RedisCacheStore
  unfoldable pub redis_cache_store : String → String → Outcome Created
  redis_cache_store storage_url key_prefix =
      if redis_installed
      then returned (record { store = redis_cache r key_prefix; start = from_url storage_url })
      else raised (other_error no_redis)

  abbrev pub memory_cache_store : ℕ → Created
  memory_cache_store max_entries = record { store = memory_cache; start = init max_entries }

  unfoldable pub create_cache_store : Settings → Outcome Created
  create_cache_store settings =
      if settings.cache_backend == "redis"
      then redis_cache_store settings.cache_storage_url settings.cache_key_prefix
      else returned (memory_cache_store settings.cache_max_entries)

  memory-IsReliable : (n : ℕ) → IsReliable n (memory_cache_store n)
  memory-IsReliable n = record {
    laws = memory_cache-IsCacheStore;
    exact = λ now h k fits ok o. rw (run-memory_cache n h) (get-replay_exact n now h k fits o);
  }

  redis-IsReliable :
      (n : ℕ) (url key_prefix : String)
      → ((t : ℕ) (j : String) → r.seen t (prefixed r key_prefix j) (from_url url) ≡ none)
      → IsReliable n (record { store = redis_cache r key_prefix; start = from_url url })
  redis-IsReliable n url key_prefix fresh = record {
    laws = redis_cache-IsCacheStore r key_prefix;
    exact = λ now h k fits ok o. get-run_redis r key_prefix (from_url url) now h k fresh ok o;
  }

  abbrev pub in_redis : Settings → Created
  in_redis settings = record {
    store = redis_cache r settings.cache_key_prefix;
    start = from_url settings.cache_storage_url;
  }

  -- With "redis" as the backend the store is in the server that the URL of the settings names, under their prefix, or
  -- the error of the missing package is raised; with any other it is in memory, for their number of entries. Either
  -- store keeps the laws that clients rely on, and answers as a map with expiring entries until more than
  -- `cache_max_entries` values were set, on calls that do not close it: the one in Redis if the server holds no key
  -- with the prefix at first.
  pub create_cache_store-IsReliable :
      (settings : Settings)
      → (settings.cache_backend ≡ "redis"
          → redis_installed ≡ false
          → create_cache_store settings ≡ raised (other_error no_redis))
        × (settings.cache_backend ≡ "redis"
            → redis_installed ≡ true
            → (create_cache_store settings ≡ returned (in_redis settings))
              × (((t : ℕ) (j : String)
                    → r.seen t
                        (prefixed r settings.cache_key_prefix j)
                        (from_url settings.cache_storage_url)
                      ≡ none)
                  → IsReliable settings.cache_max_entries (in_redis settings)))
        × (settings.cache_backend ≢ "redis"
            → (create_cache_store settings
                ≡ returned (memory_cache_store settings.cache_max_entries))
              × IsReliable settings.cache_max_entries
                  (memory_cache_store settings.cache_max_entries))
  unfolding create_cache_store redis_cache_store
  create_cache_store-IsReliable settings = (
    λ chosen missing. rw (chosen, missing) refl,
    λ chosen found. (
      rw (chosen, found) refl,
      redis-IsReliable settings.cache_max_entries settings.cache_storage_url
          settings.cache_key_prefix,
    ),
    λ other. (
      elim (Bool-cases (settings.cache_backend == "redis")) [
        | inl e ↦ absurd (other (ground (arith, e, eq_iff settings.cache_backend "redis")))
        | inr e ↦ rw e refl
      ],
      memory-IsReliable settings.cache_max_entries,
    ),
  )
