-- ===== src/RateLimit/Factory.antt =====
-- How the constructor of RateLimitMiddleware in src/app/middleware/rate_limit.py chooses its store.
use fastapi_chassis.Base.{
  String, Bool, true, false, ◌≡◌, refl, ◌⊎◌, inl, inr, if◌then◌else◌, Bool-cases, [],
}
use fastapi_chassis.Base.Text.{is_true}
use fastapi_chassis.Outcome.{Outcome, returned, raised, other_error}
use fastapi_chassis.Redis.{Redis}
use fastapi_chassis.RateLimit.Store.{
  RateLimitStore, IsFixedWindow, memory_limits, memory_limits-IsFixedWindow,
}
use fastapi_chassis.RateLimit.RedisStore.{redis_limits}
use fastapi_chassis.RateLimit.RedisCount.{IsFresh, redis_limits-IsFixedWindow}

-- a store with the state it starts in
pub record Chosen : Type 1 where
  pub store : RateLimitStore
  pub start : store.State

abbrev pub no_redis : String
no_redis =
    "The 'redis' package is required for Redis-backed rate limiting. Install it with: uv sync --extra redis"

module _ (r : Redis) (from_url : String → r.State) (redis_installed : Bool) where
  -- the constructor of RedisRateLimitStore
  unfoldable pub redis_rate_limit_store : String → Outcome Chosen
  redis_rate_limit_store storage_url =
      if redis_installed
      then returned (record { store = redis_limits r; start = from_url storage_url })
      else raised (other_error no_redis)

  unfoldable pub choose_store : String → Outcome Chosen
  choose_store storage_url =
      if is_true storage_url
      then redis_rate_limit_store storage_url
      else returned (record { store = memory_limits; start = [] })

  -- Without a storage URL, or with the redis package installed and a server that holds no counter at first, the
  -- limiter gets a store, and it counts in fixed windows; with a URL and no package the constructor raises.
  pub choose_store-IsFixedWindow :
      (storage_url : String)
      → IsFresh r (from_url storage_url)
      → ((is_true storage_url ≡ true)
          × (redis_installed ≡ false)
          × (choose_store storage_url ≡ raised (other_error no_redis)))
        ⊎ ((c : Chosen) × (choose_store storage_url ≡ returned c) × IsFixedWindow c.store c.start)
  unfolding choose_store redis_rate_limit_store
  choose_store-IsFixedWindow storage_url fresh = elim (Bool-cases (is_true storage_url)) [
    | inr empty ↦ rw empty (inr (_, refl, memory_limits-IsFixedWindow))
    | inl given ↦ elim (Bool-cases redis_installed) [
      | inl found ↦
          rw (given, found)
            (inr (_, refl, redis_limits-IsFixedWindow r (from_url storage_url) fresh))
      | inr missing ↦ rw (given, missing) (inl (refl, refl, refl))
    ]
  ]
