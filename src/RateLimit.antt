-- ===== src/RateLimit.antt =====
-- The rate limiter of src/app/middleware/rate_limit.py: the decision and the in-memory store. The
-- clock reading `now` is `int(time.time())`; a store method returns the new store and its result.
-- `window_seconds` is at least 1 (src/app/settings.py), so the divisions are defined.
pub mod Prune
pub mod Count
pub mod Decide
pub mod Key
pub mod Middleware
mod Tests
pub mod Store
pub mod RedisStore
pub mod RedisCount
pub mod Factory
pub mod SharedServer
mod RedisTests
pub mod Interleaving
use Prim.Native.String.{◌++◌}
use fastapi_chassis.Base.{
  ℕ, ◌+◌, ◌-◌, ◌*◌, ◌/◌, String, Bool, Option, none, some, List, [], ◌∷◌, ltb, leb, eqb,
  if◌then◌else◌,
}
use fastapi_chassis.Base.Text.{print_nat}
use fastapi_chassis.Base.Dict.{Dict, lookup, put, pop}

pub record RateLimitDecision : Type 0 where
  pub allowed : Bool
  pub limit : ℕ
  pub remaining : ℕ
  pub reset_at_epoch : ℕ

-- `_buckets`: for each key of a window, the window's number and the count of its hits
abbrev pub Buckets : Type 0
Buckets = Dict (ℕ × ℕ)

-- `f"{key}:{bucket}"`
pub bucket_key : String → ℕ → String
bucket_key key bucket = key ++ (":" ++ print_nat bucket)

pub expired_keys : ℕ → Buckets → List String
expired_keys current [] = []
expired_keys current ((k, (bucket, n)) ∷ d) =
    let rest = expired_keys current d in if ltb bucket current then k ∷ rest else rest

pub pop_all : List String → Buckets → Buckets
pop_all [] d = d
pop_all (k ∷ ks) d = pop_all ks (pop k d)

unfoldable pub prune_expired_buckets : ℕ → Buckets → Buckets
unfolding expired_keys pop_all
prune_expired_buckets current d = pop_all (expired_keys current d) d

-- The count that a stored bucket gives, which is none if it is of another window.
unfoldable pub current_count : ℕ → Option (ℕ × ℕ) → ℕ
current_count bucket none = 0
current_count bucket (some (b, n)) = if eqb b bucket then n else 0

unfoldable pub decide_hit : ℕ → ℕ → ℕ → ℕ → RateLimitDecision
decide_hit limit window bucket count = record {
  allowed = leb count limit;
  limit = limit;
  remaining = limit - count;
  reset_at_epoch = (bucket + 1) * window;
}

unfoldable pub hit : ℕ → String → ℕ → ℕ → Buckets → Buckets × RateLimitDecision
unfolding bucket_key prune_expired_buckets current_count decide_hit
hit now key limit window d =
    let bucket = now / window in
    let pruned = prune_expired_buckets bucket d in
    let count = current_count bucket (lookup (bucket_key key bucket) pruned) + 1 in
    (put (bucket_key key bucket) (bucket, count) pruned, decide_hit limit window bucket count)

-- The store after a history of hits on one limiter, the latest first.
unfoldable pub replay : ℕ → ℕ → List (String × ℕ) → Buckets
replay limit window [] = []
replay limit window ((key, now) ∷ h) = (hit now key limit window (replay limit window h)).0
