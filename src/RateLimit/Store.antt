-- ===== src/RateLimit/Store.antt =====
-- `RateLimitStore` of src/app/middleware/rate_limit.py, the abstract class, with what the middleware relies on:
-- over an ordered history, a hit is decided by the number of earlier hits of its key in its window.
use fastapi_chassis.Base.{ℕ, ◌+◌, ◌/◌, ◌<◌, String, List, [], ◌∷◌, ◌≡◌, refl, ap}
use fastapi_chassis.RateLimit
use fastapi_chassis.RateLimit.{Buckets, RateLimitDecision, decide_hit}
use fastapi_chassis.RateLimit.Count.{hits_in, IsOrdered}
use fastapi_chassis.RateLimit.Decide.{hit-eq}

pub record RateLimitStore : Type 1 where
  pub State : Type 0
  -- the time, the key, the limit and the window
  pub hit : ℕ → String → ℕ → ℕ → State → State × RateLimitDecision

-- The store of one limiter after a history of hits, the latest first.
unfoldable pub replay : (c : RateLimitStore) → c.State → ℕ → ℕ → List (String × ℕ) → c.State
replay c start limit window [] = start
replay c start limit window ((key, now) ∷ h) =
    (c.hit now key limit window (replay c start limit window h)).0

-- A store that counts in fixed windows, from a state that it starts in.
pub record IsFixedWindow (c : RateLimitStore) (start : c.State) : Type 0 where
  pub decides :
      (limit window now : ℕ) (key : String) (h : List (String × ℕ))
      → 0 < window
      → IsOrdered now h
      → (c.hit now key limit window (replay c start limit window h)).1
        ≡ decide_hit limit window (now / window) (hits_in window key (now / window) h + 1)

-- `MemoryRateLimitStore`
abbrev pub memory_limits : RateLimitStore
memory_limits = record { State = Buckets; hit = RateLimit.hit }

pub replay-memory_limits :
    (limit window : ℕ) (h : List (String × ℕ))
    → replay memory_limits [] limit window h ≡ RateLimit.replay limit window h
unfolding replay RateLimit.replay
replay-memory_limits limit window [] = refl
replay-memory_limits limit window ((key, now) ∷ h) =
    ap (λ d. (RateLimit.hit now key limit window d).0) (replay-memory_limits limit window h)

pub memory_limits-IsFixedWindow : IsFixedWindow memory_limits []
memory_limits-IsFixedWindow = record {
  decides = λ limit window now key h w o.
      rw (replay-memory_limits limit window h) (hit-eq limit window now key h w o);
}
