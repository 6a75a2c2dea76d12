-- ===== src/RateLimit/Decide.antt =====
-- The decisions of the in-memory store, over the history of its hits.
use fastapi_chassis.Base.{
  ℕ, ◌+◌, ◌-◌, ◌*◌, ◌/◌, ◌≤◌, ◌<◌, String, ◌≡◌, ◌↔◌, refl, true, List, [], ◌∷◌, arith, ◌==◌, ◌&&◌,
  eq_iff, if◌then◌else◌, eqb,
}
use Prim.Native.Nat.{min}
use fastapi_chassis.RateLimit.{current_count, decide_hit, hit, replay}
use fastapi_chassis.RateLimit.Count.{hits_in, IsOrdered, Counts-now, Latest-replay}

-- The count that a hit sees, and adds one to, is the number of earlier hits in its window.
pub hit-eq :
    (limit window now : ℕ) (key : String) (h : List (String × ℕ))
    → 0 < window
    → IsOrdered now h
    → (hit now key limit window (replay limit window h)).1
      ≡ decide_hit limit window (now / window) (hits_in window key (now / window) h + 1)
unfolding hit current_count
hit-eq limit window now key h w o =
    let counts = Counts-now limit window now h (Latest-replay limit window now h w o) in
    rw (counts.counted key) (ground arith)

reset_above : (window now : ℕ) → 0 < window → now < (now / window + 1) * window
reset_above window now w = grind arith

reset_below : (window now : ℕ) → 0 < window → (now / window + 1) * window ≤ now + window
reset_below window now w = grind arith

-- With clock readings that do not decrease, the decision on a hit is by the number of earlier hits
-- of that key in the same fixed window: it is allowed exactly if they are fewer than the limit, what
-- remains is what the limit leaves after this hit, and the window ends after `now`, at most a window
-- length later.
pub hit-replay :
    (limit window now : ℕ) (key : String) (h : List (String × ℕ))
    → 0 < window
    → IsOrdered now h
    → let d = (hit now key limit window (replay limit window h)).1 in
      ((d.allowed ≡ true) ↔ (hits_in window key (now / window) h < limit))
      × (d.limit ≡ limit)
      × (d.remaining ≡ limit - (hits_in window key (now / window) h + 1))
      × (now < d.reset_at_epoch)
      × (d.reset_at_epoch ≤ now + window)
hit-replay limit window now key h w o = rw (hit-eq limit window now key h w o) (
    unfold decide_hit in
    (
      (λ p. ground arith, λ p. ground arith),
      refl,
      refl,
      reset_above window now w,
      reset_below window now w,
    ))

-- The hits of a key in a window that were allowed.
unfoldable pub allowed_in : ℕ → ℕ → String → ℕ → List (String × ℕ) → ℕ
allowed_in limit window key bucket [] = 0
allowed_in limit window key bucket ((k, now) ∷ h) =
    (if k == key
        && eqb (now / window) bucket
        && (hit now k limit window (replay limit window h)).1.allowed
      then 1
      else 0)
    + allowed_in limit window key bucket h

-- With clock readings that do not decrease, of the hits of a key in one window exactly the first
-- `limit` are allowed: the allowed ones are as many as the hits, up to the limit.
pub allowed_in-replay :
    (limit window now : ℕ) (key : String) (bucket : ℕ) (h : List (String × ℕ))
    → 0 < window
    → IsOrdered now h
    → allowed_in limit window key bucket h ≡ min (hits_in window key bucket h) limit
unfolding allowed_in hits_in
allowed_in-replay limit window now key bucket [] w o = omega arith
allowed_in-replay limit window now key bucket ((k, t) ∷ h) w (le, o) = ground (
  arith,
  allowed_in-replay limit window t key bucket h w o,
  (hit-replay limit window t k h w o).0,
  eq_iff k key,
)
