-- ===== src/RateLimit/RedisStore.antt =====
-- `RedisRateLimitStore` of src/app/middleware/rate_limit.py over a Redis server whose clock and the
-- application's read the same. The decisions are those of the in-memory store.
use Prim.Native.String.{◌++◌, [], ◌∷◌, char_at}
use text.Mathlib.TextLemmas.{append_cancel_left, cons-append, nil-append}
use fastapi_chassis.Base.{
  ℕ, ◌+◌, ◌-◌, ◌*◌, ◌/◌, String, ◌≡◌, refl, sym, ap, ◌∙◌, arith, leb, eqb, if◌then◌else◌, ◌==◌,
  eq_iff, ◌&&◌,
}
use fastapi_chassis.Base.Text.{print_nat, is_digit}
use fastapi_chassis.Base.Text.Decimal.{print_nat-injective}
use fastapi_chassis.Redis.{Redis}
use fastapi_chassis.RateLimit.{RateLimitDecision}
use fastapi_chassis.RateLimit.Store.{RateLimitStore}

-- `f"rate_limit:{bucket}:{key}"`
unfoldable pub redis_key : ℕ → String → String
redis_key bucket key = "rate_limit:" ++ (print_nat bucket ++ (":" ++ key))

colon : (s : String) → ":" ++ s ≡ (char_at ":" 0 ∷ s)
colon s = cons-append (char_at ":" 0) [] s ∙ ap (λ t. char_at ":" 0 ∷ t) (nil-append s)

-- The bucket and the key can be told from the name, whatever characters the key has.
pub redis_key-eq :
    (b c : ℕ) (j k : String) → (redis_key b j == redis_key c k) ≡ (eqb b c && (j == k))
unfolding redis_key
redis_key-eq b c j k = ground (arith, eq_iff j k, eq_iff (redis_key b j) (redis_key c k), split)
  where
    split : redis_key b j ≡ redis_key c k → (b ≡ c) × (j ≡ k)
    split e = print_nat-injective (char_at ":" 0) b c j k (unfold is_digit in refl) (
        ap (λ s. print_nat b ++ s) (sym (colon j))
        ∙ (append_cancel_left "rate_limit:" _ _ e ∙ ap (λ s. print_nat c ++ s) (colon k)))

module _ (r : Redis) where
  -- the time to live of a new counter
  abbrev pub expiring : ℕ → String → ℕ → r.State × ℕ → r.State
  expiring now key window (s, count) = if eqb count 1 then r.expire now key window s else s

  unfoldable pub hit : ℕ → String → ℕ → ℕ → r.State → r.State × RateLimitDecision
  unfolding redis_key
  hit now key limit window s =
      let bucket = now / window in
      let reset_at = (bucket + 1) * window in
      let counted = r.incr now (redis_key bucket key) s in
      (
        expiring now (redis_key bucket key) window counted,
        record {
          allowed = leb counted.1 limit;
          limit = limit;
          remaining = limit - counted.1;
          reset_at_epoch = reset_at;
        },
      )

  abbrev pub redis_limits : RateLimitStore
  redis_limits = record { State = r.State; hit = hit }
