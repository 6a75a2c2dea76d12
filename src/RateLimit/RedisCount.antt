-- ===== src/RateLimit/RedisCount.antt =====
-- The counters on a Redis server over the history of the hits of one limiter.
use fastapi_chassis.Base.{
  ℕ, zero, suc, ◌+◌, ◌*◌, ◌/◌, ◌≤◌, ◌<◌, String, true, false, Option, none, some, List, [], ◌∷◌,
  ◌≡◌, refl, sym, ◌∙◌, arith, eqb, if◌then◌else◌, ◌==◌, eq_iff, eq_refl, Bool-cases, inl, inr,
}
use fastapi_chassis.Redis.{Redis, Stored, counter, alive, count_of, countable, incremented, timed}
use fastapi_chassis.RateLimit
use fastapi_chassis.RateLimit.{decide_hit}
use fastapi_chassis.RateLimit.Decide.{hit-eq}
use fastapi_chassis.RateLimit.Count.{hits_in, IsOrdered}
use fastapi_chassis.RateLimit.Store.{replay, IsFixedWindow}
use fastapi_chassis.RateLimit.RedisStore.{redis_key, redis_key-eq, hit, redis_limits}

-- What the server shows of a counter of `n` hits in a window that ends at `end`.
abbrev Holds : ℕ → ℕ → Option Stored → Type 0
Holds zero end o = o ≡ none
Holds (suc n) end o = (x : ℕ) × (end ≤ x) × (o ≡ some (counter (suc n), some x))

Holds-countable : (n end : ℕ) (o : Option Stored) → Holds n end o → countable o ≡ true
Holds-countable zero end o h = ground arith
Holds-countable (suc n) end o (x, le, h) = ground (arith, h)

Holds-count : (n end : ℕ) (o : Option Stored) → Holds n end o → count_of o ≡ n
Holds-count zero end o h = ground arith
Holds-count (suc n) end o (x, le, h) = ground (arith, h)

-- One more hit, before the window ends, with the time to live that a first hit sets.
Holds-hit :
    (n end now t window : ℕ) (o : Option Stored)
    → Holds n end o
    → t < end
    → end ≤ now + window
    → Holds (suc n) end (
        alive t (
          if eqb (n + 1) 1
          then timed (now + window) (alive now (incremented o))
          else incremented o))
Holds-hit zero end now t window o h lt le = (now + window, le, rw h (ground arith))
Holds-hit (suc n) end now t window o (x, past, h) lt le = (x, past, rw h (ground arith))

module _ (r : Redis) where
  -- From `now` on, the counter of each key in the window of the time.
  abbrev Counted : ℕ → ℕ → List (String × ℕ) → r.State → Type 0
  Counted window now h s =
      (t : ℕ) (k : String)
      → now ≤ t
      → Holds (hits_in window k (t / window) h) ((t / window + 1) * window)
          (r.seen t (redis_key (t / window) k) s)

  -- What the hit leaves under its own name, and under the others.
  seen-hit :
      (limit window now t : ℕ) (key name : String) (s : r.State) (n : ℕ)
      → now ≤ t
      → 0 < window
      → countable (r.seen now (redis_key (now / window) key) s) ≡ true
      → count_of (r.seen now (redis_key (now / window) key) s) ≡ n
      → let rk = redis_key (now / window) key in
        r.seen t name (hit r now key limit window s).0 ≡ (
          if rk == name
          then alive t (
              if eqb (n + 1) 1
              then timed (now + window) (alive now (incremented (r.seen now rk s)))
              else incremented (r.seen now rk s))
          else r.seen t name s)
  unfolding hit
  seen-hit limit window now t key name s n le w c e =
      let rk = redis_key (now / window) key in
      ground (
        arith,
        c,
        e,
        r.incr-value now rk s,
        r.incr-seen now t rk name s,
        r.incr-seen now now rk rk s,
        eq_refl rk,
        r.expire-seen now t rk name window (r.incr now rk s).0,
      )

  -- the window of a later time is the same one, or a later one
  ends_after :
      (window now t : ℕ)
      → 0 < window
      → now / window ≡ t / window
      → (t < (t / window + 1) * window) × ((t / window + 1) * window ≤ now + window)
  ends_after window now t w e = grind (arith, e)

  Counted-hit :
      (limit window now : ℕ) (key : String) (h : List (String × ℕ)) (s : r.State)
      → 0 < window
      → Counted window now h s
      → Counted window now ((key, now) ∷ h) (hit r now key limit window s).0
  Counted-hit limit window now key h s w counted t k le =
      elim (Bool-cases (redis_key b key == redis_key c k)) [
        | inl same ↦
            let e : b ≡ c = ground (arith, same, redis_key-eq b c key k) in
            let f : key ≡ k = ground (arith, same, redis_key-eq b c key k, eq_iff key k) in
            let (inside, close) = ends_after window now t w e in
            rw (one_more e f, seen_now, same)
              (Holds-hit n ((c + 1) * window) now t window (r.seen now (redis_key b key) s)
                (rw (sym e) old) inside close)
        | inr differ ↦ rw (unchanged differ, seen_now, differ) (counted t k le)
      ]
    where
      b : ℕ
      b = now / window

      c : ℕ
      c = t / window

      n : ℕ
      n = hits_in window key b h

      old : Holds n ((b + 1) * window) (r.seen now (redis_key b key) s)
      old = counted now key (omega arith)

      one_more : b ≡ c → key ≡ k → hits_in window k c ((key, now) ∷ h) ≡ suc n
      one_more e f = unfold hits_in in ground (arith, e, f, eq_iff key k)

      unchanged :
          (redis_key b key == redis_key c k) ≡ false
          → hits_in window k c ((key, now) ∷ h) ≡ hits_in window k c h
      unchanged d = unfold hits_in in ground (arith, d, redis_key-eq b c key k)

      seen_now : r.seen t (redis_key c k) (hit r now key limit window s).0 ≡ (
          if redis_key b key == redis_key c k
          then alive t (
              if eqb (n + 1) 1
              then timed (now + window) (alive now (incremented (r.seen now (redis_key b key) s)))
              else incremented (r.seen now (redis_key b key) s))
          else r.seen t (redis_key c k) s)
      seen_now =
          seen-hit limit window now t key (redis_key c k) s n le w (Holds-countable n _ _ old)
            (Holds-count n _ _ old)

  -- The server holds no counter of a limiter.
  abbrev pub IsFresh : r.State → Type 0
  IsFresh start = (t bucket : ℕ) (k : String) → r.seen t (redis_key bucket k) start ≡ none

  Counted-replay :
      (start : r.State) (limit window now : ℕ) (h : List (String × ℕ))
      → IsFresh start
      → 0 < window
      → IsOrdered now h
      → Counted window now h (replay (redis_limits r) start limit window h)
  unfolding replay
  Counted-replay start limit window now [] fresh w o =
      λ t k le. unfold hits_in in fresh t (t / window) k
  Counted-replay start limit window now ((key, u) ∷ h) fresh w (le, o) = λ t k later.
      Counted-hit limit window u key h (replay (redis_limits r) start limit window h) w
        (Counted-replay start limit window u h fresh w o) t k (omega arith)

  hit-decides :
      (limit window now : ℕ) (key : String) (s : r.State) (n : ℕ)
      → Holds n ((now / window + 1) * window) (r.seen now (redis_key (now / window) key) s)
      → (hit r now key limit window s).1 ≡ decide_hit limit window (now / window) (n + 1)
  unfolding hit decide_hit
  hit-decides limit window now key s n held =
      let rk = redis_key (now / window) key in
      rw (r.incr-value now rk s (Holds-countable n _ _ held), Holds-count n _ _ held) refl

  pub redis_limits-IsFixedWindow :
      (start : r.State) → IsFresh start → IsFixedWindow (redis_limits r) start
  redis_limits-IsFixedWindow start fresh = record {
    decides = λ limit window now key h w o.
        hit-decides limit window now key (replay (redis_limits r) start limit window h)
          (hits_in window key (now / window) h)
          (Counted-replay start limit window now h fresh w o now key (omega arith));
  }

  -- Over the same ordered history of hits, from a server that held no counter at first, the Redis store decides
  -- every hit as the in-memory store does: allowed or not, with the same limit, rest and end of the window.
  pub redis_limits-agrees :
      (start : r.State) (limit window now : ℕ) (key : String) (h : List (String × ℕ))
      → IsFresh start
      → 0 < window
      → IsOrdered now h
      → (hit r now key limit window (replay (redis_limits r) start limit window h)).1
        ≡ (RateLimit.hit now key limit window (RateLimit.replay limit window h)).1
  redis_limits-agrees start limit window now key h fresh w o =
      (redis_limits-IsFixedWindow start fresh).decides limit window now key h w o
      ∙ sym (hit-eq limit window now key h w o)
