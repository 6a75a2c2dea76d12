-- ===== src/RateLimit/Interleaving.antt =====
-- RedisRateLimitStore of src/app/middleware/rate_limit.py sends two commands for a hit, and other hits, of other
-- workers too, may come between them: a schedule of single commands, the latest first.
use fastapi_chassis.Base.{
  ℕ, zero, suc, ◌+◌, ◌*◌, ◌/◌, ◌≤◌, ◌<◌, String, true, false, Option, none, some, List, [], ◌∷◌,
  ◌≡◌, refl, sym, ap, ◌∙◌, inl, inr, arith, if◌then◌else◌, ◌==◌, eq_iff, Bool-cases,
}
use fastapi_chassis.Redis.{Redis, Stored, counter, alive, count_of, countable, incremented, timed}
use fastapi_chassis.RateLimit.Count.{hits_in}
use fastapi_chassis.RateLimit.{decide_hit}
use fastapi_chassis.RateLimit.RedisStore.{redis_key, redis_key-eq, hit}
use fastapi_chassis.RateLimit.RedisCount.{IsFresh}

-- `INCR` for a hit of a key, or the `EXPIRE` of the counter of a key in a window, at any later moment
pub data Command : Type 0 where
  counts : String → Command
  expires : ℕ → String → Command

module _ (r : Redis) (window : ℕ) where
  unfoldable pub execute : ℕ → Command → r.State → r.State
  execute now (counts key) s = (r.incr now (redis_key (now / window) key) s).0
  execute now (expires bucket key) s = r.expire now (redis_key bucket key) window s

  unfoldable pub execute_all : r.State → List (ℕ × Command) → r.State
  execute_all start [] = start
  execute_all start ((now, command) ∷ schedule) = execute now command (execute_all start schedule)

-- The hits of a schedule.
abbrev pub hits_of : List (ℕ × Command) → List (String × ℕ)
hits_of [] = []
hits_of ((now, counts key) ∷ schedule) = (key, now) ∷ hits_of schedule
hits_of ((now, expires _ _) ∷ schedule) = hits_of schedule

-- Clock readings do not decrease, and a counter is given its time to live no earlier than its window.
abbrev pub IsSchedule : ℕ → ℕ → List (ℕ × Command) → Type 0
IsSchedule window now [] = Unit
IsSchedule window now ((t, counts _) ∷ schedule) = (t ≤ now) × IsSchedule window t schedule
IsSchedule window now ((t, expires bucket _) ∷ schedule) =
    (t ≤ now) × (bucket ≤ t / window) × IsSchedule window t schedule

-- a counter of `n` hits, that does not expire before `end`
abbrev Lasts : ℕ → Option ℕ → Type 0
Lasts end none = Unit
Lasts end (some x) = end ≤ x

abbrev Holds : ℕ → ℕ → Option Stored → Type 0
Holds zero end o = o ≡ none
Holds (suc n) end o = (x : Option ℕ) × Lasts end x × (o ≡ some (counter (suc n), x))

Holds-count :
    (n end : ℕ) (o : Option Stored) → Holds n end o → (countable o ≡ true) × (count_of o ≡ n)
Holds-count zero end o h = (ground (arith, h), ground (arith, h))
Holds-count (suc n) end o (x, _, h) = (ground (arith, h), ground (arith, h))

alive-Lasts :
    (t end n : ℕ) (x : Option ℕ)
    → t < end
    → Lasts end x
    → alive t (some (counter n, x)) ≡ some (counter n, x)
alive-Lasts t end n none lt l = refl
alive-Lasts t end n (some x) lt l = ground arith

one_more : (n : ℕ) → suc n + 1 ≡ suc (suc n)
one_more n = omega arith

Holds-incr :
    (n end t : ℕ) (o : Option Stored)
    → Holds n end o
    → t < end
    → Holds (suc n) end (alive t (incremented o))
Holds-incr zero end t o h lt = (none, tt, rw h refl)
Holds-incr (suc n) end t o (x, l, h) lt = (
  x,
  l,
  rw h (
      ap (λ m. alive t (some (counter m, x))) (one_more n)
      ∙ alive-Lasts t end (suc (suc n)) x lt l),
)

Holds-expire :
    (n end t x : ℕ) (o : Option Stored)
    → Holds n end o
    → t < end
    → end ≤ x
    → Holds n end (alive t (timed x o))
Holds-expire zero end t x o h lt le = rw h refl
Holds-expire (suc n) end t x o (y, l, h) lt le =
    (some x, le, rw h (alive-Lasts t end (suc n) (some x) lt le))

module _ (r : Redis) (window : ℕ) (pos : 0 < window) where
  -- the end of the window of a time
  abbrev end_of : ℕ → ℕ
  end_of t = (t / window + 1) * window

  in_window : (t : ℕ) → t < end_of t
  in_window t = grind arith

  ends_by : (now t : ℕ) → now / window ≡ t / window → end_of t ≤ now + window
  ends_by now t e = grind (arith, e)

  later_window : (now t : ℕ) → now ≤ t → now / window ≤ t / window
  later_window now t le = grind arith

  -- From `now` on, the counter of each key in the window of the time.
  abbrev Counted : ℕ → List (ℕ × Command) → r.State → Type 0
  Counted now schedule s =
      (t : ℕ) (k : String)
      → now ≤ t
      → Holds (hits_in window k (t / window) (hits_of schedule)) (end_of t)
          (r.seen t (redis_key (t / window) k) s)

  Counted-counts :
      (now : ℕ) (key : String) (schedule : List (ℕ × Command)) (s : r.State)
      → Counted now schedule s
      → Counted now ((now, counts key) ∷ schedule) (execute r window now (counts key) s)
  Counted-counts now key schedule s counted t k le =
      elim (Bool-cases (redis_key b key == redis_key c k)) [
        | inl same ↦
            let e : b ≡ c = ground (arith, same, redis_key-eq b c key k) in
            let f : key ≡ k = ground (arith, same, redis_key-eq b c key k, eq_iff key k) in
            rw (another e f, seen_after, same)
              (Holds-incr n (end_of t) t (r.seen now (redis_key b key) s) (rw (sym e) old)
                (in_window t))
        | inr differ ↦ rw (unchanged differ, seen_after, differ) (counted t k le)
      ]
    where
      b : ℕ
      b = now / window

      c : ℕ
      c = t / window

      n : ℕ
      n = hits_in window key b (hits_of schedule)

      old : Holds n ((b + 1) * window) (r.seen now (redis_key b key) s)
      old = counted now key (omega arith)

      another : b ≡ c → key ≡ k → hits_in window k c ((key, now) ∷ hits_of schedule) ≡ suc n
      another e f = unfold hits_in in ground (arith, e, f, eq_iff key k)

      unchanged :
          (redis_key b key == redis_key c k) ≡ false
          → hits_in window k c ((key, now) ∷ hits_of schedule)
            ≡ hits_in window k c (hits_of schedule)
      unchanged d = unfold hits_in in ground (arith, d, redis_key-eq b c key k)

      seen_after : r.seen t (redis_key c k) (execute r window now (counts key) s) ≡ (
          if redis_key b key == redis_key c k
          then alive t (incremented (r.seen now (redis_key b key) s))
          else r.seen t (redis_key c k) s)
      seen_after =
          unfold execute in
          r.incr-seen now t (redis_key b key) (redis_key c k) s le (Holds-count n _ _ old).0

  Counted-expires :
      (now bucket : ℕ) (key : String) (schedule : List (ℕ × Command)) (s : r.State)
      → bucket ≤ now / window
      → Counted now schedule s
      → Counted now
          ((now, expires bucket key) ∷ schedule)
          (execute r window now (expires bucket key) s)
  Counted-expires now bucket key schedule s started counted t k le =
      elim (Bool-cases (redis_key bucket key == redis_key (t / window) k)) [
        | inl same ↦
            let e : bucket ≡ t / window =
              ground (arith, same, redis_key-eq bucket (t / window) key k) in
            let f : key ≡ k =
              ground (arith, same, redis_key-eq bucket (t / window) key k, eq_iff key k) in
            let g : now / window ≡ t / window = omega (arith, e, started, later_window now t le) in
            rw (seen_after, same)
              (Holds-expire (hits_in window k (t / window) (hits_of schedule)) (end_of t) t
                (now + window) (r.seen now (redis_key bucket key) s)
                (rw (e, f, sym g) (counted now k (omega arith))) (in_window t) (ends_by now t g))
        | inr differ ↦ rw (seen_after, differ) (counted t k le)
      ]
    where
      seen_after :
          r.seen t (redis_key (t / window) k) (execute r window now (expires bucket key) s) ≡ (
            if redis_key bucket key == redis_key (t / window) k
            then alive t (timed (now + window) (r.seen now (redis_key bucket key) s))
            else r.seen t (redis_key (t / window) k) s)
      seen_after =
          unfold execute in
          r.expire-seen now t (redis_key bucket key) (redis_key (t / window) k) window s le pos

  Counted-execute_all :
      (start : r.State) (now : ℕ) (schedule : List (ℕ × Command))
      → IsFresh r start
      → IsSchedule window now schedule
      → Counted now schedule (execute_all r window start schedule)
  unfolding execute_all
  Counted-execute_all start now [] fresh o = λ t k le. unfold hits_in in fresh t (t / window) k
  Counted-execute_all start now ((u, counts key) ∷ schedule) fresh (le, o) = λ t k later.
      Counted-counts u key schedule (execute_all r window start schedule)
        (Counted-execute_all start u schedule fresh o) t k (omega arith)
  Counted-execute_all start now ((u, expires bucket key) ∷ schedule) fresh (le, started, o) =
      λ t k later.
        Counted-expires u bucket key schedule (execute_all r window start schedule) started
          (Counted-execute_all start u schedule fresh o) t k (omega arith)

  -- However the commands of the hits of several workers are interleaved, a time to live that comes late or never
  -- included, from a server that held no counter at first and with clock readings that do not decrease: a hit is
  -- decided by the number of hits of its key in its window that were counted before it.
  pub hit-execute_all :
      (start : r.State) (limit now : ℕ) (key : String) (schedule : List (ℕ × Command))
      → IsFresh r start
      → IsSchedule window now schedule
      → (hit r now key limit window (execute_all r window start schedule)).1
        ≡ decide_hit limit window
            (now / window)
            (hits_in window key (now / window) (hits_of schedule) + 1)
  unfolding hit decide_hit
  hit-execute_all start limit now key schedule fresh o =
      let s = execute_all r window start schedule in
      let name = redis_key (now / window) key in
      let n = hits_in window key (now / window) (hits_of schedule) in
      let held = Counted-execute_all start now schedule fresh o now key (omega arith) in
      let (number, count) = Holds-count n (end_of now) (r.seen now name s) held in
      rw (r.incr-value now name s number, count) refl
