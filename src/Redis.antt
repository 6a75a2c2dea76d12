-- ===== src/Redis.antt =====
-- What the program relies on of a Redis server and of its client, redis.asyncio, which are not under src/:
-- the commands that src/app/cache/store.py and src/app/middleware/rate_limit.py send, as a record of
-- operations with their documented behaviour. A command takes the reading of the server's clock.
use Prim.Native.Char.{code}
use Prim.Native.String.{[], ◌∷◌}
use mathlib.Core.List
use fastapi_chassis.Base.{
  ℕ, ◌+◌, ◌≤◌, ◌<◌, String, Bool, true, false, Option, none, some, ◌≡◌, leb, ◌==◌, if◌then◌else◌,
}
use fastapi_chassis.Base.Text.{print_nat}
use fastapi_chassis.Asgi.{Bytes}

pub data Value : Type 0 where
  bytes : Bytes → Value
  counter : ℕ → Value

-- a value, and the time at which it expires, if it does
abbrev pub Stored : Type 0
Stored = Value × Option ℕ

-- what is left of an entry at a time
abbrev pub alive : ℕ → Option Stored → Option Stored
alive t none = none
alive t (some (v, none)) = some (v, none)
alive t (some (v, some x)) = if leb x t then none else some (v, some x)

abbrev pub codes : String → Bytes
codes [] = List.[]
codes (c ∷ s) = List.◌∷◌ (code c) (codes s)

-- `GET`: a counter is stored as its decimal digits
abbrev pub bytes_of : Option Stored → Option Bytes
bytes_of none = none
bytes_of (some (bytes b, _)) = some b
bytes_of (some (counter n, _)) = some (codes (print_nat n))

-- `INCR` is an error on a value that is no number.
abbrev pub countable : Option Stored → Bool
countable none = true
countable (some (counter _, _)) = true
countable (some (bytes _, _)) = false

-- `INCR` counts from nothing, and leaves the time of expiry as it is.
abbrev pub count_of : Option Stored → ℕ
count_of none = 0
count_of (some (counter n, _)) = n
count_of (some (bytes _, _)) = 0

abbrev pub incremented : Option Stored → Option Stored
incremented none = some (counter 1, none)
incremented (some (counter n, x)) = some (counter (n + 1), x)
incremented (some (bytes b, x)) = some (bytes b, x)

-- `EXPIRE` on an entry, if there is one
abbrev pub timed : ℕ → Option Stored → Option Stored
timed x none = none
timed x (some (v, _)) = some (v, some x)

abbrev pub present : Option Stored → ℕ
present none = 0
present (some _) = 1

pub record Redis : Type 1 where
  pub State : Type 0
  -- the entry under a key that a client can see at a time
  pub seen : ℕ → String → State → Option Stored
  pub get : ℕ → String → State → State × Option Bytes
  pub setex : ℕ → String → ℕ → Bytes → State → State
  pub delete : ℕ → String → State → State
  pub exists : ℕ → String → State → State × ℕ
  pub flushdb : State → State
  pub incr : ℕ → String → State → State × ℕ
  pub expire : ℕ → String → ℕ → State → State
  pub ping : State → State × Bool
  pub aclose : State → State
  pub get-value : (now : ℕ) (k : String) (s : State) → (get now k s).1 ≡ bytes_of (seen now k s)
  pub get-seen :
      (now t : ℕ) (k j : String) (s : State) → now ≤ t → seen t j (get now k s).0 ≡ seen t j s
  pub exists-value :
      (now : ℕ) (k : String) (s : State) → (exists now k s).1 ≡ present (seen now k s)
  pub exists-seen :
      (now t : ℕ) (k j : String) (s : State) → now ≤ t → seen t j (exists now k s).0 ≡ seen t j s
  -- a time to live of 0 is an error of `SETEX`
  pub setex-seen :
      (now t : ℕ) (k j : String) (ttl : ℕ) (v : Bytes) (s : State)
      → now ≤ t
      → 0 < ttl
      → seen t j (setex now k ttl v s)
        ≡ (if k == j then alive t (some (bytes v, some (now + ttl))) else seen t j s)
  pub delete-seen :
      (now t : ℕ) (k j : String) (s : State)
      → now ≤ t
      → seen t j (delete now k s) ≡ (if k == j then none else seen t j s)
  pub flushdb-seen : (t : ℕ) (j : String) (s : State) → seen t j (flushdb s) ≡ none
  -- the server outlives a connection
  pub aclose-seen : (t : ℕ) (j : String) (s : State) → seen t j (aclose s) ≡ seen t j s
  pub incr-value :
      (now : ℕ) (k : String) (s : State)
      → countable (seen now k s) ≡ true
      → (incr now k s).1 ≡ count_of (seen now k s) + 1
  pub incr-seen :
      (now t : ℕ) (k j : String) (s : State)
      → now ≤ t
      → countable (seen now k s) ≡ true
      → seen t j (incr now k s).0
        ≡ (if k == j then alive t (incremented (seen now k s)) else seen t j s)
  pub expire-seen :
      (now t : ℕ) (k j : String) (ttl : ℕ) (s : State)
      → now ≤ t
      → 0 < ttl
      → seen t j (expire now k ttl s)
        ≡ (if k == j then alive t (timed (now + ttl) (seen now k s)) else seen t j s)
