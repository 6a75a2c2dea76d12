-- ===== src/Cache.antt =====
-- The in-process cache of src/app/cache/store.py, class MemoryCacheStore. A method takes the reading
-- of the monotonic clock that it uses, and returns the new store beside its result. Clock readings
-- and time-to-live values are natural numbers of one unit.
pub mod Evict
pub mod Bounds
pub mod History
pub mod Exact
pub mod Overflow
mod Tests
pub mod Store
pub mod RedisStore
pub mod RedisExact
pub mod Factory
mod RedisTests
use fastapi_chassis.Base.{
  ℕ, ◌+◌, String, Bool, true, not, ◌&&◌, Option, none, some, List, [], ◌∷◌, ltb, leb, if◌then◌else◌,
}
use fastapi_chassis.Base.Dict.{Dict, is_some, lookup, put, pop, size, has}

abbrev pub Bytes : Type 0
Bytes = List ℕ

-- `(value, expiry_timestamp)`
abbrev pub Entry : Type 0
Entry = Bytes × ℕ

pub record MemoryCacheStore : Type 0 where
  pub max_entries : ℕ
  pub entries : Dict Entry

-- `MemoryCacheStore(max_entries=n)`
abbrev pub init : ℕ → MemoryCacheStore
init n = record { max_entries = n; entries = [] }

-- `min(self._data, key=lambda k: self._data[k][1])`: the first of the keys with the least expiry.
-- The loop keeps the best key so far with its expiry.
unfoldable pub earliest : String × ℕ → Dict Entry → String × ℕ
earliest best [] = best
earliest best ((j, (v, y)) ∷ d) = earliest (if ltb y best.1 then (j, y) else best) d

unfoldable pub evict_oldest : Dict Entry → Dict Entry
evict_oldest [] = []
evict_oldest ((k, (v, x)) ∷ d) = pop (earliest (k, x) d).0 ((k, (v, x)) ∷ d)

unfoldable pub get_entry :
    ℕ → String → Option Entry → MemoryCacheStore → MemoryCacheStore × Option Bytes
get_entry now key none s = (s, none)
get_entry now key (some (value, expiry)) s =
    if leb expiry now then (record s { entries = pop key s.entries }, none) else (s, some value)

unfoldable pub get : ℕ → String → MemoryCacheStore → MemoryCacheStore × Option Bytes
unfolding get_entry
get now key s = get_entry now key (lookup key s.entries) s

unfoldable pub set : ℕ → String → Bytes → ℕ → MemoryCacheStore → MemoryCacheStore
set now key value ttl s =
    let room =
      if leb s.max_entries (size s.entries) && not (has key s.entries)
      then evict_oldest s.entries
      else s.entries in
    record s { entries = put key (value, now + ttl) room }

unfoldable pub delete : String → MemoryCacheStore → MemoryCacheStore
delete key s = record s { entries = pop key s.entries }

unfoldable pub exists : ℕ → String → MemoryCacheStore → MemoryCacheStore × Bool
unfolding get
exists now key s = let (s', found) = get now key s in (s', is_some found)

unfoldable pub clear : MemoryCacheStore → MemoryCacheStore
clear s = record s { entries = [] }

pub ping : MemoryCacheStore → Bool
ping s = true

unfoldable pub close : MemoryCacheStore → MemoryCacheStore
close s = record s { entries = [] }

-- One call of a client.
pub data Call : Type 0 where
  get_call exists_call delete_call : String → Call
  set_call : String → Bytes → ℕ → Call
  clear_call close_call : Call

-- The store after a call made at a clock reading.
unfoldable pub serve : ℕ → Call → MemoryCacheStore → MemoryCacheStore
unfolding get set delete exists clear close
serve now (get_call k) s = (get now k s).0
serve now (exists_call k) s = (exists now k s).0
serve now (delete_call k) s = delete k s
serve now (set_call k v ttl) s = set now k v ttl s
serve now clear_call s = clear s
serve now close_call s = close s

-- The store after a history of calls, the latest first.
unfoldable pub replay : ℕ → List (ℕ × Call) → MemoryCacheStore
replay n [] = init n
replay n ((now, c) ∷ h) = serve now c (replay n h)
