-- ===== src/Cache/Store.antt =====
-- `CacheStore` of src/app/cache/store.py, the abstract class: its operations as a record, and what every
-- client can rely on, as laws. `MemoryCacheStore` is one of them.
use fastapi_chassis.Base.{
  ℕ, ◌+◌, ◌≤◌, ◌<◌, String, Bool, not, ◌&&◌, Option, none, some, List, [], ◌∷◌, ◌≡◌, refl, ap,
  arith, leb, if◌then◌else◌, eq_iff, eq_refl,
}
use fastapi_chassis.Base.Dict.{is_some, lookup, lookup-put, lookup-pop, size, has}
use fastapi_chassis.Cache
use fastapi_chassis.Cache.{
  Bytes, MemoryCacheStore, Call, get_call, exists_call, delete_call, set_call, clear_call,
  close_call, replay,
}

-- An operation takes the reading of the clock that it uses.
pub record CacheStore : Type 1 where
  pub State : Type 0
  pub get : ℕ → String → State → State × Option Bytes
  pub set : ℕ → String → Bytes → ℕ → State → State
  pub delete : ℕ → String → State → State
  pub exists : ℕ → String → State → State × Bool
  pub clear : State → State
  pub ping : State → State × Bool
  pub close : State → State

-- In any state, a value is there after `set`, until its time to live is over; nothing is there after `delete` or
-- `clear`; and `exists` says whether `get` would find a value.
pub record IsCacheStore (c : CacheStore) : Type 0 where
  pub get-set :
      (t now : ℕ) (k : String) (v : Bytes) (ttl : ℕ) (s : c.State)
      → 0 < ttl
      → t ≤ now
      → now < t + ttl
      → (c.get now k (c.set t k v ttl s)).1 ≡ some v
  pub get-set_expired :
      (t now : ℕ) (k : String) (v : Bytes) (ttl : ℕ) (s : c.State)
      → 0 < ttl
      → t + ttl ≤ now
      → (c.get now k (c.set t k v ttl s)).1 ≡ none
  pub get-delete :
      (t now : ℕ) (k : String) (s : c.State) → t ≤ now → (c.get now k (c.delete t k s)).1 ≡ none
  pub get-clear : (now : ℕ) (k : String) (s : c.State) → (c.get now k (c.clear s)).1 ≡ none
  -- reading leaves what later readings return
  pub get-again :
      (now later : ℕ) (k j : String) (s : c.State)
      → now ≤ later
      → (c.get later j (c.get now k s).0).1 ≡ (c.get later j s).1
  pub exists-get :
      (now : ℕ) (k : String) (s : c.State) → (c.exists now k s).1 ≡ is_some (c.get now k s).1

module _ (c : CacheStore) where
  -- the store after a call of a client
  unfoldable pub serve : ℕ → Call → c.State → c.State
  serve now (get_call k) s = (c.get now k s).0
  serve now (exists_call k) s = (c.exists now k s).0
  serve now (delete_call k) s = c.delete now k s
  serve now (set_call k v ttl) s = c.set now k v ttl s
  serve now clear_call s = c.clear s
  serve now close_call s = c.close s

  -- the store after a history of calls, the latest first
  unfoldable pub run : c.State → List (ℕ × Call) → c.State
  run start [] = start
  run start ((now, call) ∷ h) = serve now call (run start h)

abbrev pub memory_cache : CacheStore
memory_cache = record {
  State = MemoryCacheStore;
  get = Cache.get;
  set = Cache.set;
  delete = λ now. Cache.delete;
  exists = Cache.exists;
  clear = Cache.clear;
  ping = λ s. (s, Cache.ping s);
  close = Cache.close;
}

pub run-memory_cache :
    (n : ℕ) (h : List (ℕ × Call)) → run memory_cache (Cache.init n) h ≡ replay n h
unfolding run replay serve Cache.serve
run-memory_cache n [] = refl
run-memory_cache n ((now, get_call k) ∷ h) = ap (λ s. (Cache.get now k s).0) (run-memory_cache n h)
run-memory_cache n ((now, exists_call k) ∷ h) =
    ap (λ s. (Cache.exists now k s).0) (run-memory_cache n h)
run-memory_cache n ((now, delete_call k) ∷ h) = ap (Cache.delete k) (run-memory_cache n h)
run-memory_cache n ((now, set_call k v ttl) ∷ h) = ap (Cache.set now k v ttl) (run-memory_cache n h)
run-memory_cache n ((now, clear_call) ∷ h) = ap Cache.clear (run-memory_cache n h)
run-memory_cache n ((now, close_call) ∷ h) = ap Cache.close (run-memory_cache n h)

abbrev kept_value : ℕ → ℕ → Bytes → Option Bytes
kept_value now expiry v = if leb expiry now then none else some v

-- What is read back of a value just set.
get-set_lem :
    (t now : ℕ) (k : String) (v : Bytes) (ttl : ℕ) (s : MemoryCacheStore)
    → (Cache.get now k (Cache.set t k v ttl s)).1 ≡ kept_value now (t + ttl) v
unfolding Cache.get Cache.set Cache.get_entry
get-set_lem t now k v ttl s = ground (
  arith,
  eq_refl k,
  lookup-put k k (v, t + ttl)
      (if leb s.max_entries (size s.entries) && not (has k s.entries)
        then Cache.evict_oldest s.entries
        else s.entries),
)

pub memory_cache-IsCacheStore : IsCacheStore memory_cache
memory_cache-IsCacheStore = record {
  get-set = λ t now k v ttl s pos le lt. ground (arith, get-set_lem t now k v ttl s);
  get-set_expired = λ t now k v ttl s pos le. ground (arith, get-set_lem t now k v ttl s);
  get-delete = λ t now k s le.
      unfold Cache.get Cache.delete Cache.get_entry in
      ground (arith, eq_refl k, lookup-pop k k s.entries);
  get-clear = λ now k s. unfold Cache.get Cache.clear Cache.get_entry lookup in refl;
  get-again = λ now later k j s le.
      unfold Cache.get Cache.get_entry in ground (arith, eq_iff k j, lookup-pop k j s.entries);
  exists-get = λ now k s. unfold Cache.exists in refl;
}
