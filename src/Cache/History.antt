-- ===== src/Cache/History.antt =====
-- What a client can rely on, stated over the history of its calls.
use fastapi_chassis.Base.{
  ℕ, ◌<◌, ◌+◌, String, ◌≡◌, inl, inr, Option, none, some, List, [], ◌∷◌, arith, ◌==◌, if◌then◌else◌,
  Option-cases,
}
use fastapi_chassis.Base.Dict.{Dict, lookup, IsDistinct, lookup-put, lookup-pop}
use fastapi_chassis.Cache.{
  Bytes, Entry, MemoryCacheStore, evict_oldest, get, Call, get_call, exists_call, delete_call,
  set_call, clear_call, close_call, serve, replay,
}
use fastapi_chassis.Cache.Evict.{Evicts, nothing, victim, evict_oldest-Evicts}
use fastapi_chassis.Cache.Bounds.{IsValid-replay}

-- The last write to a key in a history, the latest call first: its value and its expiry, unless the
-- key was deleted or the cache cleared since.
unfoldable pub last_write : String → List (ℕ × Call) → Option Entry
last_write k [] = none
last_write k ((now, set_call j v ttl) ∷ h) = if j == k then some (v, now + ttl) else last_write k h
last_write k ((now, delete_call j) ∷ h) = if j == k then none else last_write k h
last_write k ((now, clear_call) ∷ h) = none
last_write k ((now, close_call) ∷ h) = none
last_write k ((now, get_call j) ∷ h) = last_write k h
last_write k ((now, exists_call j) ∷ h) = last_write k h

-- Whatever is stored under a key, eviction keeps it or drops it.
evict_oldest-lookup :
    (d : Dict Entry) (k : String) (e : Entry)
    → IsDistinct d
    → lookup k (evict_oldest d) ≡ some e
    → lookup k d ≡ some e
evict_oldest-lookup d k e h = go (evict_oldest-Evicts d h)
  where
    go : Evicts d → lookup k (evict_oldest d) ≡ some e → lookup k d ≡ some e
    go (nothing p f) = λ q. unfold lookup in ground (arith, p, f, q)
    go (victim w v f) = λ q. ground (arith, f, q, lookup-pop w k d)

-- An entry in the store is the one that its key was last given.
serve-last :
    (now : ℕ) (c : Call) (h : List (ℕ × Call)) (s : MemoryCacheStore) (k : String) (e : Entry)
    → IsDistinct s.entries
    → (lookup k s.entries ≡ some e → last_write k h ≡ some e)
    → lookup k (serve now c s).entries ≡ some e
    → last_write k ((now, c) ∷ h) ≡ some e
unfolding serve last_write
serve-last now (get_call j) h s k e d ih q = ground (arith, ih, lookup-pop j k s.entries)
serve-last now (exists_call j) h s k e d ih q = ground (arith, ih, lookup-pop j k s.entries)
serve-last now (delete_call j) h s k e d ih q = ground (arith, ih, lookup-pop j k s.entries)
serve-last now (set_call j v ttl) h s k e d ih q = ground (
  arith,
  ih,
  lookup-put j k (v, now + ttl) s.entries,
  lookup-put j k (v, now + ttl) (evict_oldest s.entries),
  evict_oldest-lookup s.entries k e d,
)
serve-last now clear_call h s k e d ih q = unfold lookup in cc
serve-last now close_call h s k e d ih q = unfold lookup in cc

replay-last :
    (n : ℕ) (h : List (ℕ × Call)) (k : String) (e : Entry)
    → 0 < n
    → lookup k (replay n h).entries ≡ some e
    → last_write k h ≡ some e
unfolding replay
replay-last n [] k e room q = unfold lookup in cc
replay-last n ((now, c) ∷ h) k e room q =
    serve-last now c h (replay n h) k e (IsValid-replay n h room).distinct
      (replay-last n h k e room) q

-- A value that `get` returns is stored, and has not expired.
get-eq-some :
    (now : ℕ) (k : String) (s : MemoryCacheStore) (v : Bytes)
    → (get now k s).1 ≡ some v
    → (x : ℕ) × (lookup k s.entries ≡ some (v, x)) × (now < x)
unfolding get
get-eq-some now k s v q = elim (Option-cases (lookup k s.entries)) [
  | inl missing ↦ absurd (ground arith)
  | inr ((w, x), found) ↦ (x, ground arith, ground arith)
]

-- A cache for `n > 0` entries that returns a value at a clock reading `now` returns the value last
-- written under that key, not deleted or cleared since, and not expired.
pub get-replay_sound :
    (n : ℕ) (h : List (ℕ × Call)) (now : ℕ) (k : String) (v : Bytes)
    → 0 < n
    → (get now k (replay n h)).1 ≡ some v
    → (x : ℕ) × (last_write k h ≡ some (v, x)) × (now < x)
get-replay_sound n h now k v room q =
    let (x, found, fresh) = get-eq-some now k (replay n h) v q in
    (x, replay-last n h k (v, x) room found, fresh)
