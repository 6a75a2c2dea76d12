-- ===== src/Cache/Exact.antt =====
-- A cache that is large enough is exactly a map with expiring entries.
use fastapi_chassis.Base.{
  ℕ, suc, ◌≤◌, ◌+◌, String, ◌≡◌, refl, ◌∙◌, Option, none, some, List, [], ◌∷◌, arith, eq_iff,
  if◌then◌else◌, leb,
}
use fastapi_chassis.Base.Dict.{lookup, size, lookup-put, lookup-pop, size-put, size-pop-le}
use fastapi_chassis.Cache.{
  Bytes, Entry, MemoryCacheStore, get, Call, get_call, exists_call, delete_call, set_call,
  clear_call, close_call, serve, replay,
}
use fastapi_chassis.Cache.Bounds.{max_entries-replay}
use fastapi_chassis.Cache.History.{last_write}

-- The value of an entry that has not expired at `now`.
abbrev pub live : ℕ → Option Entry → Option Bytes
live now none = none
live now (some (v, x)) = if leb x now then none else some v

-- The times of a history, the latest first, do not decrease, and the last is at most `now`.
abbrev pub IsOrdered : ℕ → List (ℕ × Call) → Type 0
IsOrdered now [] = Unit
IsOrdered now ((t, c) ∷ h) = (t ≤ now) × IsOrdered t h

abbrev pub sets : List (ℕ × Call) → ℕ
sets [] = 0
sets ((_, set_call _ _ _) ∷ h) = suc (sets h)
sets ((_, get_call _) ∷ h) = sets h
sets ((_, exists_call _) ∷ h) = sets h
sets ((_, delete_call _) ∷ h) = sets h
sets ((_, clear_call) ∷ h) = sets h
sets ((_, close_call) ∷ h) = sets h

size-serve :
    (now : ℕ) (c : Call) (h : List (ℕ × Call)) (s : MemoryCacheStore)
    → size s.entries ≤ sets h
    → sets ((now, c) ∷ h) ≤ s.max_entries
    → size (serve now c s).entries ≤ sets ((now, c) ∷ h)
unfolding serve
size-serve now (get_call k) h s p q = ground (arith, size-pop-le k s.entries)
size-serve now (exists_call k) h s p q = ground (arith, size-pop-le k s.entries)
size-serve now (delete_call k) h s p q = ground (arith, size-pop-le k s.entries)
size-serve now (set_call k v ttl) h s p q = ground (arith, size-put k (v, now + ttl) s.entries)
size-serve now clear_call h s p q = omega arith
size-serve now close_call h s p q = omega arith

fewer : (now : ℕ) (c : Call) (h : List (ℕ × Call)) → sets h ≤ sets ((now, c) ∷ h)
fewer now (set_call _ _ _) h = omega arith
fewer now _ h = omega arith

size-replay : (n : ℕ) (h : List (ℕ × Call)) → sets h ≤ n → size (replay n h).entries ≤ sets h
unfolding replay
size-replay n [] p = omega arith
size-replay n ((now, c) ∷ h) p =
    size-serve now c h (replay n h) (size-replay n h (omega (arith, fewer now c h)))
      (rw max_entries-replay p)

-- `SameLive`: a client sees the same under each key, now and later.
abbrev SameLive : ℕ → MemoryCacheStore → List (ℕ × Call) → Type 0
SameLive now s h =
    (t : ℕ) (k : String) → now ≤ t → live t (lookup k s.entries) ≡ live t (last_write k h)

serve-SameLive :
    (now : ℕ) (c : Call) (h : List (ℕ × Call)) (s : MemoryCacheStore)
    → size s.entries ≤ sets h
    → sets ((now, c) ∷ h) ≤ s.max_entries
    → SameLive now s h
    → SameLive now (serve now c s) ((now, c) ∷ h)
unfolding serve last_write
serve-SameLive now (get_call j) h s p q ih t k le =
    ground (arith, ih t k le, eq_iff j k, lookup-pop j k s.entries)
serve-SameLive now (exists_call j) h s p q ih t k le =
    ground (arith, ih t k le, eq_iff j k, lookup-pop j k s.entries)
serve-SameLive now (delete_call j) h s p q ih t k le =
    ground (arith, ih t k le, eq_iff j k, lookup-pop j k s.entries)
serve-SameLive now (set_call j v ttl) h s p q ih t k le =
    ground (arith, ih t k le, lookup-put j k (v, now + ttl) s.entries)
serve-SameLive now clear_call h s p q ih t k le = unfold lookup in refl
serve-SameLive now close_call h s p q ih t k le = unfold lookup in refl

later :
    {now t : ℕ} (s : MemoryCacheStore) (h : List (ℕ × Call))
    → t ≤ now
    → SameLive t s h
    → SameLive now s h
later s h le same u k p = same u k (omega arith)

replay-SameLive :
    (n now : ℕ) (h : List (ℕ × Call)) → sets h ≤ n → IsOrdered now h → SameLive now (replay n h) h
unfolding replay
replay-SameLive n now [] p o = λ t k le. unfold lookup last_write in refl
replay-SameLive n now ((u, c) ∷ h) p (le, o) =
    let q : sets h ≤ n = omega (arith, fewer u c h) in
    later (serve u c (replay n h)) ((u, c) ∷ h) le (
      serve-SameLive u c h (replay n h) (size-replay n h q) (rw max_entries-replay p)
        (replay-SameLive n u h q o))

-- In a cache whose capacity the number of `set` calls so far does not pass, with clock readings that
-- do not decrease, `get` returns exactly the value last written under the key, if it was not deleted
-- or cleared since and has not expired, and nothing else.
pub get-replay_exact :
    (n now : ℕ) (h : List (ℕ × Call)) (k : String)
    → sets h ≤ n
    → IsOrdered now h
    → (get now k (replay n h)).1 ≡ live now (last_write k h)
get-replay_exact n now h k p o = get-eq-live ∙ replay-SameLive n now h p o now k (omega arith)
  where
    get-eq-live : (get now k (replay n h)).1 ≡ live now (lookup k (replay n h).entries)
    get-eq-live = unfold get in ground arith
