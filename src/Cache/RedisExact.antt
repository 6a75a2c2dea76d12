-- ===== src/Cache/RedisExact.antt =====
-- The Redis cache over a history of calls: it is a map with expiring entries, of any size.
use Prim.Native.String.{◌++◌}
use fastapi_chassis.Base.{
  ℕ, ◌≤◌, ◌<◌, String, ◌≡◌, refl, ap, sym, ◌∙◌, Option, none, some, List, [], ◌∷◌, arith,
}
use fastapi_chassis.Base.Dict.{is_some}
use fastapi_chassis.Redis.{Stored, bytes, alive, bytes_of, Redis}
use fastapi_chassis.Cache.{
  Bytes, Entry, Call, get_call, exists_call, delete_call, set_call, clear_call, close_call, replay,
  MemoryCacheStore,
}
use fastapi_chassis.Cache
use fastapi_chassis.Cache.History.{last_write}
use fastapi_chassis.Cache.Exact.{live, IsOrdered, sets, get-replay_exact}
use fastapi_chassis.Cache.Store.{
  serve, run, memory_cache, run-memory_cache, memory_cache-IsCacheStore,
}
use fastapi_chassis.Cache.RedisStore.{
  prefixed, get, set, delete, exists, clear, redis_cache, prefixed-eq, redis_cache-IsCacheStore,
}

-- Calls while the application runs: each time to live is positive, and the store is not closed.
abbrev pub IsServing : List (ℕ × Call) → Type 0
IsServing [] = Unit
IsServing ((_, set_call _ _ ttl) ∷ h) = (0 < ttl) × IsServing h
IsServing ((_, close_call) ∷ h) = ⊥
IsServing ((_, get_call _) ∷ h) = IsServing h
IsServing ((_, exists_call _) ∷ h) = IsServing h
IsServing ((_, delete_call _) ∷ h) = IsServing h
IsServing ((_, clear_call) ∷ h) = IsServing h

-- an entry of the abstract map, as the server stores it
abbrev as_stored : Option Entry → Option Stored
as_stored none = none
as_stored (some (v, x)) = some (bytes v, some x)

module _ (r : Redis) (key_prefix : String) where
  -- From `now` on, what a client sees under each key with the prefix is what is alive of the map.
  abbrev Shows : ℕ → List (ℕ × Call) → r.State → Type 0
  Shows now h s =
      (t : ℕ) (k : String)
      → now ≤ t
      → r.seen t (prefixed r key_prefix k) s ≡ alive t (as_stored (last_write k h))

  serve-Shows :
      (now : ℕ) (c : Call) (h : List (ℕ × Call)) (s : r.State)
      → IsServing ((now, c) ∷ h)
      → Shows now h s
      → Shows now ((now, c) ∷ h) (serve (redis_cache r key_prefix) now c s)
  unfolding serve last_write get set delete exists clear
  serve-Shows now (get_call j) h s ok ih t k le =
      r.get-seen now t (key_prefix ++ j) (key_prefix ++ k) s le ∙ ih t k le
  serve-Shows now (exists_call j) h s ok ih t k le =
      r.exists-seen now t (key_prefix ++ j) (key_prefix ++ k) s le ∙ ih t k le
  serve-Shows now (delete_call j) h s ok ih t k le = ground (
    arith,
    ih t k le,
    r.delete-seen now t (key_prefix ++ j) (key_prefix ++ k) s,
    prefixed-eq r key_prefix j k,
  )
  serve-Shows now (set_call j v ttl) h s (pos, ok) ih t k le = ground (
    arith,
    ih t k le,
    r.setex-seen now t (key_prefix ++ j) (key_prefix ++ k) ttl v s,
    prefixed-eq r key_prefix j k,
  )
  serve-Shows now clear_call h s ok ih t k le = r.flushdb-seen t (key_prefix ++ k) s
  serve-Shows now close_call h s ok ih t k le = elim ok [ ]

  IsServing-before :
      (now : ℕ) (c : Call) (h : List (ℕ × Call)) → IsServing ((now, c) ∷ h) → IsServing h
  IsServing-before now (set_call _ _ _) h (_, ok) = ok
  IsServing-before now close_call h ok = absurd ok
  IsServing-before now (get_call _) h ok = ok
  IsServing-before now (exists_call _) h ok = ok
  IsServing-before now (delete_call _) h ok = ok
  IsServing-before now clear_call h ok = ok

  run-Shows :
      (start : r.State) (now : ℕ) (h : List (ℕ × Call))
      → ((t : ℕ) (k : String) → r.seen t (prefixed r key_prefix k) start ≡ none)
      → IsServing h
      → IsOrdered now h
      → Shows now h (run (redis_cache r key_prefix) start h)
  unfolding run
  run-Shows start now [] fresh ok o = λ t k le. unfold last_write in fresh t k
  run-Shows start now ((u, c) ∷ h) fresh ok (le, o) = λ t k later.
      serve-Shows u c h (run (redis_cache r key_prefix) start h) ok
        (run-Shows start u h fresh (IsServing-before u c h ok) o) t k (omega arith)

  bytes_of-alive : (now : ℕ) (o : Option Entry) → bytes_of (alive now (as_stored o)) ≡ live now o
  bytes_of-alive now none = refl
  bytes_of-alive now (some (v, x)) = ground arith

  -- On a server that holds no key with the prefix at first, with clock readings that do not decrease and
  -- positive times to live, `get` of the Redis store returns exactly the value last written under the key, if it
  -- was not deleted or cleared since and has not expired, however many values were stored.
  pub get-run_redis :
      (start : r.State) (now : ℕ) (h : List (ℕ × Call)) (k : String)
      → ((t : ℕ) (j : String) → r.seen t (prefixed r key_prefix j) start ≡ none)
      → IsServing h
      → IsOrdered now h
      → (get r key_prefix now k (run (redis_cache r key_prefix) start h)).1
        ≡ live now (last_write k h)
  unfolding get
  get-run_redis start now h k fresh ok o =
      r.get-value now (prefixed r key_prefix k) _
      ∙ rw (run-Shows start now h fresh ok o now k (omega arith)) (bytes_of-alive now _)

  -- The two stores are interchangeable: after the same calls, with clock readings that do not decrease and
  -- positive times to live, from an in-process store whose capacity the number of `set` calls does not pass and
  -- from a server that held no key with the prefix, `get` of any key returns the same, and so does `exists`.
  pub redis_cache-agrees :
      (n : ℕ) (start : r.State) (now : ℕ) (h : List (ℕ × Call)) (k : String)
      → ((t : ℕ) (j : String) → r.seen t (prefixed r key_prefix j) start ≡ none)
      → sets h ≤ n
      → IsServing h
      → IsOrdered now h
      → let stored = run (redis_cache r key_prefix) start h in
        let held = run memory_cache (Cache.init n) h in
        ((get r key_prefix now k stored).1 ≡ (Cache.get now k held).1)
        × ((exists r key_prefix now k stored).1 ≡ (Cache.exists now k held).1)
  redis_cache-agrees n start now h k fresh fits ok o =
      let stored = run (redis_cache r key_prefix) start h in
      let laws = redis_cache-IsCacheStore r key_prefix in
      let same = get-run_redis start now h k fresh ok o ∙ sym (get-replay_exact n now h k fits o) in
      let held = memory_cache-IsCacheStore.exists-get now k (replay n h) in
      rw (run-memory_cache n h) (same, laws.exists-get now k stored ∙ (ap is_some same ∙ sym held))
