-- ===== src/Cache/Tests.antt =====
-- Runs of the in-process cache, and its theorems at concrete inputs.
use fastapi_chassis.Base.{
  ℕ, ◌≤◌, ◌<◌, String, ◌≡◌, ◌≢◌, refl, ◌⊎◌, none, some, List, [], ◌∷◌, arith,
}
use fastapi_chassis.Base.Dict.{lookup, put, pop, size, IsDistinct}
use fastapi_chassis.Cache.{
  Entry, MemoryCacheStore, earliest, evict_oldest, get, set, Call, set_call, serve, replay,
}
use fastapi_chassis.Cache.Bounds.{IsValid, replay_bounded}
use fastapi_chassis.Cache.History.{last_write, get-replay_sound}
use fastapi_chassis.Cache.Exact.{live, get-replay_exact}
use fastapi_chassis.Cache.Overflow.{IsDropped, lookup-set}

run_all : Unit {0}
unfolding replay serve evict_oldest earliest lookup put pop last_write
run_all = tt

-- The latest call first: "a" until 15, then "b" until 13, then "c" until 16 in a cache for two.
abbrev calls : List (ℕ × Call)
calls =
    (6, set_call "c" (3 ∷ []) 10)
    ∷ (5, set_call "b" (2 ∷ []) 8)
    ∷ (5, set_call "a" (1 ∷ []) 10)
    ∷ []

-- "b" expires first, and makes room for "c".
evicts_b :
    ((get 7 "b" (replay 2 calls)).1 ≡ none)
    × ((get 7 "a" (replay 2 calls)).1 ≡ some (1 ∷ []))
    × ((get 15 "a" (replay 2 calls)).1 ≡ none)
    × ((get 7 "b" (replay 3 calls)).1 ≡ some (2 ∷ []))
unfolding run_all
evicts_b = (refl, refl, refl, refl)

replay_bounded_example : IsDistinct (replay 2 calls).entries × (size (replay 2 calls).entries ≤ 2)
replay_bounded_example = replay_bounded 2 calls (omega arith)

a_found : (get 7 "a" (replay 2 calls)).1 ≡ some (1 ∷ [])
a_found = evicts_b.1

get-replay_sound_example : (x : ℕ) × (last_write "a" calls ≡ some (1 ∷ [], x)) × (7 < x)
get-replay_sound_example = get-replay_sound 2 calls 7 "a" (1 ∷ []) (omega arith) a_found

get-replay_exact_example : (get 7 "b" (replay 3 calls)).1 ≡ live 7 (last_write "b" calls)
get-replay_exact_example = get-replay_exact 3 7 calls "b" (omega arith) (omega arith)

abbrev one_entry : MemoryCacheStore
one_entry = record { max_entries = 1; entries = ("a", (1 ∷ [], 15)) ∷ [] }

one_entry-IsValid : IsValid one_entry
unfolding lookup
one_entry-IsValid = record { distinct = (refl, tt); bounded = omega arith }

lookup-set_example :
    let t = set 6 "c" (3 ∷ []) 10 one_entry in
    (lookup "c" t.entries ≡ some (3 ∷ [], 16))
    × (((j : String) → j ≢ "c" → lookup j t.entries ≡ lookup j one_entry.entries)
        ⊎ ((w : String) × (e : Entry) × IsDropped "c" w e one_entry t))
lookup-set_example = lookup-set 6 "c" (3 ∷ []) 10 one_entry one_entry-IsValid
