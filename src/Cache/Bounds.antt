-- ===== src/Cache/Bounds.antt =====
-- The store never holds more than `max_entries` entries, and never one key twice.
use fastapi_chassis.Base.{
  ℕ, ◌≤◌, ◌<◌, String, ◌≡◌, refl, ap, ◌∙◌, ◌+◌, leb, not, ◌&&◌, inl, inr, List, [], ◌∷◌, arith,
  Bool-cases,
}
use fastapi_chassis.Base.Dict.{
  Dict, pop, size, has, IsDistinct, size-pop-lt, size-pop-le, size-put, IsDistinct-pop,
  IsDistinct-put,
}
use fastapi_chassis.Cache.{
  Entry, MemoryCacheStore, evict_oldest, get, set, Call, get_call, exists_call, delete_call,
  set_call, serve, replay,
}
use fastapi_chassis.Cache.Evict.{Evicts, nothing, victim, evict_oldest-Evicts}

pub record IsValid (s : MemoryCacheStore) : Type 0 where
  pub distinct : IsDistinct s.entries
  pub bounded : size s.entries ≤ s.max_entries

-- Eviction makes room for one entry.
pub evict_oldest-shrinks :
    (d : Dict Entry)
    → IsDistinct d
    → IsDistinct (evict_oldest d)
      × (size (evict_oldest d) ≤ size d)
      × (0 < size d → size (evict_oldest d) < size d)
evict_oldest-shrinks d h = go (evict_oldest-Evicts d h)
  where
    go :
        Evicts d
        → IsDistinct (evict_oldest d)
          × (size (evict_oldest d) ≤ size d)
          × (0 < size d → size (evict_oldest d) < size d)
    go (nothing e f) =
        rw f (tt, omega arith, λ p. absurd (omega (arith, ap (λ (x : Dict Entry). size x) e)))
    go (victim w v e) = rw e (IsDistinct-pop w d h, size-pop-le w d, λ p. size-pop-lt w d v.present)

module _ {s : MemoryCacheStore} (v : IsValid s) where
  set-IsValid :
      (now : ℕ) (k : String) (b : List ℕ) (ttl : ℕ)
      → 0 < s.max_entries
      → IsValid (set now k b ttl s)
  unfolding set
  set-IsValid now k b ttl room =
      elim (Bool-cases (leb s.max_entries (size s.entries) && not (has k s.entries))) [
        | inl full ↦ rw full (record {
          distinct = IsDistinct-put k _ _ (evict_oldest-shrinks s.entries v.distinct).0;
          bounded = ground (
            arith,
            v.bounded,
            evict_oldest-shrinks s.entries v.distinct,
            size-put k (b, now + ttl) (evict_oldest s.entries),
          );
        })
        | inr free ↦ rw free (record {
          distinct = IsDistinct-put k _ _ v.distinct;
          bounded = ground (arith, v.bounded, size-put k (b, now + ttl) s.entries);
        })
      ]

  pop-IsValid : (k : String) → IsValid (record s { entries = pop k s.entries })
  pop-IsValid k = record {
    distinct = IsDistinct-pop k s.entries v.distinct;
    bounded = omega (arith, size-pop-le k s.entries, v.bounded);
  }

  empty-IsValid : IsValid (record s { entries = [] })
  empty-IsValid = record { distinct = tt; bounded = omega arith }

  get-IsValid : (now : ℕ) (k : String) → IsValid (get now k s).0
  unfolding get
  get-IsValid now k = ground (arith, pop-IsValid k)

  serve-IsValid : (now : ℕ) (c : Call) → 0 < s.max_entries → IsValid (serve now c s)
  unfolding serve
  serve-IsValid now (get_call k) room = get-IsValid now k
  serve-IsValid now (exists_call k) room = get-IsValid now k
  serve-IsValid now (delete_call k) room = pop-IsValid k
  serve-IsValid now (set_call k b ttl) room = set-IsValid now k b ttl room
  serve-IsValid now _ room = empty-IsValid

max_entries-serve :
    (now : ℕ) (c : Call) (s : MemoryCacheStore) → (serve now c s).max_entries ≡ s.max_entries
unfolding serve
max_entries-serve now (get_call k) s = ground arith
max_entries-serve now (exists_call k) s = ground arith
max_entries-serve now _ s = refl

pub max_entries-replay : (n : ℕ) (h : List (ℕ × Call)) → (replay n h).max_entries ≡ n
unfolding replay
max_entries-replay n [] = refl
max_entries-replay n ((now, c) ∷ h) = max_entries-serve now c (replay n h) ∙ max_entries-replay n h

pub IsValid-replay : (n : ℕ) (h : List (ℕ × Call)) → 0 < n → IsValid (replay n h)
unfolding replay
IsValid-replay n [] room = record { distinct = tt; bounded = omega arith }
IsValid-replay n ((now, c) ∷ h) room =
    serve-IsValid (IsValid-replay n h room) now c (rw max_entries-replay room)

-- After any history of calls on a store made for `n > 0` entries, the keys are distinct and there
-- are at most `n` entries.
pub replay_bounded :
    (n : ℕ) (h : List (ℕ × Call))
    → 0 < n
    → IsDistinct (replay n h).entries × (size (replay n h).entries ≤ n)
replay_bounded n h room =
    let v = IsValid-replay n h room in
    (v.distinct, omega (arith, v.bounded, max_entries-replay n h))
