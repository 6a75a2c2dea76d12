-- ===== src/Cache/Overflow.antt =====
-- What `set` does to the other keys.
use fastapi_chassis.Base.{
  ℕ, ◌≤◌, ◌+◌, String, ◌≡◌, ◌≢◌, ◌⊎◌, inl, inr, true, false, Option, none, some, refl, arith, ◌==◌,
  eq_iff, eq_refl, Bool-cases, leb, not, ◌&&◌,
}
use fastapi_chassis.Base.Dict.{Dict, lookup, put, size, has, is_some, lookup-put, lookup-pop}
use fastapi_chassis.Cache.{Bytes, Entry, MemoryCacheStore, evict_oldest, set}
use fastapi_chassis.Cache.Bounds.{IsValid}
use fastapi_chassis.Cache.Evict.{Evicts, nothing, victim, evict_oldest-Evicts}

-- `set` of the key `k` dropped the entry `e` of the key `w`, and no other: `k` was new, the store was full, and no
-- entry expires before `e`.
pub record IsDropped (k w : String) (e : Entry) (s t : MemoryCacheStore) : Type 0 where
  pub fresh : has k s.entries ≡ false
  pub full : size s.entries ≡ s.max_entries
  pub held : lookup w s.entries ≡ some e
  pub least : (i : String) (f : Entry) → lookup i s.entries ≡ some f → e.1 ≤ f.1
  pub gone : lookup w t.entries ≡ none
  pub others : (j : String) → j ≢ k → j ≢ w → lookup j t.entries ≡ lookup j s.entries

held_entry : (w : String) (d : Dict Entry) → has w d ≡ true → (e : Entry) × (lookup w d ≡ some e)
held_entry w d h = by_lookup (lookup w d) refl h
  where
    by_lookup :
        (o : Option Entry) → lookup w d ≡ o → is_some o ≡ true → (e : Entry) × (lookup w d ≡ some e)
    by_lookup none e h = ground arith
    by_lookup (some f) e h = (f, e)

-- A key that is there is not a new one.
held_lem :
    (w k : String) (e : Entry) (d : Dict Entry)
    → lookup w d ≡ some e
    → has k d ≡ false
    → (w == k) ≡ false
held_lem w k e d h f = ground (arith, h, f, eq_iff w k)

-- `set` gives its key the value and the expiry `now + ttl`; and a store within its bounds keeps every other
-- key as it is, but for exactly one that it drops only when the key is new, the store is full and no entry expires
-- sooner.
pub lookup-set :
    (now : ℕ) (k : String) (v : Bytes) (ttl : ℕ) (s : MemoryCacheStore)
    → IsValid s
    → let t = set now k v ttl s in
      (lookup k t.entries ≡ some (v, now + ttl))
      × (((j : String) → j ≢ k → lookup j t.entries ≡ lookup j s.entries)
          ⊎ ((w : String) × (e : Entry) × IsDropped k w e s t))
unfolding set
lookup-set now k v ttl s valid =
    elim (Bool-cases (leb s.max_entries (size s.entries) && not (has k s.entries))) [
      | inl full ↦ rw full (
        ground (arith, lookup-put k k (v, now + ttl) (evict_oldest s.entries), eq_refl k),
        evicted full (evict_oldest-Evicts s.entries valid.distinct),
      )
      | inr free ↦ rw free (
        ground (arith, lookup-put k k (v, now + ttl) s.entries, eq_refl k),
        inl (λ j ne. ground (arith, lookup-put k j (v, now + ttl) s.entries, eq_iff k j)),
      )
    ]
  where
    after : MemoryCacheStore
    after = record s { entries = put k (v, now + ttl) (evict_oldest s.entries) }

    evicted :
        (leb s.max_entries (size s.entries) && not (has k s.entries)) ≡ true
        → Evicts s.entries
        → ((j : String) → j ≢ k → lookup j after.entries ≡ lookup j s.entries)
          ⊎ ((w : String) × (e : Entry) × IsDropped k w e s after)
    evicted full (nothing p q) = inl (λ j ne.
        ground (arith, p, q, lookup-put k j (v, now + ttl) (evict_oldest s.entries), eq_iff k j))
    evicted full (victim w x q) =
        let (e, held) = held_entry w s.entries x.present in
        inr (
          w,
          e,
          record {
            fresh = ground (arith, full);
            full = ground (arith, full, valid.bounded);
            held = held;
            least = λ i f other. x.least e.1 i f (ground (arith, held)) other;
            gone = ground (
              arith,
              q,
              lookup-pop w w s.entries,
              eq_refl w,
              held_lem w k e s.entries held (ground (arith, full)),
              lookup-put k w (v, now + ttl) (evict_oldest s.entries),
              eq_iff k w,
              eq_iff w k,
            );
            others = λ j ne differ. ground (
              arith,
              q,
              lookup-pop w j s.entries,
              eq_iff w j,
              eq_iff k j,
              lookup-put k j (v, now + ttl) (evict_oldest s.entries),
            );
          },
        )
