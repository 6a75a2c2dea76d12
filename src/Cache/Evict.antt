-- ===== src/Cache/Evict.antt =====
-- What `_evict_oldest` removes.
use fastapi_chassis.Base.{
  ℕ, ◌≤◌, String, ◌≡◌, refl, ◌⊎◌, inl, true, Option, none, some, [], ◌∷◌, arith, eq_iff, eq_refl,
  if◌then◌else◌, ltb,
}
use fastapi_chassis.Base.Dict.{Dict, lookup, pop, has, IsDistinct}
use fastapi_chassis.Cache.{Entry, earliest, evict_oldest}

-- The best key and expiry after an entry of the rest.
abbrev better : String → ℕ → String × ℕ → String × ℕ
better j y best = if ltb y best.1 then (j, y) else best

-- The key found is the first one, or a key of the rest.
has-earliest :
    (best : String × ℕ) (d : Dict Entry)
    → ((earliest best d).0 ≡ best.0) ⊎ (has (earliest best d).0 d ≡ true)
unfolding earliest lookup
has-earliest best [] = inl refl
has-earliest best ((j, (v, y)) ∷ d) =
    ground (
      arith,
      has-earliest (better j y best) d,
      eq_refl j,
      eq_iff j (earliest (better j y best) d).0,
    )

-- Its expiry is the least.
earliest-le :
    (best : String × ℕ) (d : Dict Entry)
    → ((earliest best d).1 ≤ best.1)
      × ((k : String) (e : Entry) → lookup k d ≡ some e → (earliest best d).1 ≤ e.1)
unfolding earliest lookup
earliest-le best [] = (omega arith, λ k e h. ground arith)
earliest-le best ((j, (v, y)) ∷ d) =
    let (low, lower) = earliest-le (better j y best) d in
    (ground (arith, low), λ k e h. ground (arith, low, lower k e))

abbrev pub expiry_of : Option Entry → Option ℕ
expiry_of none = none
expiry_of (some (_, x)) = some x

-- It is the expiry that is stored under the key found.
lookup-earliest :
    (best : String × ℕ) (d : Dict Entry)
    → IsDistinct d
    → (earliest best d ≡ best)
      ⊎ (expiry_of (lookup (earliest best d).0 d) ≡ some (earliest best d).1)
unfolding earliest lookup
lookup-earliest best [] h = inl refl
lookup-earliest best ((j, (v, y)) ∷ d) h = ground (
  arith,
  lookup-earliest (better j y best) d h.1,
  eq_refl j,
  eq_iff j (earliest (better j y best) d).0,
)

-- `w` is a key of `d` whose entry expires no later than any other.
pub record IsVictim (w : String) (d : Dict Entry) : Type 0 where
  pub present : has w d ≡ true
  pub least :
      (x : ℕ) (k : String) (e : Entry)
      → expiry_of (lookup w d) ≡ some x
      → lookup k d ≡ some e
      → x ≤ e.1

pub data Evicts (d : Dict Entry) : Type 0 where
  nothing : d ≡ [] → evict_oldest d ≡ [] → Evicts d
  victim : (w : String) → IsVictim w d → evict_oldest d ≡ pop w d → Evicts d

-- `_evict_oldest` leaves an empty dict alone, and else removes one key with the least expiry.
pub evict_oldest-Evicts : (d : Dict Entry) → IsDistinct d → Evicts d
unfolding evict_oldest
evict_oldest-Evicts [] h = nothing refl refl
evict_oldest-Evicts ((k, (v, x)) ∷ d) h =
    let w = earliest (k, x) d in
    victim w.0
      (record {
        present = unfold lookup in ground (arith, has-earliest (k, x) d, eq_refl k, eq_iff k w.0);
        least = λ y j e found other.
            unfold lookup in
            ground (
              arith,
              lookup-earliest (k, x) d h.1,
              (earliest-le (k, x) d).0,
              (earliest-le (k, x) d).1 j e,
              eq_refl k,
              eq_iff k w.0,
            );
      })
      refl
