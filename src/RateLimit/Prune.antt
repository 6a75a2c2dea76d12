-- ===== src/RateLimit/Prune.antt =====
-- What `_prune_expired_buckets` leaves.
use fastapi_chassis.Base.{
  ℕ, String, ◌≡◌, refl, ◌∙◌, Bool, false, Option, none, some, List, [], ◌∷◌, arith, eq_iff,
  if◌then◌else◌, ltb, is_in,
}
use fastapi_chassis.Base.Dict.{lookup, pop, lookup-pop, IsDistinct, IsDistinct-pop}
use fastapi_chassis.RateLimit.{Buckets, expired_keys, pop_all, prune_expired_buckets}

lookup-pop_all :
    (k : String) (ks : List String) (d : Buckets)
    → lookup k (pop_all ks d) ≡ (if is_in k ks then none else lookup k d)
unfolding pop_all
lookup-pop_all k [] d = refl
lookup-pop_all k (j ∷ ks) d = ground (arith, lookup-pop_all k ks (pop j d), lookup-pop j k d)

IsDistinct-pop_all : (ks : List String) (d : Buckets) → IsDistinct d → IsDistinct (pop_all ks d)
unfolding pop_all
IsDistinct-pop_all [] d h = h
IsDistinct-pop_all (k ∷ ks) d h = IsDistinct-pop_all ks (pop k d) (IsDistinct-pop k d h)

-- An entry of an earlier window than `current`.
abbrev pub stale : ℕ → Option (ℕ × ℕ) → Bool
stale current none = false
stale current (some (bucket, _)) = ltb bucket current

is_in-expired_keys :
    (current : ℕ) (k : String) (d : Buckets)
    → IsDistinct d
    → is_in k (expired_keys current d) ≡ stale current (lookup k d)
unfolding expired_keys lookup
is_in-expired_keys current k [] h = refl
is_in-expired_keys current k ((j, (b, n)) ∷ d) h =
    ground (arith, is_in-expired_keys current k d h.1, eq_iff j k)

-- Pruning at a window drops the entries of earlier windows and leaves the others.
pub lookup-prune_expired_buckets :
    (current : ℕ) (k : String) (d : Buckets)
    → IsDistinct d
    → lookup k (prune_expired_buckets current d)
      ≡ (if stale current (lookup k d) then none else lookup k d)
unfolding prune_expired_buckets
lookup-prune_expired_buckets current k d h =
    lookup-pop_all k (expired_keys current d) d ∙ rw (is_in-expired_keys current k d h)

pub IsDistinct-prune_expired_buckets :
    (current : ℕ) (d : Buckets) → IsDistinct d → IsDistinct (prune_expired_buckets current d)
unfolding prune_expired_buckets
IsDistinct-prune_expired_buckets current d h = IsDistinct-pop_all (expired_keys current d) d h
