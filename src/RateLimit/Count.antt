-- ===== src/RateLimit/Count.antt =====
-- The in-memory store counts the hits of a key in a window, and forgets other windows.
use text.Mathlib.TextLemmas.{append_cancel_right}
use fastapi_chassis.Base.{
  ℕ, suc, zero, ◌+◌, ◌/◌, ◌≤◌, ◌<◌, String, ◌≡◌, refl, Option, none, some, List, [], ◌∷◌, arith,
  ◌==◌, eq_iff, if◌then◌else◌, ltb, eqb, Bool-cases, Option-cases, inl, inr, ◌&&◌,
}
use fastapi_chassis.Base.Dict.{lookup, put, lookup-put, IsDistinct, IsDistinct-put}
use fastapi_chassis.RateLimit.{
  Buckets, bucket_key, prune_expired_buckets, current_count, hit, replay,
}
use fastapi_chassis.RateLimit.Prune.{
  stale, lookup-prune_expired_buckets, IsDistinct-prune_expired_buckets,
}

-- The hits of a key in a window of `window` seconds.
unfoldable pub hits_in : ℕ → String → ℕ → List (String × ℕ) → ℕ
hits_in window key bucket [] = 0
hits_in window key bucket ((k, now) ∷ h) =
    (if k == key && eqb (now / window) bucket then 1 else 0) + hits_in window key bucket h

-- The clock readings of a history, the latest first, do not decrease, and the last is at most `now`.
abbrev pub IsOrdered : ℕ → List (String × ℕ) → Type 0
IsOrdered now [] = Unit
IsOrdered now ((k, t) ∷ h) = (t ≤ now) × IsOrdered t h

bucket_key-eq : (j k : String) (b : ℕ) → (bucket_key j b == bucket_key k b) ≡ (j == k)
bucket_key-eq j k b = ground (arith, eq_iff j k, eq_iff (bucket_key j b) (bucket_key k b), cancel)
  where
    cancel : bucket_key j b ≡ bucket_key k b → j ≡ k
    cancel e = unfold bucket_key in append_cancel_right j k _ e

-- What the store holds for a count of hits: nothing for none.
abbrev pub stored : ℕ → ℕ → Option (ℕ × ℕ)
stored bucket zero = none
stored bucket (suc n) = some (bucket, suc n)

-- The store after the history `h`, while `bucket` is the window of the last hit.
pub record Counts (window bucket : ℕ) (h : List (String × ℕ)) (d : Buckets) : Type 0 where
  pub distinct : IsDistinct d
  pub current : (k : String) (e : ℕ × ℕ) → lookup k d ≡ some e → e.0 ≡ bucket
  pub counted :
      (k : String) → lookup (bucket_key k bucket) d ≡ stored bucket (hits_in window k bucket h)

div_mono : (w a b : ℕ) → 0 < w → a ≤ b → a / w ≤ b / w
div_mono w a b pos le = grind arith

-- No hit of an ordered history is in a later window than its last.
hits_in_later :
    (window now : ℕ) (k : String) (bucket : ℕ) (h : List (String × ℕ))
    → 0 < window
    → IsOrdered now h
    → now / window < bucket
    → hits_in window k bucket h ≡ 0
unfolding hits_in
hits_in_later window now k bucket [] w o lt = refl
hits_in_later window now k bucket ((j, t) ∷ h) w (le, o) lt =
    let before = div_mono window t now w le in
    ground (arith, before, hits_in_later window t k bucket h w o (omega arith))

module _ (window bucket later : ℕ) (h : List (String × ℕ)) (d : Buckets)
    (c : Counts window bucket h d) (le : bucket ≤ later)
    (none_yet : (k : String) → bucket < later → hits_in window k later h ≡ 0) where
  counted_later :
      (k : String)
      → lookup (bucket_key k later) (prune_expired_buckets later d)
        ≡ stored later (hits_in window k later h)
  counted_later k = elim (Bool-cases (ltb bucket later)) [
    | inl past ↦ elim (Option-cases (lookup (bucket_key k later) d)) [
      | inl missing ↦ ground (arith, pruned, missing, none_yet k)
      | inr ((b, n), found) ↦ ground (arith, pruned, found, none_yet k, c.current _ (b, n) found)
    ]
    | inr same ↦
        let now_equal : bucket ≡ later = ground arith in
        ground (arith, now_equal, pruned, c.counted k)
  ]
    where
      pruned : lookup (bucket_key k later) (prune_expired_buckets later d) ≡ (
          if stale later (lookup (bucket_key k later) d)
          then none
          else lookup (bucket_key k later) d)
      pruned = lookup-prune_expired_buckets later (bucket_key k later) d c.distinct

  -- Pruning at a window that is no earlier keeps the counts.
  Counts-prune : Counts window later h (prune_expired_buckets later d)
  Counts-prune = record {
    distinct = IsDistinct-prune_expired_buckets later d c.distinct;
    current = λ k e found.
        ground (arith, found, lookup-prune_expired_buckets later k d c.distinct, c.current k e);
    counted = counted_later;
  }

-- The store with its counts, after one more hit in the same window.
Counts-put :
    (window now : ℕ) (key : String) (h : List (String × ℕ)) (d : Buckets)
    → Counts window (now / window) h d
    → Counts window (now / window) ((key, now) ∷ h) (
        put
          (bucket_key key (now / window))
          (
            now / window,
            current_count (now / window) (lookup (bucket_key key (now / window)) d) + 1,
          )
          d)
unfolding current_count hits_in
Counts-put window now key h d c = record {
  distinct = IsDistinct-put _ _ d c.distinct;
  current =
      λ k e found. ground (arith, found, c.current k e, lookup-put (bucket_key key b) k (b, n) d);
  counted = λ k. ground (
    arith,
    c.counted k,
    c.counted key,
    lookup-put (bucket_key key b) (bucket_key k b) (b, n) d,
    bucket_key-eq key k b,
    eq_iff key k,
  );
}
  where
    b : ℕ
    b = now / window

    n : ℕ
    n = current_count b (lookup (bucket_key key b) d) + 1

-- The window of the last hit of a history, or 0, with the facts that the next hit needs.
pub record Latest (limit window now : ℕ) (h : List (String × ℕ)) : Type 0 where
  pub bucket : ℕ
  pub counts : Counts window bucket h (replay limit window h)
  pub past : bucket ≤ now / window
  pub none_later : (k : String) (b : ℕ) → bucket < b → hits_in window k b h ≡ 0

Counts-empty : (window bucket : ℕ) → Counts window bucket [] []
unfolding lookup hits_in
Counts-empty window bucket = record {
  distinct = tt;
  current = λ k e found. ground arith;
  counted = λ k. refl;
}

-- The store pruned for a hit at `now`.
pub Counts-now :
    (limit window now : ℕ) (h : List (String × ℕ))
    → Latest limit window now h
    → Counts window (now / window) h (prune_expired_buckets (now / window) (replay limit window h))
Counts-now limit window now h l =
    Counts-prune window l.bucket (now / window) h (replay limit window h) l.counts l.past
      (λ k. l.none_later k (now / window))

pub Latest-replay :
    (limit window now : ℕ) (h : List (String × ℕ))
    → 0 < window
    → IsOrdered now h
    → Latest limit window now h
unfolding replay hit
Latest-replay limit window now [] w o = record {
  bucket = 0;
  counts = Counts-empty window 0;
  past = omega arith;
  none_later = λ k b lt. unfold hits_in in refl;
}
Latest-replay limit window now ((key, t) ∷ h) w (le, o) = record {
  bucket = t / window;
  counts =
      Counts-put window t key h _
        (Counts-now limit window t h (Latest-replay limit window t h w o));
  past = div_mono window t now w le;
  none_later = λ k b lt. hits_in_later window t k b ((key, t) ∷ h) w (omega arith, o) lt;
}

-- After a hit, with clock readings that do not decrease, the store holds buckets of that hit's window
-- alone: what is kept for a limiter does not grow with the number of windows.
pub lookup-replay_current :
    (limit window now : ℕ) (key k : String) (bucket count : ℕ) (h : List (String × ℕ))
    → 0 < window
    → IsOrdered now h
    → lookup k (replay limit window ((key, now) ∷ h)) ≡ some (bucket, count)
    → bucket ≡ now / window
unfolding Latest-replay
lookup-replay_current limit window now key k bucket count h w o found =
    (Latest-replay limit window now ((key, now) ∷ h) w (omega arith, o)).counts.current k
      (bucket, count) found
