-- ===== src/Base/Dict.antt =====
-- Python's `dict` with text keys: an association list in insertion order, its operations and laws.
use Prim.Native.Nat.{ℕ, suc, ◌≤◌}
use Prim.Native.String.{String}
use mathlib.Core.Path.{◌≡◌, refl}
use mathlib.Core.Bool.{Bool, true, false, cond}
use mathlib.Core.Option.{Option, none, some}
use mathlib.Core.List.{List, [], ◌∷◌}
use native.Mathlib.Omega.{arith}
use text.Mathlib.Text.{◌==◌}
use text.Mathlib.TextEquality.{eq_iff}

abbrev pub Dict {ℓ} : Type ℓ → Type ℓ
Dict V = List (String × V)

abbrev pub is_some {ℓ} : {A : Type ℓ} → Option A → Bool
is_some none = false
is_some (some _) = true

module _ {ℓ} {V : Type ℓ} where
  -- `d.get(k)`
  unfoldable pub lookup : String → Dict V → Option V
  lookup k [] = none
  lookup k ((j, v) ∷ d) = cond (j == k) (some v) (lookup k d)

  -- `d[k] = v`: in place, or at the end
  unfoldable pub put : String → V → Dict V → Dict V
  put k v [] = (k, v) ∷ []
  put k v ((j, w) ∷ d) = cond (j == k) ((j, v) ∷ d) ((j, w) ∷ put k v d)

  -- `d.pop(k, None)`
  unfoldable pub pop : String → Dict V → Dict V
  pop k [] = []
  pop k ((j, w) ∷ d) = let rest = pop k d in cond (j == k) rest ((j, w) ∷ rest)

  -- `len(d)`
  abbrev pub size : Dict V → ℕ
  size [] = 0
  size (_ ∷ d) = suc (size d)

  -- `k in d`
  abbrev pub has : String → Dict V → Bool
  has k d = is_some (lookup k d)

  -- The keys are distinct, as they are in every `dict`.
  abbrev pub IsDistinct : Dict V → Type ℓ
  IsDistinct [] = Unit
  IsDistinct ((k, _) ∷ d) = (lookup k d ≡ none) × IsDistinct d

  pub lookup-put :
      (k j : String) (v : V) (d : Dict V)
      → lookup j (put k v d) ≡ cond (k == j) (some v) (lookup j d)
  unfolding lookup put
  lookup-put k j v [] = refl
  lookup-put k j v ((i, w) ∷ d) =
      ground (arith, eq_iff k j, eq_iff i k, eq_iff i j, lookup-put k j v d)

  pub lookup-pop :
      (k j : String) (d : Dict V) → lookup j (pop k d) ≡ cond (k == j) none (lookup j d)
  unfolding lookup pop
  lookup-pop k j [] = ground arith
  lookup-pop k j ((i, w) ∷ d) = ground (arith, eq_iff k j, eq_iff i k, eq_iff i j, lookup-pop k j d)

  pub size-put :
      (k : String) (v : V) (d : Dict V) → size (put k v d) ≡ cond (has k d) (size d) (suc (size d))
  unfolding lookup put
  size-put k v [] = refl
  size-put k v ((i, w) ∷ d) = ground (arith, size-put k v d)

  pub size-pop-le : (k : String) (d : Dict V) → size (pop k d) ≤ size d
  unfolding pop
  size-pop-le k [] = omega arith
  size-pop-le k ((i, w) ∷ d) = ground (arith, size-pop-le k d)

  pub size-pop-lt : (k : String) (d : Dict V) → has k d ≡ true → suc (size (pop k d)) ≤ size d
  unfolding pop lookup
  size-pop-lt k [] h = ground arith
  size-pop-lt k ((i, w) ∷ d) h = ground (arith, size-pop-lt k d, size-pop-le k d)

  pub IsDistinct-put : (k : String) (v : V) (d : Dict V) → IsDistinct d → IsDistinct (put k v d)
  unfolding put lookup
  IsDistinct-put k v [] h = (refl, tt)
  IsDistinct-put k v ((i, w) ∷ d) h =
      ground (arith, IsDistinct-put k v d h.1, lookup-put k i v d, eq_iff i k, eq_iff k i)

  pub IsDistinct-pop : (k : String) (d : Dict V) → IsDistinct d → IsDistinct (pop k d)
  unfolding pop lookup
  IsDistinct-pop k [] h = tt
  IsDistinct-pop k ((i, w) ∷ d) h =
      ground (arith, IsDistinct-pop k d h.1, lookup-pop k i d, eq_iff i k, eq_iff k i)
