-- ===== src/Base/Text/Split.antt =====
-- `s.partition(sep)`, and the texts that a split or a partition takes apart as they were put together.
use Prim.Native.Char.{Char}
use Prim.Native.String.{String, [], ◌∷◌, ◌++◌}
use mathlib.Core.Bool.{Bool, true, not, ◌&&◌, cond}
use mathlib.Core.List
use mathlib.Core.Path.{◌≡◌, refl, ◌∙◌}
use native.Mathlib.Omega.{arith}
use text.Mathlib.TextLemmas.{nil-append, cons-append, append-nil, append_assoc}
use fastapi_chassis.Base.Text.{same_code, split_on, split_from}

-- `s.partition(sep)` without the separator
unfoldable pub partition : Char → String → String × String
partition sep [] = ([], [])
partition sep (c ∷ s) =
    let (before, after) = partition sep s in cond (same_code c sep) ([], s) (c ∷ before, after)

abbrev pub without : Char → String → Bool
without sep [] = true
without sep (c ∷ s) = not (same_code c sep) && without sep s

pub partition-append :
    (sep : Char) (k v : String) → without sep k ≡ true → partition sep (k ++ (sep ∷ v)) ≡ (k, v)
unfolding partition
partition-append sep [] v h = rw (nil-append (sep ∷ v)) (ground arith)
partition-append sep (c ∷ k) v h =
    rw (cons-append c k (sep ∷ v), partition-append sep k v (ground arith)) (ground arith)

split_from-without :
    (sep : Char) (cur s : String)
    → without sep s ≡ true
    → split_from sep cur s ≡ List.◌∷◌ (cur ++ s) List.[]
unfolding split_from
split_from-without sep cur [] h = rw (append-nil cur) refl
split_from-without sep cur (c ∷ s) h = ground (
  arith,
  h,
  split_from-without sep (cur ++ (c ∷ [])) s,
  append_assoc cur (c ∷ []) s,
  cons-append c [] s,
  nil-append s,
)

-- A text without the separator is one item.
pub split_on-without :
    (sep : Char) (s : String) → without sep s ≡ true → split_on sep s ≡ List.◌∷◌ s List.[]
unfolding split_on
split_on-without sep s h = split_from-without sep [] s h ∙ rw (nil-append s) refl

pub without-append :
    (sep c : Char) (s t : String)
    → without sep s ≡ true
    → without sep (c ∷ t) ≡ true
    → without sep (s ++ (c ∷ t)) ≡ true
without-append sep c [] t h k = rw (nil-append (c ∷ t)) k
without-append sep c (d ∷ s) t h k =
    rw (cons-append d s (c ∷ t)) (ground (arith, h, without-append sep c s t))
