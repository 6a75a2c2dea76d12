-- ===== src/Base/Text/Search.antt =====
-- `prefix` and `substring` tests on texts, with what they mean.
use Prim.Native.Char.{Char}
use Prim.Native.String.{String, [], ◌∷◌, ◌++◌, count}
use mathlib.Core.Bool.{Bool, true, false, not, ◌||◌}
use mathlib.Core.Logic.{◌↔◌, ◌⊎◌, inl, inr}
use mathlib.Core.Path.{◌≡◌, refl, sym, ap, ◌∙◌}
use native.Mathlib.Omega.{arith}
use text.Mathlib.TextLemmas.{length-cons, nil-append, cons-append}
use text.Mathlib.TextEquality.{Char-path}
use fastapi_chassis.Base.Text.{same_code, starts, drop_text}

-- `sub in s`
unfoldable pub occurs : String → String → Bool
occurs sub [] = starts sub []
occurs sub (c ∷ s) = starts sub (c ∷ s) || occurs sub s

same_code-eq : (c d : Char) → same_code c d ≡ true → c ≡ d
same_code-eq c d h = Char-path c d (ground arith)

same_code_refl : (c : Char) → same_code c c ≡ true
same_code_refl c = ground arith

pub starts-append : (p s : String) → starts p (p ++ s) ≡ true
unfolding starts
starts-append [] s = refl
starts-append (c ∷ p) s =
    rw (cons-append c p s) (ground (arith, same_code_refl c, starts-append p s))

pub starts-split : (p s : String) → starts p s ≡ true → (t : String) × (s ≡ p ++ t)
unfolding starts
starts-split [] s h = (s, sym (nil-append s))
starts-split (c ∷ p) [] h = ground arith
starts-split (c ∷ p) (d ∷ s) h =
    let (t, e) = starts-split p s (ground arith) in
    let same : c ≡ d = same_code-eq c d (ground arith) in
    (t, rw (cons-append c p t, same, sym e) refl)

at_front : (sub s : String) → starts sub s ≡ true → occurs sub s ≡ true
unfolding occurs
at_front sub [] h = h
at_front sub (c ∷ s) h = ground (arith, h)

later : (sub s : String) (c : Char) → occurs sub s ≡ true → occurs sub (c ∷ s) ≡ true
unfolding occurs
later sub s c h = ground (arith, h)

Bool-or : (a b : Bool) → (a || b) ≡ true → (a ≡ true) ⊎ (b ≡ true)
Bool-or true b h = inl refl
Bool-or false b h = inr h

abbrev Within : String → String → Type 0
Within sub s = (u : String) × (v : String) × (s ≡ u ++ (sub ++ v))

in_front : (sub s : String) → starts sub s ≡ true → Within sub s
in_front sub s h = let (t, e) = starts-split sub s h in ([], t, e ∙ sym (nil-append (sub ++ t)))

-- A text occurs in another exactly if it stands between two parts of it.
pub occurs_iff :
    (sub s : String) → (occurs sub s ≡ true) ↔ ((u : String) × (v : String) × (s ≡ u ++ (sub ++ v)))
occurs_iff sub s = (split s, λ (u, v, e). rw e (find u v))
  where
    split : (s : String) → occurs sub s ≡ true → Within sub s
    split [] h = unfold occurs in in_front sub [] h
    split (c ∷ s) h = elim (Bool-or (starts sub (c ∷ s)) (occurs sub s) (unfold occurs in h)) [
      | inl front ↦ in_front sub (c ∷ s) front
      | inr after ↦
          let (u, v, e) = split s after in
          (c ∷ u, v, rw (cons-append c u (sub ++ v)) (ap (λ t. c ∷ t) e))
    ]

    find : (u v : String) → occurs sub (u ++ (sub ++ v)) ≡ true
    find [] v = rw (nil-append (sub ++ v)) (at_front sub (sub ++ v) (starts-append sub v))
    find (c ∷ u) v = rw (cons-append c u (sub ++ v)) (later sub (u ++ (sub ++ v)) c (find u v))

pub drop_text-append : (p s : String) → drop_text (count p) (p ++ s) ≡ s
unfolding drop_text
drop_text-append [] s = rw (nil-append s)
drop_text-append (c ∷ p) s = rw (length-cons c p, cons-append c p s) (drop_text-append p s)

-- whether the texts differ at a position that both have
unfoldable pub differ : String → String → Bool
differ (c ∷ p) (e ∷ q) = not (same_code c e) || differ p q
differ _ _ = false

pub starts-append_differ : (p q s : String) → differ p q ≡ true → starts p (q ++ s) ≡ false
unfolding starts differ
starts-append_differ [] q s h = ground arith
starts-append_differ (c ∷ p) [] s h = ground arith
starts-append_differ (c ∷ p) (e ∷ q) s h =
    rw (cons-append e q s) (ground (arith, starts-append_differ p q s))
