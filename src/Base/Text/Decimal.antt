-- ===== src/Base/Text/Decimal.antt =====
-- `str(n)`: its characters are digits, it reads back as `n`, and so it is followed by a separator
-- without ambiguity.
use Prim.Native.Char.{Char, code}
use Prim.Native.Nat.{ℕ, zero, suc, ◌+◌, ◌*◌, ◌/◌, ◌%◌, ◌<◌}
use Prim.Native.String.{String, [], ◌∷◌, ◌++◌, char_at}
use mathlib.Core.Bool.{Bool, true, false, ◌&&◌}
use mathlib.Core.Option.{some}
use mathlib.Core.Path.{◌≡◌, refl, sym, ap, ◌∙◌}
use native.Mathlib.Omega.{arith}
use text.Mathlib.TextLemmas.{nil-append, cons-append, head-eq_of_cons-eq, tail-eq_of_cons-eq}
use fastapi_chassis.Base.Text.{print_digits, print_nat, parse_digits, is_digit}

abbrev digit_char : ℕ → Char
digit_char m = char_at "0123456789" m

code-digit_char : (m : ℕ) → m < 10 → code (digit_char m) ≡ 48 + m
code-digit_char zero h = refl
code-digit_char (suc zero) h = refl
code-digit_char (suc (suc zero)) h = refl
code-digit_char (suc (suc (suc zero))) h = refl
code-digit_char (suc (suc (suc (suc zero)))) h = refl
code-digit_char (suc (suc (suc (suc (suc zero))))) h = refl
code-digit_char (suc (suc (suc (suc (suc (suc zero)))))) h = refl
code-digit_char (suc (suc (suc (suc (suc (suc (suc zero))))))) h = refl
code-digit_char (suc (suc (suc (suc (suc (suc (suc (suc zero)))))))) h = refl
code-digit_char (suc (suc (suc (suc (suc (suc (suc (suc (suc zero))))))))) h = refl
code-digit_char (suc (suc (suc (suc (suc (suc (suc (suc (suc (suc m)))))))))) h =
    absurd (omega arith)

-- One more digit is read.
parse-digit_char :
    (acc m : ℕ) (last : Bool) (s : String)
    → m < 10
    → parse_digits acc last (digit_char m ∷ s) ≡ parse_digits (acc * 10 + m) true s
unfolding parse_digits is_digit
parse-digit_char acc m last s h = ground (arith, code-digit_char m h)

parse-print_digits :
    (fuel n : ℕ) (last : Bool) (s : String)
    → n < fuel
    → parse_digits 0 last (print_digits fuel n s) ≡ parse_digits n true s
unfolding print_digits
parse-print_digits zero n last s h = absurd (omega arith)
parse-print_digits (suc fuel) n last s h = ground (
  arith,
  parse-digit_char 0 (n % 10) last s,
  parse-digit_char (n / 10) (n % 10) true s,
  parse-print_digits fuel (n / 10) last (digit_char (n % 10) ∷ s),
)

-- `str(n)` reads back as `n`.
parse-print_nat : (n : ℕ) (last : Bool) → parse_digits 0 last (print_nat n) ≡ some n
unfolding print_nat parse_digits
parse-print_nat n last = parse-print_digits (suc n) n last [] (omega arith)

abbrev all_digits : String → Bool
all_digits [] = true
all_digits (c ∷ s) = is_digit c && all_digits s

all_digits-print_digits :
    (fuel n : ℕ) (s : String) → all_digits s ≡ true → all_digits (print_digits fuel n s) ≡ true
unfolding print_digits is_digit
all_digits-print_digits zero n s h = h
all_digits-print_digits (suc fuel) n s h = ground (
  arith,
  code-digit_char (n % 10),
  all_digits-print_digits fuel (n / 10) (digit_char (n % 10) ∷ s),
)

-- Two texts of digits, each followed by a character that is none, are equal if the wholes are.
digits_before :
    (sep : Char) (s t u v : String)
    → is_digit sep ≡ false
    → all_digits s ≡ true
    → all_digits t ≡ true
    → s ++ (sep ∷ u) ≡ t ++ (sep ∷ v)
    → (s ≡ t) × (u ≡ v)
digits_before sep [] [] u v n h k e =
    (refl, tail-eq_of_cons-eq (sym (nil-append (sep ∷ u)) ∙ (e ∙ nil-append (sep ∷ v))))
digits_before sep [] (c ∷ t) u v n h k e =
    let head = head-eq_of_cons-eq (sym (nil-append (sep ∷ u)) ∙ (e ∙ cons-append c t (sep ∷ v))) in
    absurd (ground (arith, ap is_digit head))
digits_before sep (c ∷ s) [] u v n h k e =
    let head = head-eq_of_cons-eq (sym (cons-append c s (sep ∷ u)) ∙ (e ∙ nil-append (sep ∷ v))) in
    absurd (ground (arith, ap is_digit head))
digits_before sep (c ∷ s) (d ∷ t) u v n h k e =
    let all = sym (cons-append c s (sep ∷ u)) ∙ (e ∙ cons-append d t (sep ∷ v)) in
    let head = head-eq_of_cons-eq all in
    let (same, after) =
      digits_before sep s t u v n (ground arith) (ground arith) (tail-eq_of_cons-eq all) in
    (rw (head, same) refl, after)

-- The number and the rest can be told from `f"{n}{sep}{rest}"`.
pub print_nat-injective :
    (sep : Char) (m n : ℕ) (u v : String)
    → is_digit sep ≡ false
    → print_nat m ++ (sep ∷ u) ≡ print_nat n ++ (sep ∷ v)
    → (m ≡ n) × (u ≡ v)
print_nat-injective sep m n u v h e =
    let (same, after) =
      digits_before sep (print_nat m) (print_nat n) u v h (digits m) (digits n) e in
    (
      some_injective (
          sym (parse-print_nat m true)
          ∙ (ap (λ s. parse_digits 0 true s) same ∙ parse-print_nat n true)),
      after,
    )
  where
    digits : (n : ℕ) → all_digits (print_nat n) ≡ true
    digits n = unfold print_nat in all_digits-print_digits (suc n) n [] refl

    some_injective : {a b : ℕ} → some a ≡ some b → a ≡ b
    some_injective h = ground arith
