-- ===== src/Base/Text.antt =====
-- The text operations of Python that the program uses, over code points: truth of a text, lower
-- case (ASCII), strip, split on one character, startswith, decimal numbers.
pub mod Decimal
pub mod Search
pub mod Split
use Prim.Native.Nat.{compare, Ordering, ℕ, zero, suc, ◌+◌, ◌*◌, ◌-◌, ◌/◌, ◌%◌}
use Prim.Native.Char.{Char, code}
use Prim.Native.String.{String, [], ◌∷◌, ◌++◌, char_at}
use mathlib.Core.Bool.{Bool, true, false, ◌&&◌, ◌||◌, cond}
use mathlib.Core.Option
use mathlib.Core.Path.{◌≡◌}
use native.Mathlib.Omega.{arith}
use text.Mathlib.TextLemmas.{nil-append, cons-append}
use mathlib.Core.Option.{Option, none, some}
use mathlib.Core.List
use mathlib.Core.List.{List}

abbrev within : ℕ → ℕ → ℕ → Bool
within lo hi n = elim (compare lo n) [
  | Ordering.gt ↦ false
  | _ ↦ elim (compare n hi) [ Ordering.gt ↦ false | _ ↦ true ]
]

abbrev eq_code : Char → ℕ → Bool
eq_code c n = elim (compare (code c) n) [ Ordering.eq ↦ true | _ ↦ false ]

abbrev pub same_code : Char → Char → Bool
same_code c d = elim (compare (code c) (code d)) [ Ordering.eq ↦ true | _ ↦ false ]

-- `bool(s)`: every text but the empty one is true.
abbrev pub is_true : String → Bool
is_true [] = false
is_true (_ ∷ _) = true

lower_char : Char → Char
lower_char c = cond (within 65 90 (code c)) (char_at "abcdefghijklmnopqrstuvwxyz" (code c - 65)) c

-- `s.lower()` on ASCII text
unfoldable pub lower : String → String
unfolding lower_char
lower [] = []
lower (c ∷ s) = lower_char c ∷ lower s

upper_char : Char → Char
upper_char c = cond (within 97 122 (code c)) (char_at "ABCDEFGHIJKLMNOPQRSTUVWXYZ" (code c - 97)) c

-- `s.upper()` on ASCII text
unfoldable pub upper : String → String
unfolding upper_char
upper [] = []
upper (c ∷ s) = upper_char c ∷ upper s

-- `s.startswith(prefix)`
unfoldable pub starts : String → String → Bool
starts [] s = true
starts (_ ∷ _) [] = false
starts (p ∷ ps) (c ∷ s) = same_code p c && starts ps s

-- `s[n:]`
unfoldable pub drop_text : ℕ → String → String
drop_text zero s = s
drop_text (suc n) [] = []
drop_text (suc n) (_ ∷ s) = drop_text n s

is_space : Char → Bool
is_space c = within 9 13 (code c) || within 28 32 (code c)

lstrip : String → String
lstrip [] = []
lstrip (c ∷ s) = let rest = lstrip s in cond (is_space c) rest (c ∷ s)

rstrip : String → String
rstrip [] = []
rstrip (c ∷ s) =
    let rest = rstrip s in cond (is_space c) (elim rest [ [] ↦ [] | d ∷ t ↦ c ∷ d ∷ t ]) (c ∷ rest)

-- `s.strip()`
unfoldable pub strip : String → String
unfolding lstrip rstrip is_space
strip s = rstrip (lstrip s)

split_from : Char → String → String → List String
split_from sep cur [] = List.◌∷◌ cur List.[]
split_from sep cur (c ∷ s) =
    let closed = split_from sep [] s in
    let longer = split_from sep (cur ++ (c ∷ [])) s in
    cond (same_code c sep) (List.◌∷◌ cur closed) longer

-- `s.split(sep)` for a separator of one character
unfoldable pub split_on : Char → String → List String
unfolding split_from
split_on sep s = split_from sep [] s

print_digits : ℕ → ℕ → String → String
print_digits zero n acc = acc
print_digits (suc fuel) n acc =
    let digit = char_at "0123456789" (n % 10) in
    let more = print_digits fuel (n / 10) (digit ∷ acc) in cond (within 0 9 n) (digit ∷ acc) more

-- `str(n)`: one round for each digit, and a number has no more digits than it has units, and one.
unfoldable pub print_nat : ℕ → String
unfolding print_digits
print_nat n = print_digits (suc n) n []

unfoldable pub is_digit : Char → Bool
is_digit c = within 48 57 (code c)

-- Decimal digits, with single underscores between them; `last` says that the character before is a
-- digit.
parse_digits : ℕ → Bool → String → Option ℕ
parse_digits acc last [] = cond last (some acc) none
parse_digits acc last (c ∷ s) =
    let digit = is_digit c in
    let rest = parse_digits (cond digit (acc * 10 + (code c - 48)) acc) digit s in
    cond (digit || last && eq_code c 95) rest none

parse_signed : String → Option (Bool × ℕ)
parse_signed [] = none
parse_signed (c ∷ s) =
    cond (eq_code c b'-') (Option.map (λ n. (true, n)) (parse_digits 0 false s))
      (Option.map (λ n. (false, n)) (parse_digits 0 false (cond (eq_code c b'+') s (c ∷ s))))

-- `int(s)` for a text: a sign (true for minus) and a magnitude, or ValueError.
unfoldable pub parse_int : String → Option (Bool × ℕ)
unfolding parse_signed parse_digits is_digit strip
parse_int s = parse_signed (strip s)

split_from-append :
    (sep : Char) (cur s t : String)
    → split_from sep cur (s ++ (sep ∷ t)) ≡ List.◌++◌ (split_from sep cur s) (split_on sep t)
unfolding split_from split_on
split_from-append sep cur [] t = rw nil-append (ground arith)
split_from-append sep cur (c ∷ s) t =
    rw cons-append
      (ground (arith, split_from-append sep [] s t, split_from-append sep (cur ++ (c ∷ [])) s t))

-- Splitting at a separator splits the two sides.
pub split_on-append :
    (sep : Char) (s t : String)
    → split_on sep (s ++ (sep ∷ t)) ≡ List.◌++◌ (split_on sep s) (split_on sep t)
unfolding split_on
split_on-append sep s t = split_from-append sep [] s t
