-- ===== src/Base/Format.antt =====
-- Numbers and words in text: `%d` and `%u` of printf, atoi, and `%s` of sscanf.
use Prim.Native.Nat.{ℕ, zero, suc, ◌+◌, ◌-◌, ◌*◌, ◌/◌, ◌%◌, ◌^◌, ◌<◌}
use mathlib.Core.Path.{◌≡◌, ap, ◌∙◌}
use mathlib.Core.Logic.{inl, inr}
use mathlib.Core.Bool.{Bool, true, ◌&&◌, ◌||◌}
use mathlib.Core.List.{List, [], ◌∷◌}
use native.Mathlib.Omega.{arith}
use cs.Base.Tests.{◌==◌, ltb, leb, if◌then◌else◌, Bool-cases}
use cs.Base.Chars.{Text}

-- The digits of a number in front of `acc`, at most `k` of them.
unfoldable pub decimal_from : ℕ → ℕ → Text → Text
decimal_from zero n acc = acc
decimal_from (suc k) n acc =
    let more = decimal_from k (n / 10) ((48 + n % 10) ∷ acc) in
    if ltb n 10 then (48 + n % 10) ∷ acc else more

-- `%u` of a number of up to 64 bits, which has at most 20 digits.
unfoldable pub decimal : ℕ → Text
unfolding decimal_from
decimal n = decimal_from 20 n []

-- `%d` of an `int`, held as its 32 bits.
unfoldable pub signed_decimal : ℕ → Text
unfolding decimal
signed_decimal x = if ltb x (2 ^ 31) then decimal x else b'-' ∷ decimal (2 ^ 32 - x)

abbrev pub is_space : ℕ → Bool
is_space c = (c == 32) || (leb 9 c && leb c 13)

abbrev pub is_digit : ℕ → Bool
is_digit c = leb 48 c && leb c 57

unfoldable pub skip_spaces : Text → Text
skip_spaces [] = []
skip_spaces (c ∷ t) = if is_space c then skip_spaces t else c ∷ t

-- The number that the digits at the front continue from `acc`.
unfoldable pub number : ℕ → Text → ℕ
number acc [] = acc
number acc (c ∷ t) = if is_digit c then number (acc * 10 + (c - 48)) t else acc

-- `atoi`, as the 32 bits of the `int`.
unfoldable pub atoi : Text → ℕ
unfolding skip_spaces number
atoi t = elim (skip_spaces t) [
  | [] ↦ 0
  | c ∷ r ↦
      if c == b'-'
      then (2 ^ 32 - number 0 r % 2 ^ 32) % 2 ^ 32
      else if c == b'+'
      then number 0 r % 2 ^ 32
      else number 0 (c ∷ r) % 2 ^ 32
]

-- The text before the first white space, and the rest from there.
unfoldable pub to_space : Text → Text × Text
to_space [] = ([], [])
to_space (c ∷ t) = let (a, b) = to_space t in if is_space c then ([], c ∷ t) else (c ∷ a, b)

-- `sscanf` with `%s` as often as `n` says: the words that are there.
unfoldable pub scan_words : ℕ → Text → List Text
unfolding skip_spaces to_space
scan_words zero t = []
scan_words (suc n) t = elim (skip_spaces t) [
  | [] ↦ []
  | c ∷ r ↦ let (word, rest) = to_space (c ∷ r) in word ∷ scan_words n rest
]

is_digit_of : (n : ℕ) → is_digit (48 + n % 10) ≡ true
is_digit_of n = ground arith

number-digit :
    (acc n : ℕ) (t : Text) → number acc ((48 + n % 10) ∷ t) ≡ number (acc * 10 + n % 10) t
unfolding number
number-digit acc n t = rw (is_digit_of n) (ap (λ d. number (acc * 10 + d) t) (omega arith))

number-decimal_from : (k n : ℕ) (t : Text) → n < 10 ^ k → number 0 (decimal_from k n t) ≡ number n t
unfolding decimal_from
number-decimal_from zero n t h = ap (λ m. number m t) (omega arith)
number-decimal_from (suc k) n t h = elim (Bool-cases (ltb n 10)) [
  | inl small ↦ rw small (number-digit 0 n t ∙ ap (λ m. number m t) (last n small))
  | inr big ↦ rw big (
      number-decimal_from k (n / 10) ((48 + n % 10) ∷ t) (omega arith)
      ∙ number-digit (n / 10) n t
      ∙ ap (λ m. number m t) (omega arith))
]
  where
    last : (n : ℕ) → ltb n 10 ≡ true → 0 * 10 + n % 10 ≡ n
    last n small = ground arith

-- What is printed reads back.
pub number-decimal : (n : ℕ) → n < 10 ^ 20 → number 0 (decimal n) ≡ n
unfolding decimal number
number-decimal n h = number-decimal_from 20 n [] h
