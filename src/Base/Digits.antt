-- ===== src/Base/Digits.antt =====
-- The text of a number consists of digits, and atoi reads it back.
use Prim.Native.Nat.{ℕ, zero, suc, ◌+◌, ◌*◌, ◌-◌, ◌/◌, ◌%◌, ◌^◌, ◌<◌, ◌≤◌}
use mathlib.Core.Path.{◌≡◌, refl, ap, ◌∙◌}
use mathlib.Core.Logic.{inl, inr}
use mathlib.Core.Bool.{Bool, true, false, not, ◌&&◌}
use mathlib.Core.List.{[], ◌∷◌, ◌++◌}
use native.Mathlib.Omega.{arith}
use cs.Base.Tests.{◌==◌, ltb, Bool-cases}
use cs.Base.Lists.{length}
use cs.Base.Chars.{Text}
use cs.Base.Format.{
  decimal_from, decimal, is_digit, is_space, skip_spaces, number, atoi, number-decimal,
}
use cs.Base.Find.{lacks}

abbrev pub all_digits : Text → Bool
all_digits [] = true
all_digits (c ∷ t) = is_digit c && all_digits t

all_digits-decimal_from :
    (k n : ℕ) (t : Text) → all_digits t ≡ true → all_digits (decimal_from k n t) ≡ true
unfolding decimal_from
all_digits-decimal_from zero n t h = h
all_digits-decimal_from (suc k) n t h = elim (Bool-cases (ltb n 10)) [
  | inl small ↦ rw small (with_digit n (all_digits t) h)
  | inr big ↦ rw big (all_digits-decimal_from k (n / 10) _ (with_digit n (all_digits t) h))
]
  where
    with_digit : (n : ℕ) (b : Bool) → b ≡ true → (is_digit (48 + n % 10) && b) ≡ true
    with_digit n b h = ground arith

pub all_digits-decimal : (n : ℕ) → all_digits (decimal n) ≡ true
unfolding decimal
all_digits-decimal n = all_digits-decimal_from 20 n [] refl

length-decimal_from : (k n : ℕ) (t : Text) → length (decimal_from k n t) ≤ k + length t
unfolding decimal_from
length-decimal_from zero n t = omega arith
length-decimal_from (suc k) n t = elim (Bool-cases (ltb n 10)) [
  | inl small ↦ rw small (omega arith)
  | inr big ↦ rw big (omega (arith, length-decimal_from k (n / 10) ((48 + n % 10) ∷ t)))
]

pub length-decimal : (n : ℕ) → length (decimal n) ≤ 20
unfolding decimal
length-decimal n = omega (arith, length-decimal_from 20 n [])

-- Digits have no other byte among them.
pub lacks-all_digits :
    (c : ℕ) (t : Text) → is_digit c ≡ false → all_digits t ≡ true → lacks c t ≡ true
lacks-all_digits c [] e h = refl
lacks-all_digits c (x ∷ t) e h = both x c (all_digits t) (lacks c t) e h (lacks-all_digits c t e)
  where
    both :
        (x c : ℕ) (a b : Bool)
        → is_digit c ≡ false
        → (is_digit x && a) ≡ true
        → (a ≡ true → b ≡ true)
        → (not (x == c) && b) ≡ true
    both x c a b e h f = ground (arith, f)

digit_facts :
    (x : ℕ) (b : Bool)
    → (is_digit x && b) ≡ true
    → (is_space x ≡ false) × ((x == b'-') ≡ false) × ((x == b'+') ≡ false)
digit_facts x b h = ground arith

pub atoi-all_digits : (t : Text) → all_digits t ≡ true → atoi t ≡ number 0 t % 2 ^ 32
unfolding atoi skip_spaces number
atoi-all_digits [] h = refl
atoi-all_digits (c ∷ t) h =
    let (s, m, p) = digit_facts c (all_digits t) h in rw (atoi, skip_spaces, s, m, p) refl

pub atoi-decimal : (n : ℕ) → n < 2 ^ 32 → atoi (decimal n) ≡ n
atoi-decimal n h =
    atoi-all_digits (decimal n) (all_digits-decimal n)
    ∙ ap (λ m. m % 2 ^ 32) (number-decimal n (omega arith))
    ∙ omega arith

grows : (k n : ℕ) (t : Text) → length t ≤ length (decimal_from k n t)
unfolding decimal_from
grows zero n t = omega arith
grows (suc k) n t = elim (Bool-cases (ltb n 10)) [
  | inl small ↦ rw small (omega arith)
  | inr big ↦ rw big (omega (arith, grows k (n / 10) ((48 + n % 10) ∷ t)))
]

one_digit : (k n : ℕ) → 0 < length (decimal_from (suc k) n [])
unfolding decimal_from
one_digit k n = elim (Bool-cases (ltb n 10)) [
  | inl small ↦ rw small (omega arith)
  | inr big ↦ rw big (omega (arith, grows k (n / 10) ((48 + n % 10) ∷ [])))
]

pub decimal-pos : (n : ℕ) → 0 < length (decimal n)
unfolding decimal
decimal-pos n = one_digit 19 n

-- A number ends in front of another byte than a digit.
pub number-append :
    (acc : ℕ) (t : Text) (c : ℕ) (u : Text)
    → all_digits t ≡ true
    → is_digit c ≡ false
    → number acc (t ++ c ∷ u) ≡ number acc t
unfolding number
number-append acc [] c u h e = rw e refl
number-append acc (x ∷ t) c u h e =
    let (d, r) = both (is_digit x) (all_digits t) h in
    rw d (number-append (acc * 10 + (x - 48)) t c u r e)
  where
    both : (a b : Bool) → (a && b) ≡ true → (a ≡ true) × (b ≡ true)
    both a b h = ground arith
