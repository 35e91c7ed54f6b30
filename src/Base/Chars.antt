-- ===== src/Base/Chars.antt =====
-- C strings as lists of bytes without the closing zero, and the string functions that the
-- programs call.
use Prim.Native.Char.{code}
use Prim.Native.String.{String}
use Prim.Native.Nat.{ℕ}
use mathlib.Core.Path.{◌≡◌, refl}
use mathlib.Core.Logic.{◌↔◌}
use mathlib.Core.Bool.{Bool, true, false, ◌&&◌}
use mathlib.Core.List.{List, [], ◌∷◌}
use mathlib.Core.Option.{Option, none, some}
use native.Mathlib.Omega.{arith}
use cs.Base.Tests.{◌==◌, if◌then◌else◌}

abbrev pub Text : Type 0
Text = List ℕ

abbrev pub codes : String → Text
codes String.[] = []
codes (String.◌∷◌ c s) = code c ∷ codes s

-- `strcmp(a, b) == 0`
unfoldable pub streq : Text → Text → Bool
streq [] [] = true
streq [] (y ∷ ys) = false
streq (x ∷ xs) [] = false
streq (x ∷ xs) (y ∷ ys) = (x == y) && streq xs ys

pub eq_of_streq : (a b : Text) → streq a b ≡ true → a ≡ b
unfolding streq
eq_of_streq [] [] h = refl
eq_of_streq [] (y ∷ ys) h = cc
eq_of_streq (x ∷ xs) [] h = cc
eq_of_streq (x ∷ xs) (y ∷ ys) h = ground (arith, eq_of_streq xs ys)

pub streq_self : (a : Text) → streq a a ≡ true
unfolding streq
streq_self [] = refl
streq_self (x ∷ xs) = ground (arith, streq_self xs)

pub streq_iff : (a b : Text) → (streq a b ≡ true) ↔ (a ≡ b)
streq_iff a b = (eq_of_streq a b, λ e. rw e (streq_self b))

-- The text before the first byte `c` and the text behind it: `strchr` with the two parts.
unfoldable pub split_at : ℕ → Text → Option (Text × Text)
split_at c [] = none
split_at c (x ∷ xs) =
    if x == c
    then some ([], xs)
    else elim (split_at c xs) [ none ↦ none | some (a, b) ↦ some (x ∷ a, b) ]

unfoldable pub starts_with : Text → Text → Bool
starts_with [] xs = true
starts_with (p ∷ ps) [] = false
starts_with (p ∷ ps) (x ∷ xs) = (p == x) && starts_with ps xs

-- `strstr(xs, p)`: the text from the first occurrence of `p` on.
unfoldable pub strstr : Text → Text → Option Text
unfolding starts_with
strstr p [] = if starts_with p [] then some [] else none
strstr p (x ∷ xs) = if starts_with p (x ∷ xs) then some (x ∷ xs) else strstr p xs

-- `strtok` with one delimiter: the token and what stands behind it.
unfoldable pub skip_all : ℕ → Text → Text
skip_all d [] = []
skip_all d (c ∷ t) = if c == d then skip_all d t else c ∷ t

unfoldable pub upto : ℕ → Text → Text × Text
upto d [] = ([], [])
upto d (c ∷ t) = let (a, b) = upto d t in if c == d then ([], t) else (c ∷ a, b)

unfoldable pub strtok : ℕ → Text → Option (Text × Text)
unfolding skip_all upto
strtok d t = elim (skip_all d t) [ [] ↦ none | c ∷ r ↦ some (upto d (c ∷ r)) ]
