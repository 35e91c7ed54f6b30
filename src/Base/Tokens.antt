-- ===== src/Base/Tokens.antt =====
-- What strtok takes off a text that is put together with the delimiter.
use Prim.Native.Nat.{ℕ, ◌<◌}
use mathlib.Core.Path.{◌≡◌, refl}
use mathlib.Core.Option.{some}
use mathlib.Core.Bool.{true}
use mathlib.Core.List.{[], ◌∷◌, ◌++◌}
use native.Mathlib.Omega.{arith}
use cs.Base.Tests.{◌==◌}
use cs.Base.Lists.{length}
use cs.Base.Chars.{Text, skip_all, upto, strtok}
use cs.Base.Find.{lacks, lacks-cons}

pub upto-append : (c : ℕ) (a b : Text) → lacks c a ≡ true → upto c (a ++ c ∷ b) ≡ (a, b)
unfolding upto
upto-append c [] b h = rw (self c) refl
  where
    self : (c : ℕ) → (c == c) ≡ true
    self c = ground arith
upto-append c (x ∷ a) b h =
    let (other, out) = lacks-cons c x a h in rw (other, upto-append c a b out) refl

pub strtok-append :
    (c : ℕ) (a b : Text) → 0 < length a → lacks c a ≡ true → strtok c (a ++ c ∷ b) ≡ some (a, b)
unfolding strtok skip_all
strtok-append c [] b some_byte h = absurd (omega arith)
strtok-append c (x ∷ a) b some_byte h =
    let (other, out) = lacks-cons c x a h in
    rw (strtok, skip_all, other, upto-append c (x ∷ a) b h) refl
