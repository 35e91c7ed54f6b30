-- ===== src/Sched/Summary/Sums.antt =====
-- The sums of printSummaryData, where the processes are few enough.
use cs.Base.{ℕ, ◌+◌, ◌*◌, ◌^◌, ◌<◌, ◌≤◌, ◌≡◌, ap, ◌∙◌, List, [], ◌∷◌, length, arith}
use cs.Sched.{u32, Process}
use cs.Sched.Summary.{Double, total_from}

-- A `double` has every whole number up to 2^53, so the sum of two is exact below that.
pub record Exact {ℓ} {W : Type ℓ} (d : Double W) : Type ℓ where
  pub add_of : (a b : ℕ) → a + b ≤ 2 ^ 53 → d.add (d.of a) (d.of b) ≡ d.of (a + b)

abbrev pub sum_of : (Process → ℕ) → List Process → ℕ
sum_of field [] = 0
sum_of field (p ∷ ps) = field p + sum_of field ps

-- The values fit into 32 bits.
abbrev pub AllSmall : (Process → ℕ) → List Process → Type 0
AllSmall field [] = Unit {0}
AllSmall field (p ∷ ps) = (field p < u32) × AllSmall field ps

module _ {ℓ} {W : Type ℓ} ⦃d : Double W⦄ (exact : Exact d) (field : Process → ℕ) where
  pub total_from-of :
      (a : ℕ) (ps : List Process)
      → AllSmall field ps
      → a + length ps * u32 ≤ 2 ^ 53
      → total_from field (d.of a) ps ≡ d.of (a + sum_of field ps)
  unfolding total_from
  total_from-of a [] small h = ap d.of (omega arith)
  total_from-of a (p ∷ ps) (lt, small) h =
      rw (total_from, exact.add_of a (field p) (omega (arith, lt, h)))
        (total_from-of (a + field p) ps small (omega (arith, lt, h)) ∙ ap d.of (omega arith))
