-- ===== src/Base/Pool.antt =====
-- The addresses that `malloc` will return in turn, on a heap of any cells.
use Prim.Native.Nat.{ℕ}
use mathlib.Core.Path.{◌≡◌, refl}
use mathlib.Core.Logic.{◌≢◌, inl, inr}
use mathlib.Core.Bool.{true, false}
use mathlib.Core.Option.{Option, none, some}
use mathlib.Core.List.{List, [], ◌∷◌}
use cs.Base.Tests.{◌==◌, ==_iff, Bool-cases, if◌then◌else◌}
use cs.Base.Find.{lacks, lacks-cons}

module _ {ℓ} {A : Type ℓ} where
  -- Each once, not NULL, and with nothing on them.
  abbrev pub Unused : (ℕ → Option A) → List ℕ → Type ℓ
  Unused c [] = Unit {ℓ}
  Unused c (p ∷ ps) = (p ≢ 0) × (c p ≡ none) × (lacks p ps ≡ true) × Unused c ps

  -- A write at any other address leaves them, and one in use is another one.
  pub Unused-frame :
      (c : ℕ → Option A) (a : ℕ) (v : Option A) (ps : List ℕ)
      → Unused c ps
      → lacks a ps ≡ true
      → Unused (λ b. if b == a then v else c b) ps
  Unused-frame c a v [] h out = tt
  Unused-frame c a v (p ∷ ps) (ne, free, once, h) out =
      let (other, away) = lacks-cons a p ps out in
      (ne, rw other free, once, Unused-frame c a v ps h away)

  pub used_apart :
      (c : ℕ → Option A) (a : ℕ) (v : A) (ps : List ℕ)
      → c a ≡ some v
      → Unused c ps
      → lacks a ps ≡ true
  used_apart c a v [] at h = refl
  used_apart c a v (p ∷ ps) at (ne, free, once, h) = elim (Bool-cases (p == a)) [
    | inl hit ↦ absurd (clash ((==_iff p a).0 hit))
    | inr miss ↦ rw (miss, used_apart c a v ps at h) refl
  ]
    where
      clash : p ≡ a → ⊥
      clash e = cc

  -- A change that takes nothing of them into use leaves them.
  pub Unused-still :
      (c c' : ℕ → Option A) (ps : List ℕ)
      → ((b : ℕ) → c b ≡ none → c' b ≡ none)
      → Unused c ps
      → Unused c' ps
  Unused-still c c' [] same u = tt
  Unused-still c c' (p ∷ ps) same (ne, free, once, u) =
      (ne, same p free, once, Unused-still c c' ps same u)

  -- The first one is taken into use.
  pub Unused-next :
      (c c' : ℕ → Option A) (p : ℕ) (ps : List ℕ)
      → lacks p ps ≡ true
      → ((b : ℕ) → c b ≡ none → (b == p) ≡ false → c' b ≡ none)
      → Unused c ps
      → Unused c' ps
  Unused-next c c' p [] out same u = tt
  Unused-next c c' p (q ∷ ps) out same (ne, free, once, u) =
      let (other, away) = lacks-cons p q ps out in
      (ne, same q free other, once, Unused-next c c' p ps away same u)
