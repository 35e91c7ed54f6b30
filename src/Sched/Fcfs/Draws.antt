-- ===== src/Sched/Fcfs/Draws.antt =====
-- The burst that step 4 of the loops of scheduler.c writes to the running process.
use cs.Base.{
  ℕ, ◌+◌, ◌<◌, ◌≡◌, Option, some, List, get_elem?, set, length, arith, ap, sym, [], ◌∷◌, zero, suc,
}
use cs.Sched.{u32, Process, Sim, put, seed_value}
use cs.Sched.Cycle.{redraw, keep_burst}
use mathlib.Core.Option.{some-injective}
use cs.Sched.Fcfs.Lists.{get_elem?-lt}
use cs.Sched.Random.{random_os-some}

-- `draw` writes at most a new burst, to the running process.
abbrev pub Draws : (Process → Sim → Option Sim) → Type 0
Draws draw =
    (s : Sim) (i : ℕ) (p : Process)
    → get_elem? s.process_list i ≡ some p
    → s.running ≡ some i
    → 0 < p.b
    → p.process_id ≡ i
    → seed_value + length s.process_list < u32
    → (burst : ℕ) × (draw p s ≡ some (put s i (record p { cpu_burst = burst })))

pub redraw-Draws : (file : List ℕ) → Draws (redraw file)
unfolding redraw
redraw-Draws file s i p e on b_pos id few =
    let (burst, drawn) =
      random_os-some p.b p.process_id file b_pos
        (rw id (omega (arith, get_elem?-lt s.process_list i e))) in
    (burst, simp (on, redraw, e, drawn))

set-same : {A : Type 0} (xs : List A) (i : ℕ) (x : A) → get_elem? xs i ≡ some x → set xs i x ≡ xs
set-same [] i x e = cc
set-same (y ∷ xs) zero x e = ap (λ z. z ∷ xs) (sym (some-injective y x e))
set-same (y ∷ xs) (suc i) x e = ap (λ r. y ∷ r) (set-same xs i x e)

pub keep_burst-Draws : Draws keep_burst
unfolding keep_burst
keep_burst-Draws s i p e on b_pos id few = (
  p.cpu_burst,
  ap (λ ps. some (record s { process_list = ps })) (sym (set-same s.process_list i p e)),
)
