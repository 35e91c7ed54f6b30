-- ===== src/Sched/Keeps/Loops.antt =====
-- The cycles and the loops of the three algorithms keep the numbers of the processes.
use mathlib.Core.Option.{some-injective}
use mathlib.Core.Path.{subst}
use cs.Base.{ℕ, zero, suc, ◌≡◌, refl, sym, ◌∙◌, ap, true, false, Option, none, some, List}
use cs.Sched.{Sim, ◌>>=◌}
use cs.Sched.Cycle.{finish_fcfs, finish_at_cycle, redraw, keep_burst, next_cycle, fcfs_cycle}
use cs.Sched.Rounds.{
  Loop, done, out_of_fuel, fault, while_unfinished, sort_queue, sort_ready, sjf_cycle, rr_cycle,
  Algorithm, first_come, shortest, round_robin, cycle_of, fcfs, sjf, rr, Reports, main, reset,
}
use cs.Sched.Keeps.{
  Keeps, Results, SameNumbers, all_numbers, some-Results, bind-Results, then-Results, if-both,
}
use cs.Sched.Keeps.Steps.{
  step1-Keeps, step2-Keeps, step3-Keeps, step3_rr-Keeps, step4-Keeps, finish_fcfs-KeepsDone,
  finish_at_cycle-KeepsDone, redraw-Keeps, keep_burst-Keeps,
}

-- One step after another.
Keeps-bind : {f g : Sim → Option Sim} → Keeps f → Keeps g → Keeps (λ s. f s >>= g)
Keeps-bind {f = f} {g = g} kf kg s =
    bind-Results s (f s) g (λ t e. then-Results s t _ (kf s t e) (kg t))

next_cycle-Keeps : Keeps (λ s. some (next_cycle s))
next_cycle-Keeps s = some-Results s (next_cycle s) refl

sort_ready-Keeps : Keeps sort_ready
unfolding sort_ready
sort_ready-Keeps s =
    bind-Results s (sort_queue s.process_list s.ready) _ (λ q e. some-Results s _ refl)

fcfs_cycle-Keeps : (file : List ℕ) → Keeps (fcfs_cycle file)
unfolding fcfs_cycle
fcfs_cycle-Keeps file = Keeps-bind step1-Keeps (
    Keeps-bind (step2-Keeps false) (
      Keeps-bind (step3-Keeps finish_fcfs finish_fcfs-KeepsDone)
        (Keeps-bind (step4-Keeps (redraw file) (redraw-Keeps file)) next_cycle-Keeps)))

sjf_cycle-Keeps : Keeps sjf_cycle
unfolding sjf_cycle
sjf_cycle-Keeps = Keeps-bind step1-Keeps (
    Keeps-bind sort_ready-Keeps (
      Keeps-bind (step2-Keeps false) (
        Keeps-bind (step3-Keeps finish_at_cycle finish_at_cycle-KeepsDone)
          (Keeps-bind (step4-Keeps keep_burst keep_burst-Keeps) next_cycle-Keeps))))

rr_cycle-Keeps : Keeps rr_cycle
unfolding rr_cycle
rr_cycle-Keeps = Keeps-bind step1-Keeps (
    Keeps-bind (step2-Keeps true) (
      Keeps-bind step3_rr-Keeps
        (Keeps-bind (step4-Keeps keep_burst keep_burst-Keeps) next_cycle-Keeps)))

-- A cycle of FCFS, SJF or round robin that has a result leaves the processes in their order with
-- the A, B, C, M and process ID that they had.
pub cycle_of-SameNumbers :
    (algorithm : Algorithm) (file : List ℕ) (s s' : Sim)
    → cycle_of algorithm file s ≡ some s'
    → SameNumbers s s'
unfolding cycle_of
cycle_of-SameNumbers first_come file s s' e = fcfs_cycle-Keeps file s s' e
cycle_of-SameNumbers shortest file s s' e = sjf_cycle-Keeps s s' e
cycle_of-SameNumbers round_robin file s s' e = rr_cycle-Keeps s s' e

-- The state that a loop ends in, if it does.
abbrev LoopKeeps : Sim → Loop → Type 0
LoopKeeps s l = (s' : Sim) → l ≡ done s' → SameNumbers s s'

done_injective : (s s' : Sim) → done s ≡ done s' → s ≡ s'
done_injective s s' e = cc

done-LoopKeeps : (s t : Sim) → SameNumbers s t → LoopKeeps s (done t)
done-LoopKeeps s t h s' e =
    ap (λ (u : Sim). all_numbers u.process_list) (sym (done_injective t s' e)) ∙ h

-- The rest of a loop behind one cycle.
after-LoopKeeps :
    (s : Sim) (m : Option Sim) (rest : Sim → Loop)
    → Results s m
    → ((t : Sim) → LoopKeeps t (rest t))
    → LoopKeeps s (elim m [ none ↦ fault | some t ↦ rest t ])
after-LoopKeeps s none rest r k s' e = cc
after-LoopKeeps s (some t) rest r k s' e = k t s' e ∙ r t refl

while_unfinished-LoopKeeps :
    (fuel : ℕ) (cycle : Sim → Option Sim) (s : Sim)
    → Keeps cycle
    → LoopKeeps s (while_unfinished fuel cycle s)
unfolding while_unfinished
while_unfinished-LoopKeeps zero cycle s k s' e = cc
while_unfinished-LoopKeeps (suc fuel) cycle s k s' e =
    if-both (LoopKeeps s) _ _ _
      (after-LoopKeeps s (cycle s) (while_unfinished fuel cycle) (k s)
        (λ t. while_unfinished-LoopKeeps fuel cycle t k))
      (done-LoopKeeps s s refl) s' e

-- A report of a loop that is not done does not come.
done_of :
    (l : Loop) (f : Sim → Option Reports) (r : Reports)
    → (elim l [ done s ↦ f s | _ ↦ none ]) ≡ some r
    → (s : Sim) × (l ≡ done s) × (f s ≡ some r)
done_of (done s) f r e = (s, refl, e)
done_of out_of_fuel f r e = cc
done_of fault f r e = cc

pub record AllKeep (s : Sim) (r : Reports) : Type 0 where
  pub first_come : SameNumbers s r.first_come
  pub shortest : SameNumbers s r.shortest
  pub round_robin : SameNumbers s r.round_robin

-- The states that main reports have the numbers of the state in front of the loops.
pub main-AllKeep :
    (fuel : ℕ) (file : List ℕ) (s : Sim) (r : Reports) → main fuel file s ≡ some r → AllKeep s r
unfolding main fcfs sjf rr
main-AllKeep fuel file s r e =
    let (s1, e1, f1) = done_of (fcfs fuel file s) _ r e in
    let (s2, e2, f2) = done_of (sjf fuel (reset s1)) _ r f1 in
    let (s3, e3, f3) = done_of (rr fuel (reset s2)) _ r f2 in
    let k1 : SameNumbers s s1 =
      while_unfinished-LoopKeeps fuel (fcfs_cycle file) s (fcfs_cycle-Keeps file) s1 e1 in
    let k2 : SameNumbers s1 s2 =
      while_unfinished-LoopKeeps fuel sjf_cycle (reset s1) sjf_cycle-Keeps s2 e2 in
    let k3 : SameNumbers s2 s3 =
      while_unfinished-LoopKeeps fuel rr_cycle (reset s2) rr_cycle-Keeps s3 e3 in
    subst (AllKeep s) (some-injective _ r f3)
      (record { first_come = k1; shortest = k2 ∙ k1; round_robin = k3 ∙ (k2 ∙ k1) })
