-- ===== src/Sched/Fcfs/Step4.antt =====
-- Step 4 of the FCFS and SJF loops of scheduler.c: the counters of the processes.
use cs.Base.{Option, ℕ, ◌+◌, ◌<◌, ◌≡◌, some, length, arith}
use cs.Sched.{u32, Process, Sim, seed_value}
use cs.Sched.Cycle.{update, step4}
use cs.Sched.Fcfs.{Inv}
use cs.Sched.Fcfs.Lists.{get_elem?-lt, lt-get_elem?, for_loop-inv}
use cs.Sched.Fcfs.Turns.{SameWork, SameWork_self, SameWork-trans, from_at, from_at_lt, from_at_zero}
use cs.Sched.Fcfs.Order.{KeepsOrder}
use cs.Sched.Fcfs.Draws.{Draws}
use cs.Sched.Fcfs.Update.{updated}

module _ (last from now : ℕ) (draw : Process → Sim → Option Sim) (draws : Draws draw) where
  abbrev Turn : Sim → ℕ → Sim → Type 0
  Turn s0 i s =
      Inv last (λ j. from) (from_at now i) s
      × SameWork s0 s
      × KeepsOrder (λ j. from) (λ j. from) s0 s

  update-Turn :
      (s0 : Sim)
      → now + 1 < u32
      → seed_value + length s0.process_list < u32
      → (i : ℕ) (s : Sim) → i < length s0.process_list
      → Turn s0 i s
      → (s' : Sim) × (update draw i s ≡ some s') × Turn s0 (i + 1) s'
  update-Turn s0 small few i s less (v, w, k) =
      let (p, e) = lt-get_elem? s.process_list i (omega (arith, w.size)) in
      let (t, run, (v', w', k')) =
        again i s (updated last from now draw draws i s p v e small (omega (arith, w.size))) in
      (t, run, (v', SameWork-trans w w', λ at o. k' at (k at o)))
    where
      again :
          (i : ℕ) (s : Sim)
          → ((t : Sim) × (update draw i s ≡ some t)
              × Inv last (λ j. from) (from_at now (i + 1)) t
              × SameWork s t
              × KeepsOrder (λ j. from) (λ j. from) s t)
          → (t : Sim) × (update draw i s ≡ some t)
            × (Inv last (λ j. from) (from_at now (i + 1)) t
                × SameWork s t
                × KeepsOrder (λ j. from) (λ j. from) s t)
      again i s (t, run, v, w, k) = (t, run, (v, w, k))

  -- From a state with the invariant in which no process was blocked for more than `now` cycles,
  -- `now` + 1 below 2^32 and the line numbers for randomOS below 2^32, step 4 of FCFS or SJF has a result
  -- with the invariant in which none was blocked for more than `now` + 1, and keeps the order of arrival. The clock, the number of
  -- processes, the owed CPU time and the number of finished processes stay.
  pub step4-Inv :
      (s : Sim)
      → now + 1 < u32
      → seed_value + length s.process_list < u32
      → Inv last (λ j. from) (λ j. now) s
      → (s' : Sim) × (step4 draw s ≡ some s')
        × Inv last (λ j. from) (λ j. now + 1) s'
        × SameWork s s'
        × KeepsOrder (λ j. from) (λ j. from) s s'
  unfolding step4
  step4-Inv s small few v =
      let n : ℕ = length s.process_list in
      let (s', run, (v', w, k)) =
        for_loop-inv (Turn s) n (update draw) (update-Turn s small few) n 0 s (omega arith)
          (none_counted s v, SameWork_self s, λ at o. o) in
      (s', run, all_counted n s' w.size v', w, k)
    where
      none_counted :
          (s : Sim) → Inv last (λ j. from) (λ j. now) s → Inv last (λ j. from) (from_at now 0) s
      none_counted s v = record {
        fine = λ j p e. rw (from_at_zero now j) (v.fine j p e);
        valid = v.valid;
        in_range = v.in_range;
        finished = v.finished;
      }

      all_counted :
          (n : ℕ) (s : Sim)
          → length s.process_list ≡ n
          → Inv last (λ j. from) (from_at now n) s
          → Inv last (λ j. from) (λ j. now + 1) s
      all_counted n s size v = record {
        fine = λ j p e.
            let f = v.fine j p e in
            rw (from_at_lt now n j (omega (arith, get_elem?-lt s.process_list j e))) at f;
        valid = v.valid;
        in_range = v.in_range;
        finished = v.finished;
      }
