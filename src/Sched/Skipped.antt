-- ===== src/Sched/Skipped.antt =====
-- The sequence of the three algorithms in main of scheduler.c.
use cs.Base.{ℕ, suc, ◌+◌, ◌<◌, ◌≡◌, false, some, List, arith, length, ltb, Option, zero, ◌∙◌, sym}
use cs.Sched.{u32, Process, Sim, seed_value}
use cs.Sched.Rounds.{done, while_unfinished, fcfs, sjf, rr, reset, main, sjf_cycle, rr_cycle}
use cs.Sched.Fcfs.{work}
use cs.Sched.Fcfs.Result.{AllFresh, Completed, init, fcfs-Completed}

not_less : (a b : ℕ) → a ≡ b → ltb a b ≡ false
not_less a b e = ground arith

-- Whatever a cycle does, a loop in front of which all processes are finished makes none.
while_unfinished-skips :
    (fuel : ℕ) (cycle : Sim → Option Sim) (s : Sim)
    → s.finished ≡ length s.process_list
    → while_unfinished (suc fuel) cycle s ≡ done s
unfolding while_unfinished
while_unfinished-skips fuel cycle s e = rw (not_less s.finished (length s.process_list) e)

main_run :
    (fuel : ℕ) (file : List ℕ) (s s1 s2 s3 : Sim)
    → fcfs fuel file s ≡ done s1
    → sjf fuel (reset s1) ≡ done s2
    → rr fuel (reset s2) ≡ done s3
    → main fuel file s ≡ some (record { first_come = s1; shortest = s2; round_robin = s3 })
unfolding main
main_run fuel file s s1 s2 s3 e1 e2 e3 = simp (e1, e2, e3, main)

-- From processes as main reads them, under the bounds and the fuel of FCFS's termination, main
-- gives its three reports, and those of SJF and round robin are the final state of FCFS with the
-- counter of blocked cycles at 0: neither loop makes a cycle, since the number of finished
-- processes is not reset.
pub main-skips :
    (last fuel : ℕ) (file : List ℕ) (ps : List Process)
    → AllFresh last 0 ps
    → seed_value + length ps < u32
    → work ps + last + 2 < u32
    → work ps + last + 1 < fuel
    → (s1 : Sim) × Completed ps (work ps + last + 1) s1
      × (main fuel file (init ps)
          ≡ some (record { first_come = s1; shortest = reset s1; round_robin = reset s1 }))
unfolding sjf rr
main-skips last zero file ps f few small enough = absurd (omega arith)
main-skips last (suc fuel) file ps f few small enough =
    let (s1, run, c) = fcfs-Completed last (suc fuel) file ps f few small enough in
    let over : s1.finished ≡ length s1.process_list = c.finished ∙ sym c.size in
    (
      s1,
      c,
      main_run (suc fuel) file (init ps) s1 (reset s1) (reset s1) run
          (while_unfinished-skips fuel sjf_cycle (reset s1) over)
          (while_unfinished-skips fuel rr_cycle (reset s1) over),
    )
