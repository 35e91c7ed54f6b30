-- ===== src/Sched/Rounds.antt =====
-- sortQueue, the three loops, and the sequence of the three algorithms in main.
use cs.Base.{
  ℕ, zero, suc, ◌-◌, true, false, Option, none, some, List, [], ◌∷◌, ltb, get_elem?, length,
  if◌then◌else◌,
}
use cs.Sched.{Process, Queue, Sim, ◌>>=◌}
use cs.Sched.Cycle.{
  step1, step2, step3, step3_rr, finish_at_cycle, step4, keep_burst, next_cycle, fcfs_cycle,
}

-- `arr[j]->B`
unfoldable pub burst_bound : List Process → Option ℕ → Option ℕ
burst_bound ps none = none
burst_bound ps (some i) = do p ← get_elem? ps i; some p.b

-- The inner loop of the bubble sort: `n` comparisons from the front on.
unfoldable pub bubble_pass : (Option ℕ → Option ℕ) → ℕ → Queue → Option Queue
bubble_pass key zero q = some q
bubble_pass key (suc n) [] = some []
bubble_pass key (suc n) (x ∷ []) = some (x ∷ [])
bubble_pass key (suc n) (x ∷ y ∷ q) = do
  kx ← key x
  ky ← key y
  let swap = ltb ky kx
  rest ← bubble_pass key n ((if swap then x else y) ∷ q)
  some ((if swap then y else x) ∷ rest)

-- The outer loop: the round `i` makes `size - i - 1` comparisons.
unfoldable pub bubble_rounds : (Option ℕ → Option ℕ) → ℕ → Queue → Option Queue
unfolding bubble_pass
bubble_rounds key zero q = some q
bubble_rounds key (suc n) q = do q' ← bubble_pass key (suc n) q; bubble_rounds key n q'

-- On the empty queue the array `arr[size]` has no element, which is undefined behaviour.
unfoldable pub sort_queue : List Process → Queue → Option Queue
unfolding bubble_rounds burst_bound
sort_queue ps [] = none
sort_queue ps (x ∷ q) = bubble_rounds (burst_bound ps) (length (x ∷ q) - 1) (x ∷ q)

unfoldable pub sort_ready : Sim → Option Sim
unfolding sort_queue
sort_ready s = do q ← sort_queue s.process_list s.ready; some (record s { ready = q })

unfoldable pub sjf_cycle : Sim → Option Sim
sjf_cycle s = do
  s1 ← step1 s
  s1' ← sort_ready s1
  s2 ← step2 false s1'
  s3 ← step3 finish_at_cycle s2
  s4 ← step4 keep_burst s3
  some (next_cycle s4)

unfoldable pub rr_cycle : Sim → Option Sim
rr_cycle s = do
  s1 ← step1 s
  s2 ← step2 true s1
  s3 ← step3_rr s2
  s4 ← step4 keep_burst s3
  some (next_cycle s4)

-- The values of `scheduling_algorithm`, and the cycle under each.
pub data Algorithm : Type 0 where
  first_come : Algorithm
  shortest : Algorithm
  round_robin : Algorithm

unfoldable pub cycle_of : Algorithm → List ℕ → Sim → Option Sim
unfolding sjf_cycle rr_cycle
cycle_of first_come file s = fcfs_cycle file s
cycle_of shortest file s = sjf_cycle s
cycle_of round_robin file s = rr_cycle s

-- What a loop comes to: its last state, no fuel left, or undefined behaviour.
pub data Loop : Type 0 where
  done : Sim → Loop
  out_of_fuel : Loop
  fault : Loop

-- `while (total_finished_processes < total_num_of_process)`
unfoldable pub while_unfinished : ℕ → (Sim → Option Sim) → Sim → Loop
while_unfinished zero cycle s = out_of_fuel
while_unfinished (suc fuel) cycle s =
    let after : Loop = elim (cycle s) [ none ↦ fault | some s' ↦ while_unfinished fuel cycle s' ] in
    if ltb s.finished (length s.process_list) then after else done s

-- What main does behind each loop: the counter of blocked cycles starts anew. It resets neither
-- the number of finished processes nor the clock nor the processes.
abbrev pub reset : Sim → Sim
reset s = record s { cycles_blocked = 0 }

-- The loop over `scheduling_algorithm`. The result has the state at the end of each algorithm,
-- which is what its report prints.
unfoldable pub fcfs : ℕ → List ℕ → Sim → Loop
unfolding while_unfinished
fcfs fuel file s = while_unfinished fuel (fcfs_cycle file) s

unfoldable pub sjf : ℕ → Sim → Loop
unfolding while_unfinished
sjf fuel s = while_unfinished fuel sjf_cycle s

unfoldable pub rr : ℕ → Sim → Loop
unfolding while_unfinished
rr fuel s = while_unfinished fuel rr_cycle s

pub record Reports : Type 0 where
  pub first_come : Sim
  pub shortest : Sim
  pub round_robin : Sim

unfoldable pub main : ℕ → List ℕ → Sim → Option Reports
main fuel file s = elim (fcfs fuel file s) [
  | done s1 ↦ elim (sjf fuel (reset s1)) [
    | done s2 ↦ elim (rr fuel (reset s2)) [
      | done s3 ↦ some (record { first_come = s1; shortest = s2; round_robin = s3 })
      | _ ↦ none
    ]
    | _ ↦ none
  ]
  | _ ↦ none
]
