-- ===== src/Sched/Program/Tests.antt =====
-- The whole run of scheduler.c on two processes, and one cycle of round robin.
use cs.Base.{
  ℕ, ◌+◌, ◌-◌, ◌*◌, ◌/◌, ◌≡◌, refl, true, some, List, [], ◌∷◌, codes, arith, decimal, strtok,
  skip_all, upto, atoi, skip_spaces, number,
}
use cs.Sched.{Process, Sim, for_loop, u32, random_os, get_rand_num_from_file, rand_loop}
use cs.Sched.Input.{read_input, read_processes, read_process, next_process}
use cs.Sched.Reading.{Usable}
use cs.Sched.Cycle.{
  step1, step2, step3_rr, step4, arrive, start, update, keep_burst, tick_ready, tick_blocked,
  finish_at_cycle, finish,
}
use cs.Sched.Rounds.{rr_cycle, round_robin, cycle_of}
use cs.Sched.Fcfs.Result.{init}
use cs.Sched.Keeps.{SameNumbers}
use cs.Sched.Keeps.Loops.{cycle_of-SameNumbers}
use cs.Sched.Summary.{Double}
use cs.Sched.Summary.Sums.{Exact}
use cs.Sched.Program.Theorems.{Printed, run_program-Printed}

-- Whole numbers, with the quotients rounded down.
abbrev whole : Double ℕ
whole = record {
  of = λ n. n;
  add = λ a b. a + b;
  mul = λ a b. a * b;
  div = λ a b. a / b;
  fixed = decimal;
}

whole-Exact : Exact whole
whole-Exact = record { add_of = λ a b h. refl }

abbrev as_read : ℕ → ℕ → ℕ → Process
as_read i a c = record {
  a = a;
  b = 1;
  c = c;
  m = 1;
  process_id = i;
  status = 0;
  finishing_time = u32 - 1;
  current_cpu_time_run = 0;
  current_io_blocked_time = 0;
  current_waiting_time = 0;
  io_burst = 0;
  cpu_burst = 1;
  quantum = u32 - 1;
  is_first_time_running = true;
}

abbrev pair : List Process
pair = as_read 0 0 5 ∷ as_read 1 1 4 ∷ []

pair-read : read_input (7 ∷ []) (codes "2 (0 1 5 1) (1 1 4 1)") ≡ some pair
unfolding read_input read_processes read_process strtok skip_all upto atoi skip_spaces number
    random_os get_rand_num_from_file rand_loop next_process
pair-read = refl

pair-Usable : Usable 1 pair
pair-Usable = (omega arith, omega arith, (omega arith, omega arith, tt))

run_program-Printed_example : Printed ℕ whole 11 12 (7 ∷ []) (codes "2 (0 1 5 1) (1 1 4 1)") pair
run_program-Printed_example =
    run_program-Printed whole 1 12 (7 ∷ []) (codes "2 (0 1 5 1) (1 1 4 1)") pair whole-Exact
      pair-read pair-Usable (omega arith) (omega arith)

-- Round robin starts the first process, which runs for a unit of time.
abbrev after_cycle : Sim
after_cycle = record (init pair) {
  process_list =
      record (as_read 0 0 5) { status = 2; current_cpu_time_run = 1; quantum = 1 }
      ∷ as_read 1 1 4
      ∷ [];
  running = some 0;
  current_cycle = 1;
  current_burst = 0;
}

one_cycle : cycle_of round_robin [] (init pair) ≡ some after_cycle
unfolding cycle_of rr_cycle step1 step2 step3_rr step4 for_loop arrive start update keep_burst
    tick_ready tick_blocked finish_at_cycle finish init
one_cycle = refl

cycle_of-SameNumbers_example : SameNumbers (init pair) after_cycle
unfolding init
cycle_of-SameNumbers_example = cycle_of-SameNumbers round_robin [] (init pair) after_cycle one_cycle
