-- ===== src/Sched/Tests.antt =====
-- The theorems about scheduler.c at two processes.
use cs.Base.{
  ◌⊎◌, ◌-◌, codes, length, true, strtok, skip_all, upto, atoi, skip_spaces, number, ℕ, zero, suc,
  ◌<◌, ◌≤◌, ◌≡◌, refl, some, List, [], ◌∷◌, false, arith, get_elem?,
}
use mathlib.Core.Option.{some-injective}
use mathlib.Core.Path.{subst}
use cs.Sched.{Queue, Process, Sim, random_os, u32, get_rand_num_from_file, rand_loop, for_loop}
use cs.Sched.Rounds.{done, fcfs, main, reset}
use cs.Sched.Random.{random_os-bounds}
use cs.Sched.Fcfs.{Fine, Inv}
use cs.Sched.Fcfs.Result.{Fresh, AllFresh, Completed, init, fcfs-Completed}
use cs.Sched.Input.{read_input, read_processes, read_process, next_process}
use cs.Sched.Reading.{read_input-Started}
use cs.Sched.Rounds.{sort_queue}
use cs.Sched.Sort.{bound_of, sort_queue-Ascending}
use cs.Sched.Sort.Passes.{Ascending, SameElements}
use cs.Sched.Skipped.{main-skips}
use cs.Sched.Rounds.{sjf, rr, rr_cycle, while_unfinished, out_of_fuel}
use cs.Sched.Cycle.{
  step1, step2, step3_rr, step4, arrive, start, finish, finish_at_cycle, update, tick_blocked,
  tick_ready, keep_burst,
}
use cs.Sched.Cycle.{block, fcfs_cycle, finish_fcfs, step3, redraw}
use cs.Base.{none, inr}
use cs.Sched.Fcfs.Result.{IsDone}
use cs.Sched.Fcfs.Served.{Reach, entry, after_cycle, Reach-IsDone, Reach-running}
use cs.Sched.Rounds.{fault}
use cs.Sched.Rounds.{sjf_cycle, sort_ready}
use cs.Sched.Sjf.{Stuck, sjf-Outcome}
use cs.Sched.Rr.{rr-Completed}

abbrev process : ℕ → ℕ → ℕ → ℕ → Process
process a b c i = record {
  a = a;
  b = b;
  c = c;
  m = 1;
  process_id = i;
  status = 0;
  finishing_time = 0;
  current_cpu_time_run = 0;
  current_io_blocked_time = 0;
  current_waiting_time = 0;
  io_burst = 0;
  cpu_burst = 0;
  quantum = 0;
  is_first_time_running = false;
}

abbrev two : List Process
two = process 0 2 2 0 ∷ process 1 1 1 1 ∷ []

process-Fresh :
    (last a b c i : ℕ) → 0 < b → 0 < c → c < u32 → a ≤ last → Fresh last i (process a b c i)
process-Fresh last a b c i b_pos c_pos c_lt a_le = record {
  id = refl;
  b_pos = b_pos;
  c_pos = c_pos;
  c_lt = c_lt;
  a_le = a_le;
  unstarted = refl;
  run = refl;
  blocked = refl;
  burst = refl;
}

two-AllFresh : AllFresh 1 0 two
two-AllFresh = (
  process-Fresh 1 0 2 2 0 (omega arith) (omega arith) (omega arith) (omega arith),
  (process-Fresh 1 1 1 1 1 (omega arith) (omega arith) (omega arith) (omega arith), tt),
)

-- Two that arrive together.
abbrev both : List Process
both = process 0 2 3 0 ∷ process 0 1 1 1 ∷ []

both-AllFresh : AllFresh 0 0 both
both-AllFresh = (
  process-Fresh 0 0 2 3 0 (omega arith) (omega arith) (omega arith) (omega arith),
  (process-Fresh 0 0 1 1 1 (omega arith) (omega arith) (omega arith) (omega arith), tt),
)

-- Round robin skips the cycle 1, in which the second process arrives: six cycles do not end it.
abbrev missed : List Process
missed = process 0 1 1 0 ∷ process 1 1 1 1 ∷ []

-- Two short ones: the first is done after one cycle, the second after two.
abbrev short : List Process
short = process 0 1 1 0 ∷ process 0 1 1 1 ∷ []

abbrev ended_process : ℕ → ℕ → ℕ → Process
ended_process i waiting finishing = record (process 0 1 1 i) {
  status = 4;
  current_cpu_time_run = 1;
  current_waiting_time = waiting;
  finishing_time = finishing;
}

abbrev after_one : Sim
after_one = record {
  process_list =
      ended_process 0 4294967295 0
      ∷ record (process 0 1 1 1) { status = 1; current_waiting_time = 1 }
      ∷ [];
  ready = some 1 ∷ [];
  blocked = [];
  running = none;
  current_cycle = 1;
  finished = 1;
  current_burst = 0;
  cycles_blocked = 0;
}

abbrev after_two : Sim
after_two = record after_one {
  process_list = ended_process 0 4294967295 0 ∷ ended_process 1 0 1 ∷ [];
  ready = [];
  current_cycle = 2;
  finished = 2;
}

short-AllFresh : AllFresh 0 0 short
short-AllFresh = (
  process-Fresh 0 0 1 1 0 (omega arith) (omega arith) (omega arith) (omega arith),
  (process-Fresh 0 0 1 1 1 (omega arith) (omega arith) (omega arith) (omega arith), tt),
)

cycle_one : fcfs_cycle (7 ∷ []) (init short) ≡ some after_one
unfolding fcfs_cycle step1 step2 step3 step4 arrive start finish finish_fcfs block update
    tick_blocked tick_ready redraw init for_loop
cycle_one = refl

cycle_two : fcfs_cycle (7 ∷ []) after_one ≡ some after_two
unfolding fcfs_cycle step1 step2 step3 step4 arrive start finish finish_fcfs block update
    tick_blocked tick_ready redraw for_loop
cycle_two = refl

short-Reach : Reach (fcfs_cycle (7 ∷ [])) (init short) after_two
unfolding init
short-Reach =
    after_cycle after_one after_two
      (after_cycle (init short) after_one entry (omega arith) cycle_one) (omega arith) cycle_two

Reach-IsDone_example : IsDone (ended_process 0 4294967295 0)
Reach-IsDone_example =
    Reach-IsDone 0 (7 ∷ []) short after_two 0 1 (ended_process 0 4294967295 0) (ended_process 1 0 1)
      short-AllFresh (omega arith) (omega arith) short-Reach refl refl (inr (refl, omega arith))
      (omega arith)

rr-missed : rr 6 (init missed) ≡ out_of_fuel
unfolding rr while_unfinished rr_cycle step1 step2 step3_rr step4 arrive start finish
    finish_at_cycle update tick_blocked tick_ready keep_burst init for_loop
rr-missed = refl

-- The state in which the first process has started.
abbrev busy : Sim
busy = record (init two) {
  process_list = record (process 0 2 2 0) { status = 2 } ∷ process 1 1 1 1 ∷ [];
  running = some 0;
  current_cycle = 0;
}

fcfs-Completed_example : (s' : Sim) × (fcfs 9 (7 ∷ []) (init two) ≡ done s') × Completed two 5 s'
fcfs-Completed_example =
    fcfs-Completed 1 9 (7 ∷ []) two two-AllFresh (omega arith) (omega arith) (omega arith)

-- One that blocks after each cycle of CPU time.
abbrev blocker : List Process
blocker = process 0 1 2 0 ∷ []

blocker-AllFresh : AllFresh 0 0 blocker
blocker-AllFresh =
    (process-Fresh 0 0 1 2 0 (omega arith) (omega arith) (omega arith) (omega arith), tt)

abbrev blocked_process : Process
blocked_process = record (process 0 1 2 0) {
  status = 3;
  current_cpu_time_run = 1;
  current_io_blocked_time = 1;
  current_waiting_time = 1;
  io_burst = 4294967295;
}

abbrev after_block : Sim
after_block = record {
  process_list = blocked_process ∷ [];
  ready = [];
  blocked = some 0 ∷ [];
  running = some 0;
  current_cycle = 1;
  finished = 0;
  current_burst = 0;
  cycles_blocked = 1;
}

block_run : fcfs_cycle (7 ∷ []) (init blocker) ≡ some after_block
unfolding fcfs_cycle step1 step2 step3 step4 arrive start finish finish_fcfs block update
    tick_blocked tick_ready redraw init for_loop random_os get_rand_num_from_file rand_loop
block_run = refl

blocker-Reach : Reach (fcfs_cycle (7 ∷ [])) (init blocker) after_block
unfolding init
blocker-Reach = after_cycle (init blocker) after_block entry (omega arith) block_run

Reach-running_example : (after_block.running ≡ some 0) × (1 < 2)
Reach-running_example =
    Reach-running 0 (7 ∷ []) blocker after_block 0 blocked_process blocker-AllFresh (omega arith)
      (omega arith) blocker-Reach refl refl

-- While its only process runs on, the ready queue is empty.
sjf-blocker : sjf 9 (init blocker) ≡ fault
unfolding sjf while_unfinished sjf_cycle sort_ready sort_queue step1 step2 step3 step4 arrive start
    finish finish_at_cycle block update tick_blocked tick_ready keep_burst init for_loop
sjf-blocker = refl

sjf-Outcome_example :
    ((s' : Sim) × (sjf 9 (init two) ≡ done s') × Completed two 5 s')
    ⊎ ((sjf 9 (init two) ≡ fault) × Stuck (init two))
sjf-Outcome_example = sjf-Outcome 1 9 two two-AllFresh (omega arith) (omega arith) (omega arith)

rr-Completed_example : (s' : Sim) × (rr 9 (init both) ≡ done s') × Completed both 8 s'
rr-Completed_example = rr-Completed 9 both both-AllFresh (omega arith) (omega arith) (omega arith)

main-skips_example :
    (s1 : Sim) × Completed two 5 s1
    × (main 9 (7 ∷ []) (init two)
        ≡ some (record { first_come = s1; shortest = reset s1; round_robin = reset s1 }))
main-skips_example =
    main-skips 1 9 (7 ∷ []) two two-AllFresh (omega arith) (omega arith) (omega arith)

random_os-bounds_example :
    (burst : ℕ) × (random_os 5 0 (7 ∷ []) ≡ some burst) × (0 < burst) × (burst ≤ 5)
random_os-bounds_example = random_os-bounds 5 0 (7 ∷ []) (omega arith) (omega arith) (omega arith)

busy-Fine :
    (i : ℕ) (p : Process) → get_elem? busy.process_list i ≡ some p → Fine 1 0 0 (some 0) [] i p
unfolding init
busy-Fine zero p e = subst (Fine 1 0 0 (some 0) [] 0) (some-injective _ _ e) (record {
  id = refl;
  b_pos = omega arith;
  c_pos = omega arith;
  c_lt = omega arith;
  a_le = omega arith;
  queued = refl;
  runs = refl;
  waits = λ z. omega arith;
  run_le = omega arith;
  done = refl;
  blocked = omega arith;
  burst = refl;
  known = omega arith;
})
busy-Fine (suc zero) p e = subst (Fine 1 0 0 (some 0) [] 1) (some-injective _ _ e) (record {
  id = refl;
  b_pos = omega arith;
  c_pos = omega arith;
  c_lt = omega arith;
  a_le = omega arith;
  queued = refl;
  runs = refl;
  waits = λ z. omega arith;
  run_le = omega arith;
  done = refl;
  blocked = omega arith;
  burst = refl;
  known = omega arith;
})
busy-Fine (suc (suc i)) p e = cc

busy-Inv : Inv 1 (λ j. 0) (λ j. 0) busy
unfolding init
busy-Inv = record { fine = busy-Fine; valid = tt; in_range = omega arith; finished = refl }

-- input-1 of the samples.
abbrev one : List Process
one =
    record (process 0 1 5 0) {
      finishing_time = u32 - 1;
      cpu_burst = 1;
      quantum = u32 - 1;
      is_first_time_running = true;
    }
    ∷ []

one-read : read_input (7 ∷ []) (codes "1 (0 1 5 1)  about as easy as possible") ≡ some one
unfolding read_input read_processes read_process strtok skip_all upto atoi skip_spaces number
    random_os get_rand_num_from_file rand_loop next_process
one-read = refl

read_input-Started_example : AllFresh 0 0 one × (length one ≤ 3)
read_input-Started_example =
    read_input-Started 0 (7 ∷ []) (codes "1 (0 1 5 1)  about as easy as possible") one one-read
      (omega arith, omega arith, tt)

sort_queue-Ascending_example :
    (q' : Queue) × (sort_queue two (some 0 ∷ some 1 ∷ []) ≡ some q')
    × Ascending (bound_of two) q'
    × SameElements (some 0 ∷ some 1 ∷ []) q'
sort_queue-Ascending_example =
    sort_queue-Ascending two (some 0 ∷ some 1 ∷ []) (omega arith, (omega arith, tt)) (λ e. cc)
