-- ===== src/Sched/Input.antt =====
-- main: the processes as they are read from the first line of the input file.
use cs.Base.{
  ℕ, zero, suc, ◌+◌, ◌-◌, true, Option, none, some, List, [], ◌∷◌, Text, ◌==◌, ltb, if◌then◌else◌,
  strtok, atoi,
}
use cs.Sched.{u32, Process, ◌>>=◌, random_os}

-- One process in parentheses, from behind the opening one: the four numbers, then a burst. What
-- `strtok` does not find is NULL, which atoi reads through.
unfoldable pub read_process : ℕ → List ℕ → Text → Option (Process × Text)
read_process i random r = do
  (a, r1) ← strtok b' ' r
  (b, r2) ← strtok b' ' r1
  (c, r3) ← strtok b' ' r2
  (m, r4) ← strtok b')' r3
  burst ← random_os (atoi b) i random
  some (
    record {
      a = atoi a;
      b = atoi b;
      c = atoi c;
      m = atoi m;
      process_id = i;
      status = 0;
      finishing_time = u32 - 1;
      current_cpu_time_run = 0;
      current_io_blocked_time = 0;
      current_waiting_time = 0;
      io_burst = 0;
      cpu_burst = burst;
      quantum = u32 - 1;
      is_first_time_running = true;
    },
    r4,
  )

-- process_list has room for three processes, whatever number the line has.
abbrev pub allocated : ℕ
allocated = 3

-- `strtok(NULL, "(")`, where another process follows.
unfoldable pub next_process : ℕ → Text → Text
next_process zero r = r
next_process (suc left) r = elim (strtok b'(' r) [ none ↦ [] | some (skipped, rest) ↦ rest ]

-- The processes from `i` on, `left` of them.
unfoldable pub read_processes : ℕ → ℕ → List ℕ → Text → Option (List Process)
unfolding read_process next_process
read_processes zero i random r = some []
read_processes (suc left) i random r = do
  (p, r') ← if ltb i allocated then read_process i random r else none
  ps ← read_processes left (i + 1) random (next_process left r')
  some (p ∷ ps)

-- A number above 3 is a fault at the fourth process, so it is cut to 4.
unfoldable pub read_input : List ℕ → Text → Option (List Process)
unfolding read_processes
read_input random line = do
  (count, r) ← strtok b' ' line
  if atoi count == 0 then some [] else (do
    (skipped, r') ← strtok b'(' line
    read_processes (if ltb (atoi count) 4 then atoi count else 4) 0 random r')
