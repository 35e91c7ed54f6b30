-- ===== src/Sched/Cycle.antt =====
-- One round of the scheduling loops: arrivals, dispatch, the running process, the blocked ones.
use cs.Base.{
  ℕ, ◌+◌, ◌%◌, Bool, false, ◌&&◌, Option, none, some, List, ◌==◌, get_elem?, length, if◌then◌else◌,
}
use cs.Sched.{u32, inc, dec, Process, Sim, ◌>>=◌, enqueue, dequeue, random_os, for_loop, put}

-- Step 1 at the process `i`.
unfoldable pub arrive : ℕ → Sim → Option Sim
arrive i s = do
  p ← get_elem? s.process_list i
  let arrived = record (put s i (record p { status = 1 })) { ready = enqueue s.ready (some i) }
  some (if (p.a == s.current_cycle) && (p.status == 0) then arrived else s)

unfoldable pub step1 : Sim → Option Sim
unfolding arrive
step1 s = for_loop (length s.process_list) 0 arrive s

-- Step 2. Round robin also sets the quantum.
unfoldable pub start : Bool → ℕ → Sim → Option Sim
start round_robin i s = do
  p ← get_elem? s.process_list i
  let p' = record p { status = 2; quantum = if round_robin then 2 else p.quantum }
  some (record (put s i p') { running = some i; current_burst = p.cpu_burst })

unfoldable pub step2 : Bool → Sim → Option Sim
unfolding start
step2 round_robin s = elim s.running [
  | some i ↦ some s
  | none ↦
      let (next, rest) = dequeue s.ready in
      let s' : Sim = record s { ready = rest } in
      elim next [ none ↦ some s' | some i ↦ start round_robin i s' ]
]

-- Step 3: the running process is done. FCFS adds its finishing time up from its counters, the
-- other two take the cycle.
unfoldable pub finish : ℕ → Process → Sim → Sim
finish i p s = record (put s i (record p { status = 4 })) {
  finished = inc s.finished;
  running = none;
}

unfoldable pub finish_fcfs : ℕ → Process → Sim → Sim
unfolding finish
finish_fcfs i p s =
    let waiting = dec p.current_waiting_time in
    finish i
      (record p {
        current_waiting_time = waiting;
        finishing_time = (p.c + p.current_io_blocked_time + waiting) % u32;
      })
      s

unfoldable pub finish_at_cycle : ℕ → Process → Sim → Sim
unfolding finish
finish_at_cycle i p s = finish i (record p { finishing_time = inc s.current_cycle }) s

-- It is marked as blocked and put into the blocked queue, and stays the running process.
unfoldable pub block : ℕ → Process → Sim → Sim
block i p s =
    record (put s i (record p { status = 3; current_waiting_time = inc p.current_waiting_time })) {
      cycles_blocked = inc s.cycles_blocked;
      blocked = enqueue s.blocked (some p.process_id);
    }

-- Step 3 of FCFS and SJF, which differ in `done`.
unfoldable pub step3 : (ℕ → Process → Sim → Sim) → Sim → Option Sim
unfolding block
step3 done s = elim s.running [
  | none ↦ some s
  | some i ↦ do
    p ← get_elem? s.process_list i
    let p' = record p { current_cpu_time_run = inc p.current_cpu_time_run }
    if p'.current_cpu_time_run == p'.c
        then some (done i p' s)
        else (if p'.b == 0
            then none
            else some (if p'.current_cpu_time_run % p'.b == 0 then block i p' s else put s i p'))
]

-- Step 3 of round robin. A process that is done also moves the clock.
unfoldable pub step3_rr : Sim → Option Sim
unfolding finish_at_cycle
step3_rr s = elim s.running [
  | none ↦ some s
  | some i ↦ do
    p ← get_elem? s.process_list i
    let p' = record p { current_cpu_time_run = inc p.current_cpu_time_run; quantum = dec p.quantum }
    let done = finish_at_cycle i p' s
    let back = put s i (record p' { status = 1 })
    some (
        if p'.current_cpu_time_run == p'.c
        then record done { current_cycle = inc s.current_cycle }
        else if p'.quantum == 0
        then record back { ready = enqueue s.ready (some i); running = none }
        else put s i p')
]

-- Step 4 at the process `i`, in its three tests.
unfoldable pub tick_blocked : ℕ → Process → Sim → Sim
tick_blocked i p s =
    let p' : Process = record p {
      io_burst = dec p.io_burst;
      current_io_blocked_time = inc p.current_io_blocked_time;
    } in
    let (woken, rest) = dequeue s.blocked in
    if p'.io_burst == 0
    then record (put s i (record p' { status = 1 })) {
      ready = enqueue s.ready woken;
      blocked = rest;
    }
    else put s i p'

unfoldable pub tick_ready : ℕ → Process → Sim → Sim
tick_ready i p s = put s i (record p { current_waiting_time = inc p.current_waiting_time })

-- FCFS draws a new burst for the running process; the others only count down.
unfoldable pub redraw : List ℕ → Process → Sim → Option Sim
redraw file p s = elim s.running [
  | none ↦ none
  | some r ↦ do
    q ← get_elem? s.process_list r
    burst ← random_os p.b p.process_id file
    some (put s r (record q { cpu_burst = burst }))
]

unfoldable pub keep_burst : Process → Sim → Option Sim
keep_burst p s = some s

unfoldable pub update : (Process → Sim → Option Sim) → ℕ → Sim → Option Sim
unfolding tick_blocked tick_ready
update draw i s = do
  p ← get_elem? s.process_list i
  let s1 = if p.status == 3 then tick_blocked i p s else s
  p1 ← get_elem? s1.process_list i
  let s2 = if p1.status == 1 then tick_ready i p1 s1 else s1
  p2 ← get_elem? s2.process_list i
  let drawn : Option Sim = draw p2 s2
  if p2.status == 2
      then (do s3 ← drawn; some (record s3 { current_burst = dec s3.current_burst }))
      else some s2

unfoldable pub step4 : (Process → Sim → Option Sim) → Sim → Option Sim
unfolding update
step4 draw s = for_loop (length s.process_list) 0 (update draw) s

abbrev pub next_cycle : Sim → Sim
next_cycle s = record s { current_cycle = inc s.current_cycle }

unfoldable pub fcfs_cycle : List ℕ → Sim → Option Sim
fcfs_cycle file s = do
  s1 ← step1 s
  s2 ← step2 false s1
  s3 ← step3 finish_fcfs s2
  s4 ← step4 (redraw file) s3
  some (next_cycle s4)
