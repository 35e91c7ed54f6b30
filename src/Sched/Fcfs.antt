-- ===== src/Sched/Fcfs.antt =====
-- The invariant of the FCFS loop of scheduler.c, and of those of SJF and round robin.
pub mod Lists
pub mod Turns
pub mod Order
pub mod Arrived
pub mod Step1
pub mod Written
pub mod Started
pub mod Step2
pub mod Running
pub mod Step3
pub mod Draws
pub mod Step4
pub mod Update
pub mod Idle
pub mod Total
pub mod Result
pub mod Served
use cs.Base.{
  ℕ, ◌+◌, ◌-◌, ◌%◌, ◌<◌, ◌≤◌, ◌≡◌, Bool, false, ◌||◌, Option, none, some, List, [], ◌∷◌, ◌==◌,
  get_elem?, length, if◌then◌else◌, ◌∙◌,
}
use cs.Sched.{u32, Process, Queue, Sim}

-- How often the queue holds the process `i`.
abbrev pub count : ℕ → Queue → ℕ
count i [] = 0
count i (none ∷ q) = count i q
count i (some j ∷ q) = (if i == j then 1 else 0) + count i q

-- The queue holds processes of a list of `n`, and no NULL.
abbrev pub Valid : ℕ → Queue → Type 0
Valid n [] = Unit {0}
Valid n (none ∷ q) = ⊥
Valid n (some j ∷ q) = (j < n) × Valid n q

abbrev pub is : ℕ → Option ℕ → Bool
is i none = false
is i (some j) = i == j

abbrev pub InRange : ℕ → Option ℕ → Type 0
InRange n none = Unit {0}
InRange n (some i) = i < n

-- The processes that are terminated, and the CPU time that all still need.
abbrev pub ended : Process → ℕ
ended p = if p.status == 4 then 1 else 0

abbrev pub terminated : List Process → ℕ
terminated [] = 0
terminated (p ∷ ps) = ended p + terminated ps

abbrev pub owed : Process → ℕ
owed p = p.c - p.current_cpu_time_run

abbrev pub work : List Process → ℕ
work [] = 0
work (p ∷ ps) = owed p + work ps

-- The process `i`: a ready one stands in the ready queue once and no other does; the running one
-- is marked as running or blocked and no other is; an unstarted one arrives at `from` or later; it
-- is terminated exactly when it had all its CPU time; `io_burst` counts down from 0 modulo 2^32,
-- once for each cycle spent blocked, of which there are at most `spent`. No process arrives
-- behind `last`.
pub record Fine (last from spent : ℕ) (running : Option ℕ) (ready : Queue) (i : ℕ) (p : Process)
    : Type 0 where
  pub id : p.process_id ≡ i
  pub b_pos : 0 < p.b
  pub c_pos : 0 < p.c
  pub c_lt : p.c < u32
  pub a_le : p.a ≤ last
  pub queued : count i ready ≡ (if p.status == 1 then 1 else 0)
  pub runs : is i running ≡ ((p.status == 2) || (p.status == 3))
  pub waits : p.status ≡ 0 → from ≤ p.a
  pub run_le : p.current_cpu_time_run ≤ p.c
  pub done : (p.status == 4) ≡ (p.current_cpu_time_run == p.c)
  pub blocked : p.current_io_blocked_time ≤ spent
  pub burst : p.io_burst ≡ (u32 - p.current_io_blocked_time) % u32
  pub known : p.status ≤ 4

-- `from` and `spent` may differ by process within a cycle.
pub record Inv (last : ℕ) (from spent : ℕ → ℕ) (s : Sim) : Type 0 where
  pub fine :
      (i : ℕ) (p : Process)
      → get_elem? s.process_list i ≡ some p
      → Fine last (from i) (spent i) s.running s.ready i p
  pub valid : Valid (length s.process_list) s.ready
  pub in_range : InRange (length s.process_list) s.running
  pub finished : s.finished ≡ terminated s.process_list

-- The same process in another queue, behind another running process, under other bounds.
pub Fine-change :
    {last a b a' b' : ℕ} {r r' : Option ℕ} {q q' : Queue} {i : ℕ} {p : Process}
    → Fine last a b r q i p
    → count i q' ≡ count i q
    → is i r' ≡ is i r
    → (p.status ≡ 0 → a' ≤ p.a)
    → p.current_io_blocked_time ≤ b'
    → Fine last a' b' r' q' i p
Fine-change f same_count same_is waits blocked = record {
  id = f.id;
  b_pos = f.b_pos;
  c_pos = f.c_pos;
  c_lt = f.c_lt;
  a_le = f.a_le;
  queued = same_count ∙ f.queued;
  runs = same_is ∙ f.runs;
  waits = waits;
  run_le = f.run_le;
  done = f.done;
  blocked = blocked;
  burst = f.burst;
  known = f.known;
}
