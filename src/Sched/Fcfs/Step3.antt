-- ===== src/Sched/Fcfs/Step3.antt =====
-- Step 3 of the FCFS and SJF loops of scheduler.c: the running process.
use cs.Base.{
  ℕ, ◌+◌, ◌%◌, ◌<◌, ◌≡◌, refl, ◌⊎◌, inl, inr, Bool, true, false, ◌||◌, none, some, ◌==◌, Bool-cases,
  get_elem?, length, length-set, arith, sym,
}
use cs.Sched.{u32, inc, Process, Sim, put}
use cs.Sched.Cycle.{finish_fcfs, finish_at_cycle, block, step3}
use mathlib.Core.Path.{subst}
use cs.Sched.Fcfs.{is, ended, work, Inv}
use cs.Sched.Fcfs.Lists.{lt-get_elem?, terminated-lt}
use cs.Sched.Fcfs.Running.{ran, facts, i_runs, goes_on, leaves, ran-work, ran-Order}
use cs.Sched.Fcfs.Order.{KeepsOrder}

-- What `stop` does with a process that is done, but for the times that it notes.
abbrev pub Ends : (ℕ → Process → Sim → Sim) → Type 0
Ends stop =
    (i : ℕ) (p : Process) (s : Sim)
    → (waiting : ℕ) × (finishing : ℕ) × (stop i p s
        ≡ record (put s i
            (record p { current_waiting_time = waiting; finishing_time = finishing; status = 4 })) {
              finished = inc s.finished;
              running = none;
            })

pub finish_fcfs-Ends : Ends finish_fcfs
unfolding finish_fcfs
finish_fcfs-Ends i p s = (_, _, refl)

pub finish_at_cycle-Ends : Ends finish_at_cycle
unfolding finish_at_cycle
finish_at_cycle-Ends i p s = (_, _, refl)

two_of :
    (status : ℕ) (r : Bool)
    → r ≡ true
    → r ≡ ((status == 2) || (status == 3))
    → (status ≡ 2) ⊎ (status ≡ 3)
two_of status r on e = ground arith

not_zero : (b : ℕ) → 0 < b → (b == 0) ≡ false
not_zero b h = ground arith

module _ (last from : ℕ) (spent : ℕ → ℕ) where
  -- One unit less is owed.
  pub record Worked (s t : Sim) : Type 0 where
    pub inv : Inv last (λ j. from) spent t
    pub order : KeepsOrder (λ j. from) (λ j. from) s t
    pub current_cycle : t.current_cycle ≡ s.current_cycle
    pub size : length t.process_list ≡ length s.process_list
    pub work : work t.process_list + 1 ≡ work s.process_list

  module _ (s : Sim) (i : ℕ) (p : Process) (v : Inv last (λ j. from) spent s)
      (on : s.running ≡ some i) (e : get_elem? s.process_list i ≡ some p)
      (small : length s.process_list < u32) where
    pub not_ended : ended p ≡ 0
    not_ended = rw (facts last from spent s i p v on e).3

    next : Process
    next = record p { current_cpu_time_run = inc p.current_cpu_time_run }

    stopped : ℕ → ℕ → Sim
    stopped waiting finishing = record (put s i (ran p 4 waiting finishing p.quantum)) {
      finished = inc s.finished;
      running = none;
    }

    stopped-Worked :
        (waiting finishing : ℕ)
        → (inc p.current_cpu_time_run == p.c) ≡ true
        → Worked s (stopped waiting finishing)
    unfolding stopped
    stopped-Worked waiting finishing done = record {
      inv =
          leaves last from spent s i p v on e (stopped waiting finishing) waiting finishing
            p.quantum done refl refl refl
            (omega (arith, v.finished, terminated-lt s.process_list i p e not_ended));
      order =
          ran-Order last from spent s i p v on e (stopped waiting finishing) 4 waiting finishing
            p.quantum (λ z. omega arith) refl refl (λ k r. cc);
      current_cycle = refl;
      size = length-set s.process_list i _;
      work = ran-work last from spent s i p v on e 4 waiting finishing p.quantum;
    }

    done-Worked :
        (stop : ℕ → Process → Sim → Sim)
        → Ends stop
        → (inc p.current_cpu_time_run == p.c) ≡ true
        → Worked s (stop i next s)
    unfolding stopped next
    done-Worked stop ends done =
        let (waiting, finishing, same) = ends i next s in
        subst (Worked s) (sym same) (stopped-Worked waiting finishing done)

    block-Worked : (inc p.current_cpu_time_run == p.c) ≡ false → Worked s (block i next s)
    unfolding block next
    block-Worked more = record {
      inv =
          goes_on last from spent s i p v on e (block i next s) 3 _ p.finishing_time p.quantum more
            (inr refl) refl on refl refl;
      order =
          ran-Order last from spent s i p v on e (block i next s) 3 _ p.finishing_time p.quantum
            (λ z. omega arith) refl refl (λ k r. r);
      current_cycle = refl;
      size = length-set s.process_list i _;
      work = ran-work last from spent s i p v on e 3 _ p.finishing_time p.quantum;
    }

    pub status_running : (p.status ≡ 2) ⊎ (p.status ≡ 3)
    status_running =
        two_of p.status (is i s.running) (i_runs last from spent s i p v on e) (v.fine i p e).runs

    put-Worked : (inc p.current_cpu_time_run == p.c) ≡ false → Worked s (put s i next)
    unfolding next
    put-Worked more = record {
      inv =
          goes_on last from spent s i p v on e (put s i next) p.status p.current_waiting_time
            p.finishing_time p.quantum more status_running refl on refl refl;
      order =
          ran-Order last from spent s i p v on e (put s i next) p.status p.current_waiting_time
            p.finishing_time p.quantum (λ z. omega (arith, z, status_running)) refl refl (λ k r. r);
      current_cycle = refl;
      size = length-set s.process_list i _;
      work =
          ran-work last from spent s i p v on e p.status p.current_waiting_time p.finishing_time
            p.quantum;
    }

    step3_run :
        (stop : ℕ → Process → Sim → Sim)
        → Ends stop
        → (t : Sim) × (step3 stop s ≡ some t) × Worked s t
    unfolding step3 next
    step3_run stop ends = elim (Bool-cases (inc p.current_cpu_time_run == p.c)) [
      | inl done ↦ (stop i next s, simp (on, step3, e, done), done-Worked stop ends done)
      | inr more ↦ elim (Bool-cases ((inc p.current_cpu_time_run % p.b) == 0)) [
        | inl halts ↦ (
          block i next s,
          simp (on, step3, e, more, not_zero p.b (v.fine i p e).b_pos, halts),
          block-Worked more,
        )
        | inr run ↦ (
          put s i next,
          simp (on, step3, e, more, not_zero p.b (v.fine i p e).b_pos, run),
          put-Worked more,
        )
      ]
    ]

  -- From a state with the invariant in which a process is running, of fewer than 2^32 processes,
  -- step 3 of FCFS or SJF has a result with the invariant, in which the processes together are owed
  -- one unit of CPU time less, and keeps the order of arrival. The clock and the number of
  -- processes stay.
  pub step3-Worked :
      (stop : ℕ → Process → Sim → Sim) (s : Sim) (i : ℕ)
      → Ends stop
      → Inv last (λ j. from) spent s
      → s.running ≡ some i
      → length s.process_list < u32
      → (t : Sim) × (step3 stop s ≡ some t) × Worked s t
  step3-Worked stop s i ends v on small =
      let (p, e) = lt-get_elem? s.process_list i (rw on at v.in_range) in
      step3_run s i p v on e small stop ends
