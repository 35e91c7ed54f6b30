-- ===== src/Sched/Rr/Quantum.antt =====
-- Step 3 of the round robin loop of scheduler.c: the running process and its quantum.
use cs.Base.{
  ℕ, ◌+◌, ◌<◌, ◌≤◌, ◌≡◌, refl, inl, inr, true, false, none, some, ◌==◌, Bool-cases, get_elem?,
  length, length-set, arith, sym, ◌∙◌,
}
use cs.Sched.{u32, inc, dec, Process, Sim, put, enqueue}
use cs.Sched.Cycle.{finish_at_cycle, step3_rr}
use cs.Sched.Fcfs.{work, Fine, Inv, Fine-change}
use cs.Sched.Fcfs.Lists.{
  get_elem?-lt, lt-get_elem?, terminated-set_eq, terminated-lt, is-ne, count-enqueue_self,
  count-enqueue_ne, Valid-enqueue,
}
use cs.Sched.Fcfs.Written.{put-Inv}
use cs.Sched.Fcfs.Running.{ran, facts, goes_on, leaves, ran-work}
use cs.Sched.Fcfs.Step3.{not_ended, status_running}

module _ (last from : ℕ) (spent : ℕ → ℕ) where
  -- One unit less is owed, and the clock may have moved.
  pub record RanOn (s t : Sim) : Type 0 where
    pub inv : Inv last (λ j. from) spent t
    pub clock_from : s.current_cycle ≤ t.current_cycle
    pub clock_to : t.current_cycle ≤ s.current_cycle + 1
    pub size : length t.process_list ≡ length s.process_list
    pub work : work t.process_list + 1 ≡ work s.process_list

  module _ (s : Sim) (i : ℕ) (p : Process) (v : Inv last (λ j. from) spent s)
      (on : s.running ≡ some i) (e : get_elem? s.process_list i ≡ some p)
      (small : length s.process_list < u32) (time : s.current_cycle + 1 < u32) where
    f : Fine last from (spent i) s.running s.ready i p
    f = v.fine i p e

    -- It is done: the clock moves too.
    over : Sim
    over = record (put s i (ran p 4 p.current_waiting_time (inc s.current_cycle) (dec p.quantum))) {
      finished = inc s.finished;
      running = none;
      current_cycle = inc s.current_cycle;
    }

    over-RanOn : (inc p.current_cpu_time_run == p.c) ≡ true → RanOn s over
    unfolding over
    over-RanOn done = record {
      inv =
          leaves last from spent s i p v on e over p.current_waiting_time (inc s.current_cycle)
            (dec p.quantum) done refl refl refl
            (omega (
              arith,
              v.finished,
              terminated-lt s.process_list i p e (not_ended last from spent s i p v on e small),
            ));
      clock_from = omega arith;
      clock_to = omega arith;
      size = length-set s.process_list i _;
      work =
          ran-work last from spent s i p v on e 4 p.current_waiting_time (inc s.current_cycle)
            (dec p.quantum);
    }

    -- Its quantum is used up: back to the end of the queue.
    back : Process
    back = ran p 1 p.current_waiting_time p.finishing_time (dec p.quantum)

    yields : Sim
    unfolding back
    yields = record (put s i back) { ready = enqueue s.ready (some i); running = none }

    yields-Inv : (inc p.current_cpu_time_run == p.c) ≡ false → Inv last (λ j. from) spent yields
    unfolding yields back
    yields-Inv more =
        let k = facts last from spent s i p v on e in
        put-Inv yields i back v (get_elem?-lt s.process_list i e) refl
          (λ j x ne g.
            Fine-change g (count-enqueue_ne j i s.ready ne) (rw on (sym (is-ne j i ne))) g.waits
              g.blocked)
          (record {
            id = f.id;
            b_pos = f.b_pos;
            c_pos = f.c_pos;
            c_lt = f.c_lt;
            a_le = f.a_le;
            queued = omega (arith, count-enqueue_self i s.ready, k.0);
            runs = refl;
            waits = λ z. absurd (omega arith);
            run_le = omega (arith, k);
            done = sym more;
            blocked = f.blocked;
            burst = f.burst;
            known = omega arith;
          })
          (Valid-enqueue _ i s.ready v.valid (get_elem?-lt s.process_list i e)) tt
          (v.finished ∙ terminated-set_eq s.process_list i p back e (rw k.3 refl))

    yields-RanOn : (inc p.current_cpu_time_run == p.c) ≡ false → RanOn s yields
    unfolding yields back
    yields-RanOn more = record {
      inv = yields-Inv more;
      clock_from = omega arith;
      clock_to = omega arith;
      size = length-set s.process_list i _;
      work =
          ran-work last from spent s i p v on e 1 p.current_waiting_time p.finishing_time
            (dec p.quantum);
    }

    -- It runs on.
    still : Sim
    still = put s i (ran p p.status p.current_waiting_time p.finishing_time (dec p.quantum))

    still-RanOn : (inc p.current_cpu_time_run == p.c) ≡ false → RanOn s still
    unfolding still
    still-RanOn more = record {
      inv =
          goes_on last from spent s i p v on e still p.status p.current_waiting_time
            p.finishing_time (dec p.quantum) more
            (status_running last from spent s i p v on e small) refl on refl refl;
      clock_from = omega arith;
      clock_to = omega arith;
      size = length-set s.process_list i _;
      work =
          ran-work last from spent s i p v on e p.status p.current_waiting_time p.finishing_time
            (dec p.quantum);
    }

    step3_run : (t : Sim) × (step3_rr s ≡ some t) × RanOn s t
    unfolding step3_rr finish_at_cycle over yields back still
    step3_run = elim (Bool-cases (inc p.current_cpu_time_run == p.c)) [
      | inl done ↦ (over, simp (on, step3_rr, e, done), over-RanOn done)
      | inr more ↦ elim (Bool-cases (dec p.quantum == 0)) [
        | inl out ↦ (yields, simp (on, step3_rr, e, more, out), yields-RanOn more)
        | inr left ↦ (still, simp (on, step3_rr, e, more, left), still-RanOn more)
      ]
    ]

  -- From a state with the invariant in which a process is running, step 3 of round robin has a
  -- result with the invariant, in which one unit of CPU time less is owed and the clock is moved by
  -- at most one.
  pub step3_rr-RanOn :
      (s : Sim) (i : ℕ)
      → Inv last (λ j. from) spent s
      → s.running ≡ some i
      → length s.process_list < u32
      → s.current_cycle + 1 < u32
      → (t : Sim) × (step3_rr s ≡ some t) × RanOn s t
  step3_rr-RanOn s i v on small time =
      let (p, e) = lt-get_elem? s.process_list i (rw on at v.in_range) in
      step3_run s i p v on e small time
