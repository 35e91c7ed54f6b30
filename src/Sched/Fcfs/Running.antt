-- ===== src/Sched/Fcfs/Running.antt =====
-- The running process in step 3 of the loops of scheduler.c: with one more unit it goes on or leaves.
use cs.Base.{
  refl, inr, ◌≢◌, ℕ, ◌+◌, ◌<◌, ◌≤◌, ◌≡◌, ◌⊎◌, Bool, true, false, ◌||◌, none, some, ◌==◌, get_elem?,
  set, if◌then◌else◌, arith, sym, ◌∙◌,
}
use cs.Sched.{u32, inc, Process, Sim}
use cs.Sched.Fcfs.{count, is, ended, work, Fine, Inv, Fine-change}
use cs.Sched.Fcfs.Lists.{get_elem?-lt, terminated-set, work-set, terminated-set_eq, is-ne, is_self}
use cs.Sched.Fcfs.Order.{KeepsOrder, write-Order}
use cs.Sched.Fcfs.Written.{put-Inv}

-- The process with one more unit, whatever else is counted.
abbrev pub ran : Process → ℕ → ℕ → ℕ → ℕ → Process
ran p status waiting finishing quantum = record p {
  quantum = quantum;
  current_cpu_time_run = inc p.current_cpu_time_run;
  status = status;
  current_waiting_time = waiting;
  finishing_time = finishing;
}

-- Arithmetic of a running process.
running_facts :
    (n run c status : ℕ) (r : Bool)
    → n ≡ (if status == 1 then 1 else 0)
    → r ≡ ((status == 2) || (status == 3))
    → r ≡ true
    → (status == 4) ≡ (run == c)
    → run ≤ c
    → c < u32
    → (n ≡ 0) × (run < c) × (inc run ≡ run + 1) × ((status == 4) ≡ false)
running_facts n run c status r eq er on ed le lt = ground arith

module _ (last from : ℕ) (spent : ℕ → ℕ) where
  module _ (s : Sim) (i : ℕ) (p : Process) (v : Inv last (λ j. from) spent s)
      (on : s.running ≡ some i) (e : get_elem? s.process_list i ≡ some p) where
    f : Fine last from (spent i) s.running s.ready i p
    f = v.fine i p e

    pub i_runs : is i s.running ≡ true
    i_runs = rw on (is_self i)

    pub facts :
        (count i s.ready ≡ 0)
        × (p.current_cpu_time_run < p.c)
        × (inc p.current_cpu_time_run ≡ p.current_cpu_time_run + 1)
        × ((p.status == 4) ≡ false)
    facts =
        running_facts (count i s.ready) p.current_cpu_time_run p.c p.status (is i s.running)
          f.queued f.runs i_runs f.done f.run_le f.c_lt

    -- It runs on, marked as running or as blocked.
    pub goes_on :
        (t : Sim) (status waiting finishing quantum : ℕ)
        → (inc p.current_cpu_time_run == p.c) ≡ false
        → (status ≡ 2) ⊎ (status ≡ 3)
        → t.process_list ≡ set s.process_list i (ran p status waiting finishing quantum)
        → t.running ≡ some i
        → t.ready ≡ s.ready
        → t.finished ≡ s.finished
        → Inv last (λ j. from) spent t
    goes_on t status waiting finishing quantum more st el er eq ef =
        put-Inv t i (ran p status waiting finishing quantum) v (get_elem?-lt s.process_list i e) el
          (λ j x ne g. Fine-change g (rw eq) (rw (er, on)) g.waits g.blocked)
          (record {
            id = f.id;
            b_pos = f.b_pos;
            c_pos = f.c_pos;
            c_lt = f.c_lt;
            a_le = f.a_le;
            queued = rw eq (not_one (count i s.ready) status facts.0 st);
            runs = rw er (is_self i ∙ two_or_three status st);
            waits = λ z. absurd (omega arith);
            run_le = omega (arith, facts);
            done = not_four status st ∙ sym more;
            blocked = f.blocked;
            burst = f.burst;
            known = omega arith;
          })
          (rw eq v.valid) (rw er (get_elem?-lt s.process_list i e))
          (ef
            ∙ v.finished
            ∙ terminated-set_eq s.process_list i p (ran p status waiting finishing quantum) e
                (rw (facts.3, not_four status st)))
      where
        not_one :
            (n status : ℕ)
            → n ≡ 0
            → (status ≡ 2) ⊎ (status ≡ 3)
            → n ≡ (if status == 1 then 1 else 0)
        not_one n status z st = ground arith

        two_or_three :
            (status : ℕ) → (status ≡ 2) ⊎ (status ≡ 3) → true ≡ ((status == 2) || (status == 3))
        two_or_three status st = ground arith

        not_four : (status : ℕ) → (status ≡ 2) ⊎ (status ≡ 3) → (status == 4) ≡ false
        not_four status st = ground arith

    -- It is done and leaves the processor.
    pub leaves :
        (t : Sim) (waiting finishing quantum : ℕ)
        → (inc p.current_cpu_time_run == p.c) ≡ true
        → t.process_list ≡ set s.process_list i (ran p 4 waiting finishing quantum)
        → t.running ≡ none
        → t.ready ≡ s.ready
        → t.finished ≡ s.finished + 1
        → Inv last (λ j. from) spent t
    leaves t waiting finishing quantum done el er eq ef =
        put-Inv t i (ran p 4 waiting finishing quantum) v (get_elem?-lt s.process_list i e) el
          (λ j x ne g. Fine-change g (rw eq) (rw (er, on) (sym (is-ne j i ne))) g.waits g.blocked)
          (record {
            id = f.id;
            b_pos = f.b_pos;
            c_pos = f.c_pos;
            c_lt = f.c_lt;
            a_le = f.a_le;
            queued = rw eq facts.0;
            runs = rw er;
            waits = λ z. absurd (omega arith);
            run_le = omega (arith, facts);
            done = sym done;
            blocked = f.blocked;
            burst = f.burst;
            known = omega arith;
          })
          (rw eq v.valid) (rw er tt)
          (omega (
            arith,
            ef,
            v.finished,
            not_ended,
            terminated-set s.process_list i p (ran p 4 waiting finishing quantum) e,
          ))
      where
        not_ended : ended p ≡ 0
        not_ended = rw facts.3

    -- Nobody else is served.
    pub ran-Order :
        (t : Sim) (status waiting finishing quantum : ℕ)
        → status ≢ 1
        → t.process_list ≡ set s.process_list i (ran p status waiting finishing quantum)
        → t.ready ≡ s.ready
        → ((k : ℕ) → t.running ≡ some k → s.running ≡ some k)
        → KeepsOrder (λ j. from) (λ j. from) s t
    ran-Order t status waiting finishing quantum ne el eq er at o =
        write-Order at (λ j. from) (λ j. from) s t i p (ran p status waiting finishing quantum) o e
          el refl (not_four p.status facts.3) (λ k _ r. er k r)
          (λ j q ej b h. o.turn j i q p ej e b (inr on)) (rw eq o.line) (λ z. absurd (ne z))
          (λ j. omega arith)
      where
        not_four : (status : ℕ) → (status == 4) ≡ false → status ≢ 4
        not_four status h = ground arith

    pub ran-work :
        (status waiting finishing quantum : ℕ)
        → work (set s.process_list i (ran p status waiting finishing quantum)) + 1
          ≡ work s.process_list
    ran-work status waiting finishing quantum =
        omega (arith, facts, work-set s.process_list i p (ran p status waiting finishing quantum) e)
