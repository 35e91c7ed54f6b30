-- ===== src/Sched/Fcfs/Started.antt =====
-- The process that step 2 of the loops of scheduler.c gives the processor to.
use cs.Base.{
  ◌≤◌, ◌||◌, ==_iff, Bool-cases, Bool, ℕ, suc, ◌<◌, ◌≡◌, refl, ◌⊎◌, inl, inr, none, some, [], ◌∷◌,
  ◌==◌, get_elem?, set, length, length-set, if◌then◌else◌, arith, sym, ◌∙◌, false,
}
use cs.Sched.{Process, Queue, Sim}
use cs.Sched.Fcfs.{count, is, ended, Inv, Fine-change}
use cs.Sched.Fcfs.Lists.{
  get_elem?-lt, work-set, terminated-set_eq, count_head, count_tail, Valid-head, is-ne, is_self,
}
use mathlib.Core.Option.{some-injective}
use mathlib.Core.Path.{subst}
use cs.Sched.Fcfs.Order.{
  Before, Before-irreflexive, Before-asym, Behind-at, Order, KeepsOrder, write-Order, same-Order,
}
use cs.Sched.Fcfs.Turns.{SameWork}
use cs.Sched.Fcfs.Written.{put-Inv}

-- A queued process is ready.
queued_status : (n status : ℕ) → suc n ≡ (if status == 1 then 1 else 0) → (status ≡ 1) × (n ≡ 0)
queued_status n status e = ground arith

ended_one : (p : Process) → p.status ≡ 1 → ended p ≡ 0
ended_one p e = ground arith

module _ (rr : Bool) (last from : ℕ) (spent : ℕ → ℕ) where
  abbrev pub dispatched : Process → Process
  dispatched p = record p { status = 2; quantum = if rr then 2 else p.quantum }

  abbrev pub started : ℕ → Process → Queue → Sim → Sim
  started i p rest s = record s {
    process_list = set s.process_list i (dispatched p);
    ready = rest;
    running = some i;
    current_burst = p.cpu_burst;
  }

  -- The head of the queue is taken off it and is the running process.
  pub started-Inv :
      (i : ℕ) (s : Sim) (p : Process) (rest : Queue)
      → Inv last (λ j. from) spent s
      → s.running ≡ none
      → s.ready ≡ some i ∷ rest
      → get_elem? s.process_list i ≡ some p
      → Inv last (λ j. from) spent (started i p rest s)
  started-Inv i s p rest v idle q e =
      let f = v.fine i p e in
      let (at_one, none_left) =
        queued_status (count i rest) p.status (count_head i s.ready rest q ∙ f.queued) in
      put-Inv (started i p rest s) i (dispatched p) v (get_elem?-lt s.process_list i e) refl
        (λ j x ne g.
          Fine-change g (count_tail j i s.ready rest q ne) (is-ne j i ne ∙ sym (rw idle)) g.waits
            g.blocked)
        (record {
          id = f.id;
          b_pos = f.b_pos;
          c_pos = f.c_pos;
          c_lt = f.c_lt;
          a_le = f.a_le;
          queued = none_left;
          runs = is_self i;
          waits = λ z. absurd (omega arith);
          run_le = f.run_le;
          done = (rw at_one at f.done);
          blocked = f.blocked;
          burst = f.burst;
          known = omega arith;
        })
        (Valid-head (length s.process_list) i s.ready rest q v.valid).1
        (get_elem?-lt s.process_list i e)
        (v.finished ∙ terminated-set_eq s.process_list i p (dispatched p) e (ended_one p at_one))

  pub started-SameWork :
      (i : ℕ) (s : Sim) (p : Process) (rest : Queue)
      → get_elem? s.process_list i ≡ some p
      → SameWork s (started i p rest s)
  started-SameWork i s p rest e = record {
    current_cycle = refl;
    size = length-set s.process_list i _;
    work = omega (arith, work-set s.process_list i p (dispatched p) e);
    finished = refl;
  }

  -- Whoever arrives before the head of the queue is terminated.
  head_first :
      (at : ℕ → ℕ) (i : ℕ) (s : Sim) (p : Process) (rest : Queue)
      → Inv last (λ j. from) spent s
      → Order at (λ j. from) s
      → s.running ≡ none
      → s.ready ≡ some i ∷ rest
      → get_elem? s.process_list i ≡ some p
      → (j : ℕ) (q : Process) → get_elem? s.process_list j ≡ some q
      → Before at j i
      → q.status ≡ 4
  head_first at i s p rest v o idle ready e j q ej b =
      let f = v.fine i p e in
      let g = v.fine j q ej in
      let (at_one, none_left) =
        queued_status (count i rest) p.status (count_head i s.ready rest ready ∙ f.queued) in
      only_four q.status (count j s.ready) (is j s.running) g.queued g.runs g.known (rw idle refl)
        (λ c. Before-asym at i j (behind c) b)
        (λ z. not_later (at j) (at i) (o.arrived i p e at_one) (g.waits z) (o.named j q ej) b)
    where
      behind : 0 < count j s.ready → Before at i j
      behind c = elim (Bool-cases (j == i)) [
        | inl hit ↦
            absurd (Before-irreflexive at i (subst (λ k. Before at k i) ((==_iff j i).0 hit) b))
        | inr miss ↦
            Behind-at at i j rest (rw ready at o.line).0 (
              omega
                (arith, c, count_tail j i s.ready rest ready (λ same. cc ((==_iff j i).1 same))))
      ]

      not_later :
          (aj ai : ℕ) → ai < from → from ≤ q.a → q.a ≡ aj → (aj < ai) ⊎ ((aj ≡ ai) × (j < i)) → ⊥
      not_later aj ai h le e b = ground arith

      only_four :
          (status n : ℕ) (r : Bool)
          → n ≡ (if status == 1 then 1 else 0)
          → r ≡ ((status == 2) || (status == 3))
          → status ≤ 4
          → r ≡ false
          → (0 < n → ⊥)
          → (status ≡ 0 → ⊥)
          → status ≡ 4
      only_four status n r en er le off no_one no_zero = elim (Bool-cases (status == 0)) [
        | inl zero_ ↦ absurd (no_zero ((==_iff status 0).0 zero_))
        | inr some_ ↦ elim (Bool-cases (status == 1)) [
          | inl one ↦ absurd (no_one (ground arith))
          | inr two ↦ ground arith
        ]
      ]

  pub started-Order :
      (i : ℕ) (s : Sim) (p : Process) (rest : Queue)
      → Inv last (λ j. from) spent s
      → s.running ≡ none
      → s.ready ≡ some i ∷ rest
      → get_elem? s.process_list i ≡ some p
      → KeepsOrder (λ j. from) (λ j. from) s (started i p rest s)
  started-Order i s p rest v idle ready e at o =
      let (at_one, none_left) =
        queued_status (count i rest) p.status
          (count_head i s.ready rest ready ∙ (v.fine i p e).queued) in
      write-Order at (λ j. from) (λ j. from) s (started i p rest s) i p (dispatched p) o e refl refl
        (λ z. omega (arith, z, at_one)) (λ k ne r. absurd (ne (sym (some-injective i k r))))
        (λ j q ej b h. head_first at i s p rest v o idle ready e j q ej b) (rw ready at o.line).1
        (λ z. absurd (omega arith)) (λ j. omega arith)

  pub emptied-Order :
      (s : Sim) → s.ready ≡ [] → KeepsOrder (λ j. from) (λ j. from) s (record s { ready = [] })
  emptied-Order s e at o =
      same-Order at (λ j. from) (λ j. from) s (record s { ready = [] }) refl refl (sym e)
        (λ j. omega arith) o

  pub emptied :
      (s : Sim)
      → Inv last (λ j. from) spent s
      → s.ready ≡ []
      → Inv last (λ j. from) spent (record s { ready = [] })
  emptied s v e = record {
    fine = λ j p at. let f = v.fine j p at in Fine-change f (rw e) refl f.waits f.blocked;
    valid = tt;
    in_range = v.in_range;
    finished = v.finished;
  }
