-- ===== src/Sched/Fcfs/Step2.antt =====
-- Step 2 of the loops of scheduler.c: dispatch.
use cs.Base.{Bool, ℕ, ◌≡◌, refl, ◌⊎◌, inl, inr, none, some, [], ◌∷◌, Option-cases, length}
use cs.Sched.{Queue, Sim}
use cs.Sched.Cycle.{step2}
use cs.Sched.Fcfs.{Inv}
use cs.Sched.Fcfs.Lists.{lt-get_elem?, Valid-head}
use cs.Sched.Fcfs.Order.{KeepsOrder}
use cs.Sched.Fcfs.Turns.{SameWork, SameWork_self}
use cs.Sched.Fcfs.Started.{
  started, started-Inv, started-SameWork, started-Order, emptied, emptied-Order,
}

module _ (rr : Bool) (last from : ℕ) (spent : ℕ → ℕ) where
  -- What step 2 comes to: a process has the processor, or none is ready.
  pub record Dispatched (s' : Sim) : Type 0 where
    pub inv : Inv last (λ j. from) spent s'
    pub busy : ((i : ℕ) × (s'.running ≡ some i)) ⊎ ((s'.running ≡ none) × (s'.ready ≡ []))

  dispatch :
      (s : Sim) (q : Queue)
      → Inv last (λ j. from) spent s
      → s.running ≡ none
      → s.ready ≡ q
      → (s' : Sim) × (step2 rr s ≡ some s')
        × Dispatched s'
        × SameWork s s'
        × KeepsOrder (λ j. from) (λ j. from) s s'
  unfolding step2
  dispatch s [] v idle e = (
    record s { ready = [] },
    simp (idle, step2, e),
    record { inv = emptied rr last from spent s v e; busy = inr (idle, refl) },
    record { current_cycle = refl; size = refl; work = refl; finished = refl },
    emptied-Order rr last from spent s e,
  )
  dispatch s (none ∷ rest) v idle e = absurd (rw e at v.valid)
  dispatch s (some i ∷ rest) v idle e =
      let (p, at_i) =
        lt-get_elem? s.process_list i
          (Valid-head (length s.process_list) i s.ready rest e v.valid).0 in
      (
        started rr last from spent i p rest s,
        simp (idle, step2, e, at_i),
        record {
          inv = started-Inv rr last from spent i s p rest v idle e at_i;
          busy = inl (i, refl);
        },
        started-SameWork rr last from spent i s p rest at_i,
        started-Order rr last from spent i s p rest v idle e at_i,
      )

  -- From a state with the invariant, step 2 has a result with the invariant in which a
  -- process is running, or none is and the ready queue is empty; the order of arrival is kept. The clock, the number of
  -- processes, the owed CPU time and the number of finished processes stay.
  pub step2-Dispatched :
      (s : Sim)
      → Inv last (λ j. from) spent s
      → (s' : Sim) × (step2 rr s ≡ some s')
        × Dispatched s'
        × SameWork s s'
        × KeepsOrder (λ j. from) (λ j. from) s s'
  unfolding step2
  step2-Dispatched s v = elim (Option-cases s.running) [
    | inl idle ↦ dispatch s s.ready v idle refl
    | inr (i, e) ↦
        (s, simp (e, step2), record { inv = v; busy = inl (i, e) }, SameWork_self s, λ at o. o)
  ]
