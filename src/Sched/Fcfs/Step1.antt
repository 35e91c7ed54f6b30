-- ===== src/Sched/Fcfs/Step1.antt =====
-- Step 1 of the loops of scheduler.c: arrivals.
use cs.Base.{ℕ, ◌+◌, ◌<◌, ◌≡◌, refl, inl, inr, ◌&&◌, some, ◌==◌, Bool-cases, length, arith, ◌∙◌}
use cs.Sched.{Sim}
use cs.Sched.Cycle.{arrive, step1}
use cs.Sched.Fcfs.{Inv, Fine-change}
use cs.Sched.Fcfs.Turns.{
  SameWork, SameWork_self, SameWork-trans, from_at, from_at_zero, from_at_lt, from_at_self,
  from_at-le, from_at_grows,
}
use cs.Sched.Fcfs.Order.{KeepsOrder, same-Order}
use cs.Sched.Fcfs.Lists.{get_elem?-lt, lt-get_elem?, for_loop-inv}
use cs.Sched.Fcfs.Arrived.{
  not_yet, is_ready, stays, arrived, arrived-Inv, arrived-SameWork, arrived-Order,
}

module _ (last now : ℕ) (spent : ℕ → ℕ) where
  abbrev Turn : Sim → ℕ → Sim → Type 0
  Turn s0 i s =
      Inv last (from_at now i) spent s
      × SameWork s0 s
      × (s0.current_cycle ≡ now)
      × KeepsOrder (from_at now 0) (from_at now i) s0 s

  arrive-Turn :
      (s0 : Sim) (i : ℕ) (s : Sim)
      → i < length s0.process_list
      → Turn s0 i s
      → (s' : Sim) × (arrive i s ≡ some s') × Turn s0 (i + 1) s'
  unfolding arrive
  arrive-Turn s0 i s less (v, w, t, k) =
      let (p, e) = lt-get_elem? s.process_list i (omega (arith, w.size)) in
      elim (Bool-cases ((p.a == s.current_cycle) && (p.status == 0))) [
        | inl hit ↦
            let (unstarted, time) = is_ready s.current_cycle p.a p.status hit in
            (
              arrived last now spent i p s,
              rw (e, hit),
              (
                arrived-Inv last now spent i s p v e unstarted (time ∙ w.current_cycle ∙ t),
                SameWork-trans w (arrived-SameWork last now spent i s p e),
                t,
                λ at o.
                    arrived-Order last now spent i s p v e unstarted (time ∙ w.current_cycle ∙ t) at
                      (k at o),
              ),
            )
        | inr miss ↦ (
          s,
          rw (e, miss),
          (
            stays last now spent i s p v e (
                not_yet now p.a p.status (rw (w.current_cycle ∙ t) at miss)
                  (λ z. rw (from_at_self now i) at ((v.fine i p e).waits z))),
            w,
            t,
            λ at o.
                same-Order at (from_at now i) (from_at now (i + 1)) s s refl refl refl
                  (λ j. from_at_grows now i j) (k at o),
          ),
        )
      ]

  all_arrived :
      (n : ℕ) (s : Sim)
      → length s.process_list ≡ n
      → Inv last (from_at now n) spent s
      → Inv last (λ j. now + 1) spent s
  all_arrived n s size v = record {
    fine = λ j p e.
        let f = v.fine j p e in
        Fine-change f refl refl
          (λ z.
            rw (from_at_lt now n j (omega (arith, get_elem?-lt s.process_list j e))) at (f.waits z))
          f.blocked;
    valid = v.valid;
    in_range = v.in_range;
    finished = v.finished;
  }

  none_arrived : (s : Sim) → Inv last (λ j. now) spent s → Inv last (from_at now 0) spent s
  none_arrived s v = record {
    fine = λ j p e. rw (from_at_zero now j) (v.fine j p e);
    valid = v.valid;
    in_range = v.in_range;
    finished = v.finished;
  }

  -- From a state with the invariant in which the clock is `now` and no unstarted process arrives
  -- before `now`, step 1 has a result with the invariant in which no unstarted process arrives
  -- before `now` + 1, and keeps the order of arrival. The clock, the number of processes, the owed CPU time and the number of
  -- finished processes stay.
  pub step1-Inv :
      (s : Sim)
      → s.current_cycle ≡ now
      → Inv last (λ j. now) spent s
      → (s' : Sim) × (step1 s ≡ some s')
        × Inv last (λ j. now + 1) spent s'
        × SameWork s s'
        × KeepsOrder (λ j. now) (λ j. now + 1) s s'
  unfolding step1
  step1-Inv s t v =
      let n : ℕ = length s.process_list in
      let (s', run, (v', w, _, k)) =
        for_loop-inv (Turn s) n arrive (arrive-Turn s) n 0 s (omega arith)
          (none_arrived s v, SameWork_self s, t, λ at o. o) in
      (
        s',
        run,
        all_arrived n s' w.size v',
        w,
        λ at o.
            same-Order at (from_at now n) (λ j. now + 1) s' s' refl refl refl
              (λ j. from_at-le now n j)
              (k at (
                same-Order at (λ j. now) (from_at now 0) s s refl refl refl
                  (λ j. omega (arith, from_at_zero now j)) o)),
      )
