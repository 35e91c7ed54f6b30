-- ===== src/Sched/Rr.antt =====
-- The round robin loop of scheduler.c, on processes that all arrive at cycle 0.
pub mod Quantum
use cs.Base.{
  ℕ, zero, suc, ◌+◌, ◌*◌, ◌<◌, ◌≤◌, ◌≡◌, refl, ◌⊎◌, inl, inr, true, false, Option, none, some, List,
  Bool-cases, ltb, ltb→lt, get_elem?, length, arith, ◌∙◌,
}
use cs.Sched.{u32, Process, Sim, seed_value}
use cs.Sched.Cycle.{step1, step2, step3_rr, step4, keep_burst, next_cycle}
use cs.Sched.Rounds.{done, while_unfinished, rr_cycle, rr}
use cs.Sched.Fcfs.{work, Fine-change, terminated, Inv}
use cs.Sched.Fcfs.Step1.{step1-Inv}
use cs.Sched.Fcfs.Step2.{Dispatched, step2-Dispatched}
use cs.Sched.Fcfs.Step4.{step4-Inv}
use cs.Sched.Fcfs.Turns.{SameWork, SameWork-trans}
use cs.Sched.Fcfs.Draws.{keep_burst-Draws}
use cs.Sched.Fcfs.Idle.{idle_waits}
use cs.Sched.Fcfs.Total.{not_lt}
use cs.Sched.Fcfs.Result.{AllFresh, Completed, init, init-Inv, Inv-Completed}
use cs.Sched.Rr.Quantum.{RanOn, step3_rr-RanOn}

-- Where all have arrived, the invariant holds at each later time.
later-Inv :
    (now later : ℕ) (s t : Sim)
    → 0 < now
    → now ≤ later
    → t.process_list ≡ s.process_list
    → t.running ≡ s.running
    → t.ready ≡ s.ready
    → t.finished ≡ s.finished
    → Inv 0 (λ j. now) (λ j. now) s
    → Inv 0 (λ j. later) (λ j. later) t
later-Inv now later s t pos le el er eq ef v = record {
  fine = λ j p e.
      let g = v.fine j p (rw el at e) in
      Fine-change g (rw eq) (rw er) (λ z. absurd (omega (arith, g.waits z, g.a_le)))
        (omega (arith, g.blocked));
  valid = rw (el, eq) v.valid;
  in_range = rw (el, er) v.in_range;
  finished = rw (el, ef) v.finished;
}

-- One cycle: a unit of work is done, and the clock moves by one or two.
record Moved (now : ℕ) (s s' : Sim) : Type 0 where
  moment : ℕ
  inv : Inv 0 (λ j. moment) (λ j. moment) s'
  clock : s'.current_cycle ≡ moment
  up : moment ≤ now + 2
  size : length s'.process_list ≡ length s.process_list
  work : work s'.process_list + 1 ≡ work s.process_list

module _ (now : ℕ) where
  -- A process has the processor after the dispatch.
  has_one :
      (s2 : Sim)
      → Dispatched true 0 (now + 1) (λ j. now) s2
      → terminated s2.process_list < length s2.process_list
      → (i : ℕ) × (s2.running ≡ some i)
  has_one s2 d more = elim d.busy [
    | inl on ↦ on
    | inr (idle, empty) ↦
        absurd (omega (arith, idle_waits 0 (now + 1) (λ j. now) s2 d.inv idle empty more))
  ]

  cycle_run :
      (s s1 s2 s3 s4 : Sim)
      → step1 s ≡ some s1
      → step2 true s1 ≡ some s2
      → step3_rr s2 ≡ some s3
      → step4 keep_burst s3 ≡ some s4
      → rr_cycle s ≡ some (next_cycle s4)
  unfolding rr_cycle
  cycle_run s s1 s2 s3 s4 run1 run2 run3 run4 = rw (run1, run2, run3, run4) refl

  moved :
      (s s3 s4 : Sim)
      → Inv 0 (λ j. now + 1) (λ j. now + 1) s4
      → SameWork s3 s4
      → now ≤ s3.current_cycle
      → s3.current_cycle ≤ now + 1
      → now + 2 < u32
      → length s3.process_list ≡ length s.process_list
      → work s3.process_list + 1 ≡ work s.process_list
      → Moved now s (next_cycle s4)
  moved s s3 s4 v4 w4 from to small size less = record {
    moment = s3.current_cycle + 1;
    inv =
        later-Inv (now + 1) (s3.current_cycle + 1) s4 (next_cycle s4) (omega arith) (omega arith)
          refl refl refl refl v4;
    clock = omega (arith, w4.current_cycle);
    up = omega arith;
    size = w4.size ∙ size;
    work = omega (arith, w4.work, less);
  }

  cycle-Moved :
      (s : Sim)
      → Inv 0 (λ j. now) (λ j. now) s
      → s.current_cycle ≡ now
      → now + 2 < u32
      → seed_value + length s.process_list < u32
      → s.finished < length s.process_list
      → (s' : Sim) × (rr_cycle s ≡ some s') × Moved now s s'
  cycle-Moved s v t small few more =
      let (s1, run1, v1, w1, k1) = step1-Inv 0 now (λ j. now) s t v in
      let (s2, run2, d, w2, k2) = step2-Dispatched true 0 (now + 1) (λ j. now) s1 v1 in
      let w = SameWork-trans w1 w2 in
      let (i, on) = has_one s2 d (omega (arith, w.finished, w.size, d.inv.finished)) in
      let (s3, run3, r) =
        step3_rr-RanOn 0 (now + 1) (λ j. now) s2 i d.inv on (omega (arith, w.size))
          (omega (arith, w.current_cycle, t)) in
      let (s4, run4, v4, w4, k4) =
        step4-Inv 0 (now + 1) now keep_burst keep_burst-Draws s3 (omega arith)
          (omega (arith, r.size, w.size)) r.inv in
      (
        next_cycle s4,
        cycle_run s s1 s2 s3 s4 run1 run2 run3 run4,
        moved s s3 s4 v4 w4 (omega (arith, r.clock_from, w.current_cycle, t))
            (omega (arith, r.clock_to, w.current_cycle, t)) small (r.size ∙ w.size)
            (r.work ∙ w.work),
      )

-- What the loop comes to from a state of `left` units of work.
record Ended (left now : ℕ) (s s' : Sim) : Type 0 where
  now' : ℕ
  inv : Inv 0 (λ j. now') (λ j. now') s'
  over : length s'.process_list ≤ s'.finished
  size : length s'.process_list ≡ length s.process_list
  clock : s'.current_cycle ≤ left + left + now

loop_ends :
    (fuel now : ℕ) (s : Sim)
    → Inv 0 (λ j. now) (λ j. now) s
    → s.current_cycle ≡ now
    → seed_value + length s.process_list < u32
    → work s.process_list + work s.process_list + now + 2 < u32
    → work s.process_list < fuel
    → (s' : Sim) × (while_unfinished fuel rr_cycle s ≡ done s')
      × Ended (work s.process_list) now s s'
unfolding while_unfinished
loop_ends zero now s v t few small enough = absurd (omega arith)
loop_ends (suc fuel) now s v t few small enough =
    elim (Bool-cases (ltb s.finished (length s.process_list))) [
      | inr over ↦ (
        s,
        rw over refl,
        record { now' = now; inv = v; over = not_lt _ _ over; size = refl; clock = omega arith },
      )
      | inl more ↦
          let (s1, run, a) = cycle-Moved now s v t (omega arith) few (ltb→lt _ _ more) in
          let (s', run', r) =
            loop_ends fuel a.moment s1 a.inv a.clock (rw a.size few)
              (omega (arith, a.work, a.up, small)) (omega (arith, a.work, enough)) in
          (
            s',
            rw (more, run) run',
            record {
              now' = r.now';
              inv = r.inv;
              over = r.over;
              size = r.size ∙ a.size;
              clock = omega (arith, r.clock, a.work, a.up);
            },
          )
    ]

-- The loop of round robin, started on processes as main reads them (numbered from 0, B and C
-- positive, C below 2^32) that all arrive at cycle 0, ends without undefined behaviour, where the
-- numbers stay below 2^32 and the fuel exceeds the owed CPU time. Then every process is terminated
-- with exactly its CPU time, all are counted as finished, and the clock is at most twice the owed
-- time.
pub rr-Completed :
    (fuel : ℕ) (ps : List Process)
    → AllFresh 0 0 ps
    → seed_value + length ps < u32
    → work ps + work ps + 2 < u32
    → work ps < fuel
    → (s' : Sim) × (rr fuel (init ps) ≡ done s') × Completed ps (work ps + work ps) s'
unfolding rr init
rr-Completed fuel ps f few small enough =
    let (s', run, r) = loop_ends fuel 0 (init ps) (init-Inv 0 ps f) refl few (omega arith) enough in
    (
      s',
      run,
      Inv-Completed 0 (work ps + work ps) (λ j. r.now') (λ j. r.now') ps s' r.inv r.over r.size
          (omega (arith, r.clock)),
    )
