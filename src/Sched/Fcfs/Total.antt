-- ===== src/Sched/Fcfs/Total.antt =====
-- The FCFS and SJF loops of scheduler.c as a whole: their cycles, counted by what is left to do.
use cs.Base.{
  Option, ℕ, zero, suc, ◌+◌, ◌-◌, ◌<◌, ◌≤◌, ◌≡◌, refl, ◌⊎◌, inl, inr, false, some, List, Bool-cases,
  ltb, ltb→lt, length, arith, ◌∙◌,
}
use cs.Sched.{u32, Process, Sim, seed_value}
use cs.Sched.Cycle.{finish_fcfs, redraw, step2, step3, step4, next_cycle, fcfs_cycle}
use cs.Sched.Rounds.{done, while_unfinished}
use cs.Sched.Fcfs.{terminated, work, Inv}
use cs.Sched.Fcfs.Step1.{step1-Inv}
use cs.Sched.Fcfs.Turns.{SameWork, SameWork-trans}
use cs.Sched.Fcfs.Step2.{Dispatched, step2-Dispatched}
use cs.Sched.Fcfs.Step3.{Ends, finish_fcfs-Ends, step3-Worked}
use cs.Sched.Fcfs.Step4.{step4-Inv}
use cs.Sched.Fcfs.Order.{KeepsOrder, same-Order}
use cs.Sched.Fcfs.Draws.{Draws, redraw-Draws}
use cs.Sched.Fcfs.Idle.{idle_waits}

-- What one cycle comes to: a unit of work is done, or the processor waits for an arrival.
pub record Advanced (last now : ℕ) (s s' : Sim) : Type 0 where
  pub inv : Inv last (λ j. now + 1) (λ j. now + 1) s'
  pub clock : s'.current_cycle ≡ now + 1
  pub size : length s'.process_list ≡ length s.process_list
  pub progress :
      (work s'.process_list + 1 ≡ work s.process_list)
      ⊎ ((work s'.process_list ≡ work s.process_list) × (now + 1 ≤ last))

module _ (last now : ℕ) (stop : ℕ → Process → Sim → Sim) (ends : Ends stop)
    (draw : Process → Sim → Option Sim) (draws : Draws draw) where
  middle :
      (s s2 : Sim)
      → Dispatched false last (now + 1) (λ j. now) s2
      → SameWork s s2
      → s.current_cycle ≡ now
      → length s.process_list < u32
      → terminated s2.process_list < length s2.process_list
      → (s3 : Sim) × (step3 stop s2 ≡ some s3)
        × Inv last (λ j. now + 1) (λ j. now) s3
        × (s3.current_cycle ≡ now)
        × (length s3.process_list ≡ length s.process_list)
        × KeepsOrder (λ j. now + 1) (λ j. now + 1) s2 s3
        × ((work s3.process_list + 1 ≡ work s.process_list)
            ⊎ ((work s3.process_list ≡ work s.process_list) × (now + 1 ≤ last)))
  unfolding step3
  middle s s2 d w t small more = elim d.busy [
    | inl (i, on) ↦
        let (s3, run, k) =
          step3-Worked last (now + 1) (λ j. now) stop s2 i ends d.inv on (omega (arith, w.size)) in
        (
          s3,
          run,
          k.inv,
          k.current_cycle ∙ w.current_cycle ∙ t,
          k.size ∙ w.size,
          k.order,
          inl (k.work ∙ w.work),
        )
    | inr (idle, empty) ↦ (
      s2,
      simp (idle, step3),
      d.inv,
      w.current_cycle ∙ t,
      w.size,
      λ at o. o,
      inr (w.work, idle_waits last (now + 1) (λ j. now) s2 d.inv idle empty more),
    )
  ]

  -- The part of the cycle behind the arrivals.
  pub record Rest (s1 s' : Sim) : Type 0 where
    pub s2 : Sim
    pub s3 : Sim
    pub s4 : Sim
    pub run2 : step2 false s1 ≡ some s2
    pub run3 : step3 stop s2 ≡ some s3
    pub run4 : step4 draw s3 ≡ some s4
    pub result : s' ≡ next_cycle s4
    pub order : KeepsOrder (λ j. now + 1) (λ j. now + 1) s1 s'

  advance :
      (s s3 s4 : Sim)
      → ((work s3.process_list + 1 ≡ work s.process_list)
          ⊎ ((work s3.process_list ≡ work s.process_list) × (now + 1 ≤ last)))
      → SameWork s3 s4
      → (work s4.process_list + 1 ≡ work s.process_list)
        ⊎ ((work s4.process_list ≡ work s.process_list) × (now + 1 ≤ last))
  advance s s3 s4 (inl e) w = inl (omega (arith, w.work, e))
  advance s s3 s4 (inr (e, h)) w = inr (omega (arith, w.work, e), h)

  pub behind_arrivals :
      (s s1 : Sim)
      → Inv last (λ j. now + 1) (λ j. now) s1
      → SameWork s s1
      → s.current_cycle ≡ now
      → now + 1 < u32
      → seed_value + length s.process_list < u32
      → s.finished < length s.process_list
      → (s' : Sim) × Rest s1 s' × Advanced last now s s'
  behind_arrivals s s1 v1 w1 t small few more =
      let (s2, run2, d2, w2, k2) = step2-Dispatched false last (now + 1) (λ j. now) s1 v1 in
      let w = SameWork-trans w1 w2 in
      let (s3, run3, v3, t3, z3, k3, progress) =
        middle s s2 d2 w t (omega arith) (omega (arith, w.finished, w.size, d2.inv.finished)) in
      let (s4, run4, v4, w4, k4) =
        step4-Inv last (now + 1) now draw draws s3 small (omega (arith, z3)) v3 in
      (
        next_cycle s4,
        record {
          s2 = s2;
          s3 = s3;
          s4 = s4;
          run2 = run2;
          run3 = run3;
          run4 = run4;
          result = refl;
          order = λ at o.
              same-Order at (λ j. now + 1) (λ j. now + 1) s4 (next_cycle s4) refl refl refl
                (λ j. omega arith) (k4 at (k3 at (k2 at o)));
        },
        record {
          inv = record {
            fine = v4.fine;
            valid = v4.valid;
            in_range = v4.in_range;
            finished = v4.finished;
          };
          clock = omega (arith, w4.current_cycle, t3);
          size = w4.size ∙ z3;
          progress = advance s s3 s4 progress w4;
        },
      )

-- A cycle that advances from the invariant at each time.
abbrev pub Advances : ℕ → (Sim → Option Sim) → Type 0
Advances last cycle =
    (now : ℕ) (s : Sim)
    → Inv last (λ j. now) (λ j. now) s
    → s.current_cycle ≡ now
    → now + 1 < u32
    → seed_value + length s.process_list < u32
    → s.finished < length s.process_list
    → (s' : Sim) × (cycle s ≡ some s') × Advanced last now s s'

-- A cycle of FCFS advances and keeps the order of arrival.
pub fcfs_cycle-ordered :
    (last : ℕ) (file : List ℕ) (now : ℕ) (s : Sim)
    → Inv last (λ j. now) (λ j. now) s
    → s.current_cycle ≡ now
    → now + 1 < u32
    → seed_value + length s.process_list < u32
    → s.finished < length s.process_list
    → (s' : Sim) × (fcfs_cycle file s ≡ some s')
      × Advanced last now s s'
      × KeepsOrder (λ j. now) (λ j. now + 1) s s'
unfolding fcfs_cycle
fcfs_cycle-ordered last file now s v t small few more =
    let (s1, run1, v1, w1, k1) = step1-Inv last now (λ j. now) s t v in
    let (s', r, a) =
      behind_arrivals last now finish_fcfs finish_fcfs-Ends (redraw file) (redraw-Draws file) s s1
        v1 w1 t small few more in
    (s', rw (run1, r.run2, r.run3, r.run4, r.result) refl, a, λ at o. r.order at (k1 at o))

pub fcfs_cycle-Advances : (last : ℕ) (file : List ℕ) → Advances last (fcfs_cycle file)
fcfs_cycle-Advances last file now s v t small few more =
    let (s', run, a, k) = fcfs_cycle-ordered last file now s v t small few more in (s', run, a)

pub not_lt : (a b : ℕ) → ltb a b ≡ false → b ≤ a
not_lt a b h = ground arith

-- The units of work and the cycles up to the last arrival bound the cycles to go.
abbrev pub fuel_left : ℕ → ℕ → Sim → ℕ
fuel_left last now s = work s.process_list + (last + 1 - now)

pub shrinks :
    (last now : ℕ) (s s1 : Sim)
    → ((work s1.process_list + 1 ≡ work s.process_list)
        ⊎ ((work s1.process_list ≡ work s.process_list) × (now + 1 ≤ last)))
    → (fuel_left last (now + 1) s1 < fuel_left last now s)
      × (fuel_left last (now + 1) s1 + (now + 1) ≤ fuel_left last now s + now)
shrinks last now s s1 (inl e) = (omega arith, omega arith)
shrinks last now s s1 (inr (e, h)) = (omega arith, omega arith)

module _ (last : ℕ) (cycle : Sim → Option Sim) (advances : Advances last cycle) where
  -- The loop ends by its test, and the bound on the clock is kept.
  pub loop_ends :
      (fuel now : ℕ) (s : Sim)
      → Inv last (λ j. now) (λ j. now) s
      → s.current_cycle ≡ now
      → seed_value + length s.process_list < u32
      → fuel_left last now s + now + 1 < u32
      → fuel_left last now s < fuel
      → (s' : Sim) × (now' : ℕ) × (while_unfinished fuel cycle s ≡ done s')
        × Inv last (λ j. now') (λ j. now') s'
        × (length s'.process_list ≤ s'.finished)
        × (length s'.process_list ≡ length s.process_list)
        × (s'.current_cycle ≡ now')
        × (now' ≤ fuel_left last now s + now)
  unfolding while_unfinished
  loop_ends zero now s v t few small enough = absurd (omega arith)
  loop_ends (suc fuel) now s v t few small enough =
      elim (Bool-cases (ltb s.finished (length s.process_list))) [
        | inr over ↦ (s, now, rw over, v, not_lt _ _ over, refl, t, omega arith)
        | inl more ↦
            let (s1, run, a) = advances now s v t (omega arith) few (ltb→lt _ _ more) in
            let (less, bound) = shrinks last now s s1 a.progress in
            let (s', now', run', v', over, size, clock, le) =
              loop_ends fuel (now + 1) s1 a.inv a.clock (rw a.size few)
                (omega (arith, bound, small)) (omega (arith, less, enough)) in
            (
              s',
              now',
              rw (more, run) run',
              v',
              over,
              size ∙ a.size,
              clock,
              omega (arith, le, bound),
            )
      ]
