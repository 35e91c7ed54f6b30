-- ===== src/Sched/Sjf.antt =====
-- The SJF loop of scheduler.c: a cycle of FCFS with the ready queue sorted in front of the dispatch.
use cs.Base.{
  inl, inr, Bool-cases, ltb→lt, ◌≤◌, ◌≢◌, ◌⊎◌, suc, zero, ℕ, ◌+◌, ◌<◌, ◌≡◌, refl, Option, none,
  some, List, [], ◌∷◌, ◌==◌, ltb, length, if◌then◌else◌, arith, ◌∙◌,
}
use cs.Sched.{u32, Process, Queue, Sim, seed_value}
use cs.Sched.Cycle.{finish_at_cycle, keep_burst}
use cs.Sched.Rounds.{done, sort_ready, sjf_cycle, sjf}
use cs.Sched.Fcfs.{count, Valid, work, Fine-change, Inv}
use cs.Sched.Cycle.{step1}
use cs.Sched.Rounds.{fault, while_unfinished, sort_queue}
use cs.Sched.Fcfs.Served.{Reach, entry, after_cycle}
use cs.Sched.Fcfs.Result.{init-Inv, Inv-Completed}
use cs.Sched.Fcfs.Step1.{step1-Inv}
use cs.Sched.Fcfs.Step3.{finish_at_cycle-Ends}
use cs.Sched.Fcfs.Turns.{SameWork, SameWork-trans}
use cs.Sched.Fcfs.Draws.{keep_burst-Draws}
use cs.Sched.Fcfs.Total.{Advanced, behind_arrivals, not_lt, fuel_left, shrinks}
use cs.Sched.Fcfs.Result.{AllFresh, Completed, init}
use cs.Sched.Sort.{sort_queue-Ascending}
use cs.Sched.Sort.Passes.{SameElements, total}

-- The weights by which a sum counts a process, and the elements that do not belong in the queue.
abbrev counts : ℕ → Option ℕ → ℕ
counts i none = 0
counts i (some j) = if i == j then 1 else 0

abbrev strange : ℕ → Option ℕ → ℕ
strange n none = 1
strange n (some j) = if ltb j n then 0 else 1

count-total : (i : ℕ) (q : Queue) → count i q ≡ total (counts i) q
count-total i [] = refl
count-total i (none ∷ q) = omega (arith, count-total i q)
count-total i (some j ∷ q) = rw (count-total i q) refl

not_strange : (j n k : ℕ) → (if ltb j n then 0 else 1) + k ≡ 0 → (j < n) × (k ≡ 0)
not_strange j n k h = ground arith

Valid-total : (n : ℕ) (q : Queue) → Valid n q → total (strange n) q ≡ 0
Valid-total n [] v = refl
Valid-total n (none ∷ q) v = absurd v
Valid-total n (some j ∷ q) (h, v) = rw (Valid-total n q v) (known j n h)
  where
    known : (j n : ℕ) → j < n → (if ltb j n then 0 else 1) + 0 ≡ 0
    known j n h = ground arith

total-Valid : (n : ℕ) (q : Queue) → total (strange n) q ≡ 0 → Valid n q
total-Valid n [] e = tt
total-Valid n (none ∷ q) e = absurd (omega arith)
total-Valid n (some j ∷ q) e =
    let (less, rest) = not_strange j n (total (strange n) q) e in (less, total-Valid n q rest)

-- The invariant does not depend on the order of the ready queue.
sorted-Inv :
    (last : ℕ) (from spent : ℕ → ℕ) (s : Sim) (q : Queue)
    → SameElements s.ready q
    → Inv last from spent s
    → Inv last from spent (record s { ready = q })
sorted-Inv last from spent s q same v = record {
  fine = λ i p e.
      let g = v.fine i p e in
      Fine-change g (rw (count-total i q, count-total i s.ready) (same (counts i))) refl g.waits
        g.blocked;
  valid = total-Valid (length s.process_list) q (
      same (strange (length s.process_list)) ∙ Valid-total (length s.process_list) s.ready v.valid);
  in_range = v.in_range;
  finished = v.finished;
}

sort_ready-Inv :
    (last : ℕ) (from spent : ℕ → ℕ) (s : Sim)
    → Inv last from spent s
    → s.ready ≢ []
    → (s' : Sim) × (sort_ready s ≡ some s') × Inv last from spent s' × SameWork s s'
unfolding sort_ready
sort_ready-Inv last from spent s v some_one =
    let (q, run, up, same) = sort_queue-Ascending s.process_list s.ready v.valid some_one in
    (
      record s { ready = q },
      rw run refl,
      sorted-Inv last from spent s q same v,
      record { current_cycle = refl; size = refl; work = refl; finished = refl },
    )

sort_ready-empty : (s : Sim) → s.ready ≡ [] → sort_ready s ≡ none
unfolding sort_ready sort_queue
sort_ready-empty s e = rw e refl

empty_or_not : (q : Queue) → (q ≡ []) ⊎ (q ≢ [])
empty_or_not [] = inl refl
empty_or_not (x ∷ q) = inr (λ e. cc)

-- A state in which sortQueue gets the empty queue: no process is ready behind the arrivals.
pub record EmptySort (s : Sim) : Type 0 where
  pub arrived : Sim
  pub arrives : step1 s ≡ some arrived
  pub empty : arrived.ready ≡ []

module _ (last now : ℕ) (s : Sim) (v : Inv last (λ j. now) (λ j. now) s) (t : s.current_cycle ≡ now)
    (small : now + 1 < u32) (few : seed_value + length s.process_list < u32)
    (more : s.finished < length s.process_list) where
  sorted_cycle :
      (s1 : Sim)
      → step1 s ≡ some s1
      → Inv last (λ j. now + 1) (λ j. now) s1
      → SameWork s s1
      → s1.ready ≢ []
      → (s' : Sim) × (sjf_cycle s ≡ some s') × Advanced last now s s'
  unfolding sjf_cycle
  sorted_cycle s1 run1 v1 w1 some_one =
      let (s1', sorted, v1', w1') = sort_ready-Inv last (λ j. now + 1) (λ j. now) s1 v1 some_one in
      let (s', r, a) =
        behind_arrivals last now finish_at_cycle finish_at_cycle-Ends keep_burst keep_burst-Draws s
          s1' v1' (SameWork-trans w1 w1') t small few more in
      (s', rw (run1, sorted, r.run2, r.run3, r.run4, r.result) refl, a)

  empty_cycle : (s1 : Sim) → step1 s ≡ some s1 → s1.ready ≡ [] → sjf_cycle s ≡ none
  unfolding sjf_cycle
  empty_cycle s1 run1 e = rw (run1, sort_ready-empty s1 e) refl

  -- A cycle advances, or sorts the empty queue.
  sjf_cycle-Outcome :
      ((s' : Sim) × (sjf_cycle s ≡ some s') × Advanced last now s s')
      ⊎ ((sjf_cycle s ≡ none) × EmptySort s)
  sjf_cycle-Outcome =
      let (s1, run1, v1, w1, k1) = step1-Inv last now (λ j. now) s t v in
      elim (empty_or_not s1.ready) [
        | inl e ↦ inr (empty_cycle s1 run1 e, record { arrived = s1; arrives = run1; empty = e })
        | inr some_one ↦ inl (sorted_cycle s1 run1 v1 w1 some_one)
      ]

-- The loop stops in a state that it comes to, where it sorts the empty queue.
pub record Stuck (s0 : Sim) : Type 0 where
  pub state : Sim
  pub reached : Reach sjf_cycle s0 state
  pub unfinished : state.finished < length state.process_list
  pub sort : EmptySort state

-- What the loop comes to by its test.
record Finished (last now bound : ℕ) (s s' : Sim) : Type 0 where
  moment : ℕ
  inv : Inv last (λ j. moment) (λ j. moment) s'
  over : length s'.process_list ≤ s'.finished
  size : length s'.process_list ≡ length s.process_list
  clock : s'.current_cycle ≤ bound

loop_Outcome :
    (last : ℕ) (s0 : Sim) (fuel now : ℕ) (s : Sim)
    → Reach sjf_cycle s0 s
    → Inv last (λ j. now) (λ j. now) s
    → s.current_cycle ≡ now
    → seed_value + length s.process_list < u32
    → fuel_left last now s + now + 1 < u32
    → fuel_left last now s < fuel
    → ((s' : Sim) × (while_unfinished fuel sjf_cycle s ≡ done s')
        × Finished last now (fuel_left last now s + now) s s')
      ⊎ ((while_unfinished fuel sjf_cycle s ≡ fault) × Stuck s0)
unfolding while_unfinished
loop_Outcome last s0 zero now s r v t few small enough = absurd (omega arith)
loop_Outcome last s0 (suc fuel) now s r v t few small enough =
    elim (Bool-cases (ltb s.finished (length s.process_list))) [
      | inr over ↦ inl (
        s,
        rw over refl,
        record {
          moment = now;
          inv = v;
          over = not_lt _ _ over;
          size = refl;
          clock = omega (arith, t);
        },
      )
      | inl more ↦
          let less_size = ltb→lt _ _ more in
          elim (sjf_cycle-Outcome last now s v t (omega arith) few less_size) [
            | inr (none_left, e) ↦ inr (
              rw (more, none_left) refl,
              record { state = s; reached = r; unfinished = less_size; sort = e },
            )
            | inl (s1, run, a) ↦
                let (less, bound) = shrinks last now s s1 a.progress in
                elim (loop_Outcome last s0 fuel (now + 1) s1 (after_cycle s s1 r less_size run)
                  a.inv a.clock (rw a.size few) (omega (arith, bound, small))
                  (omega (arith, less, enough))) [
                    | inr (stops, e) ↦ inr (rw (more, run) stops, e)
                    | inl (s', run', f) ↦ inl (
                      s',
                      rw (more, run) run',
                      record {
                        moment = f.moment;
                        inv = f.inv;
                        over = f.over;
                        size = f.size ∙ a.size;
                        clock = omega (arith, f.clock, bound);
                      },
                    )
                  ]
          ]
    ]

-- The loop of SJF, started on any processes as main reads them (`AllFresh`: numbered from 0, B and
-- C positive, C below 2^32, arrivals up to `last`), where the numbers stay below 2^32 and the fuel
-- exceeds the owed CPU time + `last` + 1, ends in one of two ways. Either every process is
-- terminated with exactly its CPU time, all are counted as finished, and the clock is at most the
-- owed time + `last` + 1; or it is undefined behaviour, in a state that its cycles lead to, in
-- which processes are left and none is ready behind the arrivals, so that sortQueue gets the empty
-- queue.
pub sjf-Outcome :
    (last fuel : ℕ) (ps : List Process)
    → AllFresh last 0 ps
    → seed_value + length ps < u32
    → work ps + last + 2 < u32
    → work ps + last + 1 < fuel
    → ((s' : Sim) × (sjf fuel (init ps) ≡ done s') × Completed ps (work ps + last + 1) s')
      ⊎ ((sjf fuel (init ps) ≡ fault) × Stuck (init ps))
unfolding sjf init
sjf-Outcome last fuel ps f few small enough =
    elim (loop_Outcome last (init ps) fuel 0 (init ps) entry (init-Inv last ps f) refl few
      (omega arith) (omega arith)) [
        | inr stuck ↦ inr stuck
        | inl (s', run, r) ↦ inl (
          s',
          run,
          Inv-Completed last (work ps + last + 1) (λ j. r.moment) (λ j. r.moment) ps s' r.inv r.over
              r.size (omega (arith, r.clock)),
        )
      ]
