-- ===== src/Sched/Fcfs/Served.antt =====
-- The states of the FCFS loop of scheduler.c, and whom it has served in them.
use cs.Base.{
  ◌==◌, ◌||◌, false, Option, ℕ, ◌+◌, ◌<◌, ◌≤◌, ◌≡◌, refl, ◌⊎◌, inl, inr, none, some, List, ==_iff,
  get_elem?, length, arith, sym, ◌∙◌,
}
use mathlib.Core.Option.{some-injective}
use mathlib.Core.Path.{subst}
use cs.Sched.{u32, Process, Sim, seed_value}
use cs.Sched.Cycle.{fcfs_cycle}
use cs.Sched.Fcfs.{is, work, Inv}
use cs.Sched.Fcfs.Order.{Before, Order}
use cs.Sched.Fcfs.Total.{fcfs_cycle-ordered, fuel_left, shrinks}
use cs.Sched.Fcfs.Result.{Fresh, AllFresh, AllFresh-at, IsDone, init, init-Inv}

-- The states in front of the test of a loop: the first one, and after each cycle.
pub data Reach (cycle : Sim → Option Sim) (s : Sim) : Sim → Type 0 where
  entry : Reach cycle s s
  after_cycle :
      (s1 s2 : Sim)
      → Reach cycle s s1
      → s1.finished < length s1.process_list
      → cycle s1 ≡ some s2
      → Reach cycle s s2

module _ (last : ℕ) (file : List ℕ) (at : ℕ → ℕ) where
  -- What holds in each of them.
  record InOrder (bound : ℕ) (s : Sim) : Type 0 where
    now : ℕ
    inv : Inv last (λ j. now) (λ j. now) s
    order : Order at (λ j. now) s
    clock : s.current_cycle ≡ now
    few : seed_value + length s.process_list < u32
    small : fuel_left last now s + now + 1 ≤ bound

  InOrder-cycle :
      (bound : ℕ) (s s' : Sim)
      → bound < u32
      → InOrder bound s
      → s.finished < length s.process_list
      → fcfs_cycle file s ≡ some s'
      → InOrder bound s'
  InOrder-cycle bound s s' lt o more e =
      let (s1, run, a, k) =
        fcfs_cycle-ordered last file o.now s o.inv o.clock (omega (arith, o.small)) o.few more in
      let (less, le) = shrinks last o.now s s1 a.progress in
      subst (InOrder bound) (some-injective s1 s' (sym run ∙ e)) (record {
        now = o.now + 1;
        inv = a.inv;
        order = k at o.order;
        clock = a.clock;
        few = rw a.size o.few;
        small = omega (arith, le, o.small);
      })

  Reach-InOrder :
      (bound : ℕ) (s s' : Sim)
      → bound < u32
      → InOrder bound s
      → Reach (fcfs_cycle file) s s'
      → InOrder bound s'
  Reach-InOrder bound s s' lt o entry = o
  Reach-InOrder bound s s' lt o (after_cycle s1 s2 r more e) =
      InOrder-cycle bound s1 s' lt (Reach-InOrder bound s s1 lt o r) more e

-- The arrival times of the input.
abbrev arrival : List Process → ℕ → ℕ
arrival ps j = elim (get_elem? ps j) [ none ↦ 0 | some p ↦ p.a ]

init-Order :
    (last : ℕ) (ps : List Process) → AllFresh last 0 ps → Order (arrival ps) (λ j. 0) (init ps)
unfolding init
init-Order last ps f = record {
  named = λ j p e. rw (arrival, e) refl;
  turn = λ j k p q ep eq b h. absurd (unserved k q (AllFresh-at last 0 ps k q f eq) h);
  line = tt;
  arrived =
      λ j p e z. let g = AllFresh-at last 0 ps j p f e in absurd (omega (arith, z, g.unstarted));
}
  where
    unserved :
        (k : ℕ) (q : Process)
        → Fresh last (0 + k) q
        → (0 < q.current_cpu_time_run) ⊎ (none ≡ some k)
        → ⊥
    unserved k q g (inl h) = omega (arith, h, g.run)
    unserved k q g (inr h) = cc

-- The states that FCFS comes to from the processes as they are read.
reached :
    (last : ℕ) (file : List ℕ) (ps : List Process) (s : Sim)
    → AllFresh last 0 ps
    → seed_value + length ps < u32
    → work ps + last + 2 < u32
    → Reach (fcfs_cycle file) (init ps) s
    → InOrder last file (arrival ps) (work ps + last + 2) s
unfolding init
reached last file ps s f few small r =
    Reach-InOrder last file (arrival ps) (work ps + last + 2) (init ps) s small
      (record {
        now = 0;
        inv = init-Inv last ps f;
        order = init-Order last ps f;
        clock = refl;
        few = few;
        small = omega arith;
      })
      r

-- A process that FCFS marks as blocked is the running one: in every state in front of the test of
-- the loop, from processes as main reads them (`AllFresh`: numbered from 0, B and C positive, C
-- below 2^32, arrivals up to `last`) where the numbers stay below 2^32, a process with the status
-- of a blocked one has the processor, so at most one process is blocked at a time, and it has not
-- had all its CPU time.
pub Reach-running :
    (last : ℕ) (file : List ℕ) (ps : List Process) (s : Sim) (i : ℕ) (p : Process)
    → AllFresh last 0 ps
    → seed_value + length ps < u32
    → work ps + last + 2 < u32
    → Reach (fcfs_cycle file) (init ps) s
    → get_elem? s.process_list i ≡ some p
    → p.status ≡ 3
    → (s.running ≡ some i) × (p.current_cpu_time_run < p.c)
Reach-running last file ps s i p f few small r e blocked =
    let o = reached last file ps s f few small r in
    let g = o.inv.fine i p e in
    (
      only i p.status s.running g.runs blocked,
      left p.status p.current_cpu_time_run p.c g.done g.run_le blocked,
    )
  where
    nobody : (status : ℕ) → false ≡ ((status == 2) || (status == 3)) → status ≡ 3 → ⊥
    nobody status e b = ground arith

    only :
        (i status : ℕ) (r : Option ℕ)
        → is i r ≡ ((status == 2) || (status == 3))
        → status ≡ 3
        → r ≡ some i
    only i status none e b = absurd (nobody status e b)
    only i status (some j) e b = ground arith

    left : (status run c : ℕ) → (status == 4) ≡ (run == c) → run ≤ c → status ≡ 3 → run < c
    left status run c e le b = ground arith

-- A process that blocks does not give the processor away in FCFS, which the documentation and the
-- sample input input-2 want it to: in every state in front of the test of the loop, from processes
-- as main reads them (`AllFresh`: numbered from 0, B and C positive, C below 2^32, arrivals up to
-- `last`) where the numbers stay below 2^32, if a process has had any CPU time, then every process
-- that arrives before it, or together with it at a lower number, is terminated and has had exactly
-- its CPU time, however often it was marked as blocked on the way.
pub Reach-IsDone :
    (last : ℕ) (file : List ℕ) (ps : List Process) (s : Sim) (j k : ℕ) (p q : Process)
    → AllFresh last 0 ps
    → seed_value + length ps < u32
    → work ps + last + 2 < u32
    → Reach (fcfs_cycle file) (init ps) s
    → get_elem? s.process_list j ≡ some p
    → get_elem? s.process_list k ≡ some q
    → (p.a < q.a) ⊎ ((p.a ≡ q.a) × (j < k))
    → 0 < q.current_cpu_time_run
    → IsDone p
Reach-IsDone last file ps s j k p q f few small r ej ek b served =
    let o = reached last file ps s f few small r in
    let g = o.inv.fine j p ej in
    let ended = o.order.turn j k p q ej ek (named o.order) (inl served) in
    record { status = ended; run = (==_iff _ _).0 (sym g.done ∙ (==_iff p.status 4).1 ended) }
  where
    named : {from : ℕ → ℕ} → Order (arrival ps) from s → Before (arrival ps) j k
    named o = rw (← o.named j p ej, ← o.named k q ek) b
