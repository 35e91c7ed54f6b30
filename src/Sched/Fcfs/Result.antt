-- ===== src/Sched/Fcfs/Result.antt =====
-- The FCFS loop of scheduler.c from the processes as they are read.
use cs.Base.{
  Option, ℕ, zero, suc, ◌+◌, ◌<◌, ◌≤◌, ◌≡◌, refl, true, false, none, some, List, [], ◌∷◌, ◌==◌,
  ==_iff, get_elem?, length, arith, sym, ◌∙◌,
}
use mathlib.Core.Option.{some-injective}
use mathlib.Core.Path.{subst}
use cs.Sched.{u32, Process, Sim, seed_value}
use cs.Sched.Rounds.{done, while_unfinished, fcfs}
use cs.Sched.Cycle.{fcfs_cycle}
use cs.Sched.Fcfs.{terminated, ended, work, Fine, Inv}
use cs.Sched.Fcfs.Lists.{terminated-le}
use cs.Sched.Fcfs.Total.{Advances, fcfs_cycle-Advances, loop_ends}

-- The processes as they are read from the input.
pub record Fresh (last : ℕ) (i : ℕ) (p : Process) : Type 0 where
  pub id : p.process_id ≡ i
  pub b_pos : 0 < p.b
  pub c_pos : 0 < p.c
  pub c_lt : p.c < u32
  pub a_le : p.a ≤ last
  pub unstarted : p.status ≡ 0
  pub run : p.current_cpu_time_run ≡ 0
  pub blocked : p.current_io_blocked_time ≡ 0
  pub burst : p.io_burst ≡ 0

abbrev pub AllFresh : ℕ → ℕ → List Process → Type 0
AllFresh last i [] = Unit {0}
AllFresh last i (p ∷ ps) = Fresh last i p × AllFresh last (i + 1) ps

pub AllFresh-at :
    (last i : ℕ) (ps : List Process) (j : ℕ) (p : Process)
    → AllFresh last i ps
    → get_elem? ps j ≡ some p
    → Fresh last (i + j) p
AllFresh-at last i [] j p f e = cc
AllFresh-at last i (q ∷ ps) zero p f e =
    subst (Fresh last (i + 0)) (some-injective q p e)
      (subst (λ k. Fresh last k q) (omega arith) f.0)
AllFresh-at last i (q ∷ ps) (suc j) p f e =
    subst (λ k. Fresh last k p) (omega arith) (AllFresh-at last (i + 1) ps j p f.1 e)

terminated_fresh : (last i : ℕ) (ps : List Process) → AllFresh last i ps → terminated ps ≡ 0
terminated_fresh last i [] f = refl
terminated_fresh last i (p ∷ ps) f =
    rw (f.0.unstarted, terminated_fresh last (i + 1) ps f.1) (omega arith)

-- The state in front of the loops.
unfoldable pub init : List Process → Sim
init ps = record {
  process_list = ps;
  ready = [];
  blocked = [];
  running = none;
  current_cycle = 0;
  finished = 0;
  current_burst = 0;
  cycles_blocked = 0;
}

Fresh-Fine : (last j : ℕ) (p : Process) → Fresh last (0 + j) p → Fine last 0 0 none [] j p
Fresh-Fine last j p g = record {
  id = omega (arith, g.id);
  b_pos = g.b_pos;
  c_pos = g.c_pos;
  c_lt = g.c_lt;
  a_le = g.a_le;
  queued = rw g.unstarted;
  runs = rw g.unstarted;
  waits = λ z. omega arith;
  run_le = omega (arith, g.run);
  done = rw (g.unstarted, g.run) (zero_ne p.c g.c_pos);
  blocked = omega (arith, g.blocked);
  burst = omega (arith, g.burst, g.blocked);
  known = omega (arith, g.unstarted);
}
  where
    zero_ne : (c : ℕ) → 0 < c → false ≡ (0 == c)
    zero_ne c h = ground arith

pub init-Inv :
    (last : ℕ) (ps : List Process) → AllFresh last 0 ps → Inv last (λ j. 0) (λ j. 0) (init ps)
unfolding init
init-Inv last ps f = record {
  fine = λ j p e. Fresh-Fine last j p (AllFresh-at last 0 ps j p f e);
  valid = tt;
  in_range = tt;
  finished = sym (terminated_fresh last 0 ps f);
}

-- A process that is done: terminated, with all its CPU time.
pub record IsDone (p : Process) : Type 0 where
  pub status : p.status ≡ 4
  pub run : p.current_cpu_time_run ≡ p.c

all_ended :
    (ps : List Process) (j : ℕ) (p : Process)
    → length ps ≤ terminated ps
    → get_elem? ps j ≡ some p
    → (p.status == 4) ≡ true
all_ended [] j p h e = cc
all_ended (q ∷ ps) zero p h e =
    rw (← some-injective q p e) (head_ended q (terminated ps) (length ps) (terminated-le ps) h)
  where
    head_ended : (q : Process) (t n : ℕ) → t ≤ n → suc n ≤ ended q + t → (q.status == 4) ≡ true
    head_ended q t n le h = ground arith
all_ended (q ∷ ps) (suc j) p h e = all_ended ps j p (tail_ended q (terminated ps) (length ps) h) e
  where
    tail_ended : (q : Process) (t n : ℕ) → suc n ≤ ended q + t → n ≤ t
    tail_ended q t n h = ground arith

-- The end of a loop: every process is terminated and has had exactly its CPU time, all are counted,
-- and the clock is at most `cycles`.
pub record Completed (ps : List Process) (cycles : ℕ) (s' : Sim) : Type 0 where
  pub all_done : (j : ℕ) (p : Process) → get_elem? s'.process_list j ≡ some p → IsDone p
  pub size : length s'.process_list ≡ length ps
  pub finished : s'.finished ≡ length ps
  pub clock : s'.current_cycle ≤ cycles

-- A state of the invariant in which all processes are counted as finished is such an end.
pub Inv-Completed :
    (last cycles : ℕ) (from spent : ℕ → ℕ) (ps : List Process) (s : Sim)
    → Inv last from spent s
    → length s.process_list ≤ s.finished
    → length s.process_list ≡ length ps
    → s.current_cycle ≤ cycles
    → Completed ps cycles s
Inv-Completed last cycles from spent ps s v over size clock = record {
  all_done = λ j p e.
      let g = v.fine j p e in
      let ended : (p.status == 4) ≡ true =
        all_ended s.process_list j p (omega (arith, over, v.finished)) e in
      record { status = (==_iff p.status 4).0 ended; run = (==_iff _ _).0 (sym g.done ∙ ended) };
  size = size;
  finished = omega (arith, over, v.finished, size, terminated-le s.process_list);
  clock = clock;
}

-- A loop of cycles that advance ends in that way.
pub loop-Completed :
    (last fuel : ℕ) (cycle : Sim → Option Sim) (ps : List Process)
    → Advances last cycle
    → AllFresh last 0 ps
    → seed_value + length ps < u32
    → work ps + last + 2 < u32
    → work ps + last + 1 < fuel
    → (s' : Sim) × (while_unfinished fuel cycle (init ps) ≡ done s')
      × Completed ps (work ps + last + 1) s'
unfolding init
loop-Completed last fuel cycle ps advances f few small enough =
    let (s', now', run, v, over, size, clock, le) =
      loop_ends last cycle advances fuel 0 (init ps) (init-Inv last ps f) refl few (omega arith)
        (omega arith) in
    (
      s',
      run,
      Inv-Completed last (work ps + last + 1) (λ j. now') (λ j. now') ps s' v over size
          (omega (arith, clock, le)),
    )

-- FCFS ends without undefined behaviour from any processes as main reads them (`AllFresh`:
-- numbered from 0, B and C positive, C below 2^32, arrivals up to `last`), where the numbers stay
-- below 2^32 and the fuel exceeds the owed CPU time + `last` + 1. Then every process is terminated
-- with exactly its CPU time, all are counted as finished, and the clock is at most the owed time +
-- `last` + 1.
pub fcfs-Completed :
    (last fuel : ℕ) (file : List ℕ) (ps : List Process)
    → AllFresh last 0 ps
    → seed_value + length ps < u32
    → work ps + last + 2 < u32
    → work ps + last + 1 < fuel
    → (s' : Sim) × (fcfs fuel file (init ps) ≡ done s') × Completed ps (work ps + last + 1) s'
unfolding fcfs
fcfs-Completed last fuel file ps =
    loop-Completed last fuel (fcfs_cycle file) ps (fcfs_cycle-Advances last file)
