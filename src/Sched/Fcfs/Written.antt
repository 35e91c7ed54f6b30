-- ===== src/Sched/Fcfs/Written.antt =====
-- The invariant of the loops of scheduler.c across a write to one process.
use cs.Base.{ℕ, ◌<◌, ◌≡◌, ◌≢◌, set, length, length-set}
use cs.Sched.{Process, Sim}
use cs.Sched.Fcfs.{Valid, InRange, terminated, Fine, Inv}
use cs.Sched.Fcfs.Lists.{set_all}

-- The invariant across a write to the process `i`, from what holds of it and of the others.
pub put-Inv :
    {last : ℕ} {from spent from' spent' : ℕ → ℕ} {s : Sim} (t : Sim) (i : ℕ) (p' : Process)
    → Inv last from spent s
    → i < length s.process_list
    → t.process_list ≡ set s.process_list i p'
    → ((j : ℕ) (x : Process)
        → j ≢ i
        → Fine last (from j) (spent j) s.running s.ready j x
        → Fine last (from' j) (spent' j) t.running t.ready j x)
    → Fine last (from' i) (spent' i) t.running t.ready i p'
    → Valid (length s.process_list) t.ready
    → InRange (length s.process_list) t.running
    → t.finished ≡ terminated (set s.process_list i p')
    → Inv last from' spent' t
put-Inv {last} {from} {spent} {from'} {spent'} {s} t i p' v less e keep new valid in_range
      finished =
    record {
      fine = rw e (
          set_all (λ j x. Fine last (from j) (spent j) s.running s.ready j x)
            (λ j x. Fine last (from' j) (spent' j) t.running t.ready j x) s.process_list i p' v.fine
            keep new);
      valid = rw (e, length-set s.process_list i p') valid;
      in_range = rw (e, length-set s.process_list i p') in_range;
      finished = rw e finished;
    }
