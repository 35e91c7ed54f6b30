-- ===== src/Sched/Fcfs/Update.antt =====
-- One round of step 4 of the FCFS and SJF loops of scheduler.c, at one process.
use cs.Base.{
  ◌≢◌, sym, ℕ, ◌+◌, ◌-◌, ◌%◌, ◌<◌, ◌≤◌, ◌≡◌, refl, inl, inr, true, false, Option, none, some, ◌==◌,
  Bool-cases, get_elem?, set, length, length-set, get_elem?-set_self, arith, ◌∙◌,
}
use cs.Sched.{u32, inc, dec, Process, Sim, put, seed_value}
use cs.Sched.Cycle.{tick_blocked, tick_ready, update}
use cs.Sched.Fcfs.{is, owed, Fine, Inv, Fine-change}
use cs.Sched.Fcfs.Lists.{get_elem?-lt, work-set, terminated-set_eq}
use cs.Sched.Fcfs.Order.{Served, KeepsOrder, write-Order}
use cs.Sched.Fcfs.Turns.{
  SameWork, SameWork_self, from_at, from_at-ne, from_at-next, from_at_self, from_at_grows,
}
use cs.Sched.Fcfs.Written.{put-Inv}
use cs.Sched.Fcfs.Draws.{Draws}

-- One more cycle in the blocked state.
burst_next :
    (burst io : ℕ)
    → burst ≡ (u32 - io) % u32
    → io + 1 < u32
    → (dec burst ≡ (u32 - inc io) % u32) × ((dec burst == 0) ≡ false) × (inc io ≡ io + 1)
burst_next burst io e small = (omega arith, ground arith, omega arith)

-- A process in another state than the last.
open_at : (status n : ℕ) → (status == n) ≡ true → (n == 4) ≡ false → status ≢ 4
open_at status n e ne = ground arith

-- Which of the three tests a status passes.
data Kind (status : ℕ) : Type 0 where
  three :
      status ≡ 3
      → (status == 3) ≡ true
      → (status == 1) ≡ false
      → (status == 2) ≡ false
      → Kind status
  one : (status == 3) ≡ false → (status == 1) ≡ true → (status == 2) ≡ false → Kind status
  two : (status == 3) ≡ false → (status == 1) ≡ false → (status == 2) ≡ true → Kind status
  other : (status == 3) ≡ false → (status == 1) ≡ false → (status == 2) ≡ false → Kind status

kind : (status : ℕ) → Kind status
kind status = elim (Bool-cases (status == 3)) [
  | inl e3 ↦ three (ground arith) e3 (ground arith) (ground arith)
  | inr n3 ↦ elim (Bool-cases (status == 1)) [
    | inl e1 ↦ one n3 e1 (ground arith)
    | inr n1 ↦ elim (Bool-cases (status == 2)) [ inl e2 ↦ two n3 n1 e2 | inr n2 ↦ other n3 n1 n2 ]
  ]
]

module _ (last from now : ℕ) (draw : Process → Sim → Option Sim) (draws : Draws draw) where
  module _ (i : ℕ) (s : Sim) (p : Process) (v : Inv last (λ j. from) (from_at now i) s)
      (e : get_elem? s.process_list i ≡ some p) (small : now + 1 < u32)
      (few : seed_value + length s.process_list < u32) where
    f : Fine last from (from_at now i i) s.running s.ready i p
    f = v.fine i p e

    waited : p.current_io_blocked_time ≤ now
    waited = rw (from_at_self now i) at f.blocked

    -- A write to the process that keeps its place.
    kept :
        (io burst waiting cpu : ℕ) (t : Sim)
        → io ≤ now + 1
        → burst ≡ (u32 - io) % u32
        → t.process_list
          ≡ set s.process_list i (record p {
            current_io_blocked_time = io;
            io_burst = burst;
            current_waiting_time = waiting;
            cpu_burst = cpu;
          })
        → t.running ≡ s.running
        → t.ready ≡ s.ready
        → t.finished ≡ s.finished
        → Inv last (λ j. from) (from_at now (i + 1)) t
    kept io burst waiting cpu t le eb el er eq ef =
        put-Inv t i _ v (get_elem?-lt s.process_list i e) el
          (λ j x ne g. Fine-change g (rw eq) (rw er) g.waits (rw (from_at-ne now i j ne) g.blocked))
          (record {
            id = f.id;
            b_pos = f.b_pos;
            c_pos = f.c_pos;
            c_lt = f.c_lt;
            a_le = f.a_le;
            queued = rw eq f.queued;
            runs = rw er f.runs;
            waits = f.waits;
            run_le = f.run_le;
            done = f.done;
            blocked = rw (from_at-next now i) le;
            burst = eb;
            known = f.known;
          })
          (rw eq v.valid) (rw er v.in_range)
          (ef ∙ v.finished ∙ terminated-set_eq s.process_list i p _ e refl)

    untouched : Inv last (λ j. from) (from_at now (i + 1)) s
    untouched = record {
      fine =
          λ j x at. let g = v.fine j x at in Fine-change g refl refl g.waits (later j x g.blocked);
      valid = v.valid;
      in_range = v.in_range;
      finished = v.finished;
    }
      where
        later :
            (j : ℕ) (x : Process)
            → x.current_io_blocked_time ≤ from_at now i j
            → x.current_io_blocked_time ≤ from_at now (i + 1) j
        later j x h = omega (arith, from_at_grows now i j)

    -- A write that leaves what is owed and whether the process is terminated.
    same_work :
        (w : Process) (t : Sim)
        → owed p ≡ owed w
        → t.process_list ≡ set s.process_list i w
        → t.current_cycle ≡ s.current_cycle
        → t.finished ≡ s.finished
        → SameWork s t
    same_work w t eo el ec ef = record {
      current_cycle = ec;
      size = rw el (length-set s.process_list i w);
      work = rw el (omega (arith, eo, work-set s.process_list i p w e));
      finished = ef;
    }

    -- Such a write also leaves the order in which they are served.
    same_order :
        (w : Process) (t : Sim)
        → p.status ≢ 4
        → w.a ≡ p.a
        → w.status ≡ p.status
        → w.current_cpu_time_run ≡ p.current_cpu_time_run
        → t.process_list ≡ set s.process_list i w
        → t.running ≡ s.running
        → t.ready ≡ s.ready
        → KeepsOrder (λ j. from) (λ j. from) s t
    same_order w t ne ea es ec el er eq at o =
        write-Order at (λ j. from) (λ j. from) s t i p w o e el ea ne (λ k _ r. rw er at r)
          (λ j q ej b h. o.turn j i q p ej e b (before h)) (rw eq o.line)
          (λ z. o.arrived i p e (sym es ∙ z)) (λ j. omega arith)
      where
        before : Served t.running i w → Served s.running i p
        before (inl h) = inl (rw ec at h)
        before (inr h) = inr (rw er at h)

    abbrev pub Updated : Type 0
    Updated =
        (t : Sim) × (update draw i s ≡ some t)
        × Inv last (λ j. from) (from_at now (i + 1)) t
        × SameWork s t
        × KeepsOrder (λ j. from) (λ j. from) s t

    at_put : (w : Process) → get_elem? (set s.process_list i w) i ≡ some w
    at_put w = get_elem?-set_self s.process_list i w (get_elem?-lt s.process_list i e)

    update_blocked :
        (p.status == 3) ≡ true → (p.status == 1) ≡ false → (p.status == 2) ≡ false → Updated
    unfolding update tick_blocked
    update_blocked e3 n1 n2 =
        let (eb, nz, eio) =
          burst_next p.io_burst p.current_io_blocked_time f.burst (omega (arith, waited)) in
        let w : Process = record p {
          io_burst = dec p.io_burst;
          current_io_blocked_time = inc p.current_io_blocked_time;
        } in
        (
          put s i w,
          simp (e, e3, nz, at_put w, n1, n2),
          kept (inc p.current_io_blocked_time) (dec p.io_burst) p.current_waiting_time p.cpu_burst
              (put s i w) (omega (arith, waited, eio)) eb refl refl refl refl,
          same_work w (put s i w) refl refl refl refl,
          same_order w (put s i w) (open_at p.status 3 e3 refl) refl refl refl refl refl refl,
        )

    update_ready :
        (p.status == 3) ≡ false → (p.status == 1) ≡ true → (p.status == 2) ≡ false → Updated
    unfolding update tick_ready
    update_ready n3 e1 n2 =
        let w : Process = record p { current_waiting_time = inc p.current_waiting_time } in
        (
          put s i w,
          simp (e, n3, e1, at_put w, n2),
          kept p.current_io_blocked_time p.io_burst (inc p.current_waiting_time) p.cpu_burst
              (put s i w) (omega (arith, waited)) f.burst refl refl refl refl,
          same_work w (put s i w) refl refl refl refl,
          same_order w (put s i w) (open_at p.status 1 e1 refl) refl refl refl refl refl refl,
        )

    running_lem :
        (burst : ℕ)
        → (p.status == 3) ≡ false
        → (p.status == 1) ≡ false
        → (p.status == 2) ≡ true
        → draw p s ≡ some (put s i (record p { cpu_burst = burst }))
        → update draw i s
          ≡ some (record s {
            process_list = set s.process_list i (record p { cpu_burst = burst });
            current_burst = dec s.current_burst;
          })
    unfolding update
    running_lem burst n3 n1 e2 drawn = simp (e, n3, n1, e2, drawn)

    update_running :
        s.running ≡ some i
        → (p.status == 3) ≡ false
        → (p.status == 1) ≡ false
        → (p.status == 2) ≡ true
        → Updated
    update_running on n3 n1 e2 =
        let (burst, drawn) = draws s i p e on f.b_pos f.id few in
        let w : Process = record p { cpu_burst = burst } in
        let t : Sim = record s {
          process_list = set s.process_list i w;
          current_burst = dec s.current_burst;
        } in
        (
          t,
          running_lem burst n3 n1 e2 drawn,
          kept p.current_io_blocked_time p.io_burst p.current_waiting_time burst t
              (omega (arith, waited)) f.burst refl refl refl refl,
          same_work w t refl refl refl refl,
          same_order w t (open_at p.status 2 e2 refl) refl refl refl refl refl refl,
        )

    update_other :
        (p.status == 3) ≡ false → (p.status == 1) ≡ false → (p.status == 2) ≡ false → Updated
    unfolding update
    update_other n3 n1 n2 = (s, simp (e, n3, n1, n2), untouched, SameWork_self s, λ at o. o)

    is_running : (p.status == 2) ≡ true → s.running ≡ some i
    is_running e2 = only (i) s.running (f.runs ∙ rw e2)
      where
        only : (i : ℕ) (r : Option ℕ) → is i r ≡ true → r ≡ some i
        only i none h = cc
        only i (some j) h = ground arith

    -- One round of step 4, on each branch.
    pub updated : Updated
    updated = elim (kind p.status) [
      | three _ e3 n1 n2 ↦ update_blocked e3 n1 n2
      | one n3 e1 n2 ↦ update_ready n3 e1 n2
      | two n3 n1 e2 ↦ update_running (is_running e2) n3 n1 e2
      | other n3 n1 n2 ↦ update_other n3 n1 n2
    ]
