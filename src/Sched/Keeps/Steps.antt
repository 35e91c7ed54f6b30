-- ===== src/Sched/Keeps/Steps.antt =====
-- The steps of the three loops of scheduler.c keep the numbers of the processes.
use cs.Base.{
  ℕ, ◌≡◌, refl, ◌∙◌, Bool, Option, none, some, List, ◌==◌, get_elem?, length, if◌then◌else◌,
}
use cs.Sched.{Process, Sim, dequeue, random_os, inc, dec, enqueue, put}
use cs.Sched.Cycle.{
  arrive, step1, start, step2, finish, finish_fcfs, finish_at_cycle, block, step3, step3_rr,
  tick_blocked, tick_ready, redraw, keep_burst, update, step4,
}
use cs.Sched.Keeps.{
  Keeps, SameNumbers, numbers, Results, put-SameNumbers, if-both, some-Results, bind-Results,
  elim-Results, Keeps-for_loop,
}

arrive-Keeps : (i : ℕ) → Keeps (arrive i)
unfolding arrive
arrive-Keeps i s = bind-Results s (get_elem? s.process_list i) _ (λ p at.
    some-Results s _ (if-both (SameNumbers s) _ _ _ (put-SameNumbers s i p _ at refl) refl))

pub step1-Keeps : Keeps step1
unfolding step1
step1-Keeps s = Keeps-for_loop (length s.process_list) 0 arrive arrive-Keeps s

start-Keeps : (round_robin : Bool) (i : ℕ) → Keeps (start round_robin i)
unfolding start
start-Keeps round_robin i s =
    bind-Results s (get_elem? s.process_list i) _
      (λ p at. some-Results s _ (put-SameNumbers s i p _ at refl))

pub step2-Keeps : (round_robin : Bool) → Keeps (step2 round_robin)
unfolding step2
step2-Keeps round_robin s =
    let s' : Sim = record s { ready = (dequeue s.ready).1 } in
    elim-Results s s.running _ (λ i. some s)
      (elim-Results s (dequeue s.ready).0 (some s') (λ i. start round_robin i s')
        (some-Results s s' refl) (λ i e. start-Keeps round_robin i s'))
      (λ i e. some-Results s s refl)

-- What is done with a process that has had its time.
abbrev pub KeepsDone : (ℕ → Process → Sim → Sim) → Type 0
KeepsDone done =
    (i : ℕ) (p q : Process) (s : Sim)
    → get_elem? s.process_list i ≡ some p
    → numbers q ≡ numbers p
    → SameNumbers s (done i q s)

pub finish_fcfs-KeepsDone : KeepsDone finish_fcfs
unfolding finish_fcfs finish
finish_fcfs-KeepsDone i p q s at e = put-SameNumbers s i p _ at e

pub finish_at_cycle-KeepsDone : KeepsDone finish_at_cycle
unfolding finish_at_cycle finish
finish_at_cycle-KeepsDone i p q s at e = put-SameNumbers s i p _ at e

pub step3-Keeps : (done : ℕ → Process → Sim → Sim) → KeepsDone done → Keeps (step3 done)
unfolding step3 block
step3-Keeps done k s = elim-Results s s.running (some s) _ (some-Results s s refl) (λ i running.
    bind-Results s (get_elem? s.process_list i) _ (λ p at.
      if-both (Results s) _ _ _ (some-Results s _ (k i p _ s at refl)) (
        if-both (Results s) _ none _ (λ s' e. cc)
          (some-Results s _ (
            if-both (SameNumbers s) _ _ _ (put-SameNumbers s i p _ at refl)
              (put-SameNumbers s i p _ at refl))))))

abbrev turn_of : ℕ → Process → Sim → Sim
turn_of i p s =
    let p' : Process = record p {
      current_cpu_time_run = inc p.current_cpu_time_run;
      quantum = dec p.quantum;
    } in
    let back : Sim = put s i (record p' { status = 1 }) in
    if p'.current_cpu_time_run == p'.c
    then record (finish_at_cycle i p' s) { current_cycle = inc s.current_cycle }
    else if p'.quantum == 0
    then record back { ready = enqueue s.ready (some i); running = none }
    else put s i p'

pub step3_rr-Keeps : Keeps step3_rr
unfolding step3_rr finish_at_cycle finish
step3_rr-Keeps s = elim-Results s s.running (some s) _ (some-Results s s refl) (λ i running.
    bind-Results s (get_elem? s.process_list i) _ (λ p at. some-Results s _ (turn i p at)))
  where
    turn :
        (i : ℕ) (p : Process) → get_elem? s.process_list i ≡ some p → SameNumbers s (turn_of i p s)
    turn i p at =
        let p' : Process = record p {
          current_cpu_time_run = inc p.current_cpu_time_run;
          quantum = dec p.quantum;
        } in
        let back : Sim = put s i (record p' { status = 1 }) in
        let waits : Sim = record back { ready = enqueue s.ready (some i); running = none } in
        if-both (SameNumbers s) (p'.current_cpu_time_run == p'.c)
          (record (finish_at_cycle i p' s) { current_cycle = inc s.current_cycle })
          (if p'.quantum == 0 then waits else put s i p')
          (finish_at_cycle-KeepsDone i p p' s at refl)
          (if-both (SameNumbers s) (p'.quantum == 0) waits (put s i p')
            (put-SameNumbers s i p _ at refl) (put-SameNumbers s i p p' at refl))

-- The draw of a burst behind the blocked cycles.
pub redraw-Keeps : (file : List ℕ) (p : Process) → Keeps (redraw file p)
unfolding redraw
redraw-Keeps file p s =
    elim-Results s s.running none _ (λ s' e. cc)
      (λ r running. bind-Results s (get_elem? s.process_list r) _ (λ q at.
        bind-Results s (random_os p.b p.process_id file) _
          (λ burst drawn. some-Results s _ (put-SameNumbers s r q _ at refl))))

pub keep_burst-Keeps : (p : Process) → Keeps (keep_burst p)
unfolding keep_burst
keep_burst-Keeps p s = some-Results s s refl

tick_blocked-SameNumbers :
    (i : ℕ) (p : Process) (s : Sim)
    → get_elem? s.process_list i ≡ some p
    → SameNumbers s (tick_blocked i p s)
unfolding tick_blocked
tick_blocked-SameNumbers i p s at =
    if-both (SameNumbers s) _ _ _ (put-SameNumbers s i p _ at refl)
      (put-SameNumbers s i p _ at refl)

update-Keeps :
    (draw : Process → Sim → Option Sim) (i : ℕ)
    → ((p : Process) → Keeps (draw p))
    → Keeps (update draw i)
unfolding update tick_ready
update-Keeps draw i k s = bind-Results s (get_elem? s.process_list i) _ (λ p at.
    let s1 : Sim = if p.status == 3 then tick_blocked i p s else s in
    let k1 : SameNumbers s s1 =
      if-both (SameNumbers s) _ _ _ (tick_blocked-SameNumbers i p s at) refl in
    bind-Results s (get_elem? s1.process_list i) _ (λ p1 at1.
      let s2 : Sim = if p1.status == 1 then tick_ready i p1 s1 else s1 in
      let k2 : SameNumbers s1 s2 =
        if-both (SameNumbers s1) _ _ _ (put-SameNumbers s1 i p1 _ at1 refl) refl in
      bind-Results s (get_elem? s2.process_list i) _ (λ p2 at2.
        if-both (Results s) _ _ _
          (bind-Results s (draw p2 s2) _
            (λ s3 drawn. some-Results s _ (k p2 s2 s3 drawn ∙ k2 ∙ k1)))
          (some-Results s s2 (k2 ∙ k1)))))

pub step4-Keeps :
    (draw : Process → Sim → Option Sim) → ((p : Process) → Keeps (draw p)) → Keeps (step4 draw)
unfolding step4
step4-Keeps draw k s =
    Keeps-for_loop (length s.process_list) 0 (update draw) (λ i. update-Keeps draw i k) s
