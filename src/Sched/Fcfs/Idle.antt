-- ===== src/Sched/Fcfs/Idle.antt =====
-- When the processor of the loops of scheduler.c has nothing to do.
use cs.Base.{
  ℕ, suc, ◌<◌, ◌≤◌, ◌≡◌, refl, inl, inr, Bool, true, false, ◌||◌, none, some, List, [], ◌∷◌, ◌==◌,
  Bool-cases, get_elem?, length, if◌then◌else◌, arith,
}
use cs.Sched.{Process, Sim}
use cs.Sched.Fcfs.{count, is, terminated, ended, Inv}

unfinished :
    (ps : List Process)
    → terminated ps < length ps
    → (i : ℕ) × (p : Process) × (get_elem? ps i ≡ some p) × ((p.status == 4) ≡ false)
unfinished [] h = absurd (omega arith)
unfinished (p ∷ ps) h = elim (Bool-cases (p.status == 4)) [
  | inl ended ↦ let (i, q, e, n) = unfinished ps (shorter ended h) in (suc i, q, e, n)
  | inr other ↦ (0, p, refl, other)
]
  where
    shorter :
        (p.status == 4) ≡ true → terminated (p ∷ ps) < length (p ∷ ps) → terminated ps < length ps
    shorter e h = ground arith

only_unstarted :
    (n status : ℕ) (r : Bool)
    → n ≡ (if status == 1 then 1 else 0)
    → n ≡ 0
    → r ≡ ((status == 2) || (status == 3))
    → r ≡ false
    → status ≤ 4
    → (status == 4) ≡ false
    → status ≡ 0
only_unstarted n status r en zn er off le ne = ground arith

-- An idle processor waits for a process that arrives later.
pub idle_waits :
    (last from : ℕ) (spent : ℕ → ℕ) (s : Sim)
    → Inv last (λ j. from) spent s
    → s.running ≡ none
    → s.ready ≡ []
    → terminated s.process_list < length s.process_list
    → from ≤ last
idle_waits last from spent s v idle empty more =
    let (i, p, e, n) = unfinished s.process_list more in
    let f = v.fine i p e in
    let unstarted =
      only_unstarted (count i s.ready) p.status (is i s.running) f.queued (rw empty) f.runs
        (rw idle) f.known n in
    omega (arith, f.waits unstarted, f.a_le)
