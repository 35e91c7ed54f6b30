-- ===== src/Sched/Fcfs/Arrived.antt =====
-- The process that arrives in step 1 of the loops of scheduler.c.
use cs.Base.{
  ◌⊎◌, ℕ, ◌+◌, ◌<◌, ◌≤◌, ◌≡◌, refl, inl, inr, Bool, true, false, ◌&&◌, ◌||◌, Option, none, some,
  List, ◌==◌, ==_iff, Bool-cases, get_elem?, set, length-set, if◌then◌else◌, arith, sym, ◌∙◌,
}
use mathlib.Core.Option.{some-injective}
use cs.Sched.{Process, Sim, put, enqueue}
use cs.Sched.Fcfs.{count, InRange, is, terminated, Fine, Inv, Fine-change}
use cs.Sched.Fcfs.Turns.{SameWork, from_at, from_at-ne, from_at-next, from_at_grows}
use cs.Sched.Fcfs.Order.{Before, Order, KeepsOrder, InLine-enqueue, write-Order}
use cs.Sched.Fcfs.Lists.{
  Valid-count, get_elem?-lt, lt-get_elem?, set_all, terminated-set, work-set, count-enqueue_self,
  count-enqueue_ne, Valid-enqueue,
}

pub not_yet :
    (now a status : ℕ)
    → ((a == now) && (status == 0)) ≡ false
    → (status ≡ 0 → now ≤ a)
    → status ≡ 0
    → now + 1 ≤ a
not_yet now a status e w z = ground (arith, w z)

pub is_ready : (now a status : ℕ) → ((a == now) && (status == 0)) ≡ true → (status ≡ 0) × (a ≡ now)
is_ready now a status e = ground arith

in_bounds : (n i : ℕ) (r : Option ℕ) → InRange n r → is i r ≡ true → i < n
in_bounds n i none h e = cc
in_bounds n i (some j) h e = ground arith

unstarted_facts :
    (n : ℕ) (r d : Bool) (status : ℕ)
    → n ≡ (if status == 1 then 1 else 0)
    → r ≡ ((status == 2) || (status == 3))
    → (status == 4) ≡ d
    → status ≡ 0
    → (n ≡ 0) × (r ≡ false) × (d ≡ false)
unstarted_facts n r d status eq er ed z = ground arith

flat_terminated :
    (ps : List Process) (i : ℕ) (p : Process)
    → get_elem? ps i ≡ some p
    → p.status ≡ 0
    → terminated ps ≡ terminated (set ps i (record p { status = 1 }))
flat_terminated ps i p e z = ground (arith, terminated-set ps i p (record p { status = 1 }) e)

module _ (last now : ℕ) (spent : ℕ → ℕ) where
  pub stays :
      (i : ℕ) (s : Sim) (p : Process)
      → Inv last (from_at now i) spent s
      → get_elem? s.process_list i ≡ some p
      → (p.status ≡ 0 → now + 1 ≤ p.a)
      → Inv last (from_at now (i + 1)) spent s
  stays i s p v e late = record {
    fine = each;
    valid = v.valid;
    in_range = v.in_range;
    finished = v.finished;
  }
    where
      each :
          (j : ℕ) (x : Process)
          → get_elem? s.process_list j ≡ some x
          → Fine last (from_at now (i + 1) j) (spent j) s.running s.ready j x
      each j x e' = elim (Bool-cases (j == i)) [
        | inl hit ↦
            let index : j ≡ i = (==_iff j i).0 hit in
            let same : p ≡ x = some-injective p x (sym e ∙ (rw index at e')) in
            let f = v.fine j x e' in
            Fine-change f refl refl
              (λ z. rw (index, from_at-next now i) (rw (← same) (late (rw same z)))) f.blocked
        | inr miss ↦
            let f = v.fine j x e' in
            Fine-change f refl refl
              (λ z. rw (from_at-ne now i j (λ y. cc ((==_iff j i).1 y))) (f.waits z)) f.blocked
      ]

  abbrev pub arrived : ℕ → Process → Sim → Sim
  arrived i p s = record (put s i (record p { status = 1 })) { ready = enqueue s.ready (some i) }

  pub arrived-Inv :
      (i : ℕ) (s : Sim) (p : Process)
      → Inv last (from_at now i) spent s
      → get_elem? s.process_list i ≡ some p
      → p.status ≡ 0
      → p.a ≡ now
      → Inv last (from_at now (i + 1)) spent (arrived i p s)
  arrived-Inv i s p v e unstarted time =
      let f = v.fine i p e in
      let facts = unstarted_facts _ _ _ p.status f.queued f.runs f.done unstarted in
      let flat : terminated s.process_list
          ≡ terminated (set s.process_list i (record p { status = 1 })) =
        flat_terminated s.process_list i p e unstarted in
      record {
        fine =
            set_all (λ j x. Fine last (from_at now i j) (spent j) s.running s.ready j x)
              (λ j x.
                Fine last (from_at now (i + 1) j) (spent j) s.running (enqueue s.ready (some i)) j
                  x)
              s.process_list i (record p { status = 1 }) v.fine
              (λ j x ne g.
                Fine-change g (count-enqueue_ne j i s.ready ne) refl
                  (λ z. rw (from_at-ne now i j ne) (g.waits z)) g.blocked)
              (record {
                id = f.id;
                b_pos = f.b_pos;
                c_pos = f.c_pos;
                c_lt = f.c_lt;
                a_le = f.a_le;
                queued = count-enqueue_self i s.ready ∙ rw facts.0;
                runs = facts.1;
                waits = λ z. rw (from_at-next now i, time) (omega arith);
                run_le = f.run_le;
                done = sym facts.2;
                blocked = f.blocked;
                burst = f.burst;
                known = omega arith;
              });
        valid =
            rw (length-set s.process_list i (record p { status = 1 }))
              (Valid-enqueue _ i s.ready v.valid (get_elem?-lt s.process_list i e));
        in_range = rw (length-set s.process_list i (record p { status = 1 })) v.in_range;
        finished = v.finished ∙ flat;
      }

  pub arrived-SameWork :
      (i : ℕ) (s : Sim) (p : Process)
      → get_elem? s.process_list i ≡ some p
      → SameWork s (arrived i p s)
  arrived-SameWork i s p e = record {
    current_cycle = refl;
    size = length-set s.process_list i _;
    work = omega (arith, work-set s.process_list i p (record p { status = 1 }) e);
    finished = refl;
  }

  -- It stands behind all that are ready.
  last_in_line :
      (at : ℕ → ℕ) (i : ℕ) (s : Sim) (p : Process)
      → Inv last (from_at now i) spent s
      → Order at (from_at now i) s
      → get_elem? s.process_list i ≡ some p
      → p.a ≡ now
      → (x : ℕ) → 0 < count x s.ready
      → Before at x i
  last_in_line at i s p v o e time x c =
      let (y, ey) = lt-get_elem? s.process_list x (Valid-count _ x s.ready v.valid c) in
      let ready = is_one (count x s.ready) y.status (v.fine x y ey).queued c in
      earlier (at x) (at i) x i (o.arrived x y ey ready) (sym (o.named i p e) ∙ time)
    where
      is_one : (n status : ℕ) → n ≡ (if status == 1 then 1 else 0) → 0 < n → status ≡ 1
      is_one n status e h = ground arith

      earlier :
          (ax ai x i : ℕ) → ax < from_at now i x → ai ≡ now → (ax < ai) ⊎ ((ax ≡ ai) × (x < i))
      earlier ax ai x i h e = ground arith

  pub arrived-Order :
      (i : ℕ) (s : Sim) (p : Process)
      → Inv last (from_at now i) spent s
      → get_elem? s.process_list i ≡ some p
      → p.status ≡ 0
      → p.a ≡ now
      → KeepsOrder (from_at now i) (from_at now (i + 1)) s (arrived i p s)
  arrived-Order i s p v e unstarted time at o =
      write-Order at (from_at now i) (from_at now (i + 1)) s (arrived i p s) i p
        (record p { status = 1 }) o e refl refl (λ z. omega (arith, z, unstarted)) (λ k ne r. r)
        (λ j q eq b h. o.turn j i q p eq e b h)
        (InLine-enqueue at i s.ready o.line (last_in_line at i s p v o e time))
        (λ z. rw (from_at-next now i) (omega (arith, o.named i p e, time)))
        (λ j. from_at_grows now i j)
