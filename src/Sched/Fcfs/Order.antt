-- ===== src/Sched/Fcfs/Order.antt =====
-- The order in which the FCFS loop of scheduler.c serves the processes.
use cs.Base.{
  ℕ, ◌+◌, ◌<◌, ◌≤◌, ◌≡◌, refl, ◌≢◌, ◌⊎◌, inl, inr, false, Option, none, some, [], ◌∷◌, ◌++◌, ◌==◌,
  ==_iff, Bool-cases, get_elem?, set, if◌then◌else◌, arith, sym, ◌∙◌,
}
use mathlib.Core.Path.{subst}
use cs.Sched.{Process, Queue, Sim}
use cs.Sched.Fcfs.{count}
use cs.Sched.Fcfs.Lists.{set_all}

-- `j` arrives before `k`, by the arrival times `at`; of two that arrive together, the one of the
-- lower number does.
abbrev pub Before : (ℕ → ℕ) → ℕ → ℕ → Type 0
Before at j k = (at j < at k) ⊎ ((at j ≡ at k) × (j < k))

pub Before-irreflexive : (at : ℕ → ℕ) (i : ℕ) → Before at i i → ⊥
Before-irreflexive at i (inl h) = omega arith
Before-irreflexive at i (inr h) = omega (arith, h)

pub Before-asym : (at : ℕ → ℕ) (i j : ℕ) → Before at i j → Before at j i → ⊥
Before-asym at i j (inl h) (inl k) = omega arith
Before-asym at i j (inl h) (inr k) = omega (arith, k)
Before-asym at i j (inr h) (inl k) = omega (arith, h)
Before-asym at i j (inr h) (inr k) = omega (arith, h, k)

-- All of the queue are behind `i`, and the queue stands in the order of arrival.
abbrev pub Behind : (ℕ → ℕ) → ℕ → Queue → Type 0
Behind at i [] = Unit {0}
Behind at i (none ∷ q) = Behind at i q
Behind at i (some j ∷ q) = Before at i j × Behind at i q

abbrev pub InLine : (ℕ → ℕ) → Queue → Type 0
InLine at [] = Unit {0}
InLine at (none ∷ q) = InLine at q
InLine at (some j ∷ q) = Behind at j q × InLine at q

pub Behind-at : (at : ℕ → ℕ) (i j : ℕ) (q : Queue) → Behind at i q → 0 < count j q → Before at i j
Behind-at at i j [] b h = absurd (omega arith)
Behind-at at i j (none ∷ q) b h = Behind-at at i j q b h
Behind-at at i j (some k ∷ q) (b, rest) h = elim (Bool-cases (j == k)) [
  | inl hit ↦ subst (Before at i) (sym ((==_iff j k).0 hit)) b
  | inr miss ↦ Behind-at at i j q rest (in_rest j k (count j q) miss h)
]
  where
    in_rest : (j k n : ℕ) → (j == k) ≡ false → 0 < (if j == k then 1 else 0) + n → 0 < n
    in_rest j k n miss h = ground arith

Behind-enqueue :
    (at : ℕ → ℕ) (x i : ℕ) (q : Queue)
    → Behind at x q
    → Before at x i
    → Behind at x (q ++ some i ∷ [])
Behind-enqueue at x i [] b h = (h, tt)
Behind-enqueue at x i (none ∷ q) b h = Behind-enqueue at x i q b h
Behind-enqueue at x i (some j ∷ q) b h = (b.0, Behind-enqueue at x i q b.1 h)

pub InLine-enqueue :
    (at : ℕ → ℕ) (i : ℕ) (q : Queue)
    → InLine at q
    → ((x : ℕ) → 0 < count x q → Before at x i)
    → InLine at (q ++ some i ∷ [])
InLine-enqueue at i [] l h = (tt, tt)
InLine-enqueue at i (none ∷ q) l h = InLine-enqueue at i q l h
InLine-enqueue at i (some j ∷ q) (b, l) h = (
  Behind-enqueue at j i q b (h j (counted j j q refl)),
  InLine-enqueue at i q l (λ x c. h x (more x j q c)),
)
  where
    counted : (x j : ℕ) (q : Queue) → x ≡ j → 0 < (if x == j then 1 else 0) + count x q
    counted x j q e = ground arith

    more : (x j : ℕ) (q : Queue) → 0 < count x q → 0 < (if x == j then 1 else 0) + count x q
    more x j q c = ground arith

-- The process `k` has had CPU time, or the processor.
abbrev pub Served : Option ℕ → ℕ → Process → Type 0
Served running k q = (0 < q.current_cpu_time_run) ⊎ (running ≡ some k)

-- Whoever was served finds all terminated that arrive before; the ready queue stands in the order
-- of arrival; the ready ones have arrived.
pub record Order (at from : ℕ → ℕ) (s : Sim) : Type 0 where
  pub named : (j : ℕ) (p : Process) → get_elem? s.process_list j ≡ some p → p.a ≡ at j
  pub turn :
      (j k : ℕ) (p q : Process)
      → get_elem? s.process_list j ≡ some p
      → get_elem? s.process_list k ≡ some q
      → Before at j k
      → Served s.running k q
      → p.status ≡ 4
  pub line : InLine at s.ready
  pub arrived :
      (j : ℕ) (p : Process) → get_elem? s.process_list j ≡ some p → p.status ≡ 1 → at j < from j

-- What a step does for the order, whatever the arrival times are.
abbrev pub KeepsOrder : (ℕ → ℕ) → (ℕ → ℕ) → Sim → Sim → Type 0
KeepsOrder from from' s t = (at : ℕ → ℕ) → Order at from s → Order at from' t

-- The elements behind a write.
read_set :
    (s : Sim) (i : ℕ) (w : Process) (j : ℕ) (x : Process)
    → get_elem? (set s.process_list i w) j ≡ some x
    → ((j ≡ i) × (w ≡ x)) ⊎ ((j ≢ i) × (get_elem? s.process_list j ≡ some x))
read_set s i w j x e = elim (Bool-cases (j == i)) [
  | inl hit ↦ inl (
    (==_iff j i).0 hit,
    set_all (λ k y. Unit {0}) (λ k y. k ≡ i → w ≡ y) s.process_list i w (λ k y r. tt)
        (λ k y ne u same. absurd (ne same)) (λ same. refl) j x e ((==_iff j i).0 hit),
  )
  | inr miss ↦
      let ne : j ≢ i = λ same. cc ((==_iff j i).1 same) in
      inr (
        ne,
        set_all (λ k y. get_elem? s.process_list k ≡ some y)
            (λ k y. k ≢ i → get_elem? s.process_list k ≡ some y) s.process_list i w (λ k y r. r)
            (λ k y other r u. r) (λ u. absurd (u refl)) j x e ne,
      )
]

-- The order across a write to a process that is not terminated.
module _ (at from from' : ℕ → ℕ) (s t : Sim) (i : ℕ) (p w : Process) (o : Order at from s)
    (e : get_elem? s.process_list i ≡ some p) (el : t.process_list ≡ set s.process_list i w)
    (same_a : w.a ≡ p.a) (open_ : p.status ≢ 4)
    (others : (k : ℕ) → k ≢ i → t.running ≡ some k → s.running ≡ some k)
    (own : (j : ℕ) (q : Process)
      → get_elem? s.process_list j ≡ some q
      → Before at j i
      → Served t.running i w
      → q.status ≡ 4) where
  served : (k : ℕ) (q : Process) → k ≢ i → Served t.running k q → Served s.running k q
  served k q ne (inl h) = inl h
  served k q ne (inr h) = inr (others k ne h)

  turn_of :
      (j k : ℕ) (x y : Process)
      → get_elem? (set s.process_list i w) j ≡ some x
      → get_elem? (set s.process_list i w) k ≡ some y
      → Before at j k
      → Served t.running k y
      → x.status ≡ 4
  turn_of j k x y ex ey b h = elim (read_set s i w j x ex) [
    | inl (ji, _) ↦ elim (read_set s i w k y ey) [
      | inl (ki, _) ↦
          absurd
            (Before-irreflexive at i (subst (Before at i) ki (subst (λ z. Before at z k) ji b)))
      | inr (ne, r) ↦
          absurd (open_ (o.turn i k p y e r (subst (λ z. Before at z k) ji b) (served k y ne h)))
    ]
    | inr (_, r) ↦ elim (read_set s i w k y ey) [
      | inl (ki, same) ↦
          own j x r (subst (Before at j) ki b)
            (subst (Served t.running i) (sym same) (subst (λ z. Served t.running z y) ki h))
      | inr (ne, r') ↦ o.turn j k x y r r' b (served k y ne h)
    ]
  ]

  pub write-Order :
      InLine at t.ready
      → (w.status ≡ 1 → at i < from' i)
      → ((j : ℕ) → from j ≤ from' j)
      → Order at from' t
  write-Order line ready up = record {
    named = λ j x ex. elim (read_set s i w j x (rw el at ex)) [
      | inl (ji, same) ↦ rw (ji, ← same) (same_a ∙ o.named i p e)
      | inr (_, r) ↦ o.named j x r
    ];
    turn = λ j k x y ex ey. turn_of j k x y (rw el at ex) (rw el at ey);
    line = line;
    arrived = λ j x ex z. elim (read_set s i w j x (rw el at ex)) [
      | inl (ji, same) ↦ rw ji (ready (rw same z))
      | inr (_, r) ↦ omega (arith, o.arrived j x r z, up j)
    ];
  }

-- The order of the same processes, with the same ones running and ready.
pub same-Order :
    (at from from' : ℕ → ℕ) (s t : Sim)
    → t.process_list ≡ s.process_list
    → t.running ≡ s.running
    → t.ready ≡ s.ready
    → ((j : ℕ) → from j ≤ from' j)
    → Order at from s
    → Order at from' t
same-Order at from from' s t el er eq up o = record {
  named = λ j p e. o.named j p (rw el at e);
  turn = λ j k p q ep eq b h. o.turn j k p q (rw el at ep) (rw el at eq) b (rw er at h);
  line = rw eq o.line;
  arrived = λ j p e z. omega (arith, o.arrived j p (rw el at e) z, up j);
}
