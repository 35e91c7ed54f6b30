-- ===== src/Sched/Reading.antt =====
-- The processes that main of scheduler.c reads from its input.
use mathlib.Core.Option.{some-injective}
use mathlib.Core.Path.{subst}
use cs.Base.{
  ℕ, zero, suc, ◌+◌, ◌-◌, ◌%◌, ◌^◌, ◌<◌, ◌≤◌, ◌≡◌, refl, Bool, true, false, Option, none, some,
  List, [], ◌∷◌, Text, ◌==◌, ltb, if◌then◌else◌, strtok, atoi, skip_spaces, number, length,
  Bool-cases, inl, inr, arith,
}
use cs.Sched.{bind_some, u32, Process, random_os, get_rand_num_from_file, seed_value}
use cs.Sched.Input.{read_process, read_processes, read_input, allocated, next_process}
use cs.Sched.Fcfs.Result.{AllFresh}

atoi-lt : (t : Text) → atoi t < u32
unfolding atoi
atoi-lt t = below (skip_spaces t)
  where
    mod_lt : (x : ℕ) → x % 2 ^ 32 < u32
    mod_lt x = omega arith

    below :
        (r : Text)
        → (elim r as (λ r. ℕ) [
          | [] ↦ 0
          | c ∷ r ↦
              if c == b'-'
              then (2 ^ 32 - number 0 r % 2 ^ 32) % 2 ^ 32
              else if c == b'+'
              then number 0 r % 2 ^ 32
              else number 0 (c ∷ r) % 2 ^ 32
        ])
          < u32
    below [] = omega arith
    below (c ∷ r) =
        either (c == b'-') (c == b'+') _ _ _ (mod_lt (2 ^ 32 - number 0 r % 2 ^ 32))
          (mod_lt (number 0 r)) (mod_lt (number 0 (c ∷ r)))
      where
        either :
            (p q : Bool) (x y z : ℕ)
            → x < u32
            → y < u32
            → z < u32
            → (if p then x else if q then y else z) < u32
        either p q x y z hx hy hz = ground arith

-- A burst is only drawn for a positive bound.
random_os-pos :
    (bound i burst : ℕ) (random : List ℕ) → random_os bound i random ≡ some burst → 0 < bound
unfolding random_os
random_os-pos bound i burst random e =
    let (x, from, f) = bind_some (get_rand_num_from_file ((seed_value + i) % u32) random) _ _ e in
    elim (Bool-cases (bound == 0)) [
      | inl hit ↦ absurd (none_some (rw hit at f))
      | inr miss ↦ positive bound miss
    ]
  where
    none_some : (◌≡◌ {A = Option ℕ} none (some burst)) → ⊥
    none_some h = cc

    positive : (b : ℕ) → (b == 0) ≡ false → 0 < b
    positive b h = ground arith

-- What holds of each process that is read.
pub record ReadAs (i : ℕ) (p : Process) : Type 0 where
  pub id : p.process_id ≡ i
  pub b_pos : 0 < p.b
  pub c_lt : p.c < u32
  pub unstarted : p.status ≡ 0
  pub run : p.current_cpu_time_run ≡ 0
  pub blocked : p.current_io_blocked_time ≡ 0
  pub burst : p.io_burst ≡ 0

read_process-ReadAs :
    (i : ℕ) (random : List ℕ) (r : Text) (p : Process) (r' : Text)
    → read_process i random r ≡ some (p, r')
    → ReadAs i p
unfolding read_process
read_process-ReadAs i random r p r' e =
    let (x1, e1, f1) = bind_some (strtok b' ' r) _ _ e in
    let (x2, e2, f2) = bind_some (strtok b' ' x1.1) _ _ f1 in
    let (x3, e3, f3) = bind_some (strtok b' ' x2.1) _ _ f2 in
    let (x4, e4, f4) = bind_some (strtok b')' x3.1) _ _ f3 in
    let (burst, e5, f5) = bind_some (random_os (atoi x2.0) i random) _ _ f4 in
    subst (λ (q : Process × Text). ReadAs i q.0) (some-injective _ _ f5)
      (record {
        id = refl;
        b_pos = random_os-pos (atoi x2.0) i burst random e5;
        c_lt = atoi-lt x3.0;
        unstarted = refl;
        run = refl;
        blocked = refl;
        burst = refl;
      })

-- The processes need CPU time, and none arrives behind `last`.
abbrev pub Usable : ℕ → List Process → Type 0
Usable last [] = Unit {0}
Usable last (p ∷ ps) = (0 < p.c) × (p.a ≤ last) × Usable last ps

-- Where they are usable they are as the loops want them, and there are at most three.
abbrev pub Started : ℕ → ℕ → List Process → Type 0
Started last i ps = Usable last ps → AllFresh last i ps × (i + length ps ≤ allocated)

Started-cons :
    (last i : ℕ) (p : Process) (ps : List Process)
    → ReadAs i p
    → Started last (i + 1) ps
    → Started last i (p ∷ ps)
Started-cons last i p ps r more (c_pos, a_le, usable) =
    let (fresh, few) = more usable in
    (
      (
        record {
          id = r.id;
          b_pos = r.b_pos;
          c_pos = c_pos;
          c_lt = r.c_lt;
          a_le = a_le;
          unstarted = r.unstarted;
          run = r.run;
          blocked = r.blocked;
          burst = r.burst;
        },
        fresh,
      ),
      omega (arith, few),
    )

read_one :
    (i : ℕ) (random : List ℕ) (r : Text) (x : Process × Text)
    → (if ltb i allocated then read_process i random r else none) ≡ some x
    → ReadAs i x.0 × (i < allocated)
read_one i random r (p, r') e = elim (Bool-cases (ltb i allocated)) [
  | inl hit ↦ (read_process-ReadAs i random r p r' (rw hit at e), less i hit)
  | inr miss ↦ absurd (none_some (rw miss at e))
]
  where
    less : (i : ℕ) → ltb i allocated ≡ true → i < allocated
    less i h = ground arith

    none_some : (◌≡◌ {A = Option (Process × Text)} none (some (p, r'))) → ⊥
    none_some h = cc

read_processes-Started :
    (last left i : ℕ) (random : List ℕ) (r : Text) (ps : List Process)
    → i ≤ allocated
    → read_processes left i random r ≡ some ps
    → Started last i ps
unfolding read_processes
read_processes-Started last zero i random r ps le e =
    subst (Started last i) (some-injective _ _ e) λ u. (tt, omega arith)
read_processes-Started last (suc left) i random r ps le e =
    let (x, e1, f1) = bind_some (if ltb i allocated then read_process i random r else none) _ _ e in
    let (as_read, less) = read_one i random r x e1 in
    let (qs, e2, f2) =
      bind_some (read_processes left (i + 1) random (next_process left x.1)) _ _ f1 in
    subst (Started last i) (some-injective _ _ f2) (
      Started-cons last i x.0 qs as_read (
        read_processes-Started last left (i + 1) random (next_process left x.1) qs (omega arith)
          e2))

-- Whatever the line of the input and the random numbers are, where the processes that main reads
-- from it need CPU time and arrive by `last`, they are as the FCFS loop wants them (`AllFresh`:
-- numbered from 0, unstarted, with positive B), and there are at most the three that process_list
-- has room for.
pub read_input-Started :
    (last : ℕ) (random : List ℕ) (line : Text) (ps : List Process)
    → read_input random line ≡ some ps
    → Usable last ps
    → AllFresh last 0 ps × (length ps ≤ allocated)
unfolding read_input
read_input-Started last random line ps e usable =
    let (x, e1, f1) = bind_some (strtok b' ' line) _ _ e in
    elim (Bool-cases (atoi x.0 == 0)) [
      | inl hit ↦ nothing (rw hit at f1)
      | inr miss ↦
          let (y, e2, f2) = bind_some (strtok b'(' line) _ _ (rw miss at f1) in
          let (fresh, few) =
            read_processes-Started last (if ltb (atoi x.0) 4 then atoi x.0 else 4) 0 random y.1 ps
              (omega arith) f2 usable in
          (fresh, omega (arith, few))
    ]
  where
    nothing :
        (◌≡◌ {A = Option (List Process)} (some []) (some ps))
        → AllFresh last 0 ps × (length ps ≤ allocated)
    nothing h =
        subst (λ qs. AllFresh last 0 qs × (length qs ≤ allocated)) (some-injective _ _ h)
          (tt, omega arith)
