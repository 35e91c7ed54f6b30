-- ===== src/Sched/Fcfs/Lists.antt =====
-- Reads and writes of the process list, sums over it, the queues, and the rule for `for`.
use cs.Base.{
  ℕ, zero, suc, ◌+◌, ◌<◌, ◌≤◌, ◌≡◌, refl, ◌≢◌, inl, inr, true, false, Option, none, some, List, [],
  ◌∷◌, ◌++◌, ◌==◌, ==_iff, Bool-cases, get_elem?, set, length, length-set, get_elem?-set_self,
  get_elem?-set_ne, if◌then◌else◌, arith, ap, sym, ◌∙◌,
}
use mathlib.Core.Option.{some-injective}
use mathlib.Core.Path.{subst, subst₂}
use cs.Sched.{Process, Queue, Sim, for_loop}
use cs.Sched.Fcfs.{count, Valid, is, ended, terminated, owed, work}

pub get_elem?-lt {ℓ} :
    {A : Type ℓ} (xs : List A) (i : ℕ) {x : A} → get_elem? xs i ≡ some x → i < length xs
get_elem?-lt [] i e = cc
get_elem?-lt (y ∷ xs) zero e = omega arith
get_elem?-lt (y ∷ xs) (suc i) e = omega (arith, get_elem?-lt xs i e)

pub lt-get_elem? {ℓ} :
    {A : Type ℓ} (xs : List A) (i : ℕ) → i < length xs → (x : A) × (get_elem? xs i ≡ some x)
lt-get_elem? [] i h = absurd (omega arith)
lt-get_elem? (y ∷ xs) zero h = (y, refl)
lt-get_elem? (y ∷ xs) (suc i) h = lt-get_elem? xs i (omega arith)

-- A property of each element, across a write at `i`.
pub set_all {ℓ κ} :
    {A : Type ℓ} (F G : ℕ → A → Type κ) (xs : List A) (i : ℕ) (v : A)
    → ((j : ℕ) (x : A) → get_elem? xs j ≡ some x → F j x)
    → ((j : ℕ) (x : A) → j ≢ i → F j x → G j x)
    → G i v
    → (j : ℕ) (x : A) → get_elem? (set xs i v) j ≡ some x
    → G j x
set_all F G xs i v old keep new j x e = elim (Bool-cases (j == i)) [
  | inl hit ↦
      let same_index : j ≡ i = (==_iff j i).0 hit in
      let less : j < length xs = omega (arith, get_elem?-lt (set xs i v) j e, length-set xs i v) in
      let same : some v ≡ some x =
        sym (get_elem?-set_self xs i v (rw (← same_index) less)) ∙ (rw same_index at e) in
      subst₂ G (sym same_index) (some-injective v x same) new
  | inr miss ↦
      let ne : i ≢ j = λ p. cc ((==_iff j i).1 (sym p)) in
      keep j x (λ p. ne (sym p)) (old j x (sym (get_elem?-set_ne xs v ne) ∙ e))
]

pub terminated-set :
    (ps : List Process) (i : ℕ) (p v : Process)
    → get_elem? ps i ≡ some p
    → terminated (set ps i v) + ended p ≡ terminated ps + ended v
terminated-set [] i p v e = cc
terminated-set (q ∷ ps) zero p v e = rw (some-injective _ _ e) (omega arith)
terminated-set (q ∷ ps) (suc i) p v e = omega (arith, terminated-set ps i p v e)

pub work-set :
    (ps : List Process) (i : ℕ) (p v : Process)
    → get_elem? ps i ≡ some p
    → work (set ps i v) + owed p ≡ work ps + owed v
work-set [] i p v e = cc
work-set (q ∷ ps) zero p v e = rw (some-injective _ _ e) (omega arith)
work-set (q ∷ ps) (suc i) p v e = omega (arith, work-set ps i p v e)

pub terminated-le : (ps : List Process) → terminated ps ≤ length ps
terminated-le [] = omega arith
terminated-le (p ∷ ps) = ground (arith, terminated-le ps)

pub terminated-lt :
    (ps : List Process) (i : ℕ) (p : Process)
    → get_elem? ps i ≡ some p
    → ended p ≡ 0
    → terminated ps < length ps
terminated-lt [] i p e z = cc
terminated-lt (q ∷ ps) zero p e z = omega (arith, ap ended (some-injective _ _ e), terminated-le ps)
terminated-lt (q ∷ ps) (suc i) p e z = ground (arith, terminated-lt ps i p e z)

pub terminated-set_eq :
    (ps : List Process) (i : ℕ) (p v : Process)
    → get_elem? ps i ≡ some p
    → ended p ≡ ended v
    → terminated ps ≡ terminated (set ps i v)
terminated-set_eq ps i p v e same = omega (arith, terminated-set ps i p v e)

pub count_head : (i : ℕ) (q rest : Queue) → q ≡ some i ∷ rest → suc (count i rest) ≡ count i q
count_head i q rest e = rw e (ground arith)

pub count_tail : (i j : ℕ) (q rest : Queue) → q ≡ some j ∷ rest → i ≢ j → count i rest ≡ count i q
count_tail i j q rest e ne = rw e (ground arith)

pub Valid-head : (n i : ℕ) (q rest : Queue) → q ≡ some i ∷ rest → Valid n q → (i < n) × Valid n rest
Valid-head n i q rest e v = rw e at v

pub is-ne : (i j : ℕ) → i ≢ j → is i (some j) ≡ false
is-ne i j ne = ground arith

pub is_self : (i : ℕ) → is i (some i) ≡ true
is_self i = ground arith

pub count-enqueue :
    (i j : ℕ) (q : Queue) → count i (q ++ some j ∷ []) ≡ count i q + (if i == j then 1 else 0)
count-enqueue i j [] = omega arith
count-enqueue i j (none ∷ q) = count-enqueue i j q
count-enqueue i j (some k ∷ q) = omega (arith, count-enqueue i j q)

pub count-enqueue_self : (i : ℕ) (q : Queue) → count i (q ++ some i ∷ []) ≡ count i q + 1
count-enqueue_self i q = ground (arith, count-enqueue i i q)

pub count-enqueue_ne : (i j : ℕ) (q : Queue) → i ≢ j → count i (q ++ some j ∷ []) ≡ count i q
count-enqueue_ne i j q ne = ground (arith, count-enqueue i j q)

pub Valid-enqueue : (n j : ℕ) (q : Queue) → Valid n q → j < n → Valid n (q ++ some j ∷ [])
Valid-enqueue n j [] v h = (h, tt)
Valid-enqueue n j (none ∷ q) v h = absurd v
Valid-enqueue n j (some k ∷ q) v h = (v.0, Valid-enqueue n j q v.1 h)

pub Valid-count : (n x : ℕ) (q : Queue) → Valid n q → 0 < count x q → x < n
Valid-count n x [] v h = absurd (omega arith)
Valid-count n x (none ∷ q) v h = absurd v
Valid-count n x (some j ∷ q) (less, v) h = elim (Bool-cases (x == j)) [
  | inl hit ↦ omega (arith, (==_iff x j).0 hit)
  | inr miss ↦ Valid-count n x q v (in_rest x j (count x q) miss h)
]
  where
    in_rest : (x j k : ℕ) → (x == j) ≡ false → 0 < (if x == j then 1 else 0) + k → 0 < k
    in_rest x j k miss h = ground arith

-- An invariant indexed by the loop variable.
pub for_loop-inv {ℓ} :
    (P : ℕ → Sim → Type ℓ) (n : ℕ) (body : ℕ → Sim → Option Sim)
    → ((i : ℕ) (s : Sim) → i < n → P i s → (s' : Sim) × (body i s ≡ some s') × P (i + 1) s')
    → (left i : ℕ) (s : Sim) → left + i ≡ n
    → P i s
    → (s' : Sim) × (for_loop left i body s ≡ some s') × P n s'
unfolding for_loop
for_loop-inv P n body step zero i s e h = (s, refl, subst (λ k. P k s) (omega arith) h)
for_loop-inv P n body step (suc left) i s e h =
    let (s1, run, h1) = step i s (omega arith) h in
    let (s2, runs, h2) = for_loop-inv P n body step left (i + 1) s1 (omega arith) h1 in
    (s2, rw run runs, h2)
