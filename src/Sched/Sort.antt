-- ===== src/Sched/Sort.antt =====
-- sortQueue of scheduler.c.
pub mod Passes
use mathlib.Core.List.{append_assoc, append-nil}
use mathlib.Core.Path.{subst}
use cs.Base.{
  ◌≢◌, ℕ, zero, suc, ◌+◌, ◌-◌, ◌<◌, ◌≤◌, ◌≡◌, refl, ◌∙◌, ap, sym, Bool, true, false, Option, none,
  some, List, [], ◌∷◌, ◌++◌, ltb, get_elem?, length, length-append, if◌then◌else◌, Bool-cases, inl,
  inr, arith,
}
use cs.Sched.{Process, Queue, ◌>>=◌}
use cs.Sched.Rounds.{burst_bound, bubble_pass, bubble_rounds, sort_queue}
use cs.Sched.Fcfs.{Valid}
use cs.Sched.Fcfs.Lists.{lt-get_elem?}
use cs.Sched.Sort.Passes.{
  Every, Ascending, SameElements, pass, rounds, Sorted, rounds-Sorted, total,
}

-- The queue's keys are those that `key` gives.
abbrev Keyed : (Option ℕ → Option ℕ) → (Option ℕ → ℕ) → Queue → Type 0
Keyed key k q = Every (λ x. key x ≡ some (k x)) q

Keyed-pass :
    (key : Option ℕ → Option ℕ) (k : Option ℕ → ℕ) (n : ℕ) (q : Queue)
    → Keyed key k q
    → Keyed key k (pass k n q)
Keyed-pass key k zero q h = h
Keyed-pass key k (suc n) [] h = h
Keyed-pass key k (suc n) (x ∷ []) h = h
Keyed-pass key k (suc n) (x ∷ y ∷ q) (hx, (hy, h)) = elim (Bool-cases (ltb (k y) (k x))) [
  | inl swap ↦ rw swap (hy, Keyed-pass key k n (x ∷ q) (hx, h))
  | inr keep ↦ rw keep (hx, Keyed-pass key k n (y ∷ q) (hy, h))
]

bubble_pass-pass :
    (key : Option ℕ → Option ℕ) (k : Option ℕ → ℕ) (n : ℕ) (q : Queue)
    → Keyed key k q
    → bubble_pass key n q ≡ some (pass k n q)
unfolding bubble_pass
bubble_pass-pass key k zero q h = refl
bubble_pass-pass key k (suc n) [] h = refl
bubble_pass-pass key k (suc n) (x ∷ []) h = refl
bubble_pass-pass key k (suc n) (x ∷ y ∷ q) (hx, (hy, h)) =
    rw (bubble_pass, hx, hy)
      (elim (Bool-cases (ltb (k y) (k x))) [
        | inl swap ↦ rw (swap, bubble_pass-pass key k n (x ∷ q) (hx, h)) refl
        | inr keep ↦ rw (keep, bubble_pass-pass key k n (y ∷ q) (hy, h)) refl
      ])

bubble_rounds-rounds :
    (key : Option ℕ → Option ℕ) (k : Option ℕ → ℕ) (n : ℕ) (q : Queue)
    → Keyed key k q
    → bubble_rounds key n q ≡ some (rounds k n q)
unfolding bubble_rounds
bubble_rounds-rounds key k zero q h = refl
bubble_rounds-rounds key k (suc n) q h =
    rw (bubble_rounds, bubble_pass-pass key k (suc n) q h)
      (bubble_rounds-rounds key k n (pass k (suc n) q) (Keyed-pass key k (suc n) q h))

-- The burst bound of a process of the list.
abbrev pub bound_of : List Process → Option ℕ → ℕ
bound_of ps none = 0
bound_of ps (some i) = elim (get_elem? ps i) [ none ↦ 0 | some p ↦ p.b ]

burst_bound-Keyed :
    (ps : List Process) (q : Queue) → Valid (length ps) q → Keyed (burst_bound ps) (bound_of ps) q
unfolding burst_bound
burst_bound-Keyed ps [] v = tt
burst_bound-Keyed ps (none ∷ q) v = absurd v
burst_bound-Keyed ps (some i ∷ q) (h, v) =
    let (p, e) = lt-get_elem? ps i h in
    (rw (burst_bound, bound_of, e) refl, burst_bound-Keyed ps q v)

-- On a queue of processes of the list that is not empty and has no NULL, sortQueue has a result,
-- which ascends by the burst bound B and has the same elements, each as often (every sum over the
-- elements is the same).
pub sort_queue-Ascending :
    (ps : List Process) (q : Queue)
    → Valid (length ps) q
    → q ≢ []
    → (q' : Queue) × (sort_queue ps q ≡ some q') × Ascending (bound_of ps) q' × SameElements q q'
unfolding sort_queue bubble_rounds
sort_queue-Ascending ps [] v some_one = absurd (some_one refl)
sort_queue-Ascending ps (x ∷ q) v some_one =
    let k : Option ℕ → ℕ = bound_of ps in
    let s : Sorted k ((x ∷ q) ++ []) (rounds k (length q) ((x ∷ q) ++ [])) =
      rounds-Sorted k (length q) (x ∷ q) [] refl tt tt in
    (
      rounds k (length q) (x ∷ q),
      rw (sort_queue, size (length q))
          (bubble_rounds-rounds (burst_bound ps) k (length q) (x ∷ q)
            (burst_bound-Keyed ps (x ∷ q) v)),
      subst (λ r. Ascending k (rounds k (length q) r)) (append-nil (x ∷ q)) s.ascending,
      subst (λ r. SameElements r (rounds k (length q) r)) (append-nil (x ∷ q)) s.same,
    )
  where
    size : (n : ℕ) → suc n - 1 ≡ n
    size n = omega arith
