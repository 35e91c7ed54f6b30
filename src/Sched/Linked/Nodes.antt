-- ===== src/Sched/Linked/Nodes.antt =====
-- The linked queue of scheduler.c: the nodes that a memory holds, and writes into them.
use mathlib.Core.Option.{some-injective}
use mathlib.Core.Path.{subst}
use cs.Base.{
  ℕ, ◌≡◌, refl, ◌≢◌, ◌∙◌, sym, ap, true, false, Option, none, some, List, [], ◌∷◌, ◌++◌, ◌==◌,
  ==_iff, Bool-cases, if◌then◌else◌, lacks, lacks-append, lacks-cons, Unused, inl, inr, arith,
}
use cs.Sched.{Queue}
use cs.Sched.Linked.{null, Cell, Memory, Ends}

-- The nodes of a queue, each with its address, first to last.
abbrev pub Nodes : Type 0
Nodes = List (ℕ × Option ℕ)

abbrev pub first : Nodes → ℕ
first [] = null
first ((a, x) ∷ r) = a

abbrev pub last : Nodes → ℕ
last [] = null
last ((a, x) ∷ []) = a
last ((a, x) ∷ y ∷ r) = last (y ∷ r)

abbrev pub addresses : Nodes → List ℕ
addresses [] = []
addresses ((a, x) ∷ r) = a ∷ addresses r

abbrev pub processes : Nodes → Queue
processes [] = []
processes ((a, x) ∷ r) = x ∷ processes r

abbrev pub Cells : Type 0
Cells = ℕ → Option Cell

abbrev pub Linked : Cells → Nodes → Type 0
Linked c [] = Unit {0}
Linked c ((a, x) ∷ r) =
    (a ≢ null)
    × (c a ≡ some (record { process = x; next = first r }))
    × (lacks a (addresses r) ≡ true)
    × Linked c r

-- The ends of a queue with these nodes, and its memory.
abbrev pub ends_of : Nodes → Ends
ends_of r = record { front = first r; rear = last r }

pub record Stored (m : Memory) (r : Nodes) : Type 0 where
  pub linked : Linked m.cells r
  pub unused : Unused m.cells m.pool

pub eq_comm : (a b : ℕ) → (a == b) ≡ (b == a)
eq_comm a b = ground arith

pub ne_null : (a : ℕ) → a ≢ null → (a == null) ≡ false
ne_null a h = ground arith

-- A write away from the nodes leaves them.
pub Linked-frame :
    (c : Cells) (a : ℕ) (v : Option Cell) (r : Nodes)
    → Linked c r
    → lacks a (addresses r) ≡ true
    → Linked (λ b. if b == a then v else c b) r
Linked-frame c a v [] h out = tt
Linked-frame c a v ((b, x) ∷ r) (ne, at, once, h) out =
    let (other, away) = lacks-cons a b (addresses r) out in
    (ne, rw other at, once, Linked-frame c a v r h away)

-- An unused address is none of the nodes.
pub unused_apart :
    (c : Cells) (p : ℕ) (r : Nodes) → c p ≡ none → Linked c r → lacks p (addresses r) ≡ true
unused_apart c p [] free h = refl
unused_apart c p ((a, x) ∷ r) free (ne, at, once, h) = elim (Bool-cases (a == p)) [
  | inl hit ↦ absurd (clash ((==_iff a p).0 hit))
  | inr miss ↦ rw (miss, unused_apart c p r free h) refl
]
  where
    clash : a ≡ p → ⊥
    clash e = cc

addresses-append : (r t : Nodes) → addresses (r ++ t) ≡ addresses r ++ addresses t
addresses-append [] t = refl
addresses-append ((a, x) ∷ r) t = ap (λ bs. a ∷ bs) (addresses-append r t)

pub processes-append : (r t : Nodes) → processes (r ++ t) ≡ processes r ++ processes t
processes-append [] t = refl
processes-append ((a, x) ∷ r) t = ap (λ xs. x ∷ xs) (processes-append r t)

pub last-append : (r : Nodes) (p : ℕ) (x : Option ℕ) → last (r ++ (p, x) ∷ []) ≡ p
last-append [] p x = refl
last-append ((a, y) ∷ []) p x = refl
last-append ((a, y) ∷ z ∷ r) p x = last-append (z ∷ r) p x

lacks-last :
    (a b : ℕ) (z : Option ℕ) (r : Nodes)
    → lacks a (addresses ((b, z) ∷ r)) ≡ true
    → (a == last ((b, z) ∷ r)) ≡ false
lacks-last a b z [] h = eq_comm a b ∙ (lacks-cons a b [] h).0
lacks-last a b z ((d, y) ∷ r) h = lacks-last a d y r (lacks-cons a b (addresses ((d, y) ∷ r)) h).1

-- The last node of a queue that is not empty.
pub last_cell :
    (c : Cells) (a : ℕ) (x : Option ℕ) (r : Nodes)
    → Linked c ((a, x) ∷ r)
    → (v : Cell) × (c (last ((a, x) ∷ r)) ≡ some v) × (last ((a, x) ∷ r) ≢ null)
last_cell c a x [] (ne, at, once, h) = (record { process = x; next = null }, at, ne)
last_cell c a x ((b, y) ∷ r) (ne, at, once, h) = last_cell c b y r h

module _ (c : Cells) (p : ℕ) (x : Option ℕ) (pne : p ≢ null)
    (new : c p ≡ some (record { process = x; next = null })) where
  -- The write of `q->rear->next = temp`.
  pub Linked-append :
      (a : ℕ) (y : Option ℕ) (r : Nodes) (v : Cell)
      → Linked c ((a, y) ∷ r)
      → lacks p (addresses ((a, y) ∷ r)) ≡ true
      → c (last ((a, y) ∷ r)) ≡ some v
      → Linked
          (λ b. if b == last ((a, y) ∷ r) then some (record v { next = p }) else c b)
          (((a, y) ∷ r) ++ (p, x) ∷ [])
  Linked-append a y [] v (ne, at, once, h) out found =
      let (other, _) = lacks-cons p a [] out in
      (
        ne,
        rw (same a)
            (ap (λ (w : Cell). some (record w { next = p })) (some-injective v _ (sym found ∙ at))),
        rw (eq_comm p a, other) refl,
        (pne, rw (eq_comm p a, other) new, refl, tt),
      )
    where
      same : (b : ℕ) → (b == b) ≡ true
      same b = ground arith
  Linked-append a y ((b, z) ∷ r) v (ne, at, once, h) out found =
      let (other, away) = lacks-cons p a (addresses ((b, z) ∷ r)) out in
      (
        ne,
        rw (lacks-last a b z r once) at,
        subst (λ bs. lacks a bs ≡ true) (sym (addresses-append ((b, z) ∷ r) ((p, x) ∷ [])))
            (lacks-append a (addresses ((b, z) ∷ r)) (p ∷ []) once (rw (eq_comm p a, other) refl)),
        Linked-append b z r v h away found,
      )
