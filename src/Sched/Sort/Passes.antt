-- ===== src/Sched/Sort/Passes.antt =====
-- The passes of the bubble sort of scheduler.c, with the keys at hand.
use mathlib.Core.List.{append_assoc}
use cs.Base.{
  ℕ, zero, suc, ◌+◌, ◌<◌, ◌≤◌, ◌≡◌, refl, ◌∙◌, ap, true, false, Option, [], ◌∷◌, ◌++◌, ltb, length,
  if◌then◌else◌, Bool-cases, inl, inr, arith,
}
use cs.Sched.{Queue}

abbrev pub Every : (Option ℕ → Type 0) → Queue → Type 0
Every P [] = Unit {0}
Every P (x ∷ q) = P x × Every P q

-- The sum of a weight over the queue. Queues with the same sums for all weights have the same
-- elements, each as often.
abbrev pub total : (Option ℕ → ℕ) → Queue → ℕ
total w [] = 0
total w (x ∷ q) = w x + total w q

abbrev pub SameElements : Queue → Queue → Type 0
SameElements q q' = (w : Option ℕ → ℕ) → total w q' ≡ total w q

total-append : (w : Option ℕ → ℕ) (a b : Queue) → total w (a ++ b) ≡ total w a + total w b
total-append w [] b = omega arith
total-append w (x ∷ a) b = omega (arith, total-append w a b)

module _ (k : Option ℕ → ℕ) where
  abbrev pub AtMost : ℕ → Queue → Type 0
  AtMost b q = Every (λ x. k x ≤ b) q

  abbrev pub AtLeast : ℕ → Queue → Type 0
  AtLeast b q = Every (λ x. b ≤ k x) q

  abbrev pub Ascending : Queue → Type 0
  Ascending [] = Unit {0}
  Ascending (x ∷ q) = AtLeast (k x) q × Ascending q

  AtMost-le : (a b : ℕ) (q : Queue) → a ≤ b → AtMost a q → AtMost b q
  AtMost-le a b [] le h = tt
  AtMost-le a b (x ∷ q) le (hx, h) = (omega arith, AtMost-le a b q le h)

  -- One pass with the keys at hand.
  abbrev pub pass : ℕ → Queue → Queue
  pass zero q = q
  pass (suc n) [] = []
  pass (suc n) (x ∷ []) = x ∷ []
  pass (suc n) (x ∷ y ∷ q) =
      let swap = ltb (k y) (k x) in (if swap then y else x) ∷ pass n ((if swap then x else y) ∷ q)

  -- The greatest is at the end.
  pub record Passed (q out : Queue) : Type 0 where
    pub front : Queue
    pub top : Option ℕ
    pub split : out ≡ front ++ top ∷ []
    pub size : length front + 1 ≡ length q
    pub front_le : AtMost (k top) front
    pub all_le : AtMost (k top) q
    pub bounds : (b : ℕ) → AtMost b q → AtMost b front × (k top ≤ b)
    pub same : SameElements q out

  single-Passed : (x : Option ℕ) → Passed (x ∷ []) (x ∷ [])
  single-Passed x = record {
    front = [];
    top = x;
    split = refl;
    size = refl;
    front_le = tt;
    all_le = (omega arith, tt);
    bounds = λ b (h, _). (tt, h);
    same = λ w. refl;
  }

  -- The smaller one of two stays in front.
  longer-Passed :
      (x y lo hi : Option ℕ) (q out : Queue)
      → k lo ≤ k hi
      → k x ≤ k hi
      → k y ≤ k hi
      → ((b : ℕ) → k x ≤ b → k y ≤ b → k hi ≤ b)
      → ((w : Option ℕ → ℕ) → w lo + w hi ≡ w x + w y)
      → Passed (hi ∷ q) out
      → Passed (x ∷ y ∷ q) (lo ∷ out)
  longer-Passed x y lo hi q out le le_x le_y le_b same p = record {
    front = lo ∷ p.front;
    top = p.top;
    split = ap (λ r. lo ∷ r) p.split;
    size = omega (arith, p.size);
    front_le = (omega (arith, p.all_le.0), p.front_le);
    all_le = (omega (arith, p.all_le.0), (omega (arith, p.all_le.0), p.all_le.1));
    bounds = λ b (hx, (hy, h)).
        let (in_front, top_le) = p.bounds b (le_b b hx hy, h) in
        ((omega (arith, le_b b hx hy), in_front), top_le);
    same = λ w. omega (arith, same w, p.same w);
  }

  pass-Passed : (n : ℕ) (q : Queue) → length q ≡ suc n → Passed q (pass n q)
  pass-Passed n [] e = absurd (omega arith)
  pass-Passed zero (x ∷ []) e = single-Passed x
  pass-Passed zero (x ∷ y ∷ q) e = absurd (omega arith)
  pass-Passed (suc n) (x ∷ []) e = absurd (omega arith)
  pass-Passed (suc n) (x ∷ y ∷ q) e = elim (Bool-cases (ltb (k y) (k x))) [
    | inl swap ↦
        let less : k y < k x = less_of (k y) (k x) swap in
        rw swap (
          longer-Passed x y y x q _ (omega (arith, less)) (omega arith) (omega (arith, less))
            (λ b hx hy. hx) (λ w. omega arith) (pass-Passed n (x ∷ q) (omega (arith, e))))
    | inr keep ↦
        let less : k x ≤ k y = not_less_of (k y) (k x) keep in
        rw keep (
          longer-Passed x y x y q _ less less (omega arith) (λ b hx hy. hy) (λ w. refl)
            (pass-Passed n (y ∷ q) (omega (arith, e))))
  ]
    where
      less_of : (a b : ℕ) → ltb a b ≡ true → a < b
      less_of a b h = ground arith

      not_less_of : (a b : ℕ) → ltb a b ≡ false → b ≤ a
      not_less_of a b h = ground arith

  -- A pass leaves what stands behind the elements that it compares.
  pass-append : (n : ℕ) (q back : Queue) → length q ≡ suc n → pass n (q ++ back) ≡ pass n q ++ back
  pass-append n [] back e = absurd (omega arith)
  pass-append zero (x ∷ q) back e = refl
  pass-append (suc n) (x ∷ []) back e = absurd (omega arith)
  pass-append (suc n) (x ∷ y ∷ q) back e =
      ap (λ r. (if ltb (k y) (k x) then y else x) ∷ r)
        (pass-append n ((if ltb (k y) (k x) then x else y) ∷ q) back (omega (arith, e)))

  abbrev pub rounds : ℕ → Queue → Queue
  rounds zero q = q
  rounds (suc n) q = rounds n (pass (suc n) q)

  -- What stands behind is at least what stands in front.
  abbrev pub Over : Queue → Queue → Type 0
  Over front back = Every (λ y. AtMost (k y) front) back

  pub record Sorted (q out : Queue) : Type 0 where
    pub ascending : Ascending out
    pub same : SameElements q out

  least_first : (x : Option ℕ) (back : Queue) → Over (x ∷ []) back → AtLeast (k x) back
  least_first x [] h = tt
  least_first x (y ∷ back) ((le, _), h) = (le, least_first x back h)

  top_first :
      (q out : Queue) (p : Passed q out) (back : Queue) → Over q back → AtLeast (k p.top) back
  top_first q out p [] h = tt
  top_first q out p (y ∷ back) (hy, h) = ((p.bounds (k y) hy).1, top_first q out p back h)

  front_under : (q out : Queue) (p : Passed q out) (back : Queue) → Over q back → Over p.front back
  front_under q out p [] h = tt
  front_under q out p (y ∷ back) (hy, h) = ((p.bounds (k y) hy).0, front_under q out p back h)

  pub rounds-Sorted :
      (n : ℕ) (front back : Queue)
      → length front ≡ suc n
      → Over front back
      → Ascending back
      → Sorted (front ++ back) (rounds n (front ++ back))
  rounds-Sorted n [] back e over up = absurd (omega arith)
  rounds-Sorted zero (x ∷ []) back e over up = record {
    ascending = (least_first x back over, up);
    same = λ w. refl;
  }
  rounds-Sorted zero (x ∷ y ∷ q) back e over up = absurd (omega arith)
  rounds-Sorted (suc n) (x ∷ q) back e over up =
      let p : Passed (x ∷ q) (pass (suc n) (x ∷ q)) = pass-Passed (suc n) (x ∷ q) e in
      let moved : pass (suc n) (x ∷ q ++ back) ≡ p.front ++ (p.top ∷ back) =
        pass-append (suc n) (x ∷ q) back e
        ∙ ap (λ r. r ++ back) p.split
        ∙ append_assoc p.front (p.top ∷ []) back in
      let rest : Sorted (p.front ++ (p.top ∷ back)) (rounds n (p.front ++ (p.top ∷ back))) =
        rounds-Sorted n p.front (p.top ∷ back) (omega (arith, p.size, e))
          (p.front_le, front_under _ _ p back over) (top_first _ _ p back over, up) in
      record {
        ascending = rw moved rest.ascending;
        same = λ w. rw moved (
            omega (
              arith,
              rest.same w,
              p.same w,
              ap (total w) p.split,
              total-append w p.front (p.top ∷ []),
              total-append w p.front (p.top ∷ back),
              total-append w (x ∷ q) back,
            ));
      }
