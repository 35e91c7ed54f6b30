-- ===== src/Fssim/Edit.antt =====
-- Replacing the children of one node, and what stays as it was.
use cs.Base.{
  ◌≡◌, refl, ◌⊎◌, inl, inr, true, false, some, ◌==◌, ==_iff, Bool-cases, arith, sym, ap, ◌∙◌,
}
use mathlib.Core.Option.{some-injective}
use cs.Fssim.{Ptr, Node, Heap}
use cs.Fssim.Forest.{
  Forest, nil, cons, head, has, Apart, Distinct, Rep, kids_of, set_kids, here, below, after, place,
  frame, eq_self, or_mid, or_last, or_false, has-ne, not-has_ne,
}

pub has-kids_of : (a b : Ptr) (f : Forest) → has b (kids_of a f) ≡ true → has b f ≡ true
unfolding kids_of
has-kids_of a b nil i = cc
has-kids_of a b (cons p name kind kids rest) i =
    ground (arith, has-kids_of a b kids, has-kids_of a b rest)

pub not-has-kids_of : (a b : Ptr) (f : Forest) → has b f ≡ false → has b (kids_of a f) ≡ false
not-has-kids_of a b f out = elim (Bool-cases (has b (kids_of a f))) [
  | inl i ↦ cc (has-kids_of a b f i)
  | inr o ↦ o
]

pub kids_of-Distinct : (a : Ptr) (f : Forest) → Distinct f → Distinct (kids_of a f)
unfolding kids_of
kids_of-Distinct a nil d = d
kids_of-Distinct a (cons p name kind kids rest) (nk, nr, apart, dk, dr) =
    elim (Bool-cases (a == p)) [
      | inl hit ↦ rw hit dk
      | inr miss ↦ elim (Bool-cases (has a kids)) [
        | inl under ↦ rw (miss, under) (kids_of-Distinct a kids dk)
        | inr out ↦ rw (miss, out) (kids_of-Distinct a rest dr)
      ]
    ]

-- A node is not below itself.
pub not-has-kids_of_self : (a : Ptr) (f : Forest) → Distinct f → has a (kids_of a f) ≡ false
unfolding kids_of
not-has-kids_of_self a nil d = refl
not-has-kids_of_self a (cons p name kind kids rest) (nk, nr, apart, dk, dr) =
    elim (Bool-cases (a == p)) [
      | inl hit ↦ rw (hit, (==_iff a p).0 hit) nk
      | inr miss ↦ elim (Bool-cases (has a kids)) [
        | inl under ↦ rw (miss, under) (not-has-kids_of_self a kids dk)
        | inr out ↦ rw (miss, out) (not-has-kids_of_self a rest dr)
      ]
    ]

pub Apart-symm : (xs ys : Forest) → Apart xs ys → Apart ys xs
Apart-symm xs ys apart a i = elim (Bool-cases (has a xs)) [ inl j ↦ cc (apart a j) | inr o ↦ o ]

pub head-set_kids : (a : Ptr) (ks f : Forest) → head (set_kids a ks f) ≡ head f
unfolding set_kids
head-set_kids a ks nil = refl
head-set_kids a ks (cons p name kind kids rest) = ground arith

-- An address of the changed forest is an old one or one of the new children.
pub has-set_kids :
    (a b : Ptr) (ks f : Forest)
    → has b (set_kids a ks f) ≡ true
    → (has b f ≡ true) ⊎ (has b ks ≡ true)
unfolding set_kids
has-set_kids a b ks nil i = cc
has-set_kids a b ks (cons p name kind kids rest) i =
    ground (arith, has-set_kids a b ks kids, has-set_kids a b ks rest)

-- The node itself stays.
pub set_kids-has : (a : Ptr) (ks f : Forest) → has a f ≡ true → has a (set_kids a ks f) ≡ true
unfolding set_kids
set_kids-has a ks nil i = cc
set_kids-has a ks (cons p name kind kids rest) i =
    ground (arith, set_kids-has a ks kids, set_kids-has a ks rest)

-- The heaps agree on the forest but for the node at `a` and its former children.
abbrev pub SameBut : Ptr → Forest → Forest → Heap → Heap → Type 0
SameBut a old f g h = (b : Ptr) → has b f ≡ true → (b == a) ≡ false → has b old ≡ false → g b ≡ h b

node_at :
    (g h : Heap) {a p c : Ptr} {n m : Node}
    → a ≡ p
    → h a ≡ some n
    → h p ≡ some m
    → g p ≡ some (record n { child = c })
    → g p ≡ some (record m { child = c })
node_at g h {n} {m} e old at new =
    let same : n ≡ m = some-injective _ _ (sym old ∙ ap h e ∙ at) in rw (← same) new

module _ (g h : Heap) (a : Ptr) (n : Node) (ks : Forest) where
  pub set_kids-Rep :
      (par : Ptr) (f : Forest)
      → Rep h par f
      → Distinct f
      → has a f ≡ true
      → h a ≡ some n
      → g a ≡ some (record n { child = head ks })
      → Rep g a ks
      → SameBut a (kids_of a f) f g h
      → Rep g par (set_kids a ks f)
  unfolding set_kids kids_of
  set_kids-Rep par nil r d i old new rks same = cc
  set_kids-Rep par (cons p name kind kids rest) (ne, at, rk, rr) (nk, nr, apart, dk, dr) i old new
        rks same =
      elim (place a p kids rest i) [
        | here hit e ↦ rw hit (
          ne,
          node_at g h {c = head ks} e old at (rw (← e) new),
          rw (← e) rks,
          frame par rest rr λ b j.
              same b (or_last (b == p) (has b kids) (has b rest) j) (rw e (has-ne b p rest nr j))
                (rw (hit, kids_of) (Apart-symm kids rest apart b j)),
        )
        | below miss under ↦
            rw (miss, under)
              (
                ne,
                rw (head-set_kids a ks kids) (
                    same p (rw (eq_self p)) (not-has_ne a p kids nk under)
                      (rw (miss, under, kids_of) (not-has-kids_of a p kids nk))
                    ∙ at),
                set_kids-Rep p kids rk dk under old new rks λ b j other out.
                    same b (or_mid (b == p) (has b kids) (has b rest) j) other
                      (rw (miss, under, kids_of) out),
                frame par rest rr λ b j.
                    same b (or_last (b == p) (has b kids) (has b rest) j)
                      (has-ne b a rest (apart a under) j)
                      (rw (miss, under, kids_of)
                        (not-has-kids_of a b kids (Apart-symm kids rest apart b j))),
              )
        | after miss out behind ↦
            rw (miss, out)
              (
                ne,
                rw (head-set_kids a ks rest) (
                    same p (rw (eq_self p)) (not-has_ne a p rest nr behind)
                      (rw (miss, out, kids_of) (not-has-kids_of a p rest nr))
                    ∙ at),
                frame p kids rk (λ b j.
                    same b (or_mid (b == p) (has b kids) (has b rest) j) (has-ne b a kids out j)
                      (rw (miss, out, kids_of) (not-has-kids_of a b rest (apart b j)))),
                set_kids-Rep par rest rr dr behind old new rks λ b j other gone.
                    same b (or_last (b == p) (has b kids) (has b rest) j) other
                      (rw (miss, out, kids_of) gone),
              )
      ]

-- Distinct addresses stay distinct, if the new children are new or were there before.
module _ (a : Ptr) (ks : Forest) (dks : Distinct ks) (outside : has a ks ≡ false) where
  abbrev OldOrNew : Forest → Type 0
  OldOrNew f = (b : Ptr) → has b ks ≡ true → has b (kids_of a f) ≡ false → has b f ≡ false

  -- A new child that is elsewhere in the forest was a child before.
  none_else :
      (f : Forest) (b : Ptr)
      → OldOrNew f
      → has b f ≡ true
      → has b (kids_of a f) ≡ false
      → has b ks ≡ false
  none_else f b fresh i out = elim (Bool-cases (has b ks)) [
    | inl j ↦ cc (fresh b j out)
    | inr o ↦ o
  ]

  not-has-set_kids :
      (b : Ptr) (f : Forest) → has b f ≡ false → has b ks ≡ false → has b (set_kids a ks f) ≡ false
  not-has-set_kids b f out new = elim (Bool-cases (has b (set_kids a ks f))) [
    | inl i ↦ elim (has-set_kids a b ks f i) [ inl j ↦ cc | inr j ↦ cc ]
    | inr o ↦ o
  ]

  pub set_kids-Distinct :
      (f : Forest) → Distinct f → has a f ≡ true → OldOrNew f → Distinct (set_kids a ks f)
  unfolding set_kids kids_of
  set_kids-Distinct nil d i fresh = cc
  set_kids-Distinct (cons p name kind kids rest) (nk, nr, apart, dk, dr) i fresh =
      elim (place a p kids rest i) [
        | here hit e ↦
            let clear = λ (b : Ptr) (j : has b rest ≡ true).
              none_else whole b fresh (or_last (b == p) (has b kids) (has b rest) j)
                (rw (hit, kids_of) (Apart-symm kids rest apart b j)) in
            rw hit (rw (← e) outside, nr, Apart-symm rest ks clear, dks, dr)
        | below miss under ↦
            let apart' = λ (b : Ptr) (j : has b rest ≡ true).
              not-has-set_kids b kids (Apart-symm kids rest apart b j) (
                none_else whole b fresh (or_last (b == p) (has b kids) (has b rest) j) (
                  rw (miss, under, kids_of)
                    (not-has-kids_of a b kids (Apart-symm kids rest apart b j)))) in
            rw (miss, under)
              (
                not-has-set_kids p kids nk (
                    none_else whole p fresh (rw (eq_self p))
                      (rw (miss, under, kids_of) (not-has-kids_of a p kids nk))),
                nr,
                Apart-symm rest (set_kids a ks kids) apart',
                set_kids-Distinct kids dk under λ b j out.
                    (or_false (b == p) (has b kids) (has b rest)
                      (fresh b j (rw (miss, under, kids_of) out))).1,
                dr,
              )
        | after miss out behind ↦
            let apart' = λ (b : Ptr) (j : has b kids ≡ true). not-has-set_kids b rest (apart b j) (
              none_else whole b fresh (or_mid (b == p) (has b kids) (has b rest) j)
                (rw (miss, out, kids_of) (not-has-kids_of a b rest (apart b j)))) in
            rw (miss, out)
              (
                nk,
                not-has-set_kids p rest nr (
                    none_else whole p fresh (rw (eq_self p))
                      (rw (miss, out, kids_of) (not-has-kids_of a p rest nr))),
                apart',
                dk,
                set_kids-Distinct rest dr behind λ b j gone.
                    (or_false (b == p) (has b kids) (has b rest)
                      (fresh b j (rw (miss, out, kids_of) gone))).2,
              )
      ]
    where
      whole : Forest
      whole = cons p name kind kids rest
