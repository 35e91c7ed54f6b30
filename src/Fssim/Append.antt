-- ===== src/Fssim/Append.antt =====
-- A new node behind the last child of a directory, as the reload command of lab1_devito.c links it.
use cs.Base.{
  ℕ, zero, suc, ◌+◌, ◌<◌, ◌≡◌, refl, ◌≢◌, ◌⊎◌, sym, ap, ◌∙◌, true, false, some, Text, ◌==◌, arith,
}
use mathlib.Core.Option.{some-injective}
use cs.Fssim.{Ptr, null, Node, Heap, State, ok, write, set_sibling}
use cs.Fssim.Disk.{append_last}
use cs.Fssim.Forest.{
  Forest, nil, cons, size, has, Distinct, node, Rep, eq_self, load-ok, not-null, or_false, has-ne,
  not-has_ne,
}
use cs.Fssim.Edit.{Apart-symm}
use cs.Fssim.Invariant.{write_self, write_other, frame-write}

-- The forest with the node behind its last one.
abbrev pub behind : Ptr → Text → ℕ → Forest → Forest
behind p name kind nil = cons p name kind nil nil
behind p name kind (cons q label sort kids rest) = cons q label sort kids (behind p name kind rest)

abbrev pub last_of : Forest → Ptr
last_of nil = null
last_of (cons q label sort kids nil) = q
last_of (cons q label sort kids (cons q' label' sort' kids' rest)) =
    last_of (cons q' label' sort' kids' rest)

pub has-behind :
    (b p : Ptr) (name : Text) (kind : ℕ) (f : Forest)
    → has b (behind p name kind f) ≡ true
    → (has b f ≡ true) ⊎ ((b == p) ≡ true)
has-behind b p name kind nil i = ground arith
has-behind b p name kind (cons q label sort kids rest) i =
    ground (arith, has-behind b p name kind rest)

pub size-behind :
    (p : Ptr) (name : Text) (kind : ℕ) (f : Forest) → size (behind p name kind f) ≡ size f + 1
size-behind p name kind nil = omega arith
size-behind p name kind (cons q label sort kids rest) = omega (arith, size-behind p name kind rest)

pub not-has-behind :
    (b p : Ptr) (name : Text) (kind : ℕ) (f : Forest)
    → has b f ≡ false
    → (b == p) ≡ false
    → has b (behind p name kind f) ≡ false
not-has-behind b p name kind nil out other = ground arith
not-has-behind b p name kind (cons q label sort kids rest) out other =
    ground (arith, not-has-behind b p name kind rest)

pub behind-Distinct :
    (p : Ptr) (name : Text) (kind : ℕ) (f : Forest)
    → Distinct f
    → has p f ≡ false
    → Distinct (behind p name kind f)
behind-Distinct p name kind nil d out = (refl, refl, λ b i. refl, tt, tt)
behind-Distinct p name kind (cons q label sort kids rest) (nk, nr, apart, dk, dr) out =
    let (other, in_kids, in_rest) = or_false (p == q) (has p kids) (has p rest) out in
    (
      nk,
      not-has-behind q p name kind rest nr (eq_comm q p ∙ other),
      λ b i. not-has-behind b p name kind rest (apart b i) (has-ne b p kids in_kids i),
      dk,
      behind-Distinct p name kind rest dr in_rest,
    )
  where
    eq_comm : (q p : Ptr) → (q == p) ≡ (p == q)
    eq_comm q p = ground arith

-- The last node of a list of children is one of them, and has no sibling.
pub last_node :
    (h : Heap) (par q : Ptr) (label : Text) (sort : ℕ) (kids rest : Forest)
    → Rep h par (cons q label sort kids rest)
    → (m : Node) × (h (last_of (cons q label sort kids rest)) ≡ some m)
      × (last_of (cons q label sort kids rest) ≢ null)
      × (m.sibling ≡ null)
      × (has (last_of (cons q label sort kids rest)) (cons q label sort kids rest) ≡ true)
last_node h par q label sort kids nil (ne, at, rk, rr) = (_, at, ne, refl, rw (eq_self q) refl)
last_node h par q label sort kids (cons q' label' sort' kids' rest) (ne, at, rk, rr) =
    let (m, found, there, end, inside) = last_node h par q' label' sort' kids' rest rr in
    (m, found, there, end, ground arith)

-- The walk of append_last, and its write.
pub append_last-last :
    (k : ℕ) (par q : Ptr) (label : Text) (sort : ℕ) (kids rest : Forest) (p : Ptr) (s : State)
    (m : Node)
    → Rep s.heap par (cons q label sort kids rest)
    → size (cons q label sort kids rest) < k
    → s.heap (last_of (cons q label sort kids rest)) ≡ some m
    → append_last k q p s
      ≡ ok tt (record s {
        heap =
            write s.heap (last_of (cons q label sort kids rest)) (some (record m { sibling = p }));
      })
unfolding append_last set_sibling
append_last-last zero par q label sort kids rest p s m r fuel at = absurd (omega arith)
append_last-last (suc k) par q label sort kids nil p s m (ne, here, rk, rr) fuel at =
    rw (append_last, load-ok s ne here, set_sibling, load-ok s ne at) refl
append_last-last (suc k) par q label sort kids (cons q' label' sort' kids' rest) p s m
      (ne, here, rk, rr) fuel at =
    rw (append_last, load-ok s ne here, not-null rr.0)
      (append_last-last k par q' label' sort' kids' rest p s m rr (omega arith) at)

-- What the heap holds behind the write.
pub behind-Rep :
    (h : Heap) (par p q : Ptr) (label : Text) (sort : ℕ) (kids rest : Forest) (name : Text)
    (kind : ℕ) (m : Node)
    → Rep h par (cons q label sort kids rest)
    → Distinct (cons q label sort kids rest)
    → h (last_of (cons q label sort kids rest)) ≡ some m
    → p ≢ null
    → (p == last_of (cons q label sort kids rest)) ≡ false
    → h p ≡ some (node name kind null null par)
    → Rep
        (write h (last_of (cons q label sort kids rest)) (some (record m { sibling = p })))
        par
        (behind p name kind (cons q label sort kids rest))
behind-Rep h par p q label sort kids nil name kind m (ne, at, rk, rr) (nk, nr, apart, dk, dr) found
      pne other new =
    (
      ne,
      write_self h q _
          ∙ ap (λ (x : Node). some (record x { sibling = p }))
              (some-injective m _ (sym found ∙ at)),
      frame-write h q q _ kids rk nk,
      (pne, write_other h q p _ other ∙ new, tt, tt),
    )
behind-Rep h par p q label sort kids (cons q' label' sort' kids' rest) name kind m (ne, at, rk, rr)
      (nk, nr, apart, dk, dr) found pne other new =
    let (x, somewhere, there, end, inside) = last_node h par q' label' sort' kids' rest rr in
    let l = last_of (cons q' label' sort' kids' rest) in
    (
      ne,
      write_other h l q _ (not-has_ne l q (cons q' label' sort' kids' rest) nr inside) ∙ at,
      frame-write h q l _ kids rk
          (Apart-symm kids (cons q' label' sort' kids' rest) apart l inside),
      behind-Rep h par p q' label' sort' kids' rest name kind m rr dr found pne other new,
    )
