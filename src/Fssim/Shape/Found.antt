-- ===== src/Fssim/Shape/Found.antt =====
-- A new node behind the children of the node that searchTree finds, on the tree without addresses.
use cs.Base.{
  ◌≡◌, refl, ap, ◌∙◌, sym, Bool, true, false, not, ◌||◌, Bool-cases, inl, inr, streq, Text, ◌==◌, ℕ,
  arith,
}
use cs.Fssim.{Ptr, null, Heap}
use cs.Fssim.Forest.{
  Forest, nil, cons, has, Distinct, Rep, kids_of, set_kids, find, eq_self, has-ne,
}
use cs.Fssim.Edit.{Apart-symm}
use cs.Fssim.Search.{has_name, find-has_name, Rep-not-null, find-Found}
use cs.Fssim.Append.{behind}
use cs.Fssim.Shape.{
  Shape, empty, entry_of, shape, known, join, graft, graft_here, graft_below, graft_after,
}

has_name-known : (name : Text) (f : Forest) → has_name name f ≡ known name (shape f)
has_name-known name nil = refl
has_name-known name (cons p label kind kids rest) =
    rw (has_name-known name kids, has_name-known name rest) refl

-- `find` fails on the names that no entry has.
pub find-known :
    (h : Heap) (par : Ptr) (f : Forest) (name : Text)
    → Rep h par f
    → (find name f == null) ≡ not (known name (shape f))
find-known h par f name r =
    find-has_name f name (Rep-not-null h par f r) ∙ ap not (has_name-known name f)

shape-behind :
    (p : Ptr) (name : Text) (kind : ℕ) (f : Forest)
    → shape (behind p name kind f) ≡ join (shape f) (entry_of name kind empty empty)
shape-behind p name kind nil = refl
shape-behind p name kind (cons q label sort kids rest) =
    ap (entry_of label sort (shape kids)) (shape-behind p name kind rest)

module _ (h : Heap) (p : Ptr) (up name : Text) (kind : ℕ) where
  abbrev grown_at : Ptr → Forest → Forest
  grown_at d f = set_kids d (behind p name kind (kids_of d f)) f

  abbrev one : Shape
  one = entry_of name kind empty empty

  at_here :
      (d q : Ptr) (label : Text) (sort : ℕ) (kids rest : Forest)
      → (d == q) ≡ true
      → grown_at d (cons q label sort kids rest) ≡ cons q label sort (behind p name kind kids) rest
  unfolding set_kids kids_of
  at_here d q label sort kids rest e = rw (set_kids, kids_of, e) refl

  at_below :
      (d q : Ptr) (label : Text) (sort : ℕ) (kids rest : Forest)
      → (d == q) ≡ false
      → has d kids ≡ true
      → grown_at d (cons q label sort kids rest) ≡ cons q label sort (grown_at d kids) rest
  unfolding set_kids kids_of
  at_below d q label sort kids rest e i =
      ap (λ ks. set_kids d (behind p name kind ks) (cons q label sort kids rest)) (kids_below e i)
      ∙ set_below _ e i
    where
      kids_below :
          (d == q) ≡ false
          → has d kids ≡ true
          → kids_of d (cons q label sort kids rest) ≡ kids_of d kids
      kids_below e i = rw (kids_of, e, i) refl

      set_below :
          (ks : Forest)
          → (d == q) ≡ false
          → has d kids ≡ true
          → set_kids d ks (cons q label sort kids rest)
            ≡ cons q label sort (set_kids d ks kids) rest
      set_below ks e i = rw (set_kids, e, i) refl

  at_after :
      (d q : Ptr) (label : Text) (sort : ℕ) (kids rest : Forest)
      → (d == q) ≡ false
      → has d kids ≡ false
      → grown_at d (cons q label sort kids rest) ≡ cons q label sort kids (grown_at d rest)
  unfolding set_kids kids_of
  at_after d q label sort kids rest e i =
      ap (λ ks. set_kids d (behind p name kind ks) (cons q label sort kids rest)) (kids_after e i)
      ∙ set_after _ e i
    where
      kids_after :
          (d == q) ≡ false
          → has d kids ≡ false
          → kids_of d (cons q label sort kids rest) ≡ kids_of d rest
      kids_after e i = rw (kids_of, e, i) refl

      set_after :
          (ks : Forest)
          → (d == q) ≡ false
          → has d kids ≡ false
          → set_kids d ks (cons q label sort kids rest)
            ≡ cons q label sort kids (set_kids d ks rest)
      set_after ks e i = rw (set_kids, e, i) refl

  pub shape-grown :
      (par : Ptr) (f : Forest)
      → Rep h par f
      → Distinct f
      → known up (shape f) ≡ true
      → shape (grown_at (find up f) f) ≡ graft up one (shape f)
  unfolding find
  shape-grown par nil r d i = cc
  shape-grown par (cons q label sort kids rest) (ne, at, rk, rr) (nk, nr, apart, dk, dr) i =
      elim (Bool-cases (streq label up)) [
        | inl hit ↦
            rw (find, hit)
              (ap shape (at_here q q label sort kids rest (eq_self q))
                ∙ ap (λ ks. entry_of label sort ks (shape rest)) (shape-behind p name kind kids)
                ∙ sym (graft_here up one label sort (shape kids) (shape rest) hit))
        | inr miss ↦ elim (Bool-cases (known up (shape kids))) [
          | inl under ↦
              let some_kid : (find up kids == null) ≡ false =
                find-known h q kids up rk ∙ ap not under in
              let found = (find-Found h q kids up rk some_kid).inside in
              rw (find, miss, some_kid)
                (ap shape (
                    at_below (find up kids) q label sort kids rest
                      (has-ne (find up kids) q kids nk found) found)
                  ∙ ap (λ ks. entry_of label sort ks (shape rest)) (shape-grown q kids rk dk under)
                  ∙ sym (graft_below up one label sort (shape kids) (shape rest) miss under))
          | inr out ↦
              let no_kid : (find up kids == null) ≡ true = find-known h q kids up rk ∙ ap not out in
              let behind_it = last_or _ _ _ miss out i in
              let there : (find up rest == null) ≡ false =
                find-known h par rest up rr ∙ ap not behind_it in
              let found = (find-Found h par rest up rr there).inside in
              rw (find, miss, no_kid)
                (ap shape (
                    at_after (find up rest) q label sort kids rest
                      (has-ne (find up rest) q rest nr found)
                      (Apart-symm kids rest apart (find up rest) found))
                  ∙ ap (entry_of label sort (shape kids)) (shape-grown par rest rr dr behind_it)
                  ∙ sym (graft_after up one label sort (shape kids) (shape rest) miss out))
        ]
      ]
    where
      last_or : (a b c : Bool) → a ≡ false → b ≡ false → (a || (b || c)) ≡ true → c ≡ true
      last_or a b c ea eb h = ground arith
