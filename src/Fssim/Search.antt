-- ===== src/Fssim/Search.antt =====
-- searchTree of lab1_devito.c on the forest that the heap holds.
use cs.Base.{
  ℕ, zero, suc, ◌+◌, ◌<◌, ◌≡◌, refl, inl, inr, Bool, true, false, not, ◌||◌, some, Text, streq,
  eq_of_streq, ◌==◌, Bool-cases, if◌then◌else◌, arith, ap, sym, ◌≢◌, ◌∙◌,
}
use cs.Fssim.{Ptr, null, Node, Heap, State, ok}
use cs.Fssim.Commands.{search_tree, search_children}
use cs.Fssim.Forest.{
  Forest, nil, cons, head, size, has, Rep, find, load-ok, not-null, node, eq_self, or_mid, or_last,
  or_false,
}

-- On a heap that holds the forest `f`, with fuel above twice its size, the loop of searchTree over
-- the children, from the first node of `f` on, returns what the recursive `find` on the forest
-- does, and changes nothing.
pub search_children-find :
    (k : ℕ) (par : Ptr) (f : Forest) (name : Text) (s : State)
    → Rep s.heap par f
    → size f + size f < k
    → search_children k (head f) name s ≡ ok (find name f) s
unfolding search_tree find
search_children-find zero par f name s r fuel = absurd (omega arith)
search_children-find (suc k) par nil name s r fuel = refl
search_children-find (suc zero) par (cons p label kind kids rest) name s r fuel =
    absurd (omega arith)
search_children-find (suc (suc k)) par (cons p label kind kids rest) name s (ne, at, rk, rr) fuel =
    rw (not-null ne, load-ok s ne at)
      (elim (Bool-cases (streq label name)) [
        | inl hit ↦ rw (hit, not-null ne)
        | inr miss ↦
            rw (miss, search_children-find k p kids name s rk (omega arith))
              (elim (Bool-cases (find name kids == null)) [
                | inl none_here ↦
                    rw (none_here, load-ok s ne at)
                      (search_children-find (suc k) par rest name s rr (omega arith))
                | inr found ↦ rw found
              ])
      ])

or_null : (r : Ptr) → (if r == null then null else r) ≡ r
or_null r = ground arith

-- `searchTree` at one node: the node itself and what is below it, not its siblings.
abbrev pub first : Forest → Forest
first nil = nil
first (cons p name kind kids rest) = cons p name kind kids nil

-- On a heap that holds the forest `f`, with fuel above twice its size, searchTree at the first
-- node of `f` returns what `find` does on that node and what is below it, without its later
-- siblings, and changes nothing.
pub search_tree-find :
    (k : ℕ) (par : Ptr) (f : Forest) (name : Text) (s : State)
    → Rep s.heap par f
    → size f + size f < k
    → search_tree k (head f) name s ≡ ok (find name (first f)) s
unfolding search_tree find
search_tree-find zero par f name s r fuel = absurd (omega arith)
search_tree-find (suc k) par nil name s r fuel = refl
search_tree-find (suc k) par (cons p label kind kids rest) name s (ne, at, rk, rr) fuel =
    rw (not-null ne, load-ok s ne at)
      (elim (Bool-cases (streq label name)) [
        | inl hit ↦ rw hit
        | inr miss ↦
            rw (miss, search_children-find k p kids name s rk (omega arith))
              (ap (λ r. ok r s) (sym (or_null (find name kids))))
      ])

abbrev pub has_name : Text → Forest → Bool
has_name name nil = false
has_name name (cons p label kind kids rest) =
    streq label name || (has_name name kids || has_name name rest)

eq_comm : (p q : Ptr) → (p == q) ≡ (q == p)
eq_comm p q = ground arith

null_or :
    (p q : Ptr) (b c : Bool)
    → (p == null) ≡ not b
    → (q == null) ≡ not c
    → ((if p == null then q else p) == null) ≡ not (b || c)
null_or p q b c e d = ground arith

pub Rep-not-null : (h : Heap) (par : Ptr) (f : Forest) → Rep h par f → has null f ≡ false
Rep-not-null h par nil r = refl
Rep-not-null h par (cons p label kind kids rest) (ne, at, rk, rr) =
    rw (Rep-not-null h p kids rk, Rep-not-null h par rest rr, null_ne p ne)
  where
    null_ne : (p : Ptr) → p ≢ null → (null == p) ≡ false
    null_ne p ne = ground arith

-- `find` fails on the names that no node has.
pub find-has_name :
    (f : Forest) (name : Text) → has null f ≡ false → (find name f == null) ≡ not (has_name name f)
unfolding find
find-has_name nil name out = refl
find-has_name (cons p label kind kids rest) name out =
    let (ne, out_kids, out_rest) = or_false (null == p) (has null kids) (has null rest) out in
    elim (Bool-cases (streq label name)) [
      | inl hit ↦ rw hit (eq_comm p null ∙ ne)
      | inr miss ↦ rw miss (
          null_or (find name kids) (find name rest) (has_name name kids) (has_name name rest)
            (find-has_name kids name out_kids) (find-has_name rest name out_rest))
    ]

pub first-not-null : (f : Forest) → has null f ≡ false → has null (first f) ≡ false
first-not-null nil out = refl
first-not-null (cons p label kind kids rest) out =
    let (ne, out_kids, out_rest) = or_false (null == p) (has null kids) (has null rest) out in
    rw (ne, out_kids)

-- What `find` returns is the address in the forest of a node of that name.
pub record Found (h : Heap) (f : Forest) (name : Text) (p : Ptr) : Type 0 where
  pub inside : has p f ≡ true
  pub target : Node
  pub at : h p ≡ some target
  pub named : target.name ≡ name

-- On a heap that holds the forest `f`, an address other than NULL that `find` returns is the
-- address of a node of the forest, and that node has the name.
pub find-Found :
    (h : Heap) (par : Ptr) (f : Forest) (name : Text)
    → Rep h par f
    → (find name f == null) ≡ false
    → Found h f name (find name f)
unfolding find
find-Found h par nil name r found = cc
find-Found h par (cons p label kind kids rest) name (ne, at, rk, rr) found =
    elim (Bool-cases (streq label name)) [
      | inl hit ↦ rw hit (record {
        inside = rw (eq_self p);
        target = node label kind (head kids) (head rest) par;
        at = at;
        named = eq_of_streq label name hit;
      })
      | inr miss ↦ elim (Bool-cases (find name kids == null)) [
        | inl gone ↦
            rw (miss, gone)
              (let r = find-Found h par rest name rr (rw (miss, gone) at found) in
                record {
                  inside = or_last _ _ (has (find name rest) rest) r.inside;
                  target = r.target;
                  at = r.at;
                  named = r.named;
                })
        | inr there ↦
            rw (miss, there)
              (let r = find-Found h p kids name rk there in
                record {
                  inside = or_mid _ (has (find name kids) kids) _ r.inside;
                  target = r.target;
                  at = r.at;
                  named = r.named;
                })
      ]
    ]
