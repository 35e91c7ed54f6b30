-- ===== src/Fssim/Session/Insert.antt =====
-- A new node behind the last child of a directory keeps the state of lab1_devito.c ready.
use mathlib.Core.Logic.{inl, inr}
use mathlib.Core.Path.{subst}
use cs.Base.{
  ℕ, ◌+◌, ◌≤◌, length, ◌<◌, ◌≡◌, ◌≢◌, refl, sym, ap, ◌∙◌, true, false, none, some, List, ◌∷◌, Text,
  Unused, Unused-next, ◌==◌, ==_iff, arith, if◌then◌else◌,
}
use cs.Fssim.{Ptr, null, Node, Heap, State, ok, write, set_child}
use cs.Fssim.Disk.{append_last}
use cs.Fssim.Forest.{
  Forest, nil, cons, head, size, has, Distinct, node, Rep, Within, kids_of, set_kids, load-ok,
  not-null, not-has_of_none, not-same, has-ne, not-has_ne,
}
use cs.Fssim.Edit.{
  SameBut, set_kids-Rep, set_kids-Distinct, not-has-kids_of, not-has-kids_of_self, kids_of-Distinct,
  has-kids_of,
}
use cs.Fssim.Invariant.{set_kids-IsRoot, size-kids_of, write_self, write_other, frame-write}
use cs.Fssim.Append.{
  behind, last_of, has-behind, not-has-behind, size-behind, behind-Distinct, last_node,
  append_last-last, behind-Rep,
}
use cs.Fssim.Commands.{fits}
use cs.Fssim.Session.{Ready, Came}
use cs.Fssim.Session.Names.{fits-lt, AllShort-kids_of, AllShort-set_kids, AllShort-behind}
use cs.Fssim.Session.Steps.{size-set_kids}

-- What is in the forest is in the changed one, unless it was below the former children only.
has-set_kids_still :
    (a b : Ptr) (ks f : Forest)
    → (has b (kids_of a f) ≡ true → has b ks ≡ true)
    → has b f ≡ true
    → has b (set_kids a ks f) ≡ true
unfolding set_kids kids_of
has-set_kids_still a b ks nil up i = cc
has-set_kids_still a b ks (cons p name kind kids rest) up i =
    ground (arith, has-set_kids_still a b ks kids, has-set_kids_still a b ks rest)

has-behind_still :
    (b p : Ptr) (name : Text) (kind : ℕ) (f : Forest)
    → has b f ≡ true
    → has b (behind p name kind f) ≡ true
has-behind_still b p name kind nil i = cc
has-behind_still b p name kind (cons q label sort kids rest) i =
    ground (arith, has-behind_still b p name kind rest)

-- What an insertion comes to.
pub record Inserted (s : State) (t : Forest) (d p : Ptr) (ps : List Ptr) (name : Text) (kind : ℕ)
    (s' : State) : Type 0 where
  pub ready : Ready s' (set_kids d (behind p name kind (kids_of d t)) t)
  pub left : s'.pool ≡ ps
  pub file : s'.file ≡ s.file

pub Inserted-room :
    (s s' : State) (t : Forest) (d p : Ptr) (ps : List Ptr) (name : Text) (kind : ℕ)
    → s.pool ≡ p ∷ ps
    → Inserted s t d p ps name kind s'
    → size (set_kids d (behind p name kind (kids_of d t)) t) + length s'.pool
      ≤ size t + length s.pool
Inserted-room s s' t d p ps name kind pool l =
    let grows =
      size-set_kids d 1 (behind p name kind (kids_of d t)) t
        (omega (arith, size-behind p name kind (kids_of d t))) in
    rw (l.left, pool) (omega (arith, grows))

pub Inserted-Came :
    (s s' : State) (t : Forest) (d p : Ptr) (ps : List Ptr) (name : Text) (kind : ℕ)
    → s.pool ≡ p ∷ ps
    → Inserted s t d p ps name kind s'
    → Came s t s'
Inserted-Came s s' t d p ps name kind pool l = record {
  tree = set_kids d (behind p name kind (kids_of d t)) t;
  ready = l.ready;
  room = Inserted-room s s' t d p ps name kind pool l;
  file = λ k before room. rw l.file before;
}

module _ (s : State) (t : Forest) (r : Ready s t) (d p : Ptr) (ps : List Ptr) (name : Text)
    (kind : ℕ) (inside : has d t ≡ true) (pool : s.pool ≡ p ∷ ps) (ne : p ≢ null)
    (free : s.heap p ≡ none) (once : Unused s.heap (p ∷ ps)) (short : fits name ≡ true) where
  abbrev pub kids : Forest
  kids = kids_of d t

  abbrev pub grown : Forest
  grown = behind p name kind kids

  new_out : has p t ≡ false
  new_out = not-has_of_none s.heap s.root p t r.holds.rep free

  grown_unused : (b : Ptr) → has b grown ≡ true → has b kids ≡ false → has b t ≡ false
  grown_unused b i out = elim (has-behind b p name kind kids i) [
    | inl old ↦ cc
    | inr is_p ↦ rw ((==_iff b p).0 is_p) new_out
  ]

  d-ne : (d == p) ≡ false
  d-ne = has-ne d p t new_out inside

  d-out : has d grown ≡ false
  d-out = not-has-behind d p name kind kids (not-has-kids_of_self d t r.holds.distinct) d-ne

  -- From what the changed heap holds.
  insert-Inserted :
      (g : Heap) (n : Node)
      → s.heap d ≡ some n
      → g d ≡ some (record n { child = head grown })
      → Rep g d grown
      → SameBut d kids t g s.heap
      → ((b : Ptr) → s.heap b ≡ none → (b == p) ≡ false → g b ≡ none)
      → Inserted s t d p ps name kind (record s { pool = ps; heap = g })
  insert-Inserted g n old new rep same spare = record {
    ready = record {
      holds = record {
        rep =
            set_kids-Rep g s.heap d n grown s.root t r.holds.rep r.holds.distinct inside old new rep
              same;
        distinct =
            set_kids-Distinct d grown
              (behind-Distinct p name kind kids (kids_of-Distinct d t r.holds.distinct)
                (not-has-kids_of d p t new_out))
              d-out t r.holds.distinct inside grown_unused;
        top = set_kids-IsRoot s.root d grown t r.holds.top;
        cwd_in =
            has-set_kids_still d s.cwd grown t (has-behind_still s.cwd p name kind kids)
              r.holds.cwd_in;
      };
      spare = Unused-next s.heap g p ps once.2 spare once.3;
      named =
          AllShort-set_kids d grown t
            (AllShort-behind p name kind kids (fits-lt name short) (AllShort-kids_of d t r.named))
            r.named;
    };
    left = refl;
    file = refl;
  }

  -- The heap with the new node, before it is linked.
  abbrev pub stored_heap : Heap
  stored_heap = write s.heap p (some (node name kind null null d))

  abbrev pub stored_state : State
  stored_state = record s { pool = ps; heap = stored_heap }

  pub record Linked (k : ℕ) (n : Node) : Type 0 where
    pub after : State
    pub run :
        (if n.child == null then set_child d p else append_last k n.child p) stored_state
        ≡ ok tt after
    pub inserted : Inserted s t d p ps name kind after

  pub stored_still : (b : Ptr) → has b t ≡ true → stored_heap b ≡ s.heap b
  stored_still b i = write_other s.heap p b _ (has-ne b p t new_out i)

  stored_free : (b : Ptr) → s.heap b ≡ none → (b == p) ≡ false → stored_heap b ≡ none
  stored_free b e other = write_other s.heap p b _ other ∙ e

  module _ (k : ℕ) (fuel : size t < k) (n : Node) (w : Within s.heap t d n) where
    link_first : kids ≡ nil → Linked k n
    unfolding set_child
    link_first e =
        let no_child : n.child ≡ null = w.child ∙ ap head e in
        let g : Heap = write stored_heap d (some (record n { child = p })) in
        let is_new : grown ≡ cons p name kind nil nil = ap (behind p name kind) e in
        record {
          after = record s { pool = ps; heap = g };
          run =
              rw (no_child, set_child, load-ok stored_state w.ne (stored_still d inside ∙ w.at))
                refl;
          inserted =
              insert-Inserted g n w.at (rw is_new (write_self stored_heap d _))
                (subst (Rep g d) (sym is_new) (
                  ne,
                  write_other stored_heap d p _ (not-has_ne d p t new_out inside)
                      ∙ write_self s.heap p _,
                  tt,
                  tt,
                ))
                (λ b i other out. write_other stored_heap d b _ other ∙ stored_still b i)
                (λ b e2 other.
                  write_other stored_heap d b _ (not-same s.heap b d n w.at e2)
                  ∙ stored_free b e2 other);
        }

    link_last :
        (q : Ptr) (label : Text) (sort : ℕ) (below rest : Forest)
        → kids ≡ cons q label sort below rest
        → Linked k n
    link_last q label sort below rest e =
        let f : Forest = cons q label sort below rest in
        let l : Ptr = last_of f in
        let rep : Rep s.heap d f = subst (Rep s.heap d) e w.kids in
        let distinct : Distinct f = subst Distinct e (kids_of-Distinct d t r.holds.distinct) in
        let (m, found, there, end, among) = last_node s.heap d q label sort below rest rep in
        let l_in : has l kids ≡ true = subst (λ x. has l x ≡ true) (sym e) among in
        let p_out : has p f ≡ false =
          subst (λ x. has p x ≡ false) e (not-has-kids_of d p t new_out) in
        let d_out : has d f ≡ false =
          subst (λ x. has d x ≡ false) e (not-has-kids_of_self d t r.holds.distinct) in
        let rep1 : Rep stored_heap d f = frame-write s.heap d p _ f rep p_out in
        let found1 : stored_heap l ≡ some m = stored_still l (has-kids_of d l t l_in) ∙ found in
        let g : Heap = write stored_heap l (some (record m { sibling = p })) in
        let child : n.child ≡ q = w.child ∙ ap head e in
        let is_new : grown ≡ behind p name kind f = ap (behind p name kind) e in
        let d_at : g d ≡ some n =
          write_other stored_heap l d _ (not-has_ne l d f d_out among)
          ∙ stored_still d inside
          ∙ w.at in
        record {
          after = record s { pool = ps; heap = g };
          run =
              rw (child, not-null rep.0)
                (append_last-last k d q label sort below rest p stored_state m rep1
                  (omega (arith, fuel, size-kids_of d t, ap size e)) found1);
          inserted =
              insert-Inserted g n w.at
                (d_at ∙ ap some (rw is_new (ap (λ c. record n { child = c }) child)))
                (subst (Rep g d) (sym is_new) (
                  behind-Rep stored_heap d p q label sort below rest name kind m rep1 distinct
                    found1 ne (not-has_ne l p f p_out among) (write_self s.heap p _)))
                (λ b i other out.
                  write_other stored_heap l b _ (not-has_ne l b kids out l_in) ∙ stored_still b i)
                (λ b e2 other.
                  write_other stored_heap l b _ (not-same s.heap b l m found e2)
                  ∙ stored_free b e2 other);
        }

    pub link-Linked : Linked k n
    link-Linked = from kids refl
      where
        from : (f : Forest) → kids ≡ f → Linked k n
        from nil e = link_first e
        from (cons q label sort below rest) e = link_last q label sort below rest e
