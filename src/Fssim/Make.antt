-- ===== src/Fssim/Make.antt =====
-- The theorems on mkdir and creat of lab1_devito.c.
use cs.Base.{
  ℕ, ◌+◌, ◌<◌, ◌≡◌, refl, ◌≢◌, true, false, none, some, List, ◌∷◌, ◌++◌, Text, codes, Bool, not,
  ◌||◌, ◌==◌, ==_iff, arith, ◌∙◌,
}
use cs.Fssim.{Ptr, null, Node, State, ok, write, malloc, set_child, dir, regular}
use cs.Fssim.Commands.{entry, fits, add_entry, mkdir, creat, search_tree}
use cs.Fssim.Forest.{
  Forest, nil, cons, size, has, Distinct, Rep, Within, kids_of, set_kids, find, load-ok, not-null,
  has-Within, not-has_of_none, has-ne, not-has_ne, not-same,
}
use cs.Fssim.Search.{first, has_name, search_tree-find, find-has_name, first-not-null, Rep-not-null}
use cs.Fssim.Edit.{
  set_kids-Rep, set_kids-Distinct, set_kids-has, not-has-kids_of, not-has-kids_of_self,
  kids_of-Distinct,
}
use cs.Fssim.Invariant.{Holds, set_kids-IsRoot, size-kids_of, write_self, write_other, frame-write}

-- The tree with a new entry in the directory at `d`.
abbrev pub with_entry : Ptr → Ptr → Text → ℕ → Forest → Forest
with_entry d p name kind t = set_kids d (cons p name kind nil (kids_of d t)) t

-- Everything but the tree and the addresses that `malloc` has left stays, and what was not in use
-- is not, but for the new address `p`.
pub record Added (s s' : State) (p : Ptr) (ps : List Ptr) (t' : Forest) : Type 0 where
  pub holds : Holds s' t'
  pub root : s'.root ≡ s.root
  pub cwd : s'.cwd ≡ s.cwd
  pub pool : s'.pool ≡ ps
  pub out : s'.out ≡ s.out
  pub file : s'.file ≡ s.file
  pub spare : (b : Ptr) → s.heap b ≡ none → (b == p) ≡ false → s'.heap b ≡ none

is_new : (x y : Bool) → (x || (false || y)) ≡ true → y ≡ false → x ≡ true
is_new true y i out = refl
is_new false y i out = cc

module _ (s : State) (t : Forest) (p : Ptr) (ps : List Ptr) (name : Text) (kind : ℕ)
    (inv : Holds s t) (pool : s.pool ≡ p ∷ ps) (ne : p ≢ null) (unused : s.heap p ≡ none) where
  new_out : has p t ≡ false
  new_out = not-has_of_none s.heap s.root p t inv.rep unused

  added : Node → State
  added n = record s {
    pool = ps;
    heap =
        write (write s.heap p (some (entry kind name n.child s.cwd))) s.cwd
          (some (record n { child = p }));
  }

  malloc_lem : malloc s ≡ ok p (record s { pool = ps })
  unfolding malloc
  malloc_lem = rw (pool, not-null ne)

  -- The new children of the current directory.
  abbrev grown : Forest
  grown = cons p name kind nil (kids_of s.cwd t)

  cwd-ne : (s.cwd == p) ≡ false
  cwd-ne = has-ne s.cwd p t new_out inv.cwd_in

  grown_unused : (b : Ptr) → has b grown ≡ true → has b (kids_of s.cwd t) ≡ false → has b t ≡ false
  grown_unused b i out =
      rw ((==_iff b p).0 (is_new (b == p) (has b (kids_of s.cwd t)) i out)) new_out

  added-Distinct : Distinct (with_entry s.cwd p name kind t)
  added-Distinct =
      set_kids-Distinct s.cwd grown
        (
          refl,
          not-has-kids_of s.cwd p t new_out,
          λ a i. cc,
          tt,
          kids_of-Distinct s.cwd t inv.distinct,
        )
        (rw (cwd-ne, not-has-kids_of_self s.cwd t inv.distinct)) t inv.distinct inv.cwd_in
        grown_unused

  grown-Rep : (n : Node) → Within s.heap t s.cwd n → Rep (added n).heap s.cwd grown
  unfolding added entry
  grown-Rep n w = (
    ne,
    write_other _ s.cwd p _ (not-has_ne s.cwd p t new_out inv.cwd_in)
        ∙ write_self s.heap p _
        ∙ rw w.child,
    tt,
    frame-write _ s.cwd s.cwd _ (kids_of s.cwd t)
        (frame-write s.heap s.cwd p _ (kids_of s.cwd t) w.kids (not-has-kids_of s.cwd p t new_out))
        (not-has-kids_of_self s.cwd t inv.distinct),
  )

  added-Holds :
      (n : Node) → Within s.heap t s.cwd n → Holds (added n) (with_entry s.cwd p name kind t)
  unfolding added
  added-Holds n w = record {
    rep =
        set_kids-Rep _ s.heap s.cwd n grown s.root t inv.rep inv.distinct inv.cwd_in w.at
          (write_self _ s.cwd _) (grown-Rep n w)
          λ b i other out.
            write_other _ s.cwd b _ other ∙ write_other s.heap p b _ (has-ne b p t new_out i);
    distinct = added-Distinct;
    top = set_kids-IsRoot s.root s.cwd _ t inv.top;
    cwd_in = set_kids-has s.cwd _ t inv.cwd_in;
  }

  add_entry-added :
      (n : Node)
      → Within s.heap t s.cwd n
      → fits name ≡ true
      → add_entry kind name s ≡ ok tt (added n)
  unfolding add_entry added set_child
  add_entry-added n w short = rw (
    malloc_lem,
    load-ok (record s { pool = ps }) w.ne w.at,
    short,
    load-ok (record s { pool = ps; heap = write s.heap p (some (entry kind name n.child s.cwd)) })
        w.ne (write_other s.heap p s.cwd _ cwd-ne ∙ w.at),
  )

  -- The shared tail of mkdir and creat, from a state that is well formed to one that is.
  pub add_entry-Added :
      fits name ≡ true
      → (s' : State) × (add_entry kind name s ≡ ok tt s')
        × Added s s' p ps (with_entry s.cwd p name kind t)
  unfolding added
  add_entry-Added short =
      let (n, w) = has-Within s.root s.cwd t inv.rep inv.cwd_in in
      (
        added n,
        add_entry-added n w short,
        record {
          holds = added-Holds n w;
          root = refl;
          cwd = refl;
          pool = refl;
          out = refl;
          file = refl;
          spare = λ b free other.
              write_other _ s.cwd b _ (not-same s.heap b s.cwd n w.at free)
              ∙ write_other s.heap p b _ other
              ∙ free;
        },
      )

-- What mkdir and creat test: a name at the first child of the directory or below it. The later
-- children are not looked at.
abbrev pub taken : Ptr → Text → Forest → Bool
taken d name t = has_name name (first (kids_of d t))

module _ (k : ℕ) (s : State) (t : Forest) (name : Text) (inv : Holds s t)
    (fuel : size t + size t < k) where
  search_lem :
      (n : Node)
      → Within s.heap t s.cwd n
      → search_tree k n.child name s ≡ ok (find name (first (kids_of s.cwd t))) s
  search_lem n w = rw w.child (
      search_tree-find k s.cwd (kids_of s.cwd t) name s w.kids
        (omega (arith, size-kids_of s.cwd t)))

  found_null : (find name (first (kids_of s.cwd t)) == null) ≡ not (taken s.cwd name t)
  found_null =
      let (n, w) = has-Within s.root s.cwd t inv.rep inv.cwd_in in
      find-has_name (first (kids_of s.cwd t)) name
        (first-not-null (kids_of s.cwd t) (Rep-not-null s.heap s.cwd (kids_of s.cwd t) w.kids))

  -- In a well formed state, with fuel above twice the number of nodes, mkdir of a name that a node
  -- at or below the first child of the current directory has prints the message that the directory
  -- exists, and changes nothing else.
  pub mkdir-taken :
      taken s.cwd name t ≡ true
      → mkdir k name s
        ≡ ok tt (record s { out = s.out ++ (codes "DIR " ++ (name ++ codes " already exists!\n")) })
  unfolding mkdir
  mkdir-taken there =
      let (n, w) = has-Within s.root s.cwd t inv.rep inv.cwd_in in
      rw (load-ok s w.ne w.at, search_lem n w, found_null, there)

  -- In a well formed state, with fuel above twice the number of nodes, creat of a name that a node
  -- at or below the first child of the current directory has prints the message that it exists,
  -- and changes nothing else.
  pub creat-taken :
      taken s.cwd name t ≡ true
      → creat k name s ≡ ok tt (record s { out = s.out ++ (name ++ codes " already exists!\n") })
  unfolding creat
  creat-taken there =
      let (n, w) = has-Within s.root s.cwd t inv.rep inv.cwd_in in
      rw (load-ok s w.ne w.at, search_lem n w, found_null, there)

  pub mkdir-add_entry : taken s.cwd name t ≡ false → mkdir k name s ≡ add_entry dir name s
  unfolding mkdir
  mkdir-add_entry free_name =
      let (n, w) = has-Within s.root s.cwd t inv.rep inv.cwd_in in
      rw (load-ok s w.ne w.at, search_lem n w, found_null, free_name)

  pub creat-add_entry : taken s.cwd name t ≡ false → creat k name s ≡ add_entry regular name s
  unfolding creat
  creat-add_entry free_name =
      let (n, w) = has-Within s.root s.cwd t inv.rep inv.cwd_in in
      rw (load-ok s w.ne w.at, search_lem n w, found_null, free_name)
