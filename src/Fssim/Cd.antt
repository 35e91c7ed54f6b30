-- ===== src/Fssim/Cd.antt =====
-- cd of lab1_devito.c on the forest that the heap holds.
use cs.Base.{
  ℕ, zero, suc, ◌<◌, ◌≡◌, refl, ◌⊎◌, true, false, none, some, ◌++◌, Text, codes, streq, ◌==◌,
  Bool-cases, arith, ◌∙◌, sym, ap, inl, inr, if◌then◌else◌, Option,
}
use mathlib.Core.Option.{some-injective}
use mathlib.Core.Path.{subst}
use cs.Fssim.{Ptr, null, Node, Heap, State, ok, fault, out_of_fuel, load, Run, regular}
use cs.Fssim.Commands.{no_such, cd_loop, cd_child, cd}
use cs.Fssim.Forest.{
  Forest, nil, cons, head, size, has, Rep, kids_of, load-ok, not-null, has-Within, here, below,
  after, place, or_mid, or_last, eq_self,
}
use cs.Fssim.Edit.{has-kids_of}
use cs.Fssim.Invariant.{Holds, IsRoot, size-kids_of}

-- The parent of a node is in the tree, or is the parent of the whole.
pub has-parent :
    (h : Heap) (par a : Ptr) (f : Forest) {n : Node}
    → Rep h par f
    → has a f ≡ true
    → h a ≡ some n
    → (n.parent ≡ par) ⊎ (has n.parent f ≡ true)
has-parent h par a nil r i e = cc
has-parent h par a (cons p name kind kids rest) {n} (ne, at, rk, rr) i e =
    elim (place a p kids rest i) [
      | here hit same ↦
          inl (ap (λ (m : Node). m.parent) (some-injective _ _ (sym e ∙ ap h same ∙ at)))
      | below miss under ↦ elim (has-parent h p a kids rk under e) [
        | inl up ↦ inr (rw (up, eq_self p))
        | inr in_kids ↦ inr (or_mid (n.parent == p) _ _ in_kids)
      ]
      | after miss out behind ↦ elim (has-parent h par a rest rr behind e) [
        | inl up ↦ inl up
        | inr in_rest ↦ inr (or_last (n.parent == p) _ _ in_rest)
      ]
    ]

-- The first child of that name.
abbrev pub target : Text → Forest → Ptr
target name nil = null
target name (cons p label kind kids rest) = if streq label name then p else target name rest

abbrev pub arrive : State → Text → Ptr → Run (Unit {0})
arrive s name p =
    if p == null
    then ok tt (record s { out = s.out ++ no_such name })
    else ok tt (record s { cwd = p })

-- `cd` with a name, from the children of the current directory: undefined behaviour where there
-- are none, a refusal where the first of them is a file, whatever the name is.
abbrev pub cd_named : State → Text → Forest → Run (Unit {0})
cd_named s name nil = fault
cd_named s name (cons p label kind kids rest) =
    if kind == regular
    then ok tt (record s { out = s.out ++ codes "can't CD a file\n" })
    else arrive s name (target name (cons p label kind kids rest))

cd_loop-arrive :
    (k : ℕ) (par : Ptr) (f : Forest) (name : Text) (s : State)
    → Rep s.heap par f
    → size f < k
    → cd_loop k (head f) name s ≡ arrive s name (target name f)
unfolding cd_loop
cd_loop-arrive zero par f name s r fuel = absurd (omega arith)
cd_loop-arrive (suc k) par nil name s r fuel = refl
cd_loop-arrive (suc k) par (cons p label kind kids rest) name s (ne, at, rk, rr) fuel =
    rw (not-null ne, load-ok s ne at)
      (elim (Bool-cases (streq label name)) [
        | inl hit ↦ rw (hit, not-null ne)
        | inr miss ↦ rw miss (cd_loop-arrive k par rest name s rr (omega arith))
      ])

cd_child-nil : (k : ℕ) (name : Text) (s : State) → cd_child k null name s ≡ fault
unfolding cd_child load
cd_child-nil k name s = refl

cd_child-cd_named :
    (k : ℕ) (par : Ptr) (f : Forest) (name : Text) (s : State)
    → Rep s.heap par f
    → size f < k
    → cd_child k (head f) name s ≡ cd_named s name f
unfolding cd_child
cd_child-cd_named k par nil name s r fuel = cd_child-nil k name s
cd_child-cd_named k par (cons p label kind kids rest) name s (ne, at, rk, rr) fuel =
    rw (load-ok s ne at) (elim (Bool-cases (kind == regular)) [
      | inl hit ↦ rw hit
      | inr miss ↦
          rw miss (cd_loop-arrive k par (cons p label kind kids rest) name s (ne, at, rk, rr) fuel)
    ])

-- The run ends in a well formed state with the same tree.
abbrev pub Keeps : Forest → Run (Unit {0}) → Type 0
Keeps t (ok _ s) = Holds s t
Keeps t fault = ⊥
Keeps t out_of_fuel = ⊥

abbrev pub NotEmpty : Forest → Type 0
NotEmpty nil = ⊥
NotEmpty (cons p name kind kids rest) = Unit {0}

pub root-in : (r : Ptr) (t : Forest) → IsRoot r t → has r t ≡ true
root-in r nil i = absurd i
root-in r (cons p name kind kids nil) (e, _, _) = rw (e, eq_self r)
root-in r (cons p name kind kids (cons _ _ _ _ _)) i = absurd i

pub target-in :
    (h : Heap) (par : Ptr) (name : Text) (f : Forest)
    → Rep h par f
    → (target name f == null) ≡ false
    → has (target name f) f ≡ true
target-in h par name nil r found = cc
target-in h par name (cons p label kind kids rest) (ne, at, rk, rr) found =
    elim (Bool-cases (streq label name)) [
      | inl hit ↦ at_target p (rw hit) (rw (eq_self p))
      | inr miss ↦ at_target (target name rest) (rw miss) (
          or_last (target name rest == p) (has (target name rest) kids)
            (has (target name rest) rest) (target-in h par name rest rr (rw miss at found)))
    ]
  where
    whole : Forest
    whole = cons p label kind kids rest

    at_target :
        (q : Ptr)
        → target name whole ≡ q
        → has q whole ≡ true
        → has (target name whole) whole ≡ true
    at_target q e i = subst (λ b. has b whole ≡ true) (sym e) i

-- Only the current directory changes, to a node of the tree.
Holds-cwd :
    (s : State) (t : Forest) (p : Ptr) → Holds s t → has p t ≡ true → Holds (record s { cwd = p }) t
Holds-cwd s t p inv i = record { rep = inv.rep; distinct = inv.distinct; top = inv.top; cwd_in = i }

Holds-out : (s : State) (t : Forest) (o : Text) → Holds s t → Holds (record s { out = o }) t
Holds-out s t o inv = record {
  rep = inv.rep;
  distinct = inv.distinct;
  top = inv.top;
  cwd_in = inv.cwd_in;
}

arrive-Keeps :
    (s : State) (t : Forest) (name : Text) (p : Ptr)
    → Holds s t
    → ((p == null) ≡ false → has p t ≡ true)
    → Keeps t (arrive s name p)
arrive-Keeps s t name p inv into = elim (Bool-cases (p == null)) [
  | inl none_there ↦ rw none_there (Holds-out s t _ inv)
  | inr there ↦ rw there (Holds-cwd s t p inv (into there))
]

cd_named-Keeps :
    (s : State) (t : Forest) (name : Text) (f : Forest)
    → Holds s t
    → Rep s.heap s.cwd f
    → ((b : Ptr) → has b f ≡ true → has b t ≡ true)
    → NotEmpty f
    → Keeps t (cd_named s name f)
cd_named-Keeps s t name nil inv r into some_child = some_child
cd_named-Keeps s t name (cons p label kind kids rest) inv r into some_child =
    elim (Bool-cases (kind == regular)) [
      | inl hit ↦ rw hit (Holds-out s t _ inv)
      | inr miss ↦ rw miss (
          arrive-Keeps s t name (target name (cons p label kind kids rest)) inv
            λ there. into _ (target-in s.heap s.cwd name (cons p label kind kids rest) r there))
    ]

module _ (k : ℕ) (s : State) (t : Forest) (inv : Holds s t) (fuel : size t < k) where
  -- In a well formed state, with fuel above the number of nodes, cd with a name other than `..`
  -- comes to `cd_named` on the list of children: a fault without children, a refusal if the first
  -- child is a file, and otherwise the first child of that name becomes the current directory, or
  -- a message is printed if there is none.
  pub cd-cd_named :
      (name : Text)
      → streq name (codes "..") ≡ false
      → cd k (some name) s ≡ cd_named s name (kids_of s.cwd t)
  unfolding cd
  cd-cd_named name plain =
      let (n, w) = has-Within s.root s.cwd t inv.rep inv.cwd_in in
      rw (load-ok s w.ne w.at, plain, w.child)
        (cd_child-cd_named k s.cwd (kids_of s.cwd t) name s w.kids
          (omega (arith, size-kids_of s.cwd t)))

  pub cd-home : cd k none s ≡ ok tt (record s { cwd = s.root })
  unfolding cd
  cd-home = let (n, w) = has-Within s.root s.cwd t inv.rep inv.cwd_in in rw (load-ok s w.ne w.at)

  -- In a well formed state, `cd ..` makes the parent that the node of the current directory
  -- records the current directory, and changes nothing else.
  pub cd-up :
      (name : Text) (n : Node)
      → streq name (codes "..") ≡ true
      → s.heap s.cwd ≡ some n
      → cd k (some name) s ≡ ok tt (record s { cwd = n.parent })
  unfolding cd
  cd-up name n up at =
      let (m, w) = has-Within s.root s.cwd t inv.rep inv.cwd_in in rw (load-ok s w.ne at, up)

  pub up-in : (n : Node) → s.heap s.cwd ≡ some n → has n.parent t ≡ true
  up-in n at = elim (has-parent s.heap s.root s.cwd t inv.rep inv.cwd_in at) [
    | inl e ↦ rw e (root-in s.root t inv.top)
    | inr i ↦ i
  ]

  -- In a well formed state whose current directory has a child, with fuel above the number of
  -- nodes, cd with any argument or none ends, without undefined behaviour, in a well formed state
  -- with the same tree.
  pub cd-Keeps : (arg : Option Text) → NotEmpty (kids_of s.cwd t) → Keeps t (cd k arg s)
  cd-Keeps none child = rw cd-home (Holds-cwd s t s.root inv (root-in s.root t inv.top))
  cd-Keeps (some name) child =
      let (n, w) = has-Within s.root s.cwd t inv.rep inv.cwd_in in
      elim (Bool-cases (streq name (codes ".."))) [
        | inl up ↦ rw (cd-up name n up w.at) (Holds-cwd s t n.parent inv (up-in n w.at))
        | inr plain ↦ rw (cd-cd_named name plain) (
            cd_named-Keeps s t name (kids_of s.cwd t) inv w.kids (λ b i. has-kids_of s.cwd b t i)
              child)
      ]
