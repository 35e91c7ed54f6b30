-- ===== src/Fssim/Show.antt =====
-- initialize and ls of lab1_devito.c.
use cs.Base.{
  ℕ, zero, suc, ◌<◌, ◌≡◌, refl, ◌≢◌, none, false, some, List, ◌∷◌, ◌++◌, Text, codes, ◌==◌, arith,
  ◌∙◌, ap, if◌then◌else◌,
}
use mathlib.Core.List.{append-nil, append_assoc}
use cs.Fssim.{Ptr, null, State, ok, write, malloc, pure, dir, slash}
use cs.Fssim.Commands.{initialize, ls_loop, ls}
use cs.Fssim.Forest.{
  Forest, nil, cons, head, size, Rep, kids_of, load-ok, not-null, has-Within, eq_self, node,
}
use cs.Fssim.Invariant.{Holds, size-kids_of, write_self, write_other}

-- Where `malloc` has an address to give, initialize ends in a well formed state whose tree is the
-- root directory alone; `malloc` has the other addresses left, and what was not in use is not, but
-- for that address.
pub initialize-Holds :
    (s : State) (p : Ptr) (ps : List Ptr)
    → s.pool ≡ p ∷ ps
    → p ≢ null
    → (s' : State) × (initialize s ≡ ok tt s')
      × Holds s' (cons p slash dir nil nil)
      × (s'.pool ≡ ps)
      × (s'.file ≡ s.file)
      × ((b : Ptr) → s.heap b ≡ none → (b == p) ≡ false → s'.heap b ≡ none)
unfolding initialize malloc
initialize-Holds s p ps pool ne = (
  record s {
    pool = ps;
    heap = write s.heap p (some (node slash dir null null p));
    root = p;
    cwd = p;
    out = s.out ++ codes "Filesystem initialized!\n";
  },
  rw (pool, not-null ne),
  record {
    rep = (ne, write_self s.heap p _, tt, tt);
    distinct = (refl, refl, λ a i. cc, tt, tt);
    top = (refl, refl, refl);
    cwd_in = rw (eq_self p);
  },
  refl,
  refl,
  λ b free other. write_other s.heap p b _ other ∙ free,
)

-- One line for each child, the type and the name.
abbrev pub listing : Forest → Text
listing nil = List.[]
listing (cons p name kind kids rest) = (kind ∷ codes " " ++ (name ++ codes "\n")) ++ listing rest

ls_loop-listing :
    (k : ℕ) (par : Ptr) (f : Forest) (s : State)
    → Rep s.heap par f
    → size f < k
    → ls_loop k (head f) s ≡ ok tt (record s { out = s.out ++ listing f })
unfolding ls_loop
ls_loop-listing zero par f s r fuel = absurd (omega arith)
ls_loop-listing (suc k) par nil s r fuel = rw (append-nil s.out)
ls_loop-listing (suc k) par (cons p name kind kids rest) s (ne, at, rk, rr) fuel =
    rw (not-null ne, load-ok s ne at)
      (ls_loop-listing k par rest _ rr (omega arith)
        ∙ ap (λ o. ok tt (record s { out = o })) (append_assoc s.out _ (listing rest)))

ls_children :
    (k : ℕ) (par : Ptr) (f : Forest) (s : State)
    → Rep s.heap par f
    → size f < k
    → (if head f == null then pure tt else ls_loop k (head f)) s
      ≡ ok tt (record s { out = s.out ++ listing f })
ls_children k par nil s r fuel = rw (append-nil s.out)
ls_children k par (cons p name kind kids rest) s r fuel =
    rw (not-null r.0) (ls_loop-listing k par (cons p name kind kids rest) s r fuel)

-- In a well formed state, with fuel above the number of nodes, ls of the current directory prints
-- one line for each of its children, in their order, and changes nothing else.
pub ls-listing :
    (k : ℕ) (s : State) (t : Forest)
    → Holds s t
    → size t < k
    → ls k s.cwd s ≡ ok tt (record s { out = s.out ++ listing (kids_of s.cwd t) })
unfolding ls
ls-listing k s t inv fuel =
    let (n, w) = has-Within s.root s.cwd t inv.rep inv.cwd_in in
    rw (not-null w.ne, load-ok s w.ne w.at, w.child)
      (ls_children k s.cwd (kids_of s.cwd t) s w.kids (omega (arith, size-kids_of s.cwd t)))
