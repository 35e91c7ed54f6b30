-- ===== src/Fssim/Where.antt =====
-- pwd of lab1_devito.c on the forest that the heap holds.
use mathlib.Core.List.{append-nil, append_assoc}
use mathlib.Core.Option.{some-injective}
use cs.Fssim.Cd.{root-in}
use cs.Base.{
  sym, ℕ, zero, suc, ◌<◌, ◌≡◌, refl, ◌≢◌, some, [], ◌++◌, Text, codes, ◌==◌, arith, ◌∙◌, ap,
  if◌then◌else◌, inl, inr, Bool-cases,
}
use cs.Fssim.{Ptr, null, Node, State, ok, slash}
use cs.Fssim.Commands.{pwd_loop, pwd}
use cs.Fssim.Forest.{Forest, nil, cons, head, size, Rep, kids_of, load-ok, not-null, has-Within}
use cs.Fssim.Invariant.{Holds, IsRoot, size-kids_of}

-- The names along the first children, each with a slash, up to the node at `stop`.
abbrev pub trail : Ptr → Forest → Text
trail stop nil = []
trail stop (cons p name kind kids rest) =
    if p == stop then [] else (name ++ codes "/") ++ trail stop kids

pwd_loop-trail :
    (k : ℕ) (par : Ptr) (f : Forest) (n : Node) (s : State)
    → Rep s.heap par f
    → size f < k
    → s.cwd ≢ null
    → s.heap s.cwd ≡ some n
    → pwd_loop k (head f) s ≡ ok tt (record s { out = s.out ++ trail n.child f })
unfolding pwd_loop
pwd_loop-trail zero par f n s r fuel there here = absurd (omega arith)
pwd_loop-trail (suc k) par nil n s r fuel there here = rw (append-nil s.out)
pwd_loop-trail (suc k) par (cons p name kind kids rest) n s (ne, at, rk, rr) fuel there here =
    rw (not-null ne, load-ok s there here)
      (elim (Bool-cases (p == n.child)) [
        | inl stop ↦ rw (stop, append-nil s.out)
        | inr on ↦
            rw (on, load-ok s ne at)
              (pwd_loop-trail k p kids n (record s { out = s.out ++ (name ++ codes "/") }) rk
                  (omega arith) there here
                ∙ ap (λ o. ok tt (record s { out = o }))
                    (append_assoc s.out (name ++ codes "/") (trail n.child kids)))
      ])

pub root_name :
    (s : State) (r : Ptr) (t : Forest) (n : Node)
    → Rep s.heap r t
    → IsRoot r t
    → s.heap r ≡ some n
    → n.name ≡ slash
root_name s r nil n rep top at = absurd top
root_name s r (cons p name kind kids nil) n (ne, here, rk, rr) (e, is_slash, is_dir) at =
    ap (λ (m : Node). m.name) (some-injective _ _ (sym at ∙ ap s.heap (sym e) ∙ here)) ∙ is_slash
root_name s r (cons p name kind kids (cons _ _ _ _ _)) n rep top at = absurd top

pwd-text :
    (k : ℕ) (node : Ptr) (s : State) (m : Node) (walked : Text)
    → node ≢ null
    → s.root ≢ null
    → s.heap s.root ≡ some m
    → pwd_loop k m.child (record s { out = s.out ++ m.name })
      ≡ ok tt (record s { out = (s.out ++ m.name) ++ walked })
    → pwd k node s ≡ ok tt (record s { out = ((s.out ++ m.name) ++ walked) ++ codes "\n" })
unfolding pwd
pwd-text k node s m walked given there at walk = rw (not-null given, load-ok s there at, walk) refl

-- In a well formed state, with fuel above the number of nodes, pwd of a node other than NULL
-- prints a slash, then the names along the first children from the root's on, each with a slash,
-- up to the first child of the current directory or to a node without children, and a newline; it
-- changes nothing else.
pub pwd-trail :
    (k : ℕ) (node : Ptr) (s : State) (t : Forest)
    → node ≢ null
    → Holds s t
    → size t < k
    → pwd k node s
      ≡ ok tt (record s {
        out = ((s.out ++ slash) ++ trail (head (kids_of s.cwd t)) (kids_of s.root t)) ++ codes "\n";
      })
pwd-trail k node s t given inv fuel =
    let (n, w) = has-Within s.root s.cwd t inv.rep inv.cwd_in in
    let (m, top) = has-Within s.root s.root t inv.rep (root-in s.root t inv.top) in
    let named : m.name ≡ slash = root_name s s.root t m inv.rep inv.top top.at in
    let walk : pwd_loop k m.child (record s { out = s.out ++ m.name })
        ≡ ok tt (record s {
          out = (s.out ++ m.name) ++ trail (head (kids_of s.cwd t)) (kids_of s.root t);
        }) =
      rw (top.child, ← w.child)
        (pwd_loop-trail k s.root (kids_of s.root t) n (record s { out = s.out ++ m.name }) top.kids
          (omega (arith, size-kids_of s.root t)) w.ne w.at) in
    rw (← named) (pwd-text k node s m _ given top.ne top.at walk)
