-- ===== src/Fssim/Saved.antt =====
-- The save command of lab1_devito.c on the forest that the heap holds.
use mathlib.Core.List.{append-nil, append_assoc}
use cs.Base.{
  ℕ, zero, suc, ◌+◌, ◌<◌, ◌≡◌, refl, ◌≢◌, true, some, [], ◌++◌, Text, streq, arith, ◌∙◌, ap,
  if◌then◌else◌, inl, inr, Bool-cases,
}
use cs.Fssim.{Ptr, null, Node, State, ok, slash}
use cs.Fssim.Shell.{save_all}
use cs.Fssim.Cd.{root-in}
use cs.Fssim.Where.{root_name}
use cs.Fssim.Disk.{entry_line, save_entry, save, save_children, fprintf}
use cs.Fssim.Forest.{
  Forest, nil, cons, head, size, Rep, kids_of, load-ok, not-null, has-Within, node,
}
use cs.Fssim.Invariant.{Holds, size-kids_of}

-- The line of a node under a parent of that name; the name "/" has none.
abbrev pub line_of : Text → Text → ℕ → Text
line_of up name kind = if streq name slash then [] else entry_line name up kind

abbrev pub dump : Text → Forest → Text
dump up nil = []
dump up (cons p name kind kids rest) = line_of up name kind ++ (dump name kids ++ dump up rest)

save_entry-line_of :
    (s : State) (before name : Text) (kind : ℕ) (child sibling par : Ptr) (up : Node)
    → par ≢ null
    → s.heap par ≡ some up
    → save_entry (node name kind child sibling par) (record s { file = some before })
      ≡ ok tt (record s { file = some (before ++ line_of up.name name kind) })
unfolding save_entry fprintf
save_entry-line_of s before name kind child sibling par up there at =
    elim (Bool-cases (streq name slash)) [
      | inl skip ↦ rw (skip, append-nil before)
      | inr kept ↦ rw (kept, load-ok (record s { file = some before }) there at)
    ]

save_children-dump :
    (k : ℕ) (par : Ptr) (up : Node) (f : Forest) (s : State) (before : Text)
    → par ≢ null
    → s.heap par ≡ some up
    → Rep s.heap par f
    → size f + size f < k
    → save_children k true (head f) (record s { file = some before })
      ≡ ok tt (record s { file = some (before ++ dump up.name f) })
unfolding save
save_children-dump zero par up f s before there here r fuel = absurd (omega arith)
save_children-dump (suc k) par up nil s before there here r fuel = rw (append-nil before)
save_children-dump (suc zero) par up (cons p name kind kids rest) s before there here r fuel =
    absurd (omega arith)
save_children-dump (suc (suc k)) par up (cons p name kind kids rest) s before there here
      (ne, at, rk, rr) fuel =
    rw
      (
        not-null ne,
        load-ok (record s { file = some before }) ne at,
        save_entry-line_of s before name kind (head kids) (head rest) par up there here,
        save_children-dump k p (node name kind (head kids) (head rest) par) kids s
            (before ++ line_of up.name name kind) ne at rk (omega arith),
        load-ok (record s { file = some ((before ++ line_of up.name name kind) ++ dump name kids) })
            ne at,
      )
      (save_children-dump (suc k) par up rest s
          ((before ++ line_of up.name name kind) ++ dump name kids) there here rr (omega arith)
        ∙ ap (λ o. ok tt (record s { file = some o }))
            (append_assoc (before ++ line_of up.name name kind) (dump name kids) (dump up.name rest)
              ∙ append_assoc before (line_of up.name name kind)
                  (dump name kids ++ dump up.name rest)))

save_entry-root : (n : Node) (s : State) → n.name ≡ slash → save_entry n s ≡ ok tt s
unfolding save_entry streq
save_entry-root n s e = rw (save_entry, e) refl

save-root :
    (k : ℕ) (s : State) (m : Node) (f : Forest)
    → s.root ≢ null
    → s.heap s.root ≡ some m
    → m.name ≡ slash
    → m.child ≡ head f
    → Rep s.heap s.root f
    → size f + size f < k
    → save (suc k) true s.root (record s { file = some [] })
      ≡ ok tt (record s { file = some (dump slash f) })
unfolding save
save-root k s m f there at named child r fuel =
    rw
      (
        not-null there,
        load-ok (record s { file = some [] }) there at,
        save_entry-root m (record s { file = some [] }) named,
        child,
      )
      (save_children-dump k s.root m f s [] there at r fuel
        ∙ ap (λ name. ok tt (record s { file = some (dump name f) })) named)

-- In a well formed state, with fuel above twice the number of nodes and one more, the save command
-- makes the file the lines of the nodes below the root, parents before their children and children
-- in their order, each with its name, its parent's name and its type (a node of the name / has no
-- line), and changes nothing else.
pub save_all-dump :
    (k : ℕ) (s : State) (t : Forest)
    → Holds s t
    → size t + size t < k
    → save_all (suc k) s ≡ ok tt (record s { file = some (dump slash (kids_of s.root t)) })
unfolding save_all
save_all-dump k s t inv fuel =
    let (m, w) = has-Within s.root s.root t inv.rep (root-in s.root t inv.top) in
    save-root k s m (kids_of s.root t) w.ne w.at (root_name s s.root t m inv.rep inv.top w.at)
      w.child w.kids (omega (arith, size-kids_of s.root t))
