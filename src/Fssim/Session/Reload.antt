-- ===== src/Fssim/Session/Reload.antt =====
-- The reload command of lab1_devito.c from a state that is ready.
use mathlib.Core.Logic.{inl, inr}
use mathlib.Core.Path.{subst}
use cs.Base.{
  ℕ, zero, suc, ◌+◌, ◌<◌, ◌≤◌, ◌≡◌, refl, ap, ◌∙◌, ◌⊎◌, Bool, true, false, Bool-cases, Option, none,
  some, List, [], ◌∷◌, length, Text, Unused, ◌==◌, streq, arith, strtok, Option-cases,
}
use cs.Fssim.{Ptr, null, State, ok, fault, malloc, slash}
use cs.Fssim.Commands.{fits, search_tree}
use cs.Fssim.Disk.{
  reload_insert, reload_under, reload_entry, reload_line, reload_loop, reload, read_line,
}
use cs.Fssim.Forest.{Forest, nil, cons, head, size, has, find, has-Within, load-ok, not-null}
use cs.Fssim.Search.{first, search_tree-find, find-Found}
use cs.Fssim.Cd.{root-in}
use cs.Fssim.Invariant.{IsRoot}
use cs.Fssim.Session.{Ready, Outcome, Outcome-map, Outcome-next, Came-text}
use cs.Fssim.Session.Steps.{CannotAdd, Pool-cases}
use cs.Fssim.Session.Insert.{Inserted, Inserted-Came, link-Linked, stored_state, stored_still}

-- A type behind the second comma.
abbrev pub has_kind : Option (Text × Text) → Bool
has_kind none = false
has_kind (some ([], rest)) = false
has_kind (some (kind ∷ more, rest)) = true

-- Why the insertion of an entry may be undefined behaviour.
abbrev pub CannotInsert : State → Text → Option (Text × Text) → Type 0
CannotInsert s name kind = (has_kind kind ≡ false) ⊎ CannotAdd s name

root_alone : (a : Ptr) (f : Forest) → IsRoot a f → (head f ≡ a) × (first f ≡ f)
root_alone a nil i = absurd i
root_alone a (cons p name kind kids nil) (e, _, _) = (e, refl)
root_alone a (cons p name kind kids (cons _ _ _ _ _)) i = absurd i

module _ (k : ℕ) (s : State) (t : Forest) (r : Ready s t) (fuel : size t + size t < k) where
  pub insert_run :
      (d : Ptr) (name : Text) (kind : ℕ) (more rest : Text) (p : Ptr) (ps : List Ptr)
      → has d t ≡ true
      → s.pool ≡ p ∷ ps
      → Unused s.heap (p ∷ ps)
      → fits name ≡ true
      → (s' : State) × (reload_insert k d name (some (kind ∷ more, rest)) s ≡ ok tt s')
        × Inserted s t d p ps name kind s'
  unfolding reload_insert malloc
  insert_run d name kind more rest p ps inside pool unused short =
      let (n, w) = has-Within s.root d t r.holds.rep inside in
      let (ne, free, _, _) = unused in
      let linked =
        link-Linked s t r d p ps name kind inside pool ne free unused short k (omega arith) n w in
      (
        linked.after,
        rw
            (
              reload_insert,
              short,
              malloc,
              pool,
              not-null ne,
              load-ok (stored_state s t r d p ps name kind inside pool ne free unused short) w.ne (
                  stored_still s t r d p ps name kind inside pool ne free unused short d inside
                  ∙ w.at),
            )
            linked.run,
        linked.inserted,
      )

  no_memory :
      (d : Ptr) (name : Text) (kind : ℕ) (more rest : Text)
      → fits name ≡ true
      → s.pool ≡ []
      → reload_insert k d name (some (kind ∷ more, rest)) s ≡ fault
  unfolding reload_insert malloc
  no_memory d name kind more rest short e = rw (reload_insert, short, malloc, e) refl

  too_long :
      (d : Ptr) (name : Text) (kind : ℕ) (more rest : Text)
      → fits name ≡ false
      → reload_insert k d name (some (kind ∷ more, rest)) s ≡ fault
  unfolding reload_insert
  too_long d name kind more rest e = rw (reload_insert, e) refl

  -- An entry that is there needs a type, a name that fits, and an address.
  insert-Outcome :
      (d : Ptr) (name : Text) (kind : Option (Text × Text))
      → has d t ≡ true
      → Outcome s t (CannotInsert s name kind) (reload_insert k d name kind s)
  unfolding reload_insert malloc
  insert-Outcome d name none inside = inl refl
  insert-Outcome d name (some ([], rest)) inside = inl refl
  insert-Outcome d name (some (kind ∷ more, rest)) inside = elim (Bool-cases (fits name)) [
    | inr long ↦ rw (too_long d name kind more rest long) (inr (inr long))
    | inl short ↦ elim (Pool-cases s.pool) [
      | inl none_left ↦ rw (no_memory d name kind more rest short none_left) (inr (inl none_left))
      | inr (p, ps, pool) ↦
          let (s', run, inserted) =
            insert_run d name kind more rest p ps inside pool (subst (Unused s.heap) pool r.spare)
              short in
          rw run (Inserted-Came s s' t d p ps name kind pool inserted)
    ]
  ]

  pub search_root : (name : Text) → search_tree k s.root name s ≡ ok (find name t) s
  search_root name =
      let (at_head, alone) = root_alone s.root t r.holds.top in
      subst (λ p. search_tree k p name s ≡ ok (find name t) s) at_head
        (search_tree-find k s.root t name s r.holds.rep fuel ∙ ap (λ f. ok (find name f) s) alone)

  under-Outcome :
      (d : Ptr) (name : Text) (kind : Option (Text × Text))
      → has d t ≡ true
      → Outcome s t (CannotInsert s name kind) (reload_under k d name kind s)
  unfolding reload_under
  under-Outcome d name kind inside = elim (Bool-cases (find name t == null)) [
    | inl new ↦ rw (reload_under, search_root name, new) (insert-Outcome d name kind inside)
    | inr there ↦ rw (reload_under, search_root name, there) (Came-text s t s.out r)
  ]

  entry-Outcome :
      (name parent_name : Text) (kind : Option (Text × Text))
      → Outcome s t (CannotInsert s name kind) (reload_entry k name parent_name kind s)
  unfolding reload_entry
  entry-Outcome name parent_name kind = elim (Bool-cases (streq parent_name slash)) [
    | inl top ↦
        rw (reload_entry, top) (under-Outcome s.root name kind (root-in s.root t r.holds.top))
    | inr other ↦ elim (Bool-cases (find parent_name t == null)) [
      | inl missing ↦
          rw (reload_entry, other, search_root parent_name, missing) (Came-text s t s.out r)
      | inr there ↦
          rw (reload_entry, other, search_root parent_name, there)
            (under-Outcome (find parent_name t) name kind
              (find-Found s.heap s.root t parent_name r.holds.rep there).inside)
    ]
  ]

-- A line of the file that has a name and a parent's name, and whose entry cannot be inserted.
pub data EntryFaults (s : State) (line : Text) : Type 0 where
  entry_faults :
      (name r parent_name r' : Text)
      → strtok b',' line ≡ some (name, r)
      → strtok b',' r ≡ some (parent_name, r')
      → CannotInsert s name (strtok b'\n' r')
      → EntryFaults s line

line-Outcome :
    (k : ℕ) (s : State) (t : Forest) (line : Text)
    → Ready s t
    → size t + size t < k
    → Outcome s t (EntryFaults s line) (reload_line k line s)
unfolding reload_line
line-Outcome k s t line r fuel = elim (Option-cases (strtok b',' line)) [
  | inl e ↦ rw (reload_line, e) (Came-text s t s.out r)
  | inr ((name, rest), e) ↦ elim (Option-cases (strtok b',' rest)) [
    | inl e2 ↦ rw (reload_line, e, e2) (Came-text s t s.out r)
    | inr ((parent_name, more), e2) ↦
        rw (reload_line, e, e2)
          (Outcome-map {F = CannotInsert s name (strtok b'\n' more)} {G = EntryFaults s line} s t
            (reload_entry k name parent_name (strtok b'\n' more) s)
            (entry_faults name rest parent_name more e e2)
            (entry-Outcome k s t r fuel name parent_name (strtok b'\n' more)))
  ]
]

-- A file at one of whose lines, in the state that the lines before it lead to, an entry cannot be
-- inserted.
abbrev pub FileFaults : ℕ → ℕ → Text → State → Type 0
FileFaults k zero content s = ⊥
FileFaults k (suc rounds) [] s = ⊥
FileFaults k (suc rounds) (c ∷ content) s =
    EntryFaults s (read_line 255 (c ∷ content)).0
    ⊎ ((s' : State) × (t' : Forest) × (reload_line k (read_line 255 (c ∷ content)).0 s ≡ ok tt s')
        × Ready s' t'
        × FileFaults k rounds (read_line 255 (c ∷ content)).1 s')

read_line-shorter : (n : ℕ) (content : Text) → length (read_line n content).1 ≤ length content
unfolding read_line
read_line-shorter zero content = omega arith
read_line-shorter (suc n) [] = omega arith
read_line-shorter (suc n) (c ∷ content) = elim (Bool-cases (c == b'\n')) [
  | inl hit ↦ rw (read_line, hit) (omega arith)
  | inr miss ↦ rw (read_line, miss) (omega (arith, read_line-shorter n content))
]

read_line-less :
    (n : ℕ) (c : ℕ) (content : Text) → length (read_line (suc n) (c ∷ content)).1 ≤ length content
unfolding read_line
read_line-less n c content = elim (Bool-cases (c == b'\n')) [
  | inl hit ↦ rw (read_line, hit) (omega arith)
  | inr miss ↦ rw (read_line, miss) (omega (arith, read_line-shorter n content))
]

still : (a b k : ℕ) → b ≤ a → a + a < k → b + b < k
still a b k le h = omega arith

fewer : (a b rounds : ℕ) → a ≤ b → suc b < suc rounds → a < rounds
fewer a b rounds le h = omega arith

loop-Outcome :
    (k rounds : ℕ) (content : Text) (s : State) (t : Forest)
    → Ready s t
    → size t + length s.pool + (size t + length s.pool) < k
    → length content < rounds
    → Outcome s t (FileFaults k rounds content s) (reload_loop k rounds content s)
unfolding reload_loop
loop-Outcome k zero content s t r fuel enough = absurd (omega arith)
loop-Outcome k (suc rounds) [] s t r fuel enough = Came-text s t s.out r
loop-Outcome k (suc rounds) (c ∷ content) s t r fuel enough =
    Outcome-next s t (EntryFaults s (read_line 255 (c ∷ content)).0)
      (FileFaults k (suc rounds) (c ∷ content) s) (reload_line k (read_line 255 (c ∷ content)).0 s)
      (λ _. reload_loop k rounds (read_line 255 (c ∷ content)).1)
      (line-Outcome k s t (read_line 255 (c ∷ content)).0 r (omega (arith, fuel))) inl
      (λ a s' e came.
        Outcome-map {F = FileFaults k rounds (read_line 255 (c ∷ content)).1 s'}
          {G = FileFaults k (suc rounds) (c ∷ content) s} s' came.tree
          (reload_loop k rounds (read_line 255 (c ∷ content)).1 s')
          (λ m. inr (s', came.tree, e, came.ready, m))
          (loop-Outcome k rounds (read_line 255 (c ∷ content)).1 s' came.tree came.ready
            (still (size t + length s.pool) (size came.tree + length s'.pool) k came.room fuel)
            (fewer (length (read_line 255 (c ∷ content)).1) (length content) rounds
              (read_line-less 254 c content) enough)))

pub reload_run :
    (k : ℕ) (content : Text) (s : State)
    → s.file ≡ some content
    → reload k s ≡ reload_loop k k content s
unfolding reload
reload_run k content s e = simp (e, reload)

pub reload_without : (k : ℕ) (s : State) → s.file ≡ none → reload k s ≡ fault
unfolding reload
reload_without k s e = simp (e, reload)

-- From a well formed state whose names fit into their fields, whose addresses that `malloc` has
-- left are unused and that has a file, with fuel above its bytes and above twice the nodes and
-- addresses, reload ends in such a state, with no more nodes and addresses together than before,
-- or is undefined behaviour at a line whose entry cannot be inserted in the state that the lines
-- before lead to: it has no type, its name does not fit, or no address is left.
pub reload-Outcome :
    (k : ℕ) (content : Text) (s : State) (t : Forest)
    → Ready s t
    → s.file ≡ some content
    → size t + length s.pool + (size t + length s.pool) < k
    → length content < k
    → Outcome s t (FileFaults k k content s) (reload k s)
reload-Outcome k content s t r file fuel enough =
    rw (reload_run k content s file) (loop-Outcome k k content s t r fuel enough)
