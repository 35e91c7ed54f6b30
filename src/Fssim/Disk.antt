-- ===== src/Fssim/Disk.antt =====
-- save and reload: the tree as lines of text in the file fssim_devito.txt.
use cs.Base.{
  strtok, ℕ, zero, suc, Bool, not, Option, none, some, [], ◌∷◌, ◌++◌, Text, codes, streq, ◌==◌,
  if◌then◌else◌,
}
use cs.Fssim.{
  Ptr, null, Node, fault, out_of_fuel, M, ok, pure, ◌>>=◌, ◌>>◌, get, printf, load, store,
  set_child, set_sibling, malloc, slash,
}
use cs.Fssim.Commands.{search_tree, fits}

-- `fprintf(fp, …)`: the file grows at its end.
unfoldable pub fprintf : Text → M (Unit {0})
fprintf t s =
    ok tt (record s { file = elim s.file [ none ↦ some t | some before ↦ some (before ++ t) ] })

-- `"%s,%s,%c\n"`
abbrev pub entry_line : Text → Text → ℕ → Text
entry_line name parent kind = name ++ (codes "," ++ (parent ++ (codes "," ++ (kind ∷ codes "\n"))))

unfoldable pub save_entry : Node → M (Unit {0})
save_entry n =
    if streq n.name slash
    then pure tt
    else do up ← load n.parent; fprintf (entry_line n.name up.name n.kind)

-- `fp` says whether the file could be opened.
unfoldable mutual
  pub save : ℕ → Bool → Ptr → M (Unit {0})
  save zero fp p = λ _. out_of_fuel
  save (suc k) fp p =
      if p == null
      then printf (codes "error: node is NULL\n")
      else (if not fp then pure tt else do n ← load p; save_entry n; save_children k fp n.child)

  pub save_children : ℕ → Bool → Ptr → M (Unit {0})
  save_children zero fp p = λ _. out_of_fuel
  save_children (suc k) fp p =
      if p == null then pure tt else do save k fp p; n ← load p; save_children k fp n.sibling

-- `fgets` with room for `n` bytes: what it stores and what is left of the file.
unfoldable pub read_line : ℕ → Text → Text × Text
read_line zero t = ([], t)
read_line (suc n) [] = ([], [])
read_line (suc n) (c ∷ t) =
    let (line, rest) = read_line n t in if c == b'\n' then (c ∷ [], t) else (c ∷ line, rest)

-- The walk to the last child, and the write behind it.
unfoldable pub append_last : ℕ → Ptr → Ptr → M (Unit {0})
append_last zero t p = λ _. out_of_fuel
append_last (suc k) t p = do
  n ← load t
  if n.sibling == null then set_sibling t p else append_last k n.sibling p

unfoldable pub reload_insert : ℕ → Ptr → Text → Option (Text × Text) → M (Unit {0})
unfolding append_last fits
reload_insert k parent name none = λ _. fault
reload_insert k parent name (some ([], rest)) = λ _. fault
reload_insert k parent name (some (kind ∷ more, rest)) =
    if not (fits name) then (λ _. fault) else do
      p ← malloc
      store p (
          some (record { name = name; kind = kind; child = null; sibling = null; parent = parent }))
      here ← load parent
      if here.child == null then set_child parent p else append_last k here.child p

unfoldable pub reload_under : ℕ → Ptr → Text → Option (Text × Text) → M (Unit {0})
unfolding reload_insert
reload_under k parent name kind = do
  s ← get
  child ← search_tree k s.root name
  if child == null then reload_insert k parent name kind else pure tt

unfoldable pub reload_entry : ℕ → Text → Text → Option (Text × Text) → M (Unit {0})
unfolding reload_under
reload_entry k name parent_name kind = do
  s ← get
  if streq parent_name slash then reload_under k s.root name kind else do
    parent ← search_tree k s.root parent_name
    if parent == null then pure tt else reload_under k parent name kind

unfoldable pub reload_line : ℕ → Text → M (Unit {0})
unfolding reload_entry strtok
reload_line k line = elim (strtok b',' line) [
  | none ↦ pure tt
  | some (name, r) ↦ elim (strtok b',' r) [
    | none ↦ pure tt
    | some (parent_name, r') ↦ reload_entry k name parent_name (strtok b'\n' r')
  ]
]

-- One round for each line; a line of more than 255 bytes comes in parts.
unfoldable pub reload_loop : ℕ → ℕ → Text → M (Unit {0})
unfolding reload_line read_line
reload_loop k zero t = λ _. out_of_fuel
reload_loop k (suc rounds) [] = pure tt
reload_loop k (suc rounds) (c ∷ t) =
    let (line, rest) = read_line 255 (c ∷ t) in reload_line k line >> reload_loop k rounds rest

-- `fgets` on a file that could not be opened is undefined.
unfoldable pub reload : ℕ → M (Unit {0})
unfolding reload_loop
reload k = do s ← get; elim s.file [ none ↦ λ _. fault | some content ↦ reload_loop k k content ]
