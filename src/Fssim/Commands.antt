-- ===== src/Fssim/Commands.antt =====
-- The commands on the tree: initialize, ls, cd, pwd, searchTree, mkdir, creat, rmdir, rm.
-- A loop takes fuel, one unit for each round or call.
use cs.Base.{
  ℕ, zero, suc, ◌++◌, Bool, ◌&&◌, Option, none, some, ◌∷◌, Text, codes, streq, ◌==◌, ltb, length,
  if◌then◌else◌,
}
use cs.Fssim.{
  Ptr, null, Node, out_of_fuel, fault, M, pure, ◌>>=◌, ◌>>◌, get, printf, set_cwd, load, store,
  set_child, set_sibling, free, malloc, dir, regular, slash,
}

unfoldable pub initialize : M (Unit {0})
initialize = do
  root ← malloc
  store root
      (some (record { name = slash; kind = dir; child = null; sibling = null; parent = root }))
  λ s. printf (codes "Filesystem initialized!\n") (record s { root = root; cwd = root })

unfoldable pub ls_loop : ℕ → Ptr → M (Unit {0})
ls_loop zero p = λ _. out_of_fuel
ls_loop (suc k) p =
    if p == null
    then pure tt
    else do n ← load p; printf (n.kind ∷ codes " " ++ (n.name ++ codes "\n")); ls_loop k n.sibling

unfoldable pub ls : ℕ → Ptr → M (Unit {0})
unfolding ls_loop
ls k p =
    if p == null
    then printf (codes "uh oh node is null something is wrong!!!!\n")
    else do n ← load p; if n.child == null then pure tt else ls_loop k n.child

unfoldable pub no_such : Text → Text
no_such name = codes "No such file or directory: " ++ (name ++ codes "\n")

unfoldable pub cd_loop : ℕ → Ptr → Text → M (Unit {0})
cd_loop zero p name = λ _. out_of_fuel
cd_loop (suc k) p name =
    if p == null
    then printf (no_such name)
    else do n ← load p; if streq n.name name then set_cwd p else cd_loop k n.sibling name

-- What `cd` does with a name other than `..`, from the first child of `cwd` on.
unfoldable pub cd_child : ℕ → Ptr → Text → M (Unit {0})
unfolding cd_loop
cd_child k p name = do
  first ← load p
  if first.kind == regular then printf (codes "can't CD a file\n") else cd_loop k p name

-- The argument is `NULL` when the command line has no second word. `cwd->child` is read first.
unfoldable pub cd : ℕ → Option Text → M (Unit {0})
unfolding cd_child
cd k arg = do
  s ← get
  here ← load s.cwd
  elim arg [
    | none ↦ set_cwd s.root
    | some name ↦
        if streq name (codes "..") then set_cwd here.parent else cd_child k here.child name
  ]

unfoldable pub not_dir : Text → Text
not_dir name = codes "DIR " ++ (name ++ codes " does not exist!\n")

-- `pPrev == NULL ? cwd->child = next : pPrev->sibling = next`, then `free`.
unfoldable pub unlink : Ptr → Ptr → Ptr → M (Unit {0})
unlink prev p next = do
  s ← get
  if prev == null then set_child s.cwd next else set_sibling prev next
  free p

-- What `rmdir` does with a directory of that name.
unfoldable pub rmdir_found : Ptr → Ptr → Node → Text → M (Unit {0})
unfolding unlink
rmdir_found prev p n name =
    if n.child == null
    then unlink prev p n.sibling
    else printf (codes "Cannot remove " ++ (name ++ codes " (not empty)!\n"))

unfoldable pub rmdir_loop : ℕ → Ptr → Ptr → Text → M (Unit {0})
unfolding rmdir_found
rmdir_loop zero prev p name = λ _. out_of_fuel
rmdir_loop (suc k) prev p name = if p == null then printf (not_dir name) else do
  n ← load p
  let hit = streq n.name name && (n.kind == dir)
  if hit then rmdir_found prev p n name else rmdir_loop k p n.sibling name

unfoldable pub rmdir : ℕ → Text → M (Unit {0})
unfolding rmdir_loop
rmdir k name = do
  s ← get
  if s.cwd == null then printf (not_dir name) else do
    here ← load s.cwd
    if here.child == null then printf (not_dir name) else rmdir_loop k null here.child name

unfoldable pub not_file : Text → Text
not_file name = codes "FILE " ++ (name ++ codes " does not exist!\n")

-- What `rm` does with an entry of that name.
unfoldable pub rm_found : Ptr → Ptr → Node → Text → M (Unit {0})
unfolding unlink
rm_found prev p n name =
    if n.kind == regular
    then unlink prev p n.sibling
    else printf (codes "Cannot remove " ++ (name ++ codes " (not a FILE)!\n"))

unfoldable pub rm_loop : ℕ → Ptr → Ptr → Text → M (Unit {0})
unfolding rm_found
rm_loop zero prev p name = λ _. out_of_fuel
rm_loop (suc k) prev p name = if p == null then printf (not_file name) else do
  n ← load p
  if streq n.name name then rm_found prev p n name else rm_loop k p n.sibling name

unfoldable pub rm : ℕ → Text → M (Unit {0})
unfolding rm_loop
rm k name = do
  s ← get
  here ← load s.cwd
  if here.child == null then printf (not_file name) else rm_loop k null here.child name

unfoldable pub pwd_loop : ℕ → Ptr → M (Unit {0})
pwd_loop zero p = λ _. out_of_fuel
pwd_loop (suc k) p = if p == null then pure tt else do
  s ← get
  here ← load s.cwd
  if p == here.child
      then pure tt
      else do n ← load p; printf (n.name ++ codes "/"); pwd_loop k n.child

unfoldable pub pwd : ℕ → Ptr → M (Unit {0})
unfolding pwd_loop
pwd k p =
    if p == null
    then pure tt
    else do s ← get; top ← load s.root; printf top.name; pwd_loop k top.child; printf (codes "\n")

-- `searchTree`, and its loop over the children.
unfoldable mutual
  pub search_tree : ℕ → Ptr → Text → M Ptr
  search_tree zero p name = λ _. out_of_fuel
  search_tree (suc k) p name =
      if p == null
      then pure null
      else do n ← load p; if streq n.name name then pure p else search_children k n.child name

  pub search_children : ℕ → Ptr → Text → M Ptr
  search_children zero p name = λ _. out_of_fuel
  search_children (suc k) p name = if p == null then pure null else do
    found ← search_tree k p name
    if found == null then (do n ← load p; search_children k n.sibling name) else pure found

-- `strcpy` into a name field of 64 bytes.
unfoldable pub fits : Text → Bool
fits name = ltb (length name) 64

-- The tail that mkdir and creat share: a new node, linked in front of the children of `cwd`.
unfoldable pub entry : ℕ → Text → Ptr → Ptr → Node
entry kind name sibling parent = record {
  name = name;
  kind = kind;
  child = null;
  sibling = sibling;
  parent = parent;
}

unfoldable pub add_entry : ℕ → Text → M (Unit {0})
unfolding entry fits
add_entry kind name = do
  p ← malloc
  s ← get
  here ← load s.cwd
  let new = entry kind name here.child s.cwd
  if fits name then store p (some new) >> set_child s.cwd p else λ _. fault

unfoldable pub mkdir : ℕ → Text → M (Unit {0})
mkdir k name = do
  s ← get
  here ← load s.cwd
  dupe ← search_tree k here.child name
  if dupe == null
      then add_entry dir name
      else printf (codes "DIR " ++ (name ++ codes " already exists!\n"))

unfoldable pub creat : ℕ → Text → M (Unit {0})
creat k name = do
  s ← get
  here ← load s.cwd
  dupe ← search_tree k here.child name
  if dupe == null then add_entry regular name else printf (name ++ codes " already exists!\n")
