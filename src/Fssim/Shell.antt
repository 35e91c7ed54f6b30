-- ===== src/Fssim/Shell.antt =====
-- main: one command line after the other.
use cs.Base.{
  strtok, upto, ℕ, Bool, true, false, Option, none, some, List, [], ◌∷◌, ◌++◌, Text, codes, streq,
  ◌==◌, if◌then◌else◌,
}
use cs.Fssim.{fault, M, pure, ◌>>=◌, ◌>>◌, get, printf}
use cs.Fssim.Commands.{initialize, ls, cd, rmdir, rm, pwd, mkdir, creat}
use cs.Fssim.Disk.{save, reload}

-- `strtok(word, "\n")`, for its effect on the word: it ends at the first newline behind its first
-- other byte.
unfoldable pub cut_newline : Text → Text
unfolding upto
cut_newline [] = []
cut_newline (c ∷ t) = if c == b'\n' then c ∷ cut_newline t else (upto b'\n' (c ∷ t)).0

-- The spaces in front of the first word.
unfoldable pub leading : Text → Text
leading [] = []
leading (c ∷ t) = if c == b' ' then c ∷ leading t else []

-- A command that takes a name reads through it, so `NULL` is a fault.
unfoldable pub with_name : Option Text → (Text → M (Unit {0})) → M (Unit {0})
with_name none f = λ _. fault
with_name (some name) f = f name

-- `fopen(…, "w+")` empties the file. It is taken to succeed: the source does not test it, and would
-- close NULL.
unfoldable pub save_all : ℕ → M (Unit {0})
save_all k = do s ← get; λ s'. save k true s.root (record s' { file = some [] })

-- The chain of `strcmp`: the first four compare the first word, the others the line buffer, which
-- still has the spaces in front of that word. The result says whether the loop goes on.
unfoldable pub dispatch : ℕ → Text → Text → Option Text → M Bool
unfolding with_name save_all
dispatch k command buffer name =
    if streq command (codes "mkdir")
    then with_name name (mkdir k) >> pure true
    else if streq command (codes "rmdir")
    then with_name name (rmdir k) >> pure true
    else if streq command (codes "ls")
    then (do s ← get; ls k s.cwd; pure true)
    else if streq command (codes "cd")
    then cd k name >> pure true
    else if streq buffer (codes "pwd")
    then (do s ← get; pwd k s.cwd; pure true)
    else if streq buffer (codes "creat")
    then with_name name (creat k) >> pure true
    else if streq buffer (codes "rm")
    then with_name name (rm k) >> pure true
    else if streq buffer (codes "reload")
    then reload k >> pure true
    else if streq buffer (codes "save")
    then save_all k >> pure true
    else if streq buffer (codes "quit")
    then save_all k >> pure false
    else (printf (codes "Command not found!\n") >> pure true)

-- What `fgets` put into the line buffer, taken apart. A line of spaces alone has no first word.
unfoldable pub command_line : ℕ → Text → M Bool
unfolding cut_newline leading dispatch strtok
command_line k line = elim (strtok b' ' line) [
  | none ↦ λ _. fault
  | some (word, rest) ↦
      let command = cut_newline word in
      let name : Option Text = elim (strtok b' ' rest) [
        | none ↦ none
        | some (arg, more) ↦ some (cut_newline arg)
      ] in
      dispatch k command (leading line ++ command) name
]

-- The loop of main over the lines of the input, up to `quit`.
unfoldable pub session : ℕ → List Text → M (Unit {0})
unfolding command_line
session k [] = pure tt
session k (line ∷ lines) = do
  printf (codes "$ ")
  more ← command_line k line
  if more then session k lines else pure tt

unfoldable pub main : ℕ → List Text → M (Unit {0})
unfolding session
main k lines = initialize >> session k lines
