-- ===== src/Fssim/Session/Lines.antt =====
-- The command lines of lab1_devito.c, one after the other.
use mathlib.Core.Path.{subst}
use cs.Base.{
  ℕ, ◌+◌, ◌<◌, ◌≡◌, refl, Bool, true, false, ◌||◌, Option, none, some, length, Text, streq, codes,
  arith, if◌then◌else◌,
}
use cs.Fssim.{State, M, pure, ◌>>=◌, ◌>>◌, get, printf}
use cs.Fssim.Commands.{ls, pwd, cd, rm, rmdir, mkdir, creat}
use cs.Fssim.Disk.{reload}
use cs.Fssim.Shell.{with_name, save_all, dispatch}
use cs.Fssim.Forest.{Forest, nil, size, kids_of}
use cs.Fssim.Session.{Ready, Outcome, Outcome-map, Outcome-pure, Came-text}
use cs.Fssim.Session.Names.{file_size}
use cs.Fssim.Session.Reload.{FileFaults, reload_without, reload-Outcome}
use cs.Fssim.Session.Steps.{
  CannotAdd, ls-Outcome, mkdir-Outcome, creat-Outcome, rm-Outcome, rmdir-Outcome, pwd-Outcome,
  save-Outcome, cd-Outcome,
}

abbrev makes : Text → Text → Bool
makes command buffer = streq command (codes "mkdir") || streq buffer (codes "creat")

abbrev removes : Text → Text → Bool
removes command buffer = streq command (codes "rmdir") || streq buffer (codes "rm")

-- Why a command is undefined behaviour.
pub data Mishap (k : ℕ) (s : State) (t : Forest) (command buffer : Text) (name : Option Text)
    : Type 0 where
  no_name :
      name ≡ none
      → (makes command buffer || removes command buffer) ≡ true
      → Mishap k s t command buffer name
  cannot_add :
      (n : Text)
      → name ≡ some n
      → makes command buffer ≡ true
      → CannotAdd s n
      → Mishap k s t command buffer name
  no_file : streq buffer (codes "reload") ≡ true → s.file ≡ none → Mishap k s t command buffer name
  bad_file :
      (content : Text)
      → streq buffer (codes "reload") ≡ true
      → s.file ≡ some content
      → FileFaults k k content s
      → Mishap k s t command buffer name
  no_children :
      streq command (codes "cd") ≡ true → kids_of s.cwd t ≡ nil → Mishap k s t command buffer name

Outcome-if :
    {A : Type 0} (s : State) (t : Forest) (F : Type 0) (b : Bool) (x y : M A)
    → (b ≡ true → Outcome s t F (x s))
    → (b ≡ false → Outcome s t F (y s))
    → Outcome s t F ((if b then x else y) s)
Outcome-if s t F true x y hit miss = hit refl
Outcome-if s t F false x y hit miss = miss refl

with_name-Outcome :
    (s : State) (t : Forest) (F : Type 0) (name : Option Text) (f : Text → M (Unit {0}))
    → (name ≡ none → F)
    → ((n : Text) → name ≡ some n → Outcome s t F (f n s))
    → Outcome s t F (with_name name f s)
unfolding with_name
with_name-Outcome s t F none f missing given = missing refl
with_name-Outcome s t F (some n) f missing given = given n refl

or_left : (a b : Bool) → a ≡ true → (a || b) ≡ true
or_left a b h = ground arith

or_right : (a b : Bool) → b ≡ true → (a || b) ≡ true
or_right a b h = ground arith

-- The second half of the chain, which compares with the line buffer.
abbrev by_buffer : ℕ → Text → Option Text → M Bool
by_buffer k buffer name =
    if streq buffer (codes "pwd")
    then (do s ← get; pwd k s.cwd; pure true)
    else if streq buffer (codes "creat")
    then with_name name (creat k) >> pure true
    else if streq buffer (codes "rm")
    then with_name name (rm k) >> pure true
    else if streq buffer (codes "reload")
    then reload k >> pure true
    else if streq buffer (codes "save")
    then save_all k >> pure true
    else if streq buffer (codes "quit")
    then save_all k >> pure false
    else (printf (codes "Command not found!\n") >> pure true)

module _ (k : ℕ) (s : State) (t : Forest) (command buffer : Text) (name : Option Text)
    (r : Ready s t) (fuel : size t + length s.pool + (size t + length s.pool) + 1 < k)
    (file : file_size s.file < k) where
  abbrev F : Type 0
  F = Mishap k s t command buffer name

  by_buffer-Outcome : Outcome s t F (by_buffer k buffer name s)
  by_buffer-Outcome =
      Outcome-if s t F (streq buffer (codes "pwd")) _ _
        (λ e. Outcome-pure s t F _ true (
          Outcome-map {F = ⊥} {G = F} s t (pwd k s.cwd s) absurd
            (pwd-Outcome s t r k (omega arith))))
        (λ _.
          Outcome-if s t F (streq buffer (codes "creat")) _ _
            (λ e. Outcome-pure s t F _ true (
              with_name-Outcome s t F name (creat k)
                (λ none_there. no_name none_there (or_left _ _ (or_right _ _ e)))
                (λ n is_n.
                  Outcome-map {F = CannotAdd s n} {G = F} s t (creat k n s)
                    (cannot_add n is_n (or_right _ _ e)) (creat-Outcome s t r k n (omega arith)))))
            (λ _.
              Outcome-if s t F (streq buffer (codes "rm")) _ _
                (λ e. Outcome-pure s t F _ true (
                  with_name-Outcome s t F name (rm k)
                    (λ none_there. no_name none_there (or_right _ _ (or_right _ _ e)))
                    (λ n is_n.
                      Outcome-map {F = ⊥} {G = F} s t (rm k n s) absurd
                        (rm-Outcome s t r k n (omega arith)))))
                (λ _.
                  Outcome-if s t F (streq buffer (codes "reload")) _ _
                    (λ e. Outcome-pure s t F _ true (reloads e s.file refl)) (λ _. saving))))
    where
      reloads :
          streq buffer (codes "reload") ≡ true
          → (f : Option Text) → s.file ≡ f
          → Outcome s t F (reload k s)
      reloads e none no_content = rw (reload_without k s no_content) (no_file e no_content)
      reloads e (some content) is_content =
          Outcome-map {F = FileFaults k k content s} {G = F} s t (reload k s)
            (bad_file content e is_content)
            (reload-Outcome k content s t r is_content (omega (arith, fuel))
              (subst (λ g. file_size g < k) is_content file))

      saved : Outcome s t F (save_all k s)
      saved =
          Outcome-map {F = ⊥} {G = F} s t (save_all k s) absurd (save-Outcome s t r k (omega arith))

      saving : Outcome s t F (
          (if streq buffer (codes "save")
              then save_all k >> pure true
              else if streq buffer (codes "quit")
              then save_all k >> pure false
              else (printf (codes "Command not found!\n") >> pure true))
            s)
      saving =
          Outcome-if s t F (streq buffer (codes "save")) _ _ (λ e. Outcome-pure s t F _ true saved)
            (λ _.
              Outcome-if s t F (streq buffer (codes "quit")) _ _
                (λ e. Outcome-pure s t F _ false saved) (λ _. Came-text s t _ r))

  pub dispatch-Outcome : Outcome s t F (dispatch k command buffer name s)
  unfolding dispatch
  dispatch-Outcome =
      Outcome-if s t F (streq command (codes "mkdir")) _ _
        (λ e. Outcome-pure s t F _ true (
          with_name-Outcome s t F name (mkdir k)
            (λ none_there. no_name none_there (or_left _ _ (or_left _ _ e)))
            (λ n is_n.
              Outcome-map {F = CannotAdd s n} {G = F} s t (mkdir k n s)
                (cannot_add n is_n (or_left _ _ e)) (mkdir-Outcome s t r k n (omega arith)))))
        (λ _.
          Outcome-if s t F (streq command (codes "rmdir")) _ _
            (λ e. Outcome-pure s t F _ true (
              with_name-Outcome s t F name (rmdir k)
                (λ none_there. no_name none_there (or_right _ _ (or_left _ _ e)))
                (λ n is_n.
                  Outcome-map {F = ⊥} {G = F} s t (rmdir k n s) absurd
                    (rmdir-Outcome s t r k n (omega arith)))))
            (λ _.
              Outcome-if s t F (streq command (codes "ls")) _ _
                (λ e. Outcome-pure s t F _ true (
                  Outcome-map {F = ⊥} {G = F} s t (ls k s.cwd s) absurd
                    (ls-Outcome s t r k (omega arith))))
                (λ _.
                  Outcome-if s t F (streq command (codes "cd")) _ _
                    (λ e. Outcome-pure s t F _ true (
                      Outcome-map {F = kids_of s.cwd t ≡ nil} {G = F} s t (cd k name s)
                        (no_children e) (cd-Outcome s t r k name (omega arith))))
                    (λ _. by_buffer-Outcome))))
