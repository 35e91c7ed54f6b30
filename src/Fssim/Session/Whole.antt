-- ===== src/Fssim/Session/Whole.antt =====
-- The whole run of lab1_devito.c over the lines of its input.
use mathlib.Core.Path.{subst}
use cs.Base.{
  ℕ, ◌*◌, ◌+◌, ◌<◌, ◌≡◌, refl, sym, ap, ◌∙◌, ◌⊎◌, inl, inr, Bool, true, false, Option, none, some,
  List, [], ◌∷◌, ◌++◌, length, Text, codes, strtok, arith, if◌then◌else◌, Option-cases, Unused,
  Unused-next,
}
use cs.Fssim.{Ptr, State, ok, pure, dir, slash}
use cs.Fssim.Commands.{initialize}
use cs.Fssim.Shell.{cut_newline, leading, dispatch, command_line, session, main}
use cs.Fssim.Forest.{Forest, nil, cons, size}
use cs.Fssim.Show.{initialize-Holds}
use cs.Fssim.Session.{
  Ready, Came, Outcome, Outcome-map, Ready-same, Came-text, Outcome-behind, Outcome-next,
}
use cs.Fssim.Session.Names.{file_size}
use cs.Fssim.Session.Lines.{Mishap, dispatch-Outcome}

-- The words of a line as command_line takes them apart.
abbrev pub name_of : Text → Option Text
name_of rest = elim (strtok b' ' rest) [ none ↦ none | some (arg, more) ↦ some (cut_newline arg) ]

-- Why a line is undefined behaviour.
pub data LineMishap (k : ℕ) (s : State) (t : Forest) (line : Text) : Type 0 where
  no_word : strtok b' ' line ≡ none → LineMishap k s t line
  by_command :
      (word rest : Text)
      → strtok b' ' line ≡ some (word, rest)
      → Mishap k s t (cut_newline word) (leading line ++ cut_newline word) (name_of rest)
      → LineMishap k s t line

-- Twice the nodes that there can be and one more unit, and a unit for each byte of the file.
pub record Enough (k : ℕ) (s : State) (t : Forest) : Type 0 where
  pub nodes : (size t + length s.pool) * 130 + 1 < k
  pub file : file_size s.file < k

-- A command line from a well formed state whose names fit into their fields and whose addresses
-- that `malloc` has left are unused, with enough fuel, ends in such a state, with no more nodes
-- and addresses together than before, or is undefined behaviour for a reason of its own: it has no
-- word, its command lacks its name, the new entry's name does not fit or no address is left, cd
-- meets no child in the current directory, or reload has no file or meets an entry that cannot be
-- inserted.
pub command_line-Outcome :
    (k : ℕ) (s : State) (t : Forest) (line : Text)
    → Ready s t
    → Enough k s t
    → Outcome s t (LineMishap k s t line) (command_line k line s)
unfolding command_line
command_line-Outcome k s t line r fuel = elim (Option-cases (strtok b' ' line)) [
  | inl none_there ↦ rw (command_line, none_there) (no_word none_there)
  | inr ((word, rest), e) ↦
      rw (command_line, e)
        (Outcome-map
          {F = Mishap k s t (cut_newline word) (leading line ++ cut_newline word) (name_of rest)}
          {G = LineMishap k s t line} s t
          (dispatch k (cut_newline word) (leading line ++ cut_newline word) (name_of rest) s)
          (by_command word rest e)
          (dispatch-Outcome k s t (cut_newline word) (leading line ++ cut_newline word)
            (name_of rest) r (omega (arith, fuel.nodes)) fuel.file))
]

abbrev pub prompt : State → State
prompt s = record s { out = s.out ++ codes "$ " }

-- Where a session comes upon undefined behaviour: at a line that it comes to.
abbrev pub SessionMishap : ℕ → List Text → State → Forest → Type 0
SessionMishap k [] s t = ⊥
SessionMishap k (line ∷ lines) s t =
    LineMishap k (prompt s) t line
    ⊎ ((s' : State) × (t' : Forest) × (command_line k line (prompt s) ≡ ok true s')
        × Ready s' t'
        × SessionMishap k lines s' t')

-- The loop goes on, unless the line was `quit`.
goes_on :
    (k : ℕ) (lines : List Text) (s : State) (t : Forest) (G : Type 0) (more : Bool)
    → Ready s t
    → (more ≡ true → Outcome s t G (session k lines s))
    → Outcome s t G ((if more then session k lines else pure tt) s)
goes_on k lines s t G true r o = o refl
goes_on k lines s t G false r o = Came-text s t s.out r

Enough-Came :
    (k : ℕ) (s s' : State) (t : Forest) → Enough k s t → (c : Came s t s') → Enough k s' c.tree
Enough-Came k s s' t e c = record {
  nodes = omega (arith, e.nodes, c.room);
  file = c.file k e.file (omega (arith, e.nodes));
}

-- x
pub session-Outcome :
    (k : ℕ) (lines : List Text) (s : State) (t : Forest)
    → Ready s t
    → Enough k s t
    → Outcome s t (SessionMishap k lines s t) (session k lines s)
unfolding session
session-Outcome k [] s t r fuel = Came-text s t s.out r
session-Outcome k (line ∷ lines) s t r fuel =
    let r1 : Ready (prompt s) t = Ready-same s (prompt s) t r refl refl refl r.holds.cwd_in in
    let c1 : Came s t (prompt s) = record {
      tree = t;
      ready = r1;
      room = omega arith;
      file = λ k before room. before;
    } in
    Outcome-behind s (prompt s) t (SessionMishap k (line ∷ lines) s t) c1 _ (
      Outcome-next (prompt s) t (LineMishap k (prompt s) t line)
        (SessionMishap k (line ∷ lines) s t) (command_line k line (prompt s))
        (λ more. if more then session k lines else pure tt)
        (command_line-Outcome k (prompt s) t line r1
          (record { nodes = fuel.nodes; file = fuel.file }))
        inl
        (λ more s' e c.
          goes_on k lines s' c.tree (SessionMishap k (line ∷ lines) s t) more c.ready (λ on.
            Outcome-map {F = SessionMishap k lines s' c.tree}
              {G = SessionMishap k (line ∷ lines) s t} s' c.tree (session k lines s')
              (λ m. inr (s', c.tree, e ∙ ap (λ b. ok b s') on, c.ready, m))
              (session-Outcome k lines s' c.tree c.ready (
                Enough-Came k (prompt s) s' t (record { nodes = fuel.nodes; file = fuel.file })
                  c)))))

-- The program from its start, where `malloc` has some address.
abbrev pub StartMishap : ℕ → List Text → State → Type 0
StartMishap k lines s =
    (s' : State) × (t : Forest) × (initialize s ≡ ok tt s')
    × Ready s' t
    × SessionMishap k lines s' t

initialize-Outcome :
    (s : State) (p : Ptr) (ps : List Ptr)
    → s.pool ≡ p ∷ ps
    → Unused s.heap s.pool
    → Outcome s nil ⊥ (initialize s)
initialize-Outcome s p ps pool unused =
    let (ne, free, once, u) = subst (Unused s.heap) pool unused in
    let (s1, run, holds, left, file, spare) = initialize-Holds s p ps pool ne in
    rw run (record {
      tree = cons p slash dir nil nil;
      ready = record {
        holds = holds;
        spare = subst (Unused s1.heap) (sym left) (Unused-next s.heap s1.heap p ps once spare u);
        named = (omega arith, tt, tt);
      };
      room = omega (arith, ap length pool, ap length left);
      file = λ k before room. rw file before;
    })

-- On any input lines, from a start in which `malloc` has some address left, each address once, not
-- NULL and with nothing on it, and with fuel above 130 for each of them and one more and above the
-- bytes of the saved file, the program ends with one tree under the root that contains the current
-- directory, or a command is undefined behaviour for one of these reasons, in the well formed
-- state that the lines before lead to: a line without a word, a name that is missing or does not
-- fit, no address left, cd with no child in the current directory, or reload without a file or
-- from a file with an entry that cannot be inserted. The fuel is enough.
pub main-Outcome :
    (k : ℕ) (lines : List Text) (s : State) (p : Ptr) (ps : List Ptr)
    → s.pool ≡ p ∷ ps
    → Unused s.heap s.pool
    → Enough k s nil
    → Outcome s nil (StartMishap k lines s) (main k lines s)
unfolding main
main-Outcome k lines s p ps pool unused fuel =
    Outcome-next s nil ⊥ (StartMishap k lines s) (initialize s) (λ _. session k lines)
      (initialize-Outcome s p ps pool unused) absurd
      (λ a s' e c.
        Outcome-map {F = SessionMishap k lines s' c.tree} {G = StartMishap k lines s} s' c.tree
          (session k lines s') (λ m. (s', c.tree, e, c.ready, m))
          (session-Outcome k lines s' c.tree c.ready (Enough-Came k s s' nil fuel c)))
