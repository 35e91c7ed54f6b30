-- ===== src/Fssim/Session/Entry.antt =====
-- One line of a saved file of lab1_devito.c, read back.
use mathlib.Core.Logic.{inl, inr}
use mathlib.Core.Path.{subst}
use cs.Base.{
  ℕ, ◌+◌, ◌<◌, ◌≤◌, ◌≡◌, refl, sym, ap, ◌∙◌, true, false, not, Bool-cases, some, [], ◌∷◌, ◌++◌,
  codes, length, Text, Unused, ◌==◌, streq, streq_self, eq_of_streq, arith, lacks, strtok-append,
}
use cs.Fssim.{Ptr, null, State, ok, slash}
use cs.Fssim.Commands.{fits}
use cs.Fssim.Disk.{entry_line, reload_insert, reload_under, reload_entry, reload_line}
use cs.Fssim.Forest.{Forest, nil, cons, size, find}
use cs.Fssim.Invariant.{IsRoot}
use cs.Fssim.Search.{find-Found}
use cs.Fssim.Shape.{empty, entry_of, shape, known, graft}
use cs.Fssim.Shape.Found.{find-known, shape-grown}
use cs.Fssim.Session.{Ready}
use cs.Fssim.Session.Steps.{Pool-cases}
use cs.Fssim.Session.Insert.{Inserted-room}
use cs.Fssim.Session.Reload.{insert_run, search_root}

-- A name as it stands between the commas of a line.
pub record Token (name : Text) : Type 0 where
  pub some_byte : 0 < length name
  pub no_comma : lacks b',' name ≡ true
  pub no_newline : lacks b'\n' name ≡ true
  pub short : length name < 64

-- What the insertion of one entry comes to.
pub record Entered (k : ℕ) (s : State) (t : Forest) (name up : Text) (kind : ℕ) : Type 0 where
  pub after : State
  pub tree : Forest
  pub run : reload_line k (entry_line name up kind) s ≡ ok tt after
  pub ready : Ready after tree
  pub same : shape tree ≡ graft up (entry_of name kind empty empty) (shape t)
  pub left : length after.pool + 1 ≡ length s.pool
  pub room : size tree + length after.pool ≤ size t + length s.pool

root_found : (r : Ptr) (t : Forest) (up : Text) → IsRoot r t → streq up slash ≡ true → find up t ≡ r
unfolding find
root_found r nil up i e = absurd i
root_found r (cons p name kind kids nil) up (is_r, is_slash, is_dir) e =
    rw (find, is_slash, sym_streq up e) is_r
  where
    sym_streq : (up : Text) → streq up slash ≡ true → streq slash up ≡ true
    sym_streq up e = rw (eq_of_streq up slash e) (streq_self slash)
root_found r (cons p name kind kids (cons _ _ _ _ _)) up i e = absurd i

fits-of : (name : Text) → length name < 64 → fits name ≡ true
unfolding fits
fits-of name h = ground arith

module _ (k : ℕ) (s : State) (t : Forest) (r : Ready s t) (fuel : size t + size t < k)
    (name up : Text) (kind : ℕ) (token : Token name) (up_token : Token up)
    (known_up : known up (shape t) ≡ true) (new : known name (shape t) ≡ false) where
  parent_there : (find up t == null) ≡ false
  parent_there = find-known s.heap s.root t up r.holds.rep ∙ ap not known_up

  name_missing : (find name t == null) ≡ true
  name_missing = find-known s.heap s.root t name r.holds.rep ∙ ap not new

  under_run :
      (rest : Text)
      → reload_under k (find up t) name (some (kind ∷ [], rest)) s
        ≡ reload_insert k (find up t) name (some (kind ∷ [], rest)) s
  unfolding reload_under
  under_run rest = rw (reload_under, search_root k s t r fuel name, name_missing) refl

  entry_run :
      (rest : Text)
      → reload_entry k name up (some (kind ∷ [], rest)) s
        ≡ reload_insert k (find up t) name (some (kind ∷ [], rest)) s
  unfolding reload_entry
  entry_run rest = elim (Bool-cases (streq up slash)) [
    | inl top ↦
        rw (reload_entry, top)
          (ap (λ p. reload_under k p name (some (kind ∷ [], rest)) s)
              (sym (root_found s.root t up r.holds.top top))
            ∙ under_run rest)
    | inr other ↦
        rw (reload_entry, other, search_root k s t r fuel up, parent_there) (under_run rest)
  ]

  line_run :
      (kind == 10) ≡ false
      → reload_line k (entry_line name up kind) s ≡ reload_entry k name up (some (kind ∷ [], [])) s
  unfolding reload_line
  line_run plain =
      rw
        (
          reload_line,
          strtok-append b',' name (up ++ (codes "," ++ (kind ∷ codes "\n"))) token.some_byte
              token.no_comma,
          strtok-append b',' up (kind ∷ codes "\n") up_token.some_byte up_token.no_comma,
          strtok-append b'\n' (kind ∷ []) [] (omega arith) (rw plain refl),
        )
        refl

  pub entered : (kind == 10) ≡ false → 0 < length s.pool → Entered k s t name up kind
  entered plain some_address = elim (Pool-cases s.pool) [
    | inl none_left ↦ absurd (clash none_left)
    | inr (p, ps, pool) ↦
        let inside = (find-Found s.heap s.root t up r.holds.rep parent_there).inside in
        let (s', run, ins) =
          insert_run k s t r fuel (find up t) name kind [] [] p ps inside pool
            (subst (Unused s.heap) pool r.spare) (fits-of name token.short) in
        record {
          after = s';
          tree = _;
          run = line_run plain ∙ entry_run [] ∙ run;
          ready = ins.ready;
          same = shape-grown s.heap p up name kind s.root t r.holds.rep r.holds.distinct known_up;
          left = omega (arith, ap length ins.left, ap length pool);
          room = Inserted-room s s' t (find up t) p ps name kind pool ins;
        }
  ]
    where
      clash : s.pool ≡ [] → ⊥
      clash e = omega (arith, ap length e, some_address)
