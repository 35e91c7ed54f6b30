-- ===== src/Fssim/Session/RoundTrip.antt =====
-- save of lab1_devito.c in one session, and reload in a fresh one.
use mathlib.Core.List.{append-nil}
use cs.Base.{
  ℕ, suc, ◌+◌, ◌-◌, ◌<◌, ◌≤◌, ◌≡◌, refl, sym, ap, ◌∙◌, false, Option, none, some, [], length, Text,
  streq_self, arith,
}
use cs.Fssim.{Ptr, State, Run, ok, slash, dir}
use cs.Fssim.Disk.{reload_loop, reload}
use cs.Fssim.Shell.{save_all}
use cs.Fssim.Forest.{Forest, nil, cons, size, kids_of, eq_self}
use cs.Fssim.Invariant.{Holds, IsRoot, size-kids_of}
use cs.Fssim.Saved.{dump, save_all-dump}
use cs.Fssim.Shape.{empty, entry_of, shape, known, graft_here}
use cs.Fssim.Shape.Unique.{Unique, NewTo-entry, NewTo-empty}
use cs.Fssim.Session.{Ready}
use cs.Fssim.Session.Entry.{Token}
use cs.Fssim.Session.Reload.{reload_run}
use cs.Fssim.Session.Rebuild.{Saveable, rebuild}

slash-Token : Token slash
slash-Token = record {
  some_byte = omega arith;
  no_comma = refl;
  no_newline = refl;
  short = omega arith;
}

Saveable-no_root : (f : Forest) → Saveable f → known slash (shape f) ≡ false
Saveable-no_root nil s = refl
Saveable-no_root (cons p name kind kids rest) (n, not_root, plain, sk, sr) =
    rw (not_root, Saveable-no_root kids sk, Saveable-no_root rest sr) refl

file_of : Run (Unit {0}) → Option Text
file_of (ok a s) = s.file
file_of _ = none

-- What save left in the file.
saved_file :
    (k : ℕ) (s s' : State) (t : Forest)
    → Holds s t
    → size t + size t < k
    → save_all (suc k) s ≡ ok tt s'
    → s'.file ≡ some (dump slash (kids_of s.root t))
unfolding file_of
saved_file k s s' t inv fuel run = ap file_of (sym run ∙ save_all-dump k s t inv fuel)

-- The whole tree is the root with its children.
root_shape :
    (r : Ptr) (t : Forest) → IsRoot r t → shape t ≡ entry_of slash dir (shape (kids_of r t)) empty
unfolding kids_of
root_shape r nil top = absurd top
root_shape r (cons p name kind kids nil) (is_r, is_slash, is_dir) =
    rw (kids_of, is_r, eq_self r, is_slash, is_dir) refl
root_shape r (cons p name kind kids (cons _ _ _ _ _)) top = absurd top

exceeds : (a k : ℕ) → a < k → (m : ℕ) × (k ≡ a + suc m)
exceeds a k h = (k - a - 1, omega arith)

-- Reading back the lines of `f` in a session that has the root alone.
pub record Back (k : ℕ) (s : State) (f : Forest) : Type 0 where
  pub after : State
  pub tree : Forest
  pub run : reload k s ≡ ok tt after
  pub ready : Ready after tree
  pub same : shape tree ≡ entry_of slash dir (shape f) empty

ends : (k m : ℕ) (s : State) → reload_loop k (suc m) [] s ≡ ok tt s
unfolding reload_loop
ends k m s = refl

back :
    (k : ℕ) (s : State) (r : Ptr) (f : Forest)
    → Ready s (cons r slash dir nil nil)
    → s.file ≡ some (dump slash f)
    → length s.pool + length s.pool + 2 < k
    → Saveable f
    → Unique (shape f)
    → size f ≤ length s.pool
    → Back k s f
back k s r f ready file fuel ok_names unique enough =
    let (m, split) = exceeds (size f) k (omega (arith, fuel, enough)) in
    let b =
      rebuild k (suc m) f s (cons r slash dir nil nil) slash [] ready (omega (arith, fuel))
        slash-Token (rw (streq_self slash) refl) ok_names
        (NewTo-entry slash dir empty (shape f) (Saveable-no_root f ok_names)
          (NewTo-empty (shape f)))
        unique enough in
    record {
      after = b.after;
      tree = b.tree;
      run =
          reload_run k (dump slash f) s file
          ∙ ap (λ n. reload_loop k n (dump slash f) s) split
          ∙ ap (λ x. reload_loop k (size f + suc m) x s) (sym (append-nil (dump slash f)))
          ∙ b.run
          ∙ ends k m b.after;
      ready = b.ready;
      same = b.same ∙ graft_here slash (shape f) slash dir empty empty (streq_self slash);
    }

-- Where the save command ends from a well formed state, every name in its tree is there once and,
-- but for the root's, is a token that fits (some bytes, no comma, no newline, not a slash alone),
-- and no type is a newline, reload in a session that has the root alone, that file, and addresses
-- enough for the tree, with enough fuel, ends in a well formed state whose tree has the same
-- names, types and order as the saved one.
pub reload-save_all :
    (k : ℕ) (s s1 s2 : State) (t : Forest) (r : Ptr)
    → Holds s t
    → size t + size t < k
    → save_all (suc k) s ≡ ok tt s1
    → Saveable (kids_of s.root t)
    → Unique (shape (kids_of s.root t))
    → Ready s2 (cons r slash dir nil nil)
    → s2.file ≡ s1.file
    → size t ≤ length s2.pool
    → length s2.pool + length s2.pool + 2 < k
    → (s3 : State) × (t3 : Forest) × (reload k s2 ≡ ok tt s3) × Ready s3 t3 × (shape t3 ≡ shape t)
reload-save_all k s s1 s2 t r inv fuel run ok_names unique ready file enough fuel2 =
    let b =
      back k s2 r (kids_of s.root t) ready (file ∙ saved_file k s s1 t inv fuel run) fuel2 ok_names
        unique (omega (arith, enough, size-kids_of s.root t)) in
    (b.after, b.tree, b.run, b.ready, b.same ∙ sym (root_shape s.root t inv.top))
