-- ===== src/Fssim/Session/Rebuild.antt =====
-- save and then reload of lab1_devito.c: the tree comes back, at other addresses.
use mathlib.Core.List.{append_assoc, append-nil}
use mathlib.Core.Path.{subst}
use cs.Base.{
  ℕ, zero, suc, ◌+◌, ◌<◌, ◌≤◌, ◌≡◌, refl, sym, ap, ◌∙◌, Bool, true, false, ◌||◌, [], ◌∷◌, ◌++◌,
  codes, length, length-append, Text, ◌==◌, streq, streq_self, arith, lacks, lacks-append,
  lacks-cons,
}
use cs.Fssim.{State, ok, slash}
use cs.Fssim.Disk.{entry_line, read_line, reload_line, reload_loop}
use cs.Fssim.Forest.{Forest, nil, cons, size}
use cs.Fssim.Saved.{dump}
use cs.Fssim.Shape.{
  Shape, empty, entry_of, shape, known, graft, graft-empty, graft-graft, graft-new, known-graft,
  known-graft_still,
}
use cs.Fssim.Shape.Unique.{NewTo, Unique, NewTo-entry, NewTo-empty, NewTo-graft}
use cs.Fssim.Session.{Ready}
use cs.Fssim.Session.Entry.{Token, entered}

-- `fgets` takes a line off, if there is room for it.
read_line-line :
    (n : ℕ) (a more : Text)
    → lacks b'\n' a ≡ true
    → length a < n
    → read_line n (a ++ b'\n' ∷ more) ≡ (a ++ b'\n' ∷ [], more)
unfolding read_line
read_line-line zero a more h lt = absurd (omega arith)
read_line-line (suc n) [] more h lt = refl
read_line-line (suc n) (c ∷ a) more h lt =
    let (other, out) = lacks-cons b'\n' c a h in
    rw (other, read_line-line n a more out (omega arith)) refl

loop_step :
    (k rounds : ℕ) (content line rest : Text) (s s' : State)
    → 0 < length content
    → read_line 255 content ≡ (line, rest)
    → reload_line k line s ≡ ok tt s'
    → reload_loop k (suc rounds) content s ≡ reload_loop k rounds rest s'
unfolding reload_loop
loop_step k rounds [] line rest s s' some_byte e run = absurd (omega arith)
loop_step k rounds (c ∷ content) line rest s s' some_byte e run = rw (reload_loop, e, run) refl

-- Names that come back: each a token, and not that of the root; a type that is no newline.
abbrev pub Saveable : Forest → Type 0
Saveable nil = Unit {0}
Saveable (cons p name kind kids rest) =
    Token name × (streq name slash ≡ false) × ((kind == 10) ≡ false) × Saveable kids × Saveable rest

-- What the lines of `f` come to, as children of the entry `up`, with `more` behind them.
pub record Rebuilt (k rounds : ℕ) (s : State) (t : Forest) (up : Text) (f : Forest) (more : Text)
    : Type 0 where
  pub after : State
  pub tree : Forest
  pub run : reload_loop k (size f + rounds) (dump up f ++ more) s ≡ reload_loop k rounds more after
  pub ready : Ready after tree
  pub same : shape tree ≡ graft up (shape f) (shape t)
  pub left : size f + length after.pool ≡ length s.pool
  pub room : size tree + length after.pool ≤ size t + length s.pool

-- An entry's line without its newline.
abbrev entry_text : Text → Text → ℕ → Text
entry_text name up kind = name ++ (codes "," ++ (up ++ (codes "," ++ (kind ∷ []))))

module _ (name up : Text) (kind : ℕ) (n : Token name) (u : Token up)
    (plain : (kind == 10) ≡ false) where
  entry_lacks : lacks b'\n' (entry_text name up kind) ≡ true
  entry_lacks =
      lacks-append b'\n' name (codes "," ++ (up ++ (codes "," ++ (kind ∷ [])))) n.no_newline (
        lacks-append b'\n' (codes ",") (up ++ (codes "," ++ (kind ∷ []))) refl (
          lacks-append b'\n' up (codes "," ++ (kind ∷ [])) u.no_newline
            (lacks-append b'\n' (codes ",") (kind ∷ []) refl (rw plain refl))))

  split_line :
      (more : Text) → entry_line name up kind ++ more ≡ entry_text name up kind ++ b'\n' ∷ more
  split_line more =
      append_assoc name (codes "," ++ (up ++ (codes "," ++ (kind ∷ codes "\n")))) more
      ∙ ap (λ x. name ++ (codes "," ++ x))
          (append_assoc up (codes "," ++ (kind ∷ codes "\n")) more
            ∙ sym (append_assoc up (codes "," ++ (kind ∷ [])) (b'\n' ∷ more)))
      ∙ sym (append_assoc name (codes "," ++ (up ++ (codes "," ++ (kind ∷ [])))) (b'\n' ∷ more))

  entry_small : length (entry_text name up kind) < 255
  entry_small = omega (
    arith,
    n.short,
    u.short,
    length-append name (codes "," ++ (up ++ (codes "," ++ (kind ∷ [])))),
    length-append up (codes "," ++ (kind ∷ [])),
  )

  entry_read :
      (more : Text)
      → read_line 255 (entry_line name up kind ++ more) ≡ (entry_line name up kind, more)
  entry_read more =
      ap (read_line 255) (split_line more)
      ∙ read_line-line 255 (entry_text name up kind) more entry_lacks entry_small
      ∙ ap (λ x. (x, more)) (sym (split_line []) ∙ append-nil (entry_line name up kind))

  entry_some : (more : Text) → 0 < length (entry_line name up kind ++ more)
  entry_some more = omega (
    arith,
    n.some_byte,
    length-append (entry_line name up kind) more,
    length-append name (codes "," ++ (up ++ (codes "," ++ (kind ∷ codes "\n")))),
  )

dump_entry :
    (p : ℕ) (up name : Text) (kind : ℕ) (kids rest : Forest) (more : Text)
    → streq name slash ≡ false
    → dump up (cons p name kind kids rest) ++ more
      ≡ entry_line name up kind ++ (dump name kids ++ (dump up rest ++ more))
dump_entry p up name kind kids rest more e = rw e (
    append_assoc (entry_line name up kind) (dump name kids ++ dump up rest) more
    ∙ ap (λ x. entry_line name up kind ++ x) (append_assoc (dump name kids) (dump up rest) more))

grafted_known :
    (name up : Text) (kind : ℕ) (g t : Shape)
    → known up t ≡ true
    → known name (graft up (entry_of name kind g empty) t) ≡ true
grafted_known name up kind g t there =
    known-graft name up (entry_of name kind g empty) t
    ∙ rw (there, streq_self name) (or_true (known name t))
  where
    or_true : (a : Bool) → (a || true) ≡ true
    or_true a = ground arith

rounds_eq : (a b c : ℕ) → suc (a + b) + c ≡ suc (a + (b + c))
rounds_eq a b c = omega arith

pub rebuild :
    (k rounds : ℕ) (f : Forest) (s : State) (t : Forest) (up more : Text)
    → Ready s t
    → size t + length s.pool + (size t + length s.pool) < k
    → Token up
    → known up (shape t) ≡ true
    → Saveable f
    → NewTo (shape t) (shape f)
    → Unique (shape f)
    → size f ≤ length s.pool
    → Rebuilt k rounds s t up f more
rebuild k rounds nil s t up more r fuel u there ok_names new unique enough = record {
  after = s;
  tree = t;
  run = ap (λ n. reload_loop k n more s) (omega arith);
  ready = r;
  same = sym (graft-empty up (shape t));
  left = omega arith;
  room = omega arith;
}
rebuild k rounds (cons p name kind kids rest) s t up more r fuel u there
      (n, not_root, plain, sk, sr) (nn, nk, nr) (uk, ur, apart, dk, dr) enough =
    let e = entered k s t r (omega arith) name up kind n u there nn plain (omega arith) in
    let one = entry_of name kind empty empty in
    let named : known name (shape e.tree) ≡ true =
      ap (known name) e.same ∙ grafted_known name up kind empty (shape t) there in
    let kids_new : NewTo (shape e.tree) (shape kids) =
      subst (λ x. NewTo x (shape kids)) (sym e.same)
        (NewTo-graft up one (shape t) (shape kids) nk
          (NewTo-entry name kind empty (shape kids) uk (NewTo-empty (shape kids)))) in
    let a =
      rebuild k (size rest + rounds) kids e.after e.tree name (dump up rest ++ more) e.ready
        (omega (arith, fuel, e.room)) n named sk kids_new dk (omega (arith, e.left, enough)) in
    let shape2 : shape a.tree ≡ graft up (entry_of name kind (shape kids) empty) (shape t) =
      a.same
      ∙ ap (graft name (shape kids)) e.same
      ∙ graft-new name kind (shape kids) (streq_self name) up (shape t) nn there in
    let whole = entry_of name kind (shape kids) empty in
    let up_there : known up (shape a.tree) ≡ true =
      ap (known up) shape2 ∙ known-graft_still up up whole (shape t) there in
    let rest_new : NewTo (shape a.tree) (shape rest) =
      subst (λ x. NewTo x (shape rest)) (sym shape2)
        (NewTo-graft up whole (shape t) (shape rest) nr
          (NewTo-entry name kind (shape kids) (shape rest) ur apart)) in
    let b =
      rebuild k rounds rest a.after a.tree up more a.ready (omega (arith, fuel, e.room, a.room)) u
        up_there sr rest_new dr (omega (arith, e.left, a.left, enough)) in
    record {
      after = b.after;
      tree = b.tree;
      run =
          ap (λ m. reload_loop k m (dump up (cons p name kind kids rest) ++ more) s)
            (rounds_eq (size kids) (size rest) rounds)
          ∙ ap (λ x. reload_loop k (suc (size kids + (size rest + rounds))) x s)
              (dump_entry p up name kind kids rest more not_root)
          ∙ loop_step k (size kids + (size rest + rounds)) _ (entry_line name up kind)
              (dump name kids ++ (dump up rest ++ more)) s e.after
              (entry_some name up kind n u plain (dump name kids ++ (dump up rest ++ more)))
              (entry_read name up kind n u plain (dump name kids ++ (dump up rest ++ more))) e.run
          ∙ a.run
          ∙ b.run;
      ready = b.ready;
      same =
          b.same ∙ ap (graft up (shape rest)) shape2 ∙ graft-graft up whole (shape rest) (shape t);
      left = omega (arith, e.left, a.left, b.left);
      room = omega (arith, e.room, a.room, b.room);
    }
