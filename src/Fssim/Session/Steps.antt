-- ===== src/Fssim/Session/Steps.antt =====
-- Each command of lab1_devito.c from a state that is ready.
use mathlib.Core.Logic.{◌⊎◌, inl, inr}
use mathlib.Core.Path.{subst}
use cs.Base.{
  ℕ, suc, zero, ◌+◌, ◌<◌, ◌≤◌, ◌≡◌, ◌≢◌, refl, sym, true, false, Bool-cases, Option, none, some,
  List, [], ◌∷◌, Text, Unused, Unused-next, Unused-still, ◌==◌, streq, codes, arith,
}
use cs.Fssim.{Ptr, null, State, Run, fault, malloc, dir, regular, slash}
use cs.Fssim.Commands.{ls, pwd, cd, rm, rmdir, mkdir, creat, add_entry, fits}
use cs.Fssim.Shell.{save_all}
use cs.Fssim.Forest.{
  Forest, nil, cons, size, has, kids_of, set_kids, Rep, has-Within, load-ok, not-null,
}
use cs.Fssim.Invariant.{Holds, size-kids_of}
use cs.Fssim.Make.{
  Added, with_entry, taken, mkdir-taken, creat-taken, mkdir-add_entry, creat-add_entry,
  add_entry-Added,
}
use cs.Fssim.Edit.{has-kids_of}
use cs.Fssim.Cd.{target, arrive, cd_named, target-in, root-in, cd-home, cd-up, up-in, cd-cd_named}
use cs.Fssim.Show.{ls-listing}
use cs.Fssim.Where.{pwd-trail}
use cs.Fssim.Saved.{dump, save_all-dump}
use cs.Fssim.Remove.{
  Judge, Verdict, skip, refuse, take, without, rm_judge, rmdir_judge, Verdict-cases,
}
use cs.Fssim.Remove.Theorems.{Removed, RemovalSpec, rm-RemovalSpec, rmdir-RemovalSpec}
use cs.Fssim.Session.{Ready, Came, FileBound, Outcome, Came-same, Came-text}
use cs.Fssim.Session.Names.{
  AllShort, fits-lt, AllShort-kids_of, AllShort-set_kids, AllShort-without, length-dump,
}

-- The size of a tree in which the children of one node are replaced.
pub size-set_kids :
    (a c : ℕ) (ks t : Forest)
    → size ks ≤ size (kids_of a t) + c
    → size (set_kids a ks t) ≤ size t + c
unfolding set_kids kids_of
size-set_kids a c ks nil le = omega arith
size-set_kids a c ks (cons p name kind kids rest) le =
    ground (arith, size-set_kids a c ks kids, size-set_kids a c ks rest)

-- Why a new entry may be undefined behaviour.
abbrev pub CannotAdd : State → Text → Type 0
CannotAdd s name = (s.pool ≡ []) ⊎ (fits name ≡ false)

pub Pool-cases : (ps : List Ptr) → (ps ≡ []) ⊎ ((p : Ptr) × (qs : List Ptr) × (ps ≡ p ∷ qs))
Pool-cases [] = inl refl
Pool-cases (p ∷ qs) = inr (p, qs, refl)

add_entry-no_memory :
    (kind : ℕ) (name : Text) (s : State) → s.pool ≡ [] → add_entry kind name s ≡ fault
unfolding add_entry malloc
add_entry-no_memory kind name s e = rw (malloc, add_entry, e) refl

add_entry-too_long :
    (kind : ℕ) (name : Text) (s : State) (t : Forest) (p : Ptr) (ps : List Ptr)
    → Holds s t
    → s.pool ≡ p ∷ ps
    → p ≢ null
    → fits name ≡ false
    → add_entry kind name s ≡ fault
unfolding add_entry malloc
add_entry-too_long kind name s t p ps inv pool ne long =
    let (n, w) = has-Within s.root s.cwd t inv.rep inv.cwd_in in
    rw (add_entry, malloc, pool, not-null ne, load-ok (record s { pool = ps }) w.ne w.at, long) refl

Added-Came :
    (s s' : State) (t : Forest) (p : Ptr) (ps : List Ptr) (name : Text) (kind : ℕ)
    → s.pool ≡ p ∷ ps
    → Unused s.heap (p ∷ ps)
    → AllShort t
    → fits name ≡ true
    → Added s s' p ps (with_entry s.cwd p name kind t)
    → Came s t s'
Added-Came s s' t p ps name kind pool (ne, free, once, u) named short a = record {
  tree = with_entry s.cwd p name kind t;
  ready = record {
    holds = a.holds;
    spare = subst (Unused s'.heap) (sym a.pool) (Unused-next s.heap s'.heap p ps once a.spare u);
    named =
        AllShort-set_kids s.cwd _ t (fits-lt name short, tt, AllShort-kids_of s.cwd t named) named;
  };
  room =
      let grows = size-set_kids s.cwd 1 (cons p name kind nil (kids_of s.cwd t)) t (omega arith) in
      rw (a.pool, pool) (omega (arith, grows));
  file = λ k before room. rw a.file before;
}

size-without : (j : Judge) (f : Forest) → size (without j f) ≤ size f
unfolding without
size-without j nil = omega arith
size-without j (cons p name kind kids rest) = elim (Verdict-cases (j name kind kids)) [
  | inl go ↦ rw (without, go) (omega (arith, size-without j rest))
  | inr (inl stop) ↦ rw (without, stop) (omega arith)
  | inr (inr hit) ↦ rw (without, hit) (omega arith)
]

Removed-Came : (j : Judge) (s s' : State) (t : Forest) → Ready s t → Removed j s s' t → Came s t s'
Removed-Came j s s' t r a = record {
  tree = set_kids s.cwd (without j (kids_of s.cwd t)) t;
  ready = record {
    holds = a.holds;
    spare =
        subst (Unused s'.heap) (sym a.pool) (Unused-still s.heap s'.heap s.pool a.spare r.spare);
    named =
        AllShort-set_kids s.cwd _ t
          (AllShort-without j (kids_of s.cwd t) (AllShort-kids_of s.cwd t r.named)) r.named;
  };
  room =
      let shrinks =
        size-set_kids s.cwd 0 (without j (kids_of s.cwd t)) t
          (omega (arith, size-without j (kids_of s.cwd t))) in
      rw a.pool (omega (arith, shrinks));
  file = λ k before room. rw a.file before;
}

module _ (s : State) (t : Forest) (r : Ready s t) where
  pub ls-Outcome : (k : ℕ) → size t < k → Outcome s t ⊥ (ls k s.cwd s)
  ls-Outcome k fuel = rw (ls-listing k s t r.holds fuel) (Came-text s t _ r)

  add_entry-Outcome :
      (kind : ℕ) (name : Text) → Outcome s t (CannotAdd s name) (add_entry kind name s)
  add_entry-Outcome kind name = elim (Pool-cases s.pool) [
    | inl none_left ↦ rw (add_entry-no_memory kind name s none_left) (inl none_left)
    | inr (p, ps, pool) ↦
        let unused = subst (Unused s.heap) pool r.spare in
        let (ne, free, once, u) = unused in
        elim (Bool-cases (fits name)) [
          | inl short ↦
              let (s', run, a) = add_entry-Added s t p ps name kind r.holds pool ne free short in
              rw run (Added-Came s s' t p ps name kind pool unused r.named short a)
          | inr long ↦ rw (add_entry-too_long kind name s t p ps r.holds pool ne long) (inr long)
        ]
  ]

  pub mkdir-Outcome :
      (k : ℕ) (name : Text) → size t + size t < k → Outcome s t (CannotAdd s name) (mkdir k name s)
  mkdir-Outcome k name fuel = elim (Bool-cases (taken s.cwd name t)) [
    | inl there ↦ rw (mkdir-taken k s t name r.holds fuel there) (Came-text s t _ r)
    | inr new ↦ rw (mkdir-add_entry k s t name r.holds fuel new) (add_entry-Outcome dir name)
  ]

  pub creat-Outcome :
      (k : ℕ) (name : Text) → size t + size t < k → Outcome s t (CannotAdd s name) (creat k name s)
  creat-Outcome k name fuel = elim (Bool-cases (taken s.cwd name t)) [
    | inl there ↦ rw (creat-taken k s t name r.holds fuel there) (Came-text s t _ r)
    | inr new ↦ rw (creat-add_entry k s t name r.holds fuel new) (add_entry-Outcome regular name)
  ]

  removal-Outcome :
      (j : Judge) (no_text refused_text : Text) (run : Run (Unit {0})) (v : Verdict)
      → RemovalSpec j s t no_text refused_text run v
      → Outcome s t ⊥ run
  removal-Outcome j no_text refused_text run skip e = rw e (Came-text s t _ r)
  removal-Outcome j no_text refused_text run refuse e = rw e (Came-text s t _ r)
  removal-Outcome j no_text refused_text run take (s', e, a) = rw e (Removed-Came j s s' t r a)

  pub rm-Outcome : (k : ℕ) (name : Text) → size t < k → Outcome s t ⊥ (rm k name s)
  rm-Outcome k name fuel =
      removal-Outcome (rm_judge name) _ _ _ _ (rm-RemovalSpec k s t name r.holds fuel)

  pub rmdir-Outcome : (k : ℕ) (name : Text) → size t < k → Outcome s t ⊥ (rmdir k name s)
  rmdir-Outcome k name fuel =
      removal-Outcome (rmdir_judge name) _ _ _ _ (rmdir-RemovalSpec k s t name r.holds fuel)

  pub pwd-Outcome : (k : ℕ) → size t < k → Outcome s t ⊥ (pwd k s.cwd s)
  pwd-Outcome k fuel =
      let (n, w) = has-Within s.root s.cwd t r.holds.rep r.holds.cwd_in in
      rw (pwd-trail k s.cwd s t w.ne r.holds fuel) (Came-text s t _ r)

  pub save-Outcome : (k : ℕ) → size t + size t + 1 < k → Outcome s t ⊥ (save_all k s)
  save-Outcome zero fuel = absurd (omega arith)
  save-Outcome (suc k) fuel =
      rw (save_all-dump k s t r.holds (omega arith))
        (Came-same s _ t r refl refl refl r.holds.cwd_in saved)
    where
      saved : FileBound s t (record s { file = some (dump slash (kids_of s.root t)) })
      saved k before room = omega (
        arith,
        room,
        size-kids_of s.root t,
        length-dump slash (kids_of s.root t) (omega arith) (AllShort-kids_of s.root t r.named),
      )

  arrive-Came :
      (name : Text) (p : Ptr)
      → ((p == null) ≡ false → has p t ≡ true)
      → Outcome s t (kids_of s.cwd t ≡ nil) (arrive s name p)
  arrive-Came name p into = elim (Bool-cases (p == null)) [
    | inl none_there ↦ rw none_there (Came-text s t _ r)
    | inr there ↦
        rw there (Came-same s (record s { cwd = p }) t r refl refl refl (into there) (λ k b m. b))
  ]

  cd_named-Outcome :
      (name : Text) (f : Forest)
      → kids_of s.cwd t ≡ f
      → Rep s.heap s.cwd f
      → Outcome s t (kids_of s.cwd t ≡ nil) (cd_named s name f)
  cd_named-Outcome name nil e rep = e
  cd_named-Outcome name (cons p label kind kids rest) e rep = elim (Bool-cases (kind == regular)) [
    | inl hit ↦ rw hit (Came-text s t _ r)
    | inr miss ↦ rw miss (
        arrive-Came name (target name (cons p label kind kids rest)) λ there.
          has-kids_of s.cwd _ t (
            subst (λ f. has (target name (cons p label kind kids rest)) f ≡ true) (sym e)
              (target-in s.heap s.cwd name (cons p label kind kids rest) rep there)))
  ]

  pub cd-Outcome :
      (k : ℕ) (arg : Option Text) → size t < k → Outcome s t (kids_of s.cwd t ≡ nil) (cd k arg s)
  cd-Outcome k none fuel = rw (cd-home k s t r.holds fuel) (
      Came-same s (record s { cwd = s.root }) t r refl refl refl (root-in s.root t r.holds.top)
        (λ k b m. b))
  cd-Outcome k (some name) fuel =
      let (n, w) = has-Within s.root s.cwd t r.holds.rep r.holds.cwd_in in
      elim (Bool-cases (streq name (codes ".."))) [
        | inl up ↦ rw (cd-up k s t r.holds fuel name n up w.at) (
            Came-same s (record s { cwd = n.parent }) t r refl refl refl
              (up-in k s t r.holds fuel n w.at) (λ k' b m. b))
        | inr plain ↦
            rw (cd-cd_named k s t r.holds fuel name plain)
              (cd_named-Outcome name (kids_of s.cwd t) refl w.kids)
      ]
