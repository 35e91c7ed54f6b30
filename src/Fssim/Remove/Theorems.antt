-- ===== src/Fssim/Remove/Theorems.antt =====
-- The theorems on rm and rmdir of lab1_devito.c.
use cs.Base.{ℕ, ◌<◌, ◌≡◌, refl, ◌∙◌, true, none, ◌++◌, Text, codes, ◌==◌, arith, if◌then◌else◌}
use cs.Fssim.{Ptr, null, Node, Heap, State, Run, ok, printf}
use cs.Fssim.Commands.{not_dir, not_file, rmdir_loop, rmdir, rm_loop, rm}
use cs.Fssim.Forest.{
  Forest, nil, cons, head, size, has, Rep, Within, kids_of, set_kids, load-ok, not-null, has-Within,
  not-has_of_none, not-same,
}
use cs.Fssim.Edit.{
  set_kids-Rep, set_kids-Distinct, set_kids-has, not-has-kids_of_self, kids_of-Distinct,
}
use cs.Fssim.Invariant.{Holds, set_kids-IsRoot, size-kids_of}
use cs.Fssim.Remove.{
  Verdict, skip, refuse, take, Judge, rmdir_judge, rm_judge, outcome, without, cannot, act,
  rmdir_loop-act, rm_loop-act,
}
use cs.Fssim.Remove.Without.{has-without, not-has-without, without-Distinct, fate, outcome-fate}
use cs.Fssim.Remove.Cut.{DirCut, unlink-DirCut}

-- The first fitting child is out of the tree and one former child is freed. The rest stays, and what
-- was not in use is not.
pub record Removed (j : Judge) (s s' : State) (t : Forest) : Type 0 where
  pub holds : Holds s' (set_kids s.cwd (without j (kids_of s.cwd t)) t)
  pub gone : Ptr
  pub was_child : has gone (kids_of s.cwd t) ≡ true
  pub freed : s'.heap gone ≡ none
  pub root : s'.root ≡ s.root
  pub cwd : s'.cwd ≡ s.cwd
  pub out : s'.out ≡ s.out
  pub file : s'.file ≡ s.file
  pub pool : s'.pool ≡ s.pool
  pub spare : (b : Ptr) → s.heap b ≡ none → s'.heap b ≡ none

module _ (j : Judge) (s : State) (t : Forest) (inv : Holds s t) where
  removed-Holds :
      (g : Heap) (p : Ptr) (n : Node)
      → Within s.heap t s.cwd n
      → DirCut g s.heap s.cwd p n (kids_of s.cwd t) (without j (kids_of s.cwd t))
      → Holds (record s { heap = g }) (set_kids s.cwd (without j (kids_of s.cwd t)) t)
  removed-Holds g p n w c = record {
    rep =
        set_kids-Rep g s.heap s.cwd n (without j (kids_of s.cwd t)) s.root t inv.rep inv.distinct
          inv.cwd_in w.at c.at c.rep λ b i other out. c.same b out other;
    distinct =
        set_kids-Distinct s.cwd (without j (kids_of s.cwd t))
          (without-Distinct j (kids_of s.cwd t) (kids_of-Distinct s.cwd t inv.distinct))
          (not-has-without j s.cwd (kids_of s.cwd t) (not-has-kids_of_self s.cwd t inv.distinct)) t
          inv.distinct inv.cwd_in λ b i out. cc (has-without j b (kids_of s.cwd t) i);
    top = set_kids-IsRoot s.root s.cwd _ t inv.top;
    cwd_in = set_kids-has s.cwd _ t inv.cwd_in;
  }

  act-Removed :
      (no_text refused_text : Text)
      → fate j (kids_of s.cwd t) ≡ take
      → (s' : State) × (act no_text refused_text (outcome j null (kids_of s.cwd t)) s ≡ ok tt s')
        × Removed j s s' t
  act-Removed no_text refused_text hit =
      let (n, w) = has-Within s.root s.cwd t inv.rep inv.cwd_in in
      let (q, p, next, e) = rw hit at (outcome-fate j null (kids_of s.cwd t)) in
      let (g, run, c) =
        unlink-DirCut j s q p next n (kids_of s.cwd t) w.kids
          (kids_of-Distinct s.cwd t inv.distinct) (not-has-kids_of_self s.cwd t inv.distinct) w.ne
          w.at w.child e in
      (
        record s { heap = g },
        rw e run,
        record {
          holds = removed-Holds g p n w c;
          gone = p;
          was_child = c.inside;
          freed = c.freed;
          root = refl;
          cwd = refl;
          out = refl;
          file = refl;
          pool = refl;
          spare = λ b free.
              c.same b (not-has_of_none s.heap s.cwd b (kids_of s.cwd t) w.kids free)
                (not-same s.heap b s.cwd n w.at free)
              ∙ free;
        },
      )

  act-missing :
      (no_text refused_text : Text)
      → fate j (kids_of s.cwd t) ≡ skip
      → act no_text refused_text (outcome j null (kids_of s.cwd t)) s
        ≡ ok tt (record s { out = s.out ++ no_text })
  act-missing no_text refused_text none_there =
      let e = rw none_there at (outcome-fate j null (kids_of s.cwd t)) in rw e

  act-refused :
      (no_text refused_text : Text)
      → fate j (kids_of s.cwd t) ≡ refuse
      → act no_text refused_text (outcome j null (kids_of s.cwd t)) s
        ≡ ok tt (record s { out = s.out ++ refused_text })
  act-refused no_text refused_text stop =
      let e = rw stop at (outcome-fate j null (kids_of s.cwd t)) in rw e

module _ (k : ℕ) (s : State) (t : Forest) (name : Text) (inv : Holds s t) (fuel : size t < k) where
  rm_from :
      (f : Forest)
      → Rep s.heap s.cwd f
      → size f < k
      → (if head f == null then printf (not_file name) else rm_loop k null (head f) name) s
        ≡ act
            (not_file name)
            (cannot name (codes " (not a FILE)!\n"))
            (outcome (rm_judge name) null f)
            s
  unfolding outcome
  rm_from nil r less = refl
  rm_from (cons c label kind kids rest) r less =
      rw (not-null r.0) (rm_loop-act k null s.cwd (cons c label kind kids rest) name s r less)

  rm-act :
      rm k name s
      ≡ act
          (not_file name)
          (cannot name (codes " (not a FILE)!\n"))
          (outcome (rm_judge name) null (kids_of s.cwd t))
          s
  unfolding rm
  rm-act =
      let (n, w) = has-Within s.root s.cwd t inv.rep inv.cwd_in in
      rw (load-ok s w.ne w.at, w.child)
        (rm_from (kids_of s.cwd t) w.kids (omega (arith, size-kids_of s.cwd t)))

  rmdir_from :
      (f : Forest)
      → Rep s.heap s.cwd f
      → size f < k
      → (if head f == null then printf (not_dir name) else rmdir_loop k null (head f) name) s
        ≡ act
            (not_dir name)
            (cannot name (codes " (not empty)!\n"))
            (outcome (rmdir_judge name) null f)
            s
  unfolding outcome
  rmdir_from nil r less = refl
  rmdir_from (cons c label kind kids rest) r less =
      rw (not-null r.0) (rmdir_loop-act k null s.cwd (cons c label kind kids rest) name s r less)

  rmdir-act :
      rmdir k name s
      ≡ act
          (not_dir name)
          (cannot name (codes " (not empty)!\n"))
          (outcome (rmdir_judge name) null (kids_of s.cwd t))
          s
  unfolding rmdir
  rmdir-act =
      let (n, w) = has-Within s.root s.cwd t inv.rep inv.cwd_in in
      rw (not-null w.ne, load-ok s w.ne w.at, w.child)
        (rmdir_from (kids_of s.cwd t) w.kids (omega (arith, size-kids_of s.cwd t)))

-- What a removal with the judge `j` does, by the verdict on which its search stops.
abbrev pub RemovalSpec : Judge → State → Forest → Text → Text → Run (Unit {0}) → Verdict → Type 0
RemovalSpec j s t no_text refused_text r skip = r ≡ ok tt (record s { out = s.out ++ no_text })
RemovalSpec j s t no_text refused_text r refuse =
    r ≡ ok tt (record s { out = s.out ++ refused_text })
RemovalSpec j s t no_text refused_text r take = (s' : State) × (r ≡ ok tt s') × Removed j s s' t

act-RemovalSpec :
    (j : Judge) (s : State) (t : Forest) (inv : Holds s t) (no_text refused_text : Text)
    (v : Verdict)
    → fate j (kids_of s.cwd t) ≡ v
    → RemovalSpec j s t no_text refused_text
        (act no_text refused_text (outcome j null (kids_of s.cwd t)) s)
        v
act-RemovalSpec j s t inv no_text refused_text skip e = act-missing j s t inv no_text refused_text e
act-RemovalSpec j s t inv no_text refused_text refuse e =
    act-refused j s t inv no_text refused_text e
act-RemovalSpec j s t inv no_text refused_text take e = act-Removed j s t inv no_text refused_text e

-- In a well formed state, with fuel above the number of nodes, rm stops at the first child of that
-- name. If there is none it prints so; if that child is not a file it prints a refusal; in both
-- cases nothing else changes. If it is a file, rm ends in a well formed state whose tree lacks
-- just this child, and a former child of the directory is freed.
pub rm-RemovalSpec :
    (k : ℕ) (s : State) (t : Forest) (name : Text)
    → Holds s t
    → size t < k
    → RemovalSpec
        (rm_judge name)
        s
        t
        (not_file name)
        (cannot name (codes " (not a FILE)!\n"))
        (rm k name s)
        (fate (rm_judge name) (kids_of s.cwd t))
rm-RemovalSpec k s t name inv fuel =
    rw (rm-act k s t name inv fuel) (act-RemovalSpec (rm_judge name) s t inv _ _ _ refl)

-- In a well formed state, with fuel above the number of nodes, rmdir stops at the first child of
-- that name that is a directory. If there is none it prints so; if that directory is not empty it
-- prints a refusal; in both cases nothing else changes. If it is empty, rmdir ends in a well
-- formed state whose tree lacks just this child, and a former child of the directory is freed.
pub rmdir-RemovalSpec :
    (k : ℕ) (s : State) (t : Forest) (name : Text)
    → Holds s t
    → size t < k
    → RemovalSpec
        (rmdir_judge name)
        s
        t
        (not_dir name)
        (cannot name (codes " (not empty)!\n"))
        (rmdir k name s)
        (fate (rmdir_judge name) (kids_of s.cwd t))
rmdir-RemovalSpec k s t name inv fuel =
    rw (rmdir-act k s t name inv fuel) (act-RemovalSpec (rmdir_judge name) s t inv _ _ _ refl)
