-- ===== src/Fssim/Remove.antt =====
-- rmdir and rm as a decision on each child in turn, and what unlinking does to the heap.
pub mod Cut
pub mod Without
pub mod Theorems
use cs.Base.{
  ℕ, zero, suc, ◌+◌, ◌<◌, ◌≡◌, refl, ◌≢◌, ◌⊎◌, true, false, ◌&&◌, none, some, ◌++◌, Text, codes,
  streq, ◌==◌, Bool-cases, arith, ◌∙◌, sym, ap, inl, inr, if◌then◌else◌,
}
use cs.Fssim.{
  Ptr, null, Node, Heap, State, M, ok, write, printf, dir, regular, load, set_child, set_sibling,
  free,
}
use cs.Fssim.Commands.{not_dir, not_file, unlink, rmdir_found, rmdir_loop, rm_found, rm_loop}
use cs.Fssim.Forest.{
  Forest, nil, cons, head, size, has, Distinct, Apart, Rep, load-ok, not-null, frame, or_mid,
  or_last, or_false, eq_self, has-ne, not-has_ne, node,
}
use cs.Fssim.Edit.{Apart-symm}
use cs.Fssim.Invariant.{write_self, write_other}

-- What a removal does with one child: go on, refuse, or remove it.
pub data Verdict : Type 0 where
  skip refuse take : Verdict

pub Verdict-cases : (v : Verdict) → (v ≡ skip) ⊎ ((v ≡ refuse) ⊎ (v ≡ take))
Verdict-cases skip = inl refl
Verdict-cases refuse = inr (inl refl)
Verdict-cases take = inr (inr refl)

abbrev pub Judge : Type 0
Judge = Text → ℕ → Forest → Verdict

abbrev pub rmdir_judge : Text → Judge
rmdir_judge name label kind kids =
    if streq label name && (kind == dir) then (if head kids == null then take else refuse) else skip

abbrev pub rm_judge : Text → Judge
rm_judge name label kind kids =
    if streq label name then (if kind == regular then take else refuse) else skip

-- The first verdict that is not to go on, over the children from `f` on.
pub data Outcome : Type 0 where
  missing refused : Outcome
  cut : (prev p next : Ptr) → Outcome

unfoldable pub outcome : Judge → Ptr → Forest → Outcome
outcome j prev nil = missing
outcome j prev (cons p label kind kids rest) = elim (j label kind kids) [
  | skip ↦ outcome j p rest
  | refuse ↦ refused
  | take ↦ cut prev p (head rest)
]

-- The children without the first one that is to be removed.
unfoldable pub without : Judge → Forest → Forest
without j nil = nil
without j (cons p label kind kids rest) = elim (j label kind kids) [
  | skip ↦ cons p label kind kids (without j rest)
  | refuse ↦ cons p label kind kids rest
  | take ↦ rest
]

cut-injective : {a b c x y z : Ptr} → cut a b c ≡ cut x y z → (a ≡ x) × (b ≡ y) × (c ≡ z)
cut-injective e = (cc, cc, cc)

no_cut : {a b c : Ptr} {P : Type 0} → refused ≡ cut a b c → P
no_cut e = cc

abbrev pub cannot : Text → Text → Text
cannot name why = codes "Cannot remove " ++ (name ++ why)

abbrev act : Text → Text → Outcome → M (Unit {0})
act none_text refused_text missing = printf none_text
act none_text refused_text refused = printf refused_text
act none_text refused_text (cut prev p next) = unlink prev p next

rmdir_loop-act :
    (k : ℕ) (prev par : Ptr) (f : Forest) (name : Text) (s : State)
    → Rep s.heap par f
    → size f < k
    → rmdir_loop k prev (head f) name s
      ≡ act
          (not_dir name)
          (cannot name (codes " (not empty)!\n"))
          (outcome (rmdir_judge name) prev f)
          s
unfolding rmdir_loop outcome
rmdir_loop-act zero prev par f name s r fuel = absurd (omega arith)
rmdir_loop-act (suc k) prev par nil name s r fuel = refl
rmdir_loop-act (suc k) prev par (cons p label kind kids rest) name s (ne, at, rk, rr) fuel =
    rw (not-null ne, load-ok s ne at)
      (elim (Bool-cases (streq label name && (kind == dir))) [
        | inl hit ↦ elim (Bool-cases (head kids == null)) [
          | inl empty ↦ rw (hit, empty, outcome)
          | inr full ↦ rw (hit, full, outcome)
        ]
        | inr miss ↦ rw (miss, outcome) (rmdir_loop-act k p par rest name s rr (omega arith))
      ])

rm_loop-act :
    (k : ℕ) (prev par : Ptr) (f : Forest) (name : Text) (s : State)
    → Rep s.heap par f
    → size f < k
    → rm_loop k prev (head f) name s
      ≡ act
          (not_file name)
          (cannot name (codes " (not a FILE)!\n"))
          (outcome (rm_judge name) prev f)
          s
unfolding rm_loop outcome
rm_loop-act zero prev par f name s r fuel = absurd (omega arith)
rm_loop-act (suc k) prev par nil name s r fuel = refl
rm_loop-act (suc k) prev par (cons p label kind kids rest) name s (ne, at, rk, rr) fuel =
    rw (not-null ne, load-ok s ne at)
      (elim (Bool-cases (streq label name)) [
        | inl hit ↦ elim (Bool-cases (kind == regular)) [
          | inl file ↦ rw (hit, file, outcome)
          | inr other ↦ rw (hit, other, outcome)
        ]
        | inr miss ↦ rw (miss, outcome) (rm_loop-act k p par rest name s rr (omega arith))
      ])

-- What stands in the heap `g` after the cut behind `prev`, whose node is `m`.
record CutAfter (g h : Heap) (par prev p : Ptr) (m : Node) (old new : Forest) : Type 0 where
  rep : Rep g par new
  at : g prev ≡ some (record m { sibling = head new })
  freed : g p ≡ none
  inside : has p old ≡ true
  same : (b : Ptr) → has b old ≡ false → (b == prev) ≡ false → g b ≡ h b

-- The writes of `unlink` behind a sibling.
abbrev cut_heap : Heap → Ptr → Node → Ptr → Ptr → Heap
cut_heap h q n p next = write (write h q (some (record n { sibling = next }))) p none

module _ (h : Heap) (j : Judge) where
  cut-CutAfter :
      (par prev q p next : Ptr) (m : Node) (f : Forest)
      → Rep h par f
      → Distinct f
      → has prev f ≡ false
      → prev ≢ null
      → h prev ≡ some m
      → m.sibling ≡ head f
      → outcome j prev f ≡ cut q p next
      → (n : Node) × (q ≢ null)
        × (h q ≡ some n)
        × CutAfter (cut_heap h q n p next) h par prev p m f (without j f)
  unfolding outcome without
  cut-CutAfter par prev q p next m nil r d out ne at sib e = cc
  cut-CutAfter par prev q p next m (cons c label kind kids rest) (cne, cat, rk, rr)
        (nk, nr, apart, dk, dr) out ne at sib e =
      let (prev_c, prev_kids, prev_rest) =
        or_false (prev == c) (has prev kids) (has prev rest) out in
      elim (Verdict-cases (j label kind kids)) [
        | inl go ↦
            let (n, qne, qat, a) =
              cut-CutAfter par c q p next (node label kind (head kids) (head rest) par) rest rr dr
                nr cne cat refl (rw (go, outcome) at e) in
            (
              n,
              qne,
              qat,
              rw (go, without)
                  (record {
                    rep = (
                      cne,
                      a.at,
                      frame c kids rk (λ b i. a.same b (apart b i) (has-ne b c kids nk i)),
                      a.rep,
                    );
                    at =
                        a.same prev prev_rest prev_c
                        ∙ at
                        ∙ ap (λ x. some (record m { sibling = x })) sib;
                    freed = a.freed;
                    inside = or_last (p == c) (has p kids) (has p rest) a.inside;
                    same = λ b o other.
                        let (b_c, b_kids, b_rest) = or_false (b == c) (has b kids) (has b rest) o in
                        a.same b b_rest b_c;
                  }),
            )
        | inr (inl stop) ↦ no_cut (rw (stop, outcome) at e)
        | inr (inr hit) ↦
            let (eq, ep, en) = cut-injective (rw (hit, outcome) at e) in
            rw (← eq, ← ep, ← en, hit, without)
              (
                m,
                ne,
                at,
                record {
                  rep = frame par rest rr λ b i.
                      write_other _ c b none (has-ne b c rest nr i)
                      ∙ write_other h prev b _ (has-ne b prev rest prev_rest i);
                  at = write_other _ c prev none prev_c ∙ write_self h prev _;
                  freed = write_self _ c none;
                  inside = rw (eq_self c);
                  same = λ b o other.
                      let (b_c, b_kids, b_rest) = or_false (b == c) (has b kids) (has b rest) o in
                      write_other _ c b none b_c ∙ write_other h prev b _ other;
                },
              )
      ]
