-- ===== src/Fssim/Remove/Cut.antt =====
-- unlink, as a cut among the children of the current directory.
use cs.Base.{◌≡◌, refl, ◌≢◌, true, false, none, some, ◌==◌, ==_iff, Bool-cases, ◌∙◌, ap, inl, inr}
use cs.Fssim.{Ptr, null, Node, Heap, State, ok, write, set_child, set_sibling, free}
use cs.Fssim.Commands.{unlink}
use cs.Fssim.Forest.{
  Forest, nil, cons, head, has, Distinct, Rep, load-ok, not-null, frame, or_last, or_false, eq_self,
  has-ne, node, has-Within,
}
use cs.Fssim.Invariant.{write_self, write_other}
use cs.Fssim.Remove.{
  Verdict-cases, Judge, cut, outcome, without, cut-CutAfter, cut-injective, no_cut, cut_heap,
}

-- What stands in the heap `g` after a cut among the children of the directory `d`.
pub record DirCut (g h : Heap) (d p : Ptr) (n : Node) (old new : Forest) : Type 0 where
  pub rep : Rep g d new
  pub at : g d ≡ some (record n { child = head new })
  pub freed : g p ≡ none
  pub inside : has p old ≡ true
  pub same : (b : Ptr) → has b old ≡ false → (b == d) ≡ false → g b ≡ h b

still_allocated :
    (h : Heap) (q p : Ptr) (n m : Node)
    → h p ≡ some m
    → (x : Node) × (write h q (some n) p ≡ some x)
still_allocated h q p n m e = elim (Bool-cases (p == q)) [
  | inl hit ↦ (n, rw ((==_iff p q).0 hit) (write_self h q (some n)))
  | inr miss ↦ (m, write_other h q p _ miss ∙ e)
]

module _ (j : Judge) (s : State) where
  unlink-behind :
      (q p next : Ptr) (n m : Node)
      → q ≢ null
      → p ≢ null
      → s.heap q ≡ some n
      → s.heap p ≡ some m
      → unlink q p next s ≡ ok tt (record s { heap = cut_heap s.heap q n p next })
  unfolding unlink set_sibling free
  unlink-behind q p next n m qne pne qat pat =
      let (x, e) = still_allocated s.heap q p (record n { sibling = next }) m pat in
      rw (
        not-null qne,
        load-ok s qne qat,
        load-ok (record s { heap = write s.heap q (some (record n { sibling = next })) }) pne e,
      )

  unlink-first :
      (p next : Ptr) (n m : Node)
      → s.cwd ≢ null
      → p ≢ null
      → s.heap s.cwd ≡ some n
      → s.heap p ≡ some m
      → unlink null p next s
        ≡ ok tt (record s {
          heap = write (write s.heap s.cwd (some (record n { child = next }))) p none;
        })
  unfolding unlink set_child free
  unlink-first p next n m dne pne dat pat =
      let (x, e) = still_allocated s.heap s.cwd p (record n { child = next }) m pat in
      rw (
        load-ok s dne dat,
        load-ok (record s { heap = write s.heap s.cwd (some (record n { child = next })) }) pne e,
      )

  pub unlink-DirCut :
      (q p next : Ptr) (n : Node) (f : Forest)
      → Rep s.heap s.cwd f
      → Distinct f
      → has s.cwd f ≡ false
      → s.cwd ≢ null
      → s.heap s.cwd ≡ some n
      → n.child ≡ head f
      → outcome j null f ≡ cut q p next
      → (g : Heap) × (unlink q p next s ≡ ok tt (record s { heap = g }))
        × DirCut g s.heap s.cwd p n f (without j f)
  unfolding outcome without
  unlink-DirCut q p next n nil r d out dne dat kid e = cc
  unlink-DirCut q p next n (cons c label kind kids rest) (cne, cat, rk, rr) (nk, nr, apart, dk, dr)
        out dne dat kid e =
      let (d_c, d_kids, d_rest) = or_false (s.cwd == c) (has s.cwd kids) (has s.cwd rest) out in
      elim (Verdict-cases (j label kind kids)) [
        | inl go ↦
            let (m, qne, qat, a) =
              cut-CutAfter s.heap j s.cwd c q p next (node label kind (head kids) (head rest) s.cwd)
                rest rr dr nr cne cat refl (rw (go, outcome) at e) in
            let (x, w) = has-Within s.cwd p rest rr a.inside in
            (
              cut_heap s.heap q m p next,
              unlink-behind q p next m x qne w.ne qat w.at,
              rw (go, without)
                  (record {
                    rep = (
                      cne,
                      a.at,
                      frame c kids rk (λ b i. a.same b (apart b i) (has-ne b c kids nk i)),
                      a.rep,
                    );
                    at =
                        a.same s.cwd d_rest d_c ∙ dat ∙ ap (λ x. some (record n { child = x })) kid;
                    freed = a.freed;
                    inside = or_last (p == c) (has p kids) (has p rest) a.inside;
                    same = λ b o other.
                        let (b_c, b_kids, b_rest) = or_false (b == c) (has b kids) (has b rest) o in
                        a.same b b_rest b_c;
                  }),
            )
        | inr (inl stop) ↦ no_cut (rw (stop, outcome) at e)
        | inr (inr hit) ↦
            let (eq, ep, en) = cut-injective (rw (hit, outcome) at e) in
            rw (← eq, ← ep, ← en, hit, without)
              (
                write (write s.heap s.cwd (some (record n { child = head rest }))) c none,
                unlink-first c (head rest) n _ dne cne dat cat,
                record {
                  rep = frame s.cwd rest rr λ b i.
                      write_other _ c b none (has-ne b c rest nr i)
                      ∙ write_other s.heap s.cwd b _ (has-ne b s.cwd rest d_rest i);
                  at = write_other _ c s.cwd none d_c ∙ write_self s.heap s.cwd _;
                  freed = write_self _ c none;
                  inside = rw (eq_self c);
                  same = λ b o other.
                      let (b_c, b_kids, b_rest) = or_false (b == c) (has b kids) (has b rest) o in
                      write_other _ c b none b_c ∙ write_other s.heap s.cwd b _ other;
                },
              )
      ]
