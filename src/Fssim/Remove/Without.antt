-- ===== src/Fssim/Remove/Without.antt =====
-- The list of children that a removal leaves, and the verdict on which its search stops.
use cs.Base.{Bool, ◌||◌, ◌≡◌, refl, true, false, ◌==◌, Bool-cases, arith, inl, inr}
use cs.Fssim.{Ptr}
use cs.Fssim.Forest.{Forest, nil, cons, head, has, Distinct, or_last}
use cs.Fssim.Remove.{
  Verdict, skip, refuse, take, Verdict-cases, Judge, Outcome, missing, refused, cut, outcome,
  without,
}

pub has-without : (j : Judge) (b : Ptr) (f : Forest) → has b (without j f) ≡ true → has b f ≡ true
unfolding without
has-without j b nil i = cc
has-without j b (cons c label kind kids rest) i = elim (Verdict-cases (j label kind kids)) [
  | inl go ↦ or_mono (b == c) (has b kids) _ _ (has-without j b rest) (rw (go, without) at i)
  | inr (inl stop) ↦ rw (stop, without) at i
  | inr (inr hit) ↦ or_last (b == c) (has b kids) (has b rest) (rw (hit, without) at i)
]
  where
    or_mono :
        (x y z w : Bool) → (z ≡ true → w ≡ true) → (x || (y || z)) ≡ true → (x || (y || w)) ≡ true
    or_mono x y z w up h = ground arith

pub not-has-without :
    (j : Judge) (b : Ptr) (f : Forest) → has b f ≡ false → has b (without j f) ≡ false
not-has-without j b f out = elim (Bool-cases (has b (without j f))) [
  | inl i ↦ cc (has-without j b f i)
  | inr o ↦ o
]

pub without-Distinct : (j : Judge) (f : Forest) → Distinct f → Distinct (without j f)
unfolding without
without-Distinct j nil d = d
without-Distinct j (cons c label kind kids rest) (nk, nr, apart, dk, dr) =
    elim (Verdict-cases (j label kind kids)) [
      | inl go ↦
          rw (go, without)
            (
              nk,
              not-has-without j c rest nr,
              λ b i. not-has-without j b rest (apart b i),
              dk,
              without-Distinct j rest dr,
            )
      | inr (inl stop) ↦ rw (stop, without) (nk, nr, apart, dk, dr)
      | inr (inr hit) ↦ rw (hit, without) dr
    ]

-- The verdict on the first child on which the search stops.
abbrev pub fate : Judge → Forest → Verdict
fate j nil = skip
fate j (cons c label kind kids rest) = elim (j label kind kids) [
  | skip ↦ fate j rest
  | refuse ↦ refuse
  | take ↦ take
]

abbrev pub Agrees : Outcome → Verdict → Type 0
Agrees o skip = o ≡ missing
Agrees o refuse = o ≡ refused
Agrees o take = (q p next : Ptr) × (o ≡ cut q p next)

pub outcome-fate : (j : Judge) (prev : Ptr) (f : Forest) → Agrees (outcome j prev f) (fate j f)
unfolding outcome
outcome-fate j prev nil = refl
outcome-fate j prev (cons c label kind kids rest) = elim (Verdict-cases (j label kind kids)) [
  | inl go ↦ rw (go, outcome, fate) (outcome-fate j c rest)
  | inr (inl stop) ↦ rw (stop, outcome, fate) refl
  | inr (inr hit) ↦ rw (hit, outcome, fate) (prev, c, head rest, refl)
]
