-- ===== src/Fssim/Shape/Unique.antt =====
-- Names that are new to a tree, and trees in which every name is there once.
use cs.Base.{
  ◌≡◌, refl, sym, ◌∙◌, Bool, true, false, ◌||◌, ◌&&◌, ℕ, Text, streq, streq_self, eq_of_streq,
  Bool-cases, inl, inr, arith,
}
use mathlib.Core.Path.{subst}
use cs.Fssim.Shape.{Shape, empty, entry_of, known, graft, known-graft}

-- The first tree has no name of the second one.
abbrev pub NewTo : Shape → Shape → Type 0
NewTo t empty = Unit {0}
NewTo t (entry_of name kind kids rest) = (known name t ≡ false) × NewTo t kids × NewTo t rest

abbrev pub Unique : Shape → Type 0
Unique empty = Unit {0}
Unique (entry_of name kind kids rest) =
    (known name kids ≡ false)
    × (known name rest ≡ false)
    × NewTo kids rest
    × Unique kids
    × Unique rest

streq_comm : (a b : Text) → streq a b ≡ false → streq b a ≡ false
streq_comm a b e = elim (Bool-cases (streq b a)) [
  | inl hit ↦
      absurd (clash (subst (λ x. streq a x ≡ true) (sym (eq_of_streq b a hit)) (streq_self a)))
  | inr miss ↦ miss
]
  where
    clash : streq a b ≡ true → ⊥
    clash h = cc

or3 : (a b c : Bool) → (a || (b || c)) ≡ false → (a ≡ false) × (b ≡ false) × (c ≡ false)
or3 a b c h = ground arith

-- A tree without the name `name` has nothing of one entry with it and its children.
pub NewTo-entry :
    (name : Text) (kind : ℕ) (g f : Shape)
    → known name f ≡ false
    → NewTo g f
    → NewTo (entry_of name kind g empty) f
NewTo-entry name kind g empty out new = tt
NewTo-entry name kind g (entry_of label k kids rest) out (nl, nk, nr) =
    let (other, in_kids, in_rest) =
      or3 (streq label name) (known name kids) (known name rest) out in
    (
      rw (streq_comm label name other, nl) refl,
      NewTo-entry name kind g kids in_kids nk,
      NewTo-entry name kind g rest in_rest nr,
    )

pub NewTo-empty : (f : Shape) → NewTo empty f
NewTo-empty empty = tt
NewTo-empty (entry_of label k kids rest) = (refl, NewTo-empty kids, NewTo-empty rest)

-- Nothing of a tree is in a grafted one, if it is in neither part.
pub NewTo-graft : (up : Text) (g t f : Shape) → NewTo t f → NewTo g f → NewTo (graft up g t) f
NewTo-graft up g t empty a b = tt
NewTo-graft up g t (entry_of label k kids rest) (nl, nk, nr) (ml, mk, mr) = (
  known-graft label up g t ∙ neither (known label t) (known up t) (known label g) nl ml,
  NewTo-graft up g t kids nk mk,
  NewTo-graft up g t rest nr mr,
)
  where
    neither : (a b c : Bool) → a ≡ false → c ≡ false → (a || (b && c)) ≡ false
    neither a b c ea ec = ground arith
