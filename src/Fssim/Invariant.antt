-- ===== src/Fssim/Invariant.antt =====
-- The state of the simulator is well formed: the heap holds one tree under the root, and the
-- current directory is a node of it.
use cs.Base.{◌≡◌, true, false, Option, ◌==◌, ◌≤◌, arith}
use cs.Fssim.{Ptr, Node, Heap, State, write, dir, slash}
use cs.Fssim.Forest.{Forest, nil, cons, size, has, Distinct, Rep, kids_of, set_kids, frame, has-ne}

-- One node without siblings, which is the directory "/" at `r`.
abbrev pub IsRoot : Ptr → Forest → Type 0
IsRoot r nil = ⊥
IsRoot r (cons p name kind kids nil) = (p ≡ r) × (name ≡ slash) × (kind ≡ dir)
IsRoot r (cons p name kind kids (cons _ _ _ _ _)) = ⊥

-- The root is its own parent.
pub record Holds (s : State) (t : Forest) : Type 0 where
  pub rep : Rep s.heap s.root t
  pub distinct : Distinct t
  pub top : IsRoot s.root t
  pub cwd_in : has s.cwd t ≡ true

pub set_kids-IsRoot : (r a : Ptr) (ks t : Forest) → IsRoot r t → IsRoot r (set_kids a ks t)
unfolding set_kids
set_kids-IsRoot r a ks nil i = i
set_kids-IsRoot r a ks (cons p name kind kids nil) i = ground arith
set_kids-IsRoot r a ks (cons p name kind kids (cons _ _ _ _ _)) i = absurd i

pub size-kids_of : (a : Ptr) (t : Forest) → size (kids_of a t) ≤ size t
unfolding kids_of
size-kids_of a nil = omega arith
size-kids_of a (cons p name kind kids rest) =
    ground (arith, size-kids_of a kids, size-kids_of a rest)

pub write_self : (h : Heap) (a : Ptr) (c : Option Node) → write h a c a ≡ c
unfolding write
write_self h a c = ground arith

pub write_other : (h : Heap) (a b : Ptr) (c : Option Node) → (b == a) ≡ false → write h a c b ≡ h b
unfolding write
write_other h a b c miss = ground arith

-- A write elsewhere leaves the forest.
pub frame-write :
    (h : Heap) (par a : Ptr) (c : Option Node) (f : Forest)
    → Rep h par f
    → has a f ≡ false
    → Rep (write h a c) par f
frame-write h par a c f r out = frame par f r λ b i. write_other h a b c (has-ne b a f out i)
