-- ===== src/Fssim/Forest.antt =====
-- What the child and sibling pointers stand for: forests of named nodes with their addresses.
use Prim.Native.Nat.{◌+◌}
use cs.Base.{
  ℕ, suc, ◌≡◌, refl, ◌≢◌, inl, inr, Bool, true, false, ◌||◌, none, some, Text, streq, ◌==◌, ==_iff,
  Bool-cases, if◌then◌else◌, arith, ◌∙◌,
}
use cs.Fssim.{Ptr, null, Node, Heap, State, ok, load}

-- A node with the forest of its children, in front of the forest of its later siblings.
pub data Forest : Type 0 where
  nil : Forest
  cons : Ptr → Text → ℕ → Forest → Forest → Forest

abbrev pub head : Forest → Ptr
head nil = null
head (cons p name kind kids rest) = p

abbrev pub size : Forest → ℕ
size nil = 0
size (cons p name kind kids rest) = suc (size kids + size rest)

abbrev pub has : Ptr → Forest → Bool
has a nil = false
has a (cons p name kind kids rest) = (a == p) || (has a kids || has a rest)

abbrev pub Apart : Forest → Forest → Type 0
Apart xs ys = (a : Ptr) → has a xs ≡ true → has a ys ≡ false

abbrev pub Distinct : Forest → Type 0
Distinct nil = Unit {0}
Distinct (cons p name kind kids rest) =
    (has p kids ≡ false) × (has p rest ≡ false) × Apart kids rest × Distinct kids × Distinct rest

abbrev pub node : Text → ℕ → Ptr → Ptr → Ptr → Node
node name kind child sibling parent = record {
  name = name;
  kind = kind;
  child = child;
  sibling = sibling;
  parent = parent;
}

-- The heap holds the forest from `head f` on, as children of the node `par`.
abbrev pub Rep : Heap → Ptr → Forest → Type 0
Rep h par nil = Unit {0}
Rep h par (cons p name kind kids rest) =
    (p ≢ null)
    × (h p ≡ some (node name kind (head kids) (head rest) par))
    × Rep h p kids
    × Rep h par rest

-- The children of the node at `a`, and the forest with these replaced.
unfoldable pub kids_of : Ptr → Forest → Forest
kids_of a nil = nil
kids_of a (cons p name kind kids rest) =
    if a == p then kids else if has a kids then kids_of a kids else kids_of a rest

unfoldable pub set_kids : Ptr → Forest → Forest → Forest
set_kids a ks nil = nil
set_kids a ks (cons p name kind kids rest) =
    if a == p
    then cons p name kind ks rest
    else if has a kids
    then cons p name kind (set_kids a ks kids) rest
    else cons p name kind kids (set_kids a ks rest)

-- The first node of that name, parents before their children.
unfoldable pub find : Text → Forest → Ptr
find name nil = null
find name (cons p label kind kids rest) =
    if streq label name
    then p
    else if find name kids == null
    then find name rest
    else find name kids

-- Where in a forest the address `a` stands.
pub data Place (a p : Ptr) (kids rest : Forest) : Type 0 where
  here : (a == p) ≡ true → a ≡ p → Place a p kids rest
  below : (a == p) ≡ false → has a kids ≡ true → Place a p kids rest
  after : (a == p) ≡ false → has a kids ≡ false → has a rest ≡ true → Place a p kids rest

pub place :
    (a p : Ptr) (kids rest : Forest)
    → ((a == p) || (has a kids || has a rest)) ≡ true
    → Place a p kids rest
place a p kids rest i = elim (Bool-cases (a == p)) [
  | inl hit ↦ here hit (ground arith)
  | inr miss ↦ elim (Bool-cases (has a kids)) [
    | inl under ↦ below miss under
    | inr out ↦ after miss out (ground arith)
  ]
]

-- An address among the children, or among the later siblings, is in the whole.
pub or_mid : (x y z : Bool) → y ≡ true → (x || (y || z)) ≡ true
or_mid true y z h = refl
or_mid false true z h = refl
or_mid false false z h = cc

pub or_last : (x y z : Bool) → z ≡ true → (x || (y || z)) ≡ true
or_last true y z h = refl
or_last false true z h = refl
or_last false false z h = h

pub or_false : (x y z : Bool) → (x || (y || z)) ≡ false → (x ≡ false) × (y ≡ false) × (z ≡ false)
or_false x y z h = ground arith

pub has-ne : (a p : Ptr) (f : Forest) → has p f ≡ false → has a f ≡ true → (a == p) ≡ false
has-ne a p f out i = elim (Bool-cases (a == p)) [
  | inl hit ↦ cc ((==_iff a p).0 hit)
  | inr miss ↦ miss
]

pub not-has_ne : (a p : Ptr) (f : Forest) → has p f ≡ false → has a f ≡ true → (p == a) ≡ false
not-has_ne a p f out i = elim (Bool-cases (p == a)) [
  | inl hit ↦ cc ((==_iff p a).0 hit)
  | inr miss ↦ miss
]

pub eq_self : (p : Ptr) → (p == p) ≡ true
eq_self p = ground arith

pub frame :
    {g h : Heap} (par : Ptr) (f : Forest)
    → Rep h par f
    → ((a : Ptr) → has a f ≡ true → g a ≡ h a)
    → Rep g par f
frame par nil r same = tt
frame par (cons p name kind kids rest) (ne, at, rk, rr) same = (
  ne,
  same p (rw (eq_self p)) ∙ at,
  frame p kids rk (λ a i. same a (or_mid (a == p) (has a kids) (has a rest) i)),
  frame par rest rr (λ a i. same a (or_last (a == p) (has a kids) (has a rest) i)),
)

pub load-ok : {p : Ptr} {n : Node} (s : State) → p ≢ null → s.heap p ≡ some n → load p s ≡ ok n s
unfolding load
load-ok {p} s ne at = ground arith

pub not-null : {p : Ptr} → p ≢ null → (p == null) ≡ false
not-null ne = ground arith

pub not-has_of_none :
    (h : Heap) (par a : Ptr) (f : Forest) → Rep h par f → h a ≡ none → has a f ≡ false
not-has_of_none h par a nil r e = refl
not-has_of_none h par a (cons p name kind kids rest) (ne, at, rk, rr) e =
    ground (arith, not-has_of_none h p a kids rk e, not-has_of_none h par a rest rr e)

-- An address that is not in use is none that is.
pub not-same : (h : Heap) (b a : Ptr) (n : Node) → h a ≡ some n → h b ≡ none → (b == a) ≡ false
not-same h b a n at free = elim (Bool-cases (b == a)) [
  | inl hit ↦ absurd (clash ((==_iff b a).0 hit))
  | inr miss ↦ miss
]
  where
    clash : b ≡ a → ⊥
    clash e = cc

-- The node at `a` points to its children, which the heap holds.
pub record Within (h : Heap) (f : Forest) (a : Ptr) (n : Node) : Type 0 where
  pub at : h a ≡ some n
  pub ne : a ≢ null
  pub child : n.child ≡ head (kids_of a f)
  pub kids : Rep h a (kids_of a f)

pub has-Within :
    {h : Heap} (par a : Ptr) (f : Forest)
    → Rep h par f
    → has a f ≡ true
    → (n : Node) × Within h f a n
unfolding kids_of
has-Within par a nil r i = cc
has-Within {h} par a (cons p name kind kids rest) (ne, at, rk, rr) i =
    elim (place a p kids rest i) [
      | here hit e ↦ (
        node name kind (head kids) (head rest) par,
        record {
          at = rw e at;
          ne = rw e ne;
          child = rw (hit, kids_of);
          kids = rw (hit, kids_of, e) rk;
        },
      )
      | below miss under ↦
          let (n, w) = has-Within p a kids rk under in
          (
            n,
            record {
              at = w.at;
              ne = w.ne;
              child = rw (miss, under, kids_of) w.child;
              kids = rw (miss, under, kids_of) w.kids;
            },
          )
      | after miss out behind ↦
          let (n, w) = has-Within par a rest rr behind in
          (
            n,
            record {
              at = w.at;
              ne = w.ne;
              child = rw (miss, out, kids_of) w.child;
              kids = rw (miss, out, kids_of) w.kids;
            },
          )
    ]
