-- ===== src/Fssim/Shape.antt =====
-- The tree of lab1_devito.c without its addresses: what a saved file stands for.
pub mod Found
pub mod Unique
use cs.Base.{
  ◌≡◌, refl, ap, ◌∙◌, sym, Bool, true, false, ◌||◌, ◌&&◌, ℕ, Text, streq, Bool-cases, inl, inr,
  if◌then◌else◌, arith,
}
use cs.Fssim.Forest.{Forest, nil, cons}

pub data Shape : Type 0 where
  empty : Shape
  entry_of : Text → ℕ → Shape → Shape → Shape

abbrev pub shape : Forest → Shape
shape nil = empty
shape (cons p name kind kids rest) = entry_of name kind (shape kids) (shape rest)

-- A name that some entry has.
abbrev pub known : Text → Shape → Bool
known name empty = false
known name (entry_of label kind kids rest) =
    streq label name || (known name kids || known name rest)

abbrev pub join : Shape → Shape → Shape
join empty g = g
join (entry_of label kind kids rest) g = entry_of label kind kids (join rest g)

-- `g` behind the children of the first entry of that name, parents before their children.
unfoldable pub graft : Text → Shape → Shape → Shape
graft up g empty = empty
graft up g (entry_of label kind kids rest) =
    if streq label up
    then entry_of label kind (join kids g) rest
    else if known up kids
    then entry_of label kind (graft up g kids) rest
    else entry_of label kind kids (graft up g rest)

pub known-join : (b : Text) (f g : Shape) → known b (join f g) ≡ (known b f || known b g)
known-join b empty g = refl
known-join b (entry_of label kind kids rest) g = ground (arith, known-join b rest g)

pub known-graft :
    (b up : Text) (g t : Shape) → known b (graft up g t) ≡ (known b t || (known up t && known b g))
unfolding graft
known-graft b up g empty = refl
known-graft b up g (entry_of label kind kids rest) =
    ground (arith, known-join b kids g, known-graft b up g kids, known-graft b up g rest)

join-empty : (f : Shape) → join f empty ≡ f
join-empty empty = refl
join-empty (entry_of label kind kids rest) = ap (entry_of label kind kids) (join-empty rest)

join_assoc : (f g h : Shape) → join (join f g) h ≡ join f (join g h)
join_assoc empty g h = refl
join_assoc (entry_of label kind kids rest) g h = ap (entry_of label kind kids) (join_assoc rest g h)

-- Where the graft goes.
module _ (up : Text) (g : Shape) (label : Text) (kind : ℕ) (kids rest : Shape) where
  pub graft_here :
      streq label up ≡ true
      → graft up g (entry_of label kind kids rest) ≡ entry_of label kind (join kids g) rest
  unfolding graft
  graft_here hit = rw (graft, hit) refl

  pub graft_below :
      streq label up ≡ false
      → known up kids ≡ true
      → graft up g (entry_of label kind kids rest) ≡ entry_of label kind (graft up g kids) rest
  unfolding graft
  graft_below miss under = rw (graft, miss, under) refl

  pub graft_after :
      streq label up ≡ false
      → known up kids ≡ false
      → graft up g (entry_of label kind kids rest) ≡ entry_of label kind kids (graft up g rest)
  unfolding graft
  graft_after miss out = rw (graft, miss, out) refl

pub graft-empty : (up : Text) (t : Shape) → graft up empty t ≡ t
unfolding graft
graft-empty up empty = refl
graft-empty up (entry_of label kind kids rest) = elim (Bool-cases (streq label up)) [
  | inl hit ↦
      graft_here up empty label kind kids rest hit
      ∙ ap (λ ks. entry_of label kind ks rest) (join-empty kids)
  | inr miss ↦ elim (Bool-cases (known up kids)) [
    | inl under ↦
        graft_below up empty label kind kids rest miss under
        ∙ ap (λ ks. entry_of label kind ks rest) (graft-empty up kids)
    | inr out ↦
        graft_after up empty label kind kids rest miss out
        ∙ ap (entry_of label kind kids) (graft-empty up rest)
  ]
]

pub known-graft_still :
    (b up : Text) (g t : Shape) → known b t ≡ true → known b (graft up g t) ≡ true
known-graft_still b up g t i = rw (known-graft b up g t, i) refl

-- Two grafts at the same entry.
pub graft-graft : (up : Text) (g h t : Shape) → graft up h (graft up g t) ≡ graft up (join g h) t
unfolding graft
graft-graft up g h empty = refl
graft-graft up g h (entry_of label kind kids rest) = elim (Bool-cases (streq label up)) [
  | inl hit ↦
      ap (graft up h) (graft_here up g label kind kids rest hit)
      ∙ graft_here up h label kind (join kids g) rest hit
      ∙ ap (λ ks. entry_of label kind ks rest) (join_assoc kids g h)
      ∙ sym (graft_here up (join g h) label kind kids rest hit)
  | inr miss ↦ elim (Bool-cases (known up kids)) [
    | inl under ↦
        ap (graft up h) (graft_below up g label kind kids rest miss under)
        ∙ graft_below up h label kind (graft up g kids) rest miss
            (known-graft_still up up g kids under)
        ∙ ap (λ ks. entry_of label kind ks rest) (graft-graft up g h kids)
        ∙ sym (graft_below up (join g h) label kind kids rest miss under)
    | inr out ↦
        ap (graft up h) (graft_after up g label kind kids rest miss out)
        ∙ graft_after up h label kind kids (graft up g rest) miss out
        ∙ ap (entry_of label kind kids) (graft-graft up g h rest)
        ∙ sym (graft_after up (join g h) label kind kids rest miss out)
  ]
]

or_true : (a : Bool) → (a || true) ≡ true
or_true a = ground arith

or3 : (a b c : Bool) → (a || (b || c)) ≡ false → (a ≡ false) × (b ≡ false) × (c ≡ false)
or3 a b c h = ground arith

module _ (name : Text) (kind : ℕ) (g : Shape) (same : streq name name ≡ true) where
  -- The children of an entry whose name is new.
  join-graft :
      (ks : Shape)
      → known name ks ≡ false
      → graft name g (join ks (entry_of name kind empty empty))
        ≡ join ks (entry_of name kind g empty)
  join-graft empty out = graft_here name g name kind empty empty same
  join-graft (entry_of label k kids rest) out =
      let (other, in_kids, in_rest) =
        or3 (streq label name) (known name kids) (known name rest) out in
      graft_after name g label k kids (join rest (entry_of name kind empty empty)) other in_kids
      ∙ ap (entry_of label k kids) (join-graft rest in_rest)

  joined : (ks : Shape) → known name (join ks (entry_of name kind empty empty)) ≡ true
  joined ks =
      known-join name ks (entry_of name kind empty empty) ∙ rw same (or_true (known name ks))

  -- A graft below the entry that was grafted just before.
  pub graft-new :
      (up : Text) (t : Shape)
      → known name t ≡ false
      → known up t ≡ true
      → graft name g (graft up (entry_of name kind empty empty) t)
        ≡ graft up (entry_of name kind g empty) t
  graft-new up empty out in_t = cc
  graft-new up (entry_of label k kids rest) out in_t =
      let new = entry_of name kind empty empty in
      let (other, in_kids, in_rest) =
        or3 (streq label name) (known name kids) (known name rest) out in
      elim (Bool-cases (streq label up)) [
        | inl hit ↦
            ap (graft name g) (graft_here up new label k kids rest hit)
            ∙ graft_below name g label k (join kids new) rest other (joined kids)
            ∙ ap (λ ks. entry_of label k ks rest) (join-graft kids in_kids)
            ∙ sym (graft_here up (entry_of name kind g empty) label k kids rest hit)
        | inr miss ↦ elim (Bool-cases (known up kids)) [
          | inl under ↦
              ap (graft name g) (graft_below up new label k kids rest miss under)
              ∙ graft_below name g label k (graft up new kids) rest other (grafted kids under)
              ∙ ap (λ ks. entry_of label k ks rest) (graft-new up kids in_kids under)
              ∙ sym (graft_below up (entry_of name kind g empty) label k kids rest miss under)
          | inr not_there ↦
              ap (graft name g) (graft_after up new label k kids rest miss not_there)
              ∙ graft_after name g label k kids (graft up new rest) other in_kids
              ∙ ap (entry_of label k kids) (
                  graft-new up rest in_rest
                    (last_or (streq label up) (known up kids) (known up rest) miss not_there in_t))
              ∙ sym (graft_after up (entry_of name kind g empty) label k kids rest miss not_there)
        ]
      ]
    where
      last_or : (a b c : Bool) → a ≡ false → b ≡ false → (a || (b || c)) ≡ true → c ≡ true
      last_or a b c ea eb h = ground arith

      grafted :
          (ks : Shape)
          → known up ks ≡ true
          → known name (graft up (entry_of name kind empty empty) ks) ≡ true
      grafted ks i =
          rw (known-graft name up (entry_of name kind empty empty) ks, i, same)
            (or_true (known name ks))
