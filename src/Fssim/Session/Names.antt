-- ===== src/Fssim/Session/Names.antt =====
-- The names in the tree of lab1_devito.c fit into their fields, which bounds what save writes.
use cs.Base.{
  ℕ, ◌+◌, ◌*◌, ◌<◌, ◌≤◌, ◌≡◌, true, Bool-cases, inl, inr, Option, none, some, ◌∷◌, ◌++◌, Text,
  codes, length, length-append, ◌==◌, streq, arith,
}
use cs.Fssim.{slash}
use cs.Fssim.Commands.{fits}
use cs.Fssim.Disk.{entry_line}
use cs.Fssim.Forest.{Forest, nil, cons, size, has, kids_of, set_kids}
use cs.Fssim.Remove.{Judge, Verdict-cases, without}
use cs.Fssim.Append.{behind}
use cs.Fssim.Saved.{line_of, dump}

abbrev pub AllShort : Forest → Type 0
AllShort nil = Unit {0}
AllShort (cons p name kind kids rest) = (length name < 64) × AllShort kids × AllShort rest

pub fits-lt : (name : Text) → fits name ≡ true → length name < 64
unfolding fits
fits-lt name h = ground arith

pub AllShort-kids_of : (a : ℕ) (f : Forest) → AllShort f → AllShort (kids_of a f)
unfolding kids_of
AllShort-kids_of a nil s = tt
AllShort-kids_of a (cons p name kind kids rest) (lt, sk, sr) = elim (Bool-cases (a == p)) [
  | inl hit ↦ rw (kids_of, hit) sk
  | inr miss ↦ elim (Bool-cases (has a kids)) [
    | inl under ↦ rw (kids_of, miss, under) (AllShort-kids_of a kids sk)
    | inr out ↦ rw (kids_of, miss, out) (AllShort-kids_of a rest sr)
  ]
]

pub AllShort-set_kids :
    (a : ℕ) (ks f : Forest) → AllShort ks → AllShort f → AllShort (set_kids a ks f)
unfolding set_kids
AllShort-set_kids a ks nil new s = tt
AllShort-set_kids a ks (cons p name kind kids rest) new (lt, sk, sr) = elim (Bool-cases (a == p)) [
  | inl hit ↦ rw (set_kids, hit) (lt, new, sr)
  | inr miss ↦ elim (Bool-cases (has a kids)) [
    | inl under ↦ rw (set_kids, miss, under) (lt, AllShort-set_kids a ks kids new sk, sr)
    | inr out ↦ rw (set_kids, miss, out) (lt, sk, AllShort-set_kids a ks rest new sr)
  ]
]

pub AllShort-without : (j : Judge) (f : Forest) → AllShort f → AllShort (without j f)
unfolding without
AllShort-without j nil s = tt
AllShort-without j (cons p name kind kids rest) (lt, sk, sr) =
    elim (Verdict-cases (j name kind kids)) [
      | inl go ↦ rw (without, go) (lt, sk, AllShort-without j rest sr)
      | inr (inl stop) ↦ rw (without, stop) (lt, sk, sr)
      | inr (inr hit) ↦ rw (without, hit) sr
    ]

pub AllShort-behind :
    (p : ℕ) (name : Text) (kind : ℕ) (f : Forest)
    → length name < 64
    → AllShort f
    → AllShort (behind p name kind f)
AllShort-behind p name kind nil short s = (short, tt, tt)
AllShort-behind p name kind (cons q label sort kids rest) short (lt, sk, sr) =
    (lt, sk, AllShort-behind p name kind rest short sr)

length-entry_line :
    (name up : Text) (kind : ℕ) → length (entry_line name up kind) ≡ length name + length up + 4
length-entry_line name up kind = omega (
  arith,
  length-append name (codes "," ++ (up ++ (codes "," ++ (kind ∷ codes "\n")))),
  length-append up (codes "," ++ (kind ∷ codes "\n")),
)

length-line_of :
    (up name : Text) (kind : ℕ)
    → length up < 64
    → length name < 64
    → length (line_of up name kind) ≤ 130
length-line_of up name kind lu ln = elim (Bool-cases (streq name slash)) [
  | inl hit ↦ rw hit (omega arith)
  | inr miss ↦ rw miss (omega (arith, length-entry_line name up kind))
]

-- A line of the file has at most 130 bytes.
pub length-dump :
    (up : Text) (f : Forest) → length up < 64 → AllShort f → length (dump up f) ≤ size f * 130
length-dump up nil lu s = omega arith
length-dump up (cons p name kind kids rest) lu (lt, sk, sr) = omega (
  arith,
  length-append (line_of up name kind) (dump name kids ++ dump up rest),
  length-append (dump name kids) (dump up rest),
  length-line_of up name kind lu lt,
  length-dump name kids lt sk,
  length-dump up rest lu sr,
)

-- The bytes of the file fssim_devito.txt, if there is one.
abbrev pub file_size : Option Text → ℕ
file_size none = 0
file_size (some content) = length content
