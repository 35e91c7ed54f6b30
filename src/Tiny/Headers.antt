-- ===== src/Tiny/Headers.antt =====
-- read_requesthdrs of tiny.c.
use cs.Base.{
  ◌≡◌, refl, ◌≢◌, sym, Bool, true, not, ◌&&◌, List, [], ◌∷◌, ◌++◌, Text, codes, streq, eq_of_streq,
  Bool-cases, inl, inr, ap, ◌↔◌, arith,
}
use mathlib.Core.Path.{subst}
use cs.Tiny.{HeadersRead, ended, endless, unwritten, headers_loop, read_requesthdrs}

abbrev pub crlf : Text
crlf = codes "\r\n"

-- None of the lines is the empty one.
abbrev pub no_end : List Text → Bool
no_end [] = true
no_end (line ∷ lines) = not (streq line crlf) && no_end lines

-- The lines up to the empty one, and those behind it.
abbrev pub Ends : List Text → List Text → Type 0
Ends lines rest = (before : List Text) × (no_end before ≡ true) × (lines ≡ before ++ crlf ∷ rest)

lines_of : List Text → HeadersRead → List Text
lines_of other (ended lines) = lines
lines_of other endless = other
lines_of other unwritten = other

ended-injective : (a b : List Text) → ended a ≡ ended b → a ≡ b
unfolding lines_of
ended-injective a b e = ap (lines_of a) e

hit_or_miss : (p q : Bool) → p ≡ true → (not p && q) ≡ true → ⊥
hit_or_miss p q e f = ground arith

from_ends :
    (before rest : List Text)
    → no_end before ≡ true
    → read_requesthdrs (before ++ crlf ∷ rest) ≡ ended rest
unfolding read_requesthdrs headers_loop streq
from_ends [] [] h = refl
from_ends [] (line ∷ rest) h = refl
from_ends (line ∷ []) rest h = elim (Bool-cases (streq line crlf)) [
  | inl hit ↦ absurd (hit_or_miss (streq line crlf) true hit h)
  | inr miss ↦ rw (miss, from_ends [] rest refl) refl
]
from_ends (line ∷ next ∷ before) rest h = elim (Bool-cases (streq line crlf)) [
  | inl hit ↦ absurd (hit_or_miss (streq line crlf) (no_end (next ∷ before)) hit h)
  | inr miss ↦ rw (miss, from_ends (next ∷ before) rest (rw miss at h)) refl
]

to_ends :
    (line : Text) (lines rest : List Text)
    → headers_loop line lines ≡ ended rest
    → Ends (line ∷ lines) rest
unfolding headers_loop
to_ends line [] rest e = elim (Bool-cases (streq line crlf)) [
  | inl hit ↦ ([], refl, rw (eq_of_streq line crlf hit, ended-injective [] rest (rw hit at e)) refl)
  | inr miss ↦ absurd (cc (rw miss at e))
]
to_ends line (next ∷ lines) rest e = elim (Bool-cases (streq line crlf)) [
  | inl hit ↦ (
    [],
    refl,
    rw (eq_of_streq line crlf hit, ended-injective (next ∷ lines) rest (rw hit at e)) refl,
  )
  | inr miss ↦
      let (before, h, same) = to_ends next lines rest (rw miss at e) in
      (line ∷ before, rw (miss, h) refl, ap (λ ls. line ∷ ls) same)
]

to_endless :
    (line : Text) (lines : List Text)
    → headers_loop line lines ≡ endless
    → no_end (line ∷ lines) ≡ true
unfolding headers_loop
to_endless line [] e = elim (Bool-cases (streq line crlf)) [
  | inl hit ↦ absurd (cc (rw hit at e))
  | inr miss ↦ rw miss refl
]
to_endless line (next ∷ lines) e = elim (Bool-cases (streq line crlf)) [
  | inl hit ↦ absurd (cc (rw hit at e))
  | inr miss ↦ rw miss (to_endless next lines (rw miss at e))
]

from_endless :
    (line : Text) (lines : List Text)
    → no_end (line ∷ lines) ≡ true
    → headers_loop line lines ≡ endless
unfolding headers_loop
from_endless line [] h = elim (Bool-cases (streq line crlf)) [
  | inl hit ↦ absurd (hit_or_miss (streq line crlf) true hit h)
  | inr miss ↦ rw miss refl
]
from_endless line (next ∷ lines) h = elim (Bool-cases (streq line crlf)) [
  | inl hit ↦ absurd (hit_or_miss (streq line crlf) (no_end (next ∷ lines)) hit h)
  | inr miss ↦ rw miss (from_endless next lines (rw miss at h))
]

written : (line : Text) (lines : List Text) → headers_loop line lines ≡ unwritten → ⊥
unfolding headers_loop
written line [] e = elim (Bool-cases (streq line crlf)) [
  | inl hit ↦ cc (rw hit at e)
  | inr miss ↦ cc (rw miss at e)
]
written line (next ∷ lines) e = elim (Bool-cases (streq line crlf)) [
  | inl hit ↦ cc (rw hit at e)
  | inr miss ↦ written next lines (rw miss at e)
]

-- What read_requesthdrs comes to: it ends with `rest` left to read exactly if `rest` stands behind
-- the first empty line of the input; it goes on for ever exactly if there are lines and none is
-- the empty one; and it reads a buffer that was never written exactly if there is no line.
pub read_requesthdrs_iff :
    (lines rest : List Text)
    → ((read_requesthdrs lines ≡ ended rest) ↔ Ends lines rest)
      × ((read_requesthdrs lines ≡ endless) ↔ ((lines ≢ []) × (no_end lines ≡ true)))
      × ((read_requesthdrs lines ≡ unwritten) ↔ (lines ≡ []))
unfolding read_requesthdrs
read_requesthdrs_iff [] rest = (
  (
    λ e. absurd (cc),
    λ (before, h, same).
        subst (λ ls. read_requesthdrs ls ≡ ended rest) (sym same) (from_ends before rest h),
  ),
  (λ e. absurd (cc), λ (some_line, h). absurd (some_line refl)),
  (λ e. refl, λ e. refl),
)
read_requesthdrs_iff (line ∷ lines) rest = (
  (
    to_ends line lines rest,
    λ (before, h, same).
        subst (λ ls. read_requesthdrs ls ≡ ended rest) (sym same) (from_ends before rest h),
  ),
  (λ e. (λ z. cc, to_endless line lines e), λ (some_line, h). from_endless line lines h),
  (λ e. absurd (written line lines e), λ e. absurd (cc)),
)
