-- ===== src/Base/Find.antt =====
-- What strchr, strstr and sscanf find in a text that is put together from known parts.
use Prim.Native.Nat.{ℕ, suc}
use mathlib.Core.Path.{◌≡◌, refl}
use mathlib.Core.Logic.{inl, inr}
use mathlib.Core.Bool.{Bool, true, false, not, ◌&&◌}
use mathlib.Core.List.{[], ◌∷◌, ◌++◌}
use mathlib.Core.Option.{none, some}
use native.Mathlib.Omega.{arith}
use cs.Base.Tests.{◌==◌, Bool-cases}
use cs.Base.Chars.{Text, split_at, starts_with, strstr}
use cs.Base.Format.{is_space, skip_spaces, to_space, scan_words}

abbrev pub lacks : ℕ → Text → Bool
lacks c [] = true
lacks c (x ∷ t) = not (x == c) && lacks c t

pub lacks-append :
    (c : ℕ) (a b : Text) → lacks c a ≡ true → lacks c b ≡ true → lacks c (a ++ b) ≡ true
lacks-append c [] b ha hb = hb
lacks-append c (x ∷ a) b ha hb = ground (arith, lacks-append c a b)

pub lacks-cons :
    (a x : ℕ) (r : Text) → lacks a (x ∷ r) ≡ true → ((x == a) ≡ false) × (lacks a r ≡ true)
lacks-cons a x r h = ground arith

pub split_at-append :
    (c : ℕ) (a b : Text) → lacks c a ≡ true → split_at c (a ++ c ∷ b) ≡ some (a, b)
unfolding split_at
split_at-append c [] b h = rw (self c) refl
  where
    self : (c : ℕ) → (c == c) ≡ true
    self c = ground arith
split_at-append c (x ∷ a) b h = elim (Bool-cases (x == c)) [
  | inl hit ↦ absurd (contra (x == c) (lacks c a) hit h)
  | inr miss ↦ rw (miss, split_at-append c a b (rw miss at h)) refl
]
  where
    contra : (p q : Bool) → p ≡ true → (not p && q) ≡ true → ⊥
    contra p q e f = ground arith

pub split_at-lacks : (c : ℕ) (a : Text) → lacks c a ≡ true → split_at c a ≡ none
unfolding split_at
split_at-lacks c [] h = refl
split_at-lacks c (x ∷ a) h = elim (Bool-cases (x == c)) [
  | inl hit ↦ absurd (contra (x == c) (lacks c a) hit h)
  | inr miss ↦ rw (miss, split_at-lacks c a (rw miss at h)) refl
]
  where
    contra : (p q : Bool) → p ≡ true → (not p && q) ≡ true → ⊥
    contra p q e f = ground arith

pub starts_with-append : (p t : Text) → starts_with p (p ++ t) ≡ true
unfolding starts_with
starts_with-append [] t = refl
starts_with-append (c ∷ p) t = ground (arith, starts_with-append p t)

-- strstr finds a text that is there.
pub strstr-append : (p a b : Text) → (r : Text) × (strstr p (a ++ (p ++ b)) ≡ some r)
unfolding strstr
strstr-append p [] b = at_front (p ++ b) (starts_with-append p b)
  where
    at_front : (t : Text) → starts_with p t ≡ true → (r : Text) × (strstr p t ≡ some r)
    at_front [] h = ([], rw h)
    at_front (x ∷ t) h = (x ∷ t, rw h)
strstr-append p (x ∷ a) b = elim (Bool-cases (starts_with p (x ∷ a ++ (p ++ b)))) [
  | inl hit ↦ (x ∷ a ++ (p ++ b), rw hit)
  | inr miss ↦ let (r, e) = strstr-append p a b in (r, rw (miss, e))
]

-- A word: one byte and more, none of them white space.
abbrev pub unspaced : Text → Bool
unspaced [] = true
unspaced (c ∷ t) = not (is_space c) && unspaced t

abbrev pub is_word : Text → Bool
is_word [] = false
is_word (c ∷ t) = unspaced (c ∷ t)

to_space-append :
    (w : Text) (c : ℕ) (t : Text)
    → unspaced w ≡ true
    → is_space c ≡ true
    → to_space (w ++ c ∷ t) ≡ (w, c ∷ t)
unfolding to_space
to_space-append [] c t h e = rw e refl
to_space-append (x ∷ w) c t h e = elim (Bool-cases (is_space x)) [
  | inl hit ↦ absurd (contra (is_space x) (unspaced w) hit h)
  | inr miss ↦ rw (miss, to_space-append w c t (rw miss at h) e) refl
]
  where
    contra : (p q : Bool) → p ≡ true → (not p && q) ≡ true → ⊥
    contra p q e f = ground arith

skip_spaces-word :
    (w : Text) (c : ℕ) (t : Text) → is_word w ≡ true → skip_spaces (w ++ c ∷ t) ≡ w ++ c ∷ t
unfolding skip_spaces
skip_spaces-word [] c t h = cc
skip_spaces-word (x ∷ w) c t h = rw (front (is_space x) (unspaced w) h) refl
  where
    front : (p q : Bool) → (not p && q) ≡ true → p ≡ false
    front p q h = ground arith

-- sscanf reads a word up to the white space behind it.
pub scan_words-word :
    (n : ℕ) (w : Text) (c : ℕ) (t : Text)
    → is_word w ≡ true
    → is_space c ≡ true
    → scan_words (suc n) (w ++ c ∷ t) ≡ w ∷ scan_words n (c ∷ t)
unfolding scan_words
scan_words-word n [] c t h e = cc
scan_words-word n (x ∷ w) c t h e =
    rw (scan_words, skip_spaces-word (x ∷ w) c t h, to_space-append (x ∷ w) c t h e) refl

pub scan_words-space :
    (n : ℕ) (c : ℕ) (t : Text)
    → is_space c ≡ true
    → scan_words (suc n) (c ∷ t) ≡ scan_words (suc n) t
unfolding scan_words skip_spaces
scan_words-space n c t e = rw (scan_words, skip_spaces, e) refl

pub starts_with-prepend : (a p t : Text) → starts_with (a ++ p) (a ++ t) ≡ starts_with p t
unfolding starts_with
starts_with-prepend [] p t = refl
starts_with-prepend (x ∷ a) p t = rw (self x, starts_with-prepend a p t) refl
  where
    self : (c : ℕ) → (c == c) ≡ true
    self c = ground arith
