-- ===== src/Sched/Keeps.antt =====
-- What no step of the three loops of scheduler.c changes: the numbers that were read for each
-- process.
pub mod Steps
pub mod Loops
use mathlib.Core.Option.{some-injective}
use cs.Base.{
  ℕ, zero, suc, ◌+◌, ◌≡◌, refl, ◌∙◌, sym, ap, Bool, true, false, Bool-cases, Option, none, some,
  List, [], ◌∷◌, inl, inr, get_elem?, set, if◌then◌else◌,
}
use cs.Sched.{Process, Sim, bind_some, ◌>>=◌, for_loop, put}

-- A, B, C, M and the number of a process.
abbrev pub Numbers : Type 0
Numbers = ℕ × ℕ × ℕ × ℕ × ℕ

abbrev pub numbers : Process → Numbers
numbers p = (p.a, p.b, p.c, p.m, p.process_id)

abbrev pub all_numbers : List Process → List Numbers
all_numbers [] = []
all_numbers (p ∷ ps) = numbers p ∷ all_numbers ps

abbrev pub SameNumbers : Sim → Sim → Type 0
SameNumbers s s' = all_numbers s'.process_list ≡ all_numbers s.process_list

-- A result, where there is one, has the numbers of the state before.
abbrev pub Results : Sim → Option Sim → Type 0
Results s m = (s' : Sim) → m ≡ some s' → SameNumbers s s'

abbrev pub Keeps : (Sim → Option Sim) → Type 0
Keeps f = (s : Sim) → Results s (f s)

all_numbers-set :
    (ps : List Process) (i : ℕ) (p v : Process)
    → get_elem? ps i ≡ some p
    → numbers v ≡ numbers p
    → all_numbers (set ps i v) ≡ all_numbers ps
all_numbers-set [] i p v at e = refl
all_numbers-set (q ∷ ps) zero p v at e =
    ap (λ k. k ∷ all_numbers ps) (e ∙ ap numbers (sym (some-injective q p at)))
all_numbers-set (q ∷ ps) (suc i) p v at e =
    ap (λ ks. numbers q ∷ ks) (all_numbers-set ps i p v at e)

pub put-SameNumbers :
    (s : Sim) (i : ℕ) (p v : Process)
    → get_elem? s.process_list i ≡ some p
    → numbers v ≡ numbers p
    → SameNumbers s (put s i v)
put-SameNumbers s i p v at e = all_numbers-set s.process_list i p v at e

-- The results of the ways in which the steps are put together.
pub some-Results : (s t : Sim) → SameNumbers s t → Results s (some t)
some-Results s t h s' e =
    ap (λ (u : Sim). all_numbers u.process_list) (sym (some-injective t s' e)) ∙ h

pub if-both {ℓ κ} :
    {A : Type ℓ} (P : A → Type κ) (t : Bool) (x y : A) → P x → P y → P (if t then x else y)
if-both P true x y px py = px
if-both P false x y px py = py

pub bind-Results {ℓ} :
    {A : Type ℓ} (s : Sim) (m : Option A) (f : A → Option Sim)
    → ((a : A) → m ≡ some a → Results s (f a))
    → Results s (m >>= f)
bind-Results s none f h s' e = cc
bind-Results s (some a) f h s' e = h a refl s' e

pub elim-Results {ℓ} :
    {A : Type ℓ} (s : Sim) (r : Option A) (m : Option Sim) (f : A → Option Sim)
    → Results s m
    → ((a : A) → r ≡ some a → Results s (f a))
    → Results s (elim r [ none ↦ m | some a ↦ f a ])
elim-Results s none m f hm hf = hm
elim-Results s (some a) m f hm hf = hf a refl

pub then-Results : (s t : Sim) (m : Option Sim) → SameNumbers s t → Results t m → Results s m
then-Results s t m h r s' e = r s' e ∙ h

pub Keeps-for_loop :
    (left i : ℕ) (body : ℕ → Sim → Option Sim)
    → ((j : ℕ) → Keeps (body j))
    → Keeps (for_loop left i body)
unfolding for_loop
Keeps-for_loop zero i body k s = some-Results s s refl
Keeps-for_loop (suc left) i body k s =
    bind-Results s (body i s) (for_loop left (i + 1) body)
      (λ t e. then-Results s t _ (k i s t e) (Keeps-for_loop left (i + 1) body k t))
