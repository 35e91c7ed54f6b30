-- ===== src/Fssim/Session.antt =====
-- What a command of lab1_devito.c may come to, from a state that is well formed and whose unused
-- addresses are unused.
pub mod Names
pub mod Steps
pub mod Insert
pub mod Reload
pub mod Entry
pub mod Rebuild
pub mod RoundTrip
pub mod Lines
pub mod Whole
pub mod Tests
use mathlib.Core.Logic.{◌⊎◌, inl, inr}
use cs.Fssim.Session.Names.{AllShort, file_size}
use cs.Base.{ℕ, ◌+◌, ◌*◌, ◌<◌, ◌≤◌, ◌≡◌, refl, true, List, length, Unused, arith, Text, ◌++◌}
use cs.Fssim.{State, Run, ok, fault, out_of_fuel, M, pure, and_then}
use cs.Fssim.Forest.{Forest, size, has}
use cs.Fssim.Invariant.{Holds}

pub record Ready (s : State) (t : Forest) : Type 0 where
  pub holds : Holds s t
  pub spare : Unused s.heap s.pool
  pub named : AllShort t

-- A bound on the size of the file stays one, where it allows 130 bytes for each node and for each
-- address that is left.
abbrev pub FileBound : State → Forest → State → Type 0
FileBound s t s' =
    (k : ℕ) → file_size s.file < k → (size t + length s.pool) * 130 < k → file_size s'.file < k

-- The nodes and the addresses that are left never become more.
pub record Came (s : State) (t : Forest) (s' : State) : Type 0 where
  pub tree : Forest
  pub ready : Ready s' tree
  pub room : size tree + length s'.pool ≤ size t + length s.pool
  pub file : FileBound s t s'

-- A run ends in such a state, or is undefined behaviour for the reason `F`; the fuel is enough.
abbrev pub Outcome : {A : Type 0} → State → Forest → Type 0 → Run A → Type 0
Outcome s t F (ok a s') = Came s t s'
Outcome s t F fault = F
Outcome s t F out_of_fuel = ⊥

pub Outcome-map :
    {A : Type 0} {F G : Type 0} (s : State) (t : Forest) (r : Run A)
    → (F → G)
    → Outcome s t F r
    → Outcome s t G r
Outcome-map s t (ok a s') f o = o
Outcome-map s t fault f o = f o
Outcome-map s t out_of_fuel f o = o

-- A result behind it changes nothing.
pub Outcome-pure :
    {A B : Type 0} (s : State) (t : Forest) (F : Type 0) (r : Run A) (b : B)
    → Outcome s t F r
    → Outcome s t F (and_then r (λ _. pure b))
Outcome-pure s t F (ok a s') b o = o
Outcome-pure s t F fault b o = o
Outcome-pure s t F out_of_fuel b o = o

pub Came-trans : {s s1 s2 : State} {t : Forest} (c : Came s t s1) → Came s1 c.tree s2 → Came s t s2
Came-trans c d = record {
  tree = d.tree;
  ready = d.ready;
  room = omega (arith, c.room, d.room);
  file = λ k before room. d.file k (c.file k before room) (omega (arith, c.room, room));
}

-- What is printed, the file and the current directory do not matter to the tree.
pub Ready-same :
    (s s' : State) (t : Forest)
    → Ready s t
    → s'.heap ≡ s.heap
    → s'.root ≡ s.root
    → s'.pool ≡ s.pool
    → has s'.cwd t ≡ true
    → Ready s' t
Ready-same s s' t r heap root pool inside = record {
  holds = record {
    rep = rw (heap, root) r.holds.rep;
    distinct = r.holds.distinct;
    top = rw root r.holds.top;
    cwd_in = inside;
  };
  spare = rw (heap, pool) r.spare;
  named = r.named;
}

pub Came-same :
    (s s' : State) (t : Forest)
    → Ready s t
    → s'.heap ≡ s.heap
    → s'.root ≡ s.root
    → s'.pool ≡ s.pool
    → has s'.cwd t ≡ true
    → FileBound s t s'
    → Came s t s'
Came-same s s' t r heap root pool inside file = record {
  tree = t;
  ready = Ready-same s s' t r heap root pool inside;
  room = rw pool (omega arith);
  file = file;
}

pub Came-text :
    (s : State) (t : Forest) (out : Text) → Ready s t → Came s t (record s { out = out })
Came-text s t out r =
    Came-same s (record s { out = out }) t r refl refl refl r.holds.cwd_in (λ k before room. before)

-- What comes of a later state comes of the former one.
pub Outcome-behind :
    {B : Type 0} (s s' : State) (t : Forest) (G : Type 0) (c : Came s t s') (m : Run B)
    → Outcome s' c.tree G m
    → Outcome s t G m
Outcome-behind s s' t G c (ok b s2) d = Came-trans c d
Outcome-behind s s' t G c fault d = d
Outcome-behind s s' t G c out_of_fuel d = d

pub Outcome-next :
    {A B : Type 0} (s : State) (t : Forest) (F G : Type 0) (r : Run A) (rest : A → M B)
    → Outcome s t F r
    → (F → G)
    → ((a : A) (s' : State) → r ≡ ok a s' → (c : Came s t s') → Outcome s' c.tree G (rest a s'))
    → Outcome s t G (and_then r rest)
Outcome-next s t F G (ok a s') rest c first later =
    Outcome-behind s s' t G c (rest a s') (later a s' refl c)
Outcome-next s t F G fault rest o first later = first o
Outcome-next s t F G out_of_fuel rest o first later = o
