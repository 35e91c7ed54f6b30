-- ===== src/Fssim.antt =====
-- assignment-1-aanthoonyy-main/lab1_devito.c: the Unix filesystem tree simulator.
-- The nodes lie on an explicit heap, and a command is a run over the program's whole state.
pub mod Commands
pub mod Forest
pub mod Invariant
pub mod Make
pub mod Disk
pub mod Shell
pub mod Show
pub mod Cd
pub mod Remove
pub mod Edit
pub mod Search
pub mod Where
pub mod Saved
pub mod Append
pub mod Shape
pub mod Session
pub mod Tests
use cs.Base.{ℕ, Bool, Option, none, some, List, [], ◌∷◌, ◌++◌, Text, codes, ◌==◌, if◌then◌else◌}

abbrev pub Ptr : Type 0
Ptr = ℕ

abbrev pub null : Ptr
null = 0

-- `struct node`; `kind` is the field `type`.
pub record Node : Type 0 where
  pub name : Text
  pub kind : ℕ
  pub child : Ptr
  pub sibling : Ptr
  pub parent : Ptr

abbrev pub Heap : Type 0
Heap = Ptr → Option Node

-- The global variables, the heap, what `malloc` will return in turn (nothing left is `NULL`),
-- the file fssim_devito.txt, and what was printed.
pub record State : Type 0 where
  pub heap : Heap
  pub root : Ptr
  pub cwd : Ptr
  pub pool : List Ptr
  pub file : Option Text
  pub out : Text

unfoldable pub write : Heap → Ptr → Option Node → Heap
write h p c a = if a == p then c else h a

-- `fault` is undefined behaviour: a read through a null or dangling pointer, an overflow.
pub data Run (A : Type 0) : Type 0 where
  ok : A → State → Run A
  fault : Run A
  out_of_fuel : Run A

abbrev pub M : Type 0 → Type 0
M A = State → Run A

abbrev pub pure : {A : Type 0} → A → M A
pure = ok

module _ {A B : Type 0} where
  abbrev pub and_then : Run A → (A → M B) → Run B
  and_then (ok a s) k = k a s
  and_then fault k = fault
  and_then out_of_fuel k = out_of_fuel

  infixl 5 ◌>>=◌ ◌>>◌
  abbrev pub ◌>>=◌ : M A → (A → M B) → M B
  m >>= k = λ s. and_then (m s) k

  abbrev pub ◌>>◌ : M A → M B → M B
  m >> n = m >>= λ _. n

abbrev pub get : M State
get s = ok s s

abbrev pub printf : Text → M (Unit {0})
printf t s = ok tt (record s { out = s.out ++ t })

abbrev pub set_cwd : Ptr → M (Unit {0})
set_cwd p s = ok tt (record s { cwd = p })

-- `*p`
unfoldable pub load : Ptr → M Node
load p s = if p == null then fault else elim (s.heap p) [ none ↦ fault | some n ↦ ok n s ]

abbrev pub store : Ptr → Option Node → M (Unit {0})
store p c s = ok tt (record s { heap = write s.heap p c })

unfoldable pub set_child : Ptr → Ptr → M (Unit {0})
set_child p q = do n ← load p; store p (some (record n { child = q }))

unfoldable pub set_sibling : Ptr → Ptr → M (Unit {0})
set_sibling p q = do n ← load p; store p (some (record n { sibling = q }))

unfoldable pub free : Ptr → M (Unit {0})
free p = load p >> store p none

-- The source writes through what `malloc` returns without a test, so `NULL` is a fault.
unfoldable pub malloc : M Ptr
malloc s = elim s.pool [
  | [] ↦ fault
  | p ∷ ps ↦ if p == null then fault else ok p (record s { pool = ps })
]

abbrev pub dir : ℕ
dir = b'D'

abbrev pub regular : ℕ
regular = b'F'

abbrev pub slash : Text
slash = codes "/"
