-- ===== src/Sched.antt =====
-- assignment-2-aanthoonyy-main/scheduler.c: the state of the simulation and its helpers.
-- A pointer to a process is its index in process_list, and `none` is NULL. A step that divides by
-- zero or reads through NULL has no result.
pub mod Cycle
pub mod Fcfs
pub mod Rounds
pub mod Skipped
pub mod Random
pub mod Tests
pub mod Input
pub mod Reading
pub mod Sort
pub mod Sjf
pub mod Rr
pub mod Linked
pub mod Report
pub mod Program
pub mod Keeps
pub mod Summary
use Prim.Native.Nat.{min}
use cs.Base.{
  ℕ, zero, suc, ◌+◌, ◌-◌, ◌%◌, ◌^◌, ◌≡◌, refl, Bool, true, false, ◌&&◌, Option, none, some, List,
  [], ◌∷◌, ◌++◌, ◌==◌, get_elem?, set, length, if◌then◌else◌,
}

-- `x++` and `x--` on `uint32_t`.
abbrev pub u32 : ℕ
u32 = 2 ^ 32

abbrev pub inc : ℕ → ℕ
inc x = (x + 1) % u32

abbrev pub dec : ℕ → ℕ
dec x = (x + u32 - 1) % u32

-- `struct Process`; the three pointers to next processes are never used. A signed field holds its
-- 32 bits as a number.
pub record Process : Type 0 where
  pub a : ℕ
  pub b : ℕ
  pub c : ℕ
  pub m : ℕ
  pub process_id : ℕ
  pub status : ℕ
  pub finishing_time : ℕ
  pub current_cpu_time_run : ℕ
  pub current_io_blocked_time : ℕ
  pub current_waiting_time : ℕ
  pub io_burst : ℕ
  pub cpu_burst : ℕ
  pub quantum : ℕ
  pub is_first_time_running : Bool

abbrev pub Queue : Type 0
Queue = List (Option ℕ)

-- The variables that the scheduling loops share.
pub record Sim : Type 0 where
  pub process_list : List Process
  pub ready : Queue
  pub blocked : Queue
  pub running : Option ℕ
  pub current_cycle : ℕ
  pub finished : ℕ
  pub current_burst : ℕ
  pub cycles_blocked : ℕ

infixl 5 ◌>>=◌
abbrev pub ◌>>=◌ {ℓ κ} : {A : Type ℓ} {B : Type κ} → Option A → (A → Option B) → Option B
none >>= f = none
some a >>= f = f a

pub bind_some {ℓ κ} :
    {A : Type ℓ} {B : Type κ} (m : Option A) (f : A → Option B) (y : B)
    → (m >>= f) ≡ some y
    → (x : A) × (m ≡ some x) × (f x ≡ some y)
bind_some none f y e = cc
bind_some (some x) f y e = (x, refl, e)

abbrev pub enqueue : Queue → Option ℕ → Queue
enqueue q p = q ++ p ∷ []

-- `NULL` from the empty queue.
abbrev pub dequeue : Queue → Option ℕ × Queue
dequeue [] = (none, [])
dequeue (p ∷ q) = (p, q)

-- `getRandNumFromFile` over the numbers that `atoi` reads in the lines of the file: the last line
-- of `line` reads, or the fail-safe value where the file is shorter. With no read the buffer has
-- no value.
unfoldable pub rand_loop : ℕ → List ℕ → Option ℕ → Option ℕ
rand_loop zero file str = str
rand_loop (suc loop) [] str = some 1804289383
rand_loop (suc loop) (x ∷ file) str = rand_loop loop file (some x)

unfoldable pub get_rand_num_from_file : ℕ → List ℕ → Option ℕ
unfolding rand_loop
get_rand_num_from_file line file = rand_loop line file none

abbrev pub seed_value : ℕ
seed_value = 200

-- `1 + (x % upper_bound)`
unfoldable pub random_os : ℕ → ℕ → List ℕ → Option ℕ
random_os upper_bound process_indx file = do
  x ← get_rand_num_from_file ((seed_value + process_indx) % u32) file
  if upper_bound == 0 then none else some ((1 + x % upper_bound) % u32)

-- `for (i = …; i < n; i++)` with `left` rounds to go.
unfoldable pub for_loop : ℕ → ℕ → (ℕ → Sim → Option Sim) → Sim → Option Sim
for_loop zero i body s = some s
for_loop (suc left) i body s = do s' ← body i s; for_loop left (i + 1) body s'

abbrev pub put : Sim → ℕ → Process → Sim
put s i p = record s { process_list = set s.process_list i p }
