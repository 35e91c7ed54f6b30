-- ===== src/Sched/Fcfs/Turns.antt =====
-- What a step keeps, and how far a loop over the processes has come.
use cs.Base.{ℕ, ◌+◌, ◌<◌, ◌≤◌, ◌≡◌, refl, ◌≢◌, ltb, length, if◌then◌else◌, arith, ◌∙◌}
use cs.Sched.{Sim}
use cs.Sched.Fcfs.{work}

-- The sums over the processes, and the clock, stay.
pub record SameWork (s s' : Sim) : Type 0 where
  pub current_cycle : s'.current_cycle ≡ s.current_cycle
  pub size : length s'.process_list ≡ length s.process_list
  pub work : work s'.process_list ≡ work s.process_list
  pub finished : s'.finished ≡ s.finished

pub SameWork_self : (s : Sim) → SameWork s s
SameWork_self s = record { current_cycle = refl; size = refl; work = refl; finished = refl }

pub SameWork-trans : {s t u : Sim} → SameWork s t → SameWork t u → SameWork s u
SameWork-trans a b = record {
  current_cycle = b.current_cycle ∙ a.current_cycle;
  size = b.size ∙ a.size;
  work = b.work ∙ a.work;
  finished = b.finished ∙ a.finished;
}

-- Before the turn of the process `i`: those before it have arrived by the cycle `now`.
abbrev pub from_at : ℕ → ℕ → ℕ → ℕ
from_at now i j = if ltb j i then now + 1 else now

pub from_at-ne : (now i j : ℕ) → j ≢ i → from_at now (i + 1) j ≡ from_at now i j
from_at-ne now i j ne = ground arith

pub from_at-next : (now i : ℕ) → from_at now (i + 1) i ≡ now + 1
from_at-next now i = ground arith

pub from_at-le : (now i j : ℕ) → from_at now i j ≤ now + 1
from_at-le now i j = ground arith

pub from_at_zero : (now j : ℕ) → from_at now 0 j ≡ now
from_at_zero now j = ground arith

pub from_at_lt : (now n j : ℕ) → j < n → from_at now n j ≡ now + 1
from_at_lt now n j h = ground arith

pub from_at_grows : (now i j : ℕ) → from_at now i j ≤ from_at now (i + 1) j
from_at_grows now i j = ground arith

pub from_at_self : (now i : ℕ) → from_at now i i ≡ now
from_at_self now i = ground arith
