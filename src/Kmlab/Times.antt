-- ===== src/Kmlab/Times.antt =====
-- The timer callback of kmlab.c.
use cs.Base.{ℕ, ◌+◌, ◌≡◌, refl, ap, none, some, List, [], ◌∷◌, ◌++◌, Text, Option-cases, inl, inr}
use cs.Kmlab.{
  Entry, Kernel, Module, work_loop, work_function, my_timer_callback, entry_text, mod_timer,
}

-- The entries that are left: of the processes that still exist, in the former order, each with
-- the time of its process.
abbrev pub alive : Kernel → List ℕ → List ℕ
alive k [] = []
alive k (pid ∷ pids) = elim (k.find_task pid) [ none ↦ alive k pids | some t ↦ pid ∷ alive k pids ]

abbrev pub UpToDate : Kernel → List Entry → Type 0
UpToDate k [] = Unit {0}
UpToDate k (e ∷ es) = (k.find_task e.pid ≡ some e.cpu_time) × UpToDate k es

abbrev pub pids : List Entry → List ℕ
pids [] = []
pids (e ∷ es) = e.pid ∷ pids es

work_loop-UpToDate : (k : Kernel) (es : List Entry) → UpToDate k (work_loop k es)
unfolding work_loop
work_loop-UpToDate k [] = tt
work_loop-UpToDate k (e ∷ es) = elim (Option-cases (k.find_task e.pid)) [
  | inl gone ↦ rw (work_loop, gone) (work_loop-UpToDate k es)
  | inr (t, found) ↦ rw (work_loop, found) (found, work_loop-UpToDate k es)
]

pids-work_loop : (k : Kernel) (es : List Entry) → pids (work_loop k es) ≡ alive k (pids es)
unfolding work_loop
pids-work_loop k [] = refl
pids-work_loop k (e ∷ es) = elim (Option-cases (k.find_task e.pid)) [
  | inl gone ↦ rw (work_loop, gone) (pids-work_loop k es)
  | inr (t, found) ↦ rw (work_loop, found) (ap (λ ps. e.pid ∷ ps) (pids-work_loop k es))
]

pub record Refreshed (k : Kernel) (s s' : Module) : Type 0 where
  pub up_to_date : UpToDate k s'.my_list
  pub kept : pids s'.my_list ≡ alive k (pids s.my_list)
  pub again : s'.timer ≡ some (k.jiffies + k.msecs_to_jiffies 5000)
  pub directory : s'.directory ≡ s.directory
  pub proc : s'.proc ≡ s.proc
  pub stray : s'.stray ≡ s.stray
  pub work_queue : s'.work_queue ≡ s.work_queue

-- After the timer the list has the entries of those processes that still exist, in their former
-- order, each with its process's current time; the timer is armed again, 5000 milliseconds ahead,
-- and the proc files and the work queue stay.
pub my_timer_callback-Refreshed : (k : Kernel) (s : Module) → Refreshed k s (my_timer_callback k s)
unfolding my_timer_callback work_function mod_timer
my_timer_callback-Refreshed k s = record {
  up_to_date = work_loop-UpToDate k s.my_list;
  kept = pids-work_loop k s.my_list;
  again = refl;
  directory = refl;
  proc = refl;
  stray = refl;
  work_queue = refl;
}

-- The lines of all entries.
abbrev pub status_text : List Entry → Text
status_text [] = []
status_text (e ∷ es) = entry_text e ++ status_text es
