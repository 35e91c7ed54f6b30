-- ===== src/Kmlab/Tests.antt =====
-- The theorems about kmlab.c at a list of two entries.
use cs.Base.{
  false, ◌≡◌, refl, true, none, some, [], ◌∷◌, ◌++◌, codes, decimal, decimal_from, arith, ◌==◌,
  if◌then◌else◌, length, skip_spaces, number,
}
use cs.Kmlab.{
  Kernel, ListLaws, Module, bytes, my_timer_callback, procfile_read, procfile_write, kmlab_init,
  mod_timer, scan_unsigned,
}
use cs.Kmlab.Steps.{Reach, start, next, load, write}
use cs.Kmlab.Steps.Safety.{Reaped, Reach-Reaped}
use cs.Kmlab.Times.{Refreshed, my_timer_callback-Refreshed}
use cs.Kmlab.Reading.{procfile_read-status_text, procfile_write-decimal}

-- The process 7 has run for 5 ticks, and no other one exists.
abbrev kernel : Kernel
kernel = record {
  find_task = λ pid. if pid == 7 then some 5 else none;
  list_add = λ e es. e ∷ es;
  jiffies = 100;
  msecs_to_jiffies = λ ms. ms;
}

abbrev loaded : Module
loaded = record {
  my_list = record { cpu_time = 0; pid = 7 } ∷ record { cpu_time = 0; pid = 8 } ∷ [];
  timer = none;
  directory = true;
  proc = true;
  stray = false;
  work_queue = true;
}

kernel-ListLaws : ListLaws kernel
kernel-ListLaws = record { list_add_lem = λ e es. refl }

my_timer_callback-Refreshed_example : Refreshed kernel loaded (my_timer_callback kernel loaded)
my_timer_callback-Refreshed_example = my_timer_callback-Refreshed kernel loaded

procfile_read-status_text_example :
    procfile_read true true 100 0 loaded ≡ some (bytes 30, codes "7: CPU time: 0\n8: CPU time: 0\n")
unfolding decimal decimal_from
procfile_read-status_text_example = procfile_read-status_text 100 loaded (omega arith)

procfile_write-decimal_example :
    procfile_write kernel true true (some (decimal 9 ++ codes "\n")) loaded ≡ (
      bytes (length (decimal 9 ++ codes "\n")),
      record loaded { my_list = record { cpu_time = 0; pid = 9 } ∷ loaded.my_list },
    )
procfile_write-decimal_example =
    procfile_write-decimal kernel 9 loaded kernel-ListLaws (omega arith)

-- The module is loaded, and a user registers the process 7.
abbrev after_load : Module
after_load = record {
  my_list = [];
  timer = some 5100;
  directory = true;
  proc = true;
  stray = false;
  work_queue = true;
}

abbrev after_write : Module
after_write = (procfile_write kernel true true (some (codes "7")) after_load).1

abbrev run : Reach (codes "7" ∷ []) after_write
unfolding kmlab_init mod_timer
run =
    next (next start (load kernel true true true true (bytes 0, after_load) refl refl))
      (write kernel true true (some (codes "7")) kernel-ListLaws refl)

Reach-Reaped_example :
    Reaped (codes "7" ∷ []) kernel after_write (my_timer_callback kernel after_write)
unfolding procfile_write scan_unsigned skip_spaces number
Reach-Reaped_example = Reach-Reaped (codes "7" ∷ []) after_write kernel run refl
