-- ===== src/Kmlab/Steps.antt =====
-- The runs of the module kmlab: init, exit, the timer and the proc file handlers of kmlab.c in any
-- order, each as a whole. The kernel may answer differently at every step. A call that is undefined
-- behaviour has no state behind it. A status file at the top has no module behind it, so nothing
-- more is said of reads and writes of it.
pub mod Safety
use cs.Base.{ℕ, ◌≡◌, Bool, true, false, Option, none, some, List, [], ◌∷◌, Text}
use cs.Kmlab.{
  Kernel, ListLaws, Module, Result, my_timer_callback, procfile_read, procfile_write, kmlab_init,
  kmlab_exit,
}

-- The globals before the module is loaded.
abbrev pub unloaded : Module
unloaded = record {
  my_list = [];
  timer = none;
  directory = false;
  proc = false;
  stray = false;
  work_queue = false;
}

abbrev pub heard : Option Text → List Text → List Text
heard none h = h
heard (some t) h = t ∷ h

-- One step, together with the texts that users have written so far.
pub data Step : List Text → Module → List Text → Module → Type 0 where
  load :
      {h : List Text} {s : Module} (k : Kernel) (has_dir has_status has_queue has_struct : Bool)
      (result : Result × Module)
      → s.directory ≡ false
      → kmlab_init k has_dir has_status has_queue has_struct s ≡ some result
      → Step h s h result.1
  unload :
      {h : List Text} {s : Module} (s' : Module)
      → s.directory ≡ true
      → kmlab_exit s ≡ some s'
      → Step h s h s'
  tick :
      {h : List Text} {s : Module} (k : Kernel) (due : ℕ)
      → s.timer ≡ some due
      → Step h s h (my_timer_callback k s)
  write :
      {h : List Text} {s : Module} (k : Kernel) (has_new has_str : Bool) (text : Option Text)
      → ListLaws k
      → s.proc ≡ true
      → Step h s (heard text h) (procfile_write k has_new has_str text s).1
  read :
      {h : List Text} {s : Module} (has_memory copies : Bool) (buffer_length offset : ℕ)
      (result : Result × Text)
      → s.proc ≡ true
      → procfile_read has_memory copies buffer_length offset s ≡ some result
      → Step h s h s

-- The states that a run comes to.
pub data Reach : List Text → Module → Type 0 where
  start : Reach [] unloaded
  next : {h h' : List Text} {s s' : Module} → Reach h s → Step h s h' s' → Reach h' s'
