-- ===== src/Kmlab/Steps/Safety.antt =====
-- What holds in every state of the module kmlab.
use mathlib.Core.Option.{some-injective}
use mathlib.Core.Path.{subst}
use cs.Base.{
  ℕ, ◌+◌, ◌≡◌, refl, sym, ap, ◌⊎◌, inl, inr, Bool, true, false, Option, none, some, List, [], ◌∷◌,
  Text, Option-cases, Bool-cases, ◌||◌,
}
use cs.Kmlab.{
  Entry, Kernel, Result, ListLaws, Module, work_loop, work_function, my_timer_callback, mod_timer,
  procfile_write, scan_unsigned, kmlab_init, kmlab_exit, cleanup_list,
}
use cs.Kmlab.Times.{UpToDate, my_timer_callback-Refreshed}
use cs.Kmlab.Steps.{unloaded, heard, Step, load, unload, tick, write, read, Reach, start, next}

-- One of the texts has this process id.
abbrev pub Registered : List Text → ℕ → Type 0
Registered [] pid = ⊥
Registered (t ∷ h) pid = (scan_unsigned t ≡ some pid) ⊎ Registered h pid

abbrev pub AllRegistered : List Text → List Entry → Type 0
AllRegistered h [] = Unit {0}
AllRegistered h (e ∷ es) = Registered h e.pid × AllRegistered h es

pub record Sound (h : List Text) (s : Module) : Type 0 where
  pub registered : AllRegistered h s.my_list
  pub armed : s.directory ≡ true → (due : ℕ) × (s.timer ≡ some due)
  pub quiet : s.directory ≡ false → s ≡ record unloaded { stray = s.stray }
  pub inside : s.proc ≡ true → s.directory ≡ true

AllRegistered-heard :
    (text : Option Text) (h : List Text) (es : List Entry)
    → AllRegistered h es
    → AllRegistered (heard text h) es
AllRegistered-heard none h es a = a
AllRegistered-heard (some t) h [] a = tt
AllRegistered-heard (some t) h (e ∷ es) (r, a) = (inr r, AllRegistered-heard (some t) h es a)

AllRegistered-work_loop :
    (h : List Text) (k : Kernel) (es : List Entry)
    → AllRegistered h es
    → AllRegistered h (work_loop k es)
unfolding work_loop
AllRegistered-work_loop h k [] a = tt
AllRegistered-work_loop h k (e ∷ es) (r, a) = elim (Option-cases (k.find_task e.pid)) [
  | inl gone ↦ rw (work_loop, gone) (AllRegistered-work_loop h k es a)
  | inr (t, found) ↦ rw (work_loop, found) (r, AllRegistered-work_loop h k es a)
]

-- A user writes some more text.
Sound-heard : (h : List Text) (s : Module) (text : Option Text) → Sound h s → Sound (heard text h) s
Sound-heard h s text sound = record {
  registered = AllRegistered-heard text h s.my_list sound.registered;
  armed = sound.armed;
  quiet = sound.quiet;
  inside = sound.inside;
}

-- Its process id gets an entry.
both : {b : Bool} → b ≡ true → b ≡ false → ⊥
both e f = cc

Sound-scanned :
    (h : List Text) (s : Module) (k : Kernel) (t : Text) (pid : ℕ)
    → ListLaws k
    → s.proc ≡ true
    → scan_unsigned t ≡ some pid
    → Sound h s
    → Sound (t ∷ h) (procfile_write k true true (some t) s).1
unfolding procfile_write
Sound-scanned h s k t pid laws proc scanned sound =
    rw (procfile_write, scanned, laws.list_add_lem (record { cpu_time = 0; pid = pid }) s.my_list)
      record {
        registered = (inl scanned, AllRegistered-heard (some t) h s.my_list sound.registered);
        armed = sound.armed;
        quiet = λ off. absurd (both (sound.inside proc) off);
        inside = sound.inside;
      }

unchanged :
    (s : Module) (k : Kernel) (t : Text)
    → scan_unsigned t ≡ none
    → (procfile_write k true true (some t) s).1 ≡ s
unfolding procfile_write
unchanged s k t e = rw (procfile_write, e) refl

Sound-write :
    (h : List Text) (s : Module) (k : Kernel) (has_new has_str : Bool) (text : Option Text)
    → ListLaws k
    → s.proc ≡ true
    → Sound h s
    → Sound (heard text h) (procfile_write k has_new has_str text s).1
unfolding procfile_write
Sound-write h s k false has_str text laws proc sound = Sound-heard h s text sound
Sound-write h s k true false text laws proc sound = Sound-heard h s text sound
Sound-write h s k true true none laws proc sound = sound
Sound-write h s k true true (some t) laws proc sound = elim (Option-cases (scan_unsigned t)) [
  | inl e ↦
      subst (λ s'. Sound (t ∷ h) s') (sym (unchanged s k t e)) (Sound-heard h s (some t) sound)
  | inr (pid, e) ↦ Sound-scanned h s k t pid laws proc e sound
]

armed_loaded :
    (s : Module) (due : ℕ) → s.timer ≡ some due → s ≡ record unloaded { stray = s.stray } → ⊥
armed_loaded s due is_due e =
    let off : s.timer ≡ none = ap (λ (m : Module). m.timer) e in absurd (cc)

-- A load that fails leaves everything but a file at the top.
Sound-stray :
    (h : List Text) (s : Module) (b : Bool)
    → s.directory ≡ false
    → Sound h s
    → Sound h (record s { stray = b })
Sound-stray h s b off sound = record {
  registered = sound.registered;
  armed = sound.armed;
  quiet = λ e. ap (λ (m : Module). record m { stray = b }) (sound.quiet e);
  inside = sound.inside;
}

Sound-load :
    (h : List Text) (s : Module) (k : Kernel) (has_dir has_status has_queue has_struct : Bool)
    (result : Result × Module)
    → s.directory ≡ false
    → kmlab_init k has_dir has_status has_queue has_struct s ≡ some result
    → Sound h s
    → Sound h result.1
unfolding kmlab_init mod_timer
Sound-load h s k false has_status has_queue has_struct result off e sound =
    subst (λ (r : Result × Module). Sound h r.1) (some-injective _ result e)
      (Sound-stray h s (s.stray || has_status) off sound)
Sound-load h s k true has_status has_queue false result off e sound = cc
Sound-load h s k true has_status has_queue true result off e sound =
    subst (λ (r : Result × Module). Sound h r.1) (some-injective _ result e)
      (record {
        registered = tt;
        armed = λ on. (_, refl);
        quiet = λ z. absurd (cc);
        inside = λ z. refl;
      })

Sound-unload : (h : List Text) (s s' : Module) → kmlab_exit s ≡ some s' → Sound h s → Sound h s'
unfolding kmlab_exit cleanup_list
Sound-unload h s s' e sound = elim (Bool-cases s.work_queue) [
  | inr none_there ↦ absurd (cc (rw none_there at e))
  | inl there ↦ subst (Sound h) (some-injective _ s' (rw there at e)) (record {
    registered = tt;
    armed = λ z. absurd (cc);
    quiet = λ z. refl;
    inside = λ z. absurd (cc);
  })
]

Sound-step : (h h' : List Text) (s s' : Module) → Step h s h' s' → Sound h s → Sound h' s'
unfolding my_timer_callback work_function mod_timer
Sound-step h h' s s' (load k has_dir has_status has_queue has_struct result off e) sound =
    Sound-load h s k has_dir has_status has_queue has_struct result off e sound
Sound-step h h' s s' (unload _ on e) sound = Sound-unload h s s' e sound
Sound-step h h' s s' (tick k due is_due) sound = record {
  registered = AllRegistered-work_loop h k s.my_list sound.registered;
  armed = λ on. (_, refl);
  quiet = λ off. absurd (armed_loaded s due is_due (sound.quiet off));
  inside = sound.inside;
}
Sound-step h h' s s' (write k has_new has_str text laws proc) sound =
    Sound-write h s k has_new has_str text laws proc sound
Sound-step h h' s s' (read has_memory copies n offset result proc e) sound = sound

pub Reach-Sound : (h : List Text) (s : Module) → Reach h s → Sound h s
Reach-Sound h s start = record {
  registered = tt;
  armed = λ e. absurd (cc);
  quiet = λ e. refl;
  inside = λ e. absurd (cc);
}
Reach-Sound h s (next before step) = Sound-step _ h _ s step (Reach-Sound _ _ before)

-- What the next timer comes to.
pub record Reaped (h : List Text) (k : Kernel) (s s' : Module) : Type 0 where
  pub happens : Step h s h s'
  pub only_alive : UpToDate k s'.my_list
  pub again : s'.timer ≡ some (k.jiffies + k.msecs_to_jiffies 5000)

-- In every state that a run comes to with the module loaded the timer can fire, under whatever
-- answers the kernel has then; afterwards each entry is of a process that the kernel still knows,
-- with its current time, and the timer is due again, 5000 milliseconds ahead.
pub Reach-Reaped :
    (h : List Text) (s : Module) (k : Kernel)
    → Reach h s
    → s.directory ≡ true
    → Reaped h k s (my_timer_callback k s)
Reach-Reaped h s k reached loaded =
    let (due, armed) = (Reach-Sound h s reached).armed loaded in
    let r = my_timer_callback-Refreshed k s in
    record { happens = tick k due armed; only_alive = r.up_to_date; again = r.again }
