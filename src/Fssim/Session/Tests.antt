-- ===== src/Fssim/Session/Tests.antt =====
-- A session with lab1_devito.c, and single lines from a small tree.
use cs.Base.{streq, ◌≡◌, ◌∷◌, [], refl, some, none, List, Text, codes, arith, Unused}
use cs.Fssim.{State, ok, slash, dir, regular, write}
use cs.Fssim.Disk.{reload}
use cs.Fssim.Shell.{command_line, main, save_all}
use cs.Fssim.Saved.{save_all-dump}
use cs.Fssim.Shape.{shape}
use cs.Fssim.Session.Entry.{Token}
use cs.Fssim.Session.RoundTrip.{reload-save_all}
use cs.Fssim.Forest.{Forest, nil, cons, node, kids_of}
use cs.Fssim.Session.{Ready, Outcome}
use cs.Fssim.Session.Reload.{FileFaults, reload-Outcome}
use cs.Fssim.Session.Whole.{LineMishap, StartMishap, command_line-Outcome, main-Outcome}

abbrev start : State
start = record { heap = λ p. none; root = 0; cwd = 0; pool = 1 ∷ 2 ∷ 3 ∷ []; file = none; out = [] }

abbrev lines : List Text
lines = codes "mkdir docs\n" ∷ codes "cd docs\n" ∷ codes "save\n" ∷ codes "quit\n" ∷ []

start-Unused : Unused start.heap start.pool
start-Unused = (
  (λ e. omega arith),
  refl,
  refl,
  ((λ e. omega arith), refl, refl, ((λ e. omega arith), refl, refl, tt)),
)

main-Outcome_example : Outcome start nil (StartMishap 500 lines start) (main 500 lines start)
main-Outcome_example =
    main-Outcome 500 lines start 1 (2 ∷ 3 ∷ []) refl start-Unused
      (record { nodes = omega arith; file = omega arith })

-- The root with a file, and a saved file with another entry.
abbrev small : Forest
small = cons 1 slash dir (cons 2 (codes "note") regular nil nil) nil

abbrev here : State
here = record {
  heap =
      write (write (λ p. none) 2 (some (node (codes "note") regular 0 0 1))) 1
        (some (node slash dir 2 0 1));
  root = 1;
  cwd = 1;
  pool = 3 ∷ [];
  file = some (codes "docs,/,D\n");
  out = [];
}

here-Ready : Ready here small
unfolding write
here-Ready = record {
  holds = record {
    rep = ((λ e. omega arith), refl, ((λ e. omega arith), refl, tt, tt), tt);
    distinct = (refl, refl, λ a i. refl, (refl, refl, λ a i. cc, tt, tt), tt);
    top = (refl, refl, refl);
    cwd_in = refl;
  };
  spare = ((λ e. omega arith), refl, refl, tt);
  named = (omega arith, (omega arith, tt, tt), tt);
}

command_line-Outcome_example :
    Outcome here small
      (LineMishap 500 here small (codes "rm note\n"))
      (command_line 500 (codes "rm note\n") here)
command_line-Outcome_example =
    command_line-Outcome 500 here small (codes "rm note\n") here-Ready
      (record { nodes = omega arith; file = omega arith })

reload-Outcome_example :
    Outcome here small (FileFaults 500 500 (codes "docs,/,D\n") here) (reload 500 here)
reload-Outcome_example =
    reload-Outcome 500 (codes "docs,/,D\n") here small here-Ready refl (omega arith) (omega arith)

-- The tree above is saved, and reloaded by a session that has the root alone.
abbrev saved : State
saved = record here { file = some (codes "note,/,F\n") }

here-saved : save_all 21 here ≡ ok tt saved
unfolding kids_of streq
here-saved = save_all-dump 20 here small here-Ready.holds (omega arith)

abbrev fresh : State
fresh = record {
  heap = write (λ p. none) 5 (some (node slash dir 0 0 5));
  root = 5;
  cwd = 5;
  pool = 6 ∷ 7 ∷ [];
  file = some (codes "note,/,F\n");
  out = [];
}

fresh-Ready : Ready fresh (cons 5 slash dir nil nil)
unfolding write
fresh-Ready = record {
  holds = record {
    rep = ((λ e. omega arith), refl, tt, tt);
    distinct = (refl, refl, λ a i. refl, tt, tt);
    top = (refl, refl, refl);
    cwd_in = refl;
  };
  spare = ((λ e. omega arith), refl, refl, ((λ e. omega arith), refl, refl, tt));
  named = (omega arith, tt, tt);
}

note-Token : Token (codes "note")
note-Token = record {
  some_byte = omega arith;
  no_comma = refl;
  no_newline = refl;
  short = omega arith;
}

reload-save_all_example :
    (s3 : State) × (t3 : Forest) × (reload 20 fresh ≡ ok tt s3)
    × Ready s3 t3
    × (shape t3 ≡ shape small)
unfolding kids_of streq
reload-save_all_example =
    reload-save_all 20 here saved fresh small 5 here-Ready.holds (omega arith) here-saved
      (note-Token, refl, refl, tt, tt) (refl, refl, tt, tt, tt) fresh-Ready refl (omega arith)
      (omega arith)
