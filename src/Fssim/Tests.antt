-- ===== src/Fssim/Tests.antt =====
-- The theorems about lab1_devito.c at one small tree: the root with a directory and a file.
use cs.Base.{◌==◌, false, ◌∷◌, [], ◌≡◌, refl, none, some, Text, codes, streq, arith}
use cs.Fssim.{Ptr, null, Heap, State, ok, write, slash, dir, regular}
use cs.Fssim.Where.{pwd-trail}
use cs.Fssim.Shell.{save_all}
use cs.Fssim.Saved.{save_all-dump}
use cs.Fssim.Commands.{pwd, initialize, ls, cd, rm, rmdir, mkdir, search_tree}
use cs.Fssim.Forest.{Forest, nil, cons, node, kids_of, find, Rep}
use cs.Fssim.Invariant.{Holds}
use cs.Fssim.Search.{search_tree-find}
use cs.Fssim.Show.{initialize-Holds, ls-listing}
use cs.Fssim.Make.{mkdir-taken}
use cs.Fssim.Cd.{cd-cd_named}
use cs.Fssim.Remove.{rm_judge, rmdir_judge}
use cs.Fssim.Remove.Theorems.{Removed, rm-RemovalSpec, rmdir-RemovalSpec}

abbrev docs : Text
docs = codes "docs"

abbrev note : Text
note = codes "note"

abbrev music : Text
music = codes "music"

abbrev children : Forest
children = cons 2 docs dir nil (cons 3 note regular nil nil)

abbrev tree : Forest
tree = cons 1 slash dir children nil

abbrev nowhere : Heap
nowhere p = none

abbrev demo_heap : Heap
demo_heap =
    write
      (write (write nowhere 3 (some (node note regular null null 1))) 2
        (some (node docs dir null 3 1)))
      1 (some (node slash dir 2 null 1))

abbrev demo : State
demo = record { heap = demo_heap; root = 1; cwd = 1; pool = 4 ∷ []; file = none; out = [] }

children-Rep : Rep demo_heap 1 children
unfolding write
children-Rep = ((λ e. cc), refl, tt, ((λ e. cc), refl, tt, tt))

demo-Holds : Holds demo tree
unfolding write
demo-Holds = record {
  rep = ((λ e. cc), refl, children-Rep, tt);
  distinct =
      (refl, refl, λ a i. refl, (refl, refl, λ a i. cc, tt, (refl, refl, λ a i. cc, tt, tt)), tt);
  top = (refl, refl, refl);
  cwd_in = refl;
}

initialize-Holds_example :
    (s' : State) × (initialize demo ≡ ok tt s')
    × Holds s' (cons 4 slash dir nil nil)
    × (s'.pool ≡ [])
    × (s'.file ≡ none)
    × ((b : Ptr) → demo.heap b ≡ none → (b == 4) ≡ false → s'.heap b ≡ none)
initialize-Holds_example = initialize-Holds demo 4 [] refl (λ e. cc)

ls-listing_example : ls 4 1 demo ≡ ok tt (record demo { out = codes "D docs\nF note\n" })
unfolding kids_of streq
ls-listing_example = ls-listing 4 demo tree demo-Holds (omega arith)

search_tree-find_example : search_tree 9 2 note demo ≡ ok null demo
unfolding find streq
search_tree-find_example = search_tree-find 9 1 children note demo children-Rep (omega arith)

mkdir-taken_example :
    mkdir 9 docs demo ≡ ok tt (record demo { out = codes "DIR docs already exists!\n" })
unfolding kids_of streq
mkdir-taken_example = mkdir-taken 9 demo tree docs demo-Holds (omega arith) refl

rm-RemovalSpec_example :
    (s' : State) × (rm 4 note demo ≡ ok tt s') × Removed (rm_judge note) demo s' tree
unfolding kids_of streq
rm-RemovalSpec_example = rm-RemovalSpec 4 demo tree note demo-Holds (omega arith)

rmdir-RemovalSpec_example :
    (s' : State) × (rmdir 4 docs demo ≡ ok tt s') × Removed (rmdir_judge docs) demo s' tree
unfolding kids_of streq
rmdir-RemovalSpec_example = rmdir-RemovalSpec 4 demo tree docs demo-Holds (omega arith)

cd-cd_named_example : cd 4 (some docs) demo ≡ ok tt (record demo { cwd = 2 })
unfolding kids_of streq
cd-cd_named_example = cd-cd_named 4 demo tree demo-Holds (omega arith) docs refl

pwd-trail_example :
    pwd 4 2 (record demo { cwd = 2 }) ≡ ok tt (record demo { cwd = 2; out = codes "/docs/\n" })
unfolding kids_of
pwd-trail_example =
    pwd-trail 4 2 (record demo { cwd = 2 }) tree (λ e. cc)
      (record {
        rep = demo-Holds.rep;
        distinct = demo-Holds.distinct;
        top = demo-Holds.top;
        cwd_in = refl;
      })
      (omega arith)

save_all-dump_example :
    save_all 8 demo ≡ ok tt (record demo { file = some (codes "docs,/,D\nnote,/,F\n") })
unfolding kids_of streq
save_all-dump_example = save_all-dump 7 demo tree demo-Holds (omega arith)
