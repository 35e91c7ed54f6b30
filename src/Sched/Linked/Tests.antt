-- ===== src/Sched/Linked/Tests.antt =====
-- The linked queue of scheduler.c with three calls.
use cs.Base.{◌≡◌, refl, none, some, List, [], ◌∷◌, arith}
use cs.Sched.Linked.{Memory, Call, put_in, take_out, create_queue, node_calls}
use cs.Sched.Linked.Refines.{puts, queue_calls, node_calls-queue_calls}

abbrev calls : List Call
calls = put_in (some 4) ∷ put_in (some 9) ∷ take_out ∷ take_out ∷ take_out ∷ []

abbrev memory : Memory
memory = record { cells = λ a. none; pool = 16 ∷ 32 ∷ [] }

node_calls-queue_calls_example :
    node_calls calls create_queue memory ≡ some (some 4 ∷ some 9 ∷ none ∷ [])
unfolding queue_calls puts
node_calls-queue_calls_example =
    node_calls-queue_calls calls memory
      ((λ e. omega arith), refl, refl, ((λ e. omega arith), refl, refl, tt)) (omega arith)
