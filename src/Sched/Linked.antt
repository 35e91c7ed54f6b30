-- ===== src/Sched/Linked.antt =====
-- struct Node, struct Queue, createQueue, enqueue and dequeue of scheduler.c, with their nodes on a
-- heap. The rest of the model has a queue as the list of its processes.
pub mod Nodes
pub mod Refines
pub mod Tests
use cs.Base.{ℕ, Option, none, some, List, [], ◌∷◌, ◌==◌, if◌then◌else◌}
use cs.Sched.{◌>>=◌}

abbrev pub null : ℕ
null = 0

pub record Cell : Type 0 where
  pub process : Option ℕ
  pub next : ℕ

-- The nodes, and the addresses that `malloc` will return in turn.
pub record Memory : Type 0 where
  pub cells : ℕ → Option Cell
  pub pool : List ℕ

pub record Ends : Type 0 where
  pub front : ℕ
  pub rear : ℕ

unfoldable pub write_cell : ℕ → Option Cell → Memory → Memory
write_cell a c m = record m { cells = λ b. if b == a then c else m.cells b }

-- A read through NULL or through a pointer to nothing has no result.
unfoldable pub read_cell : ℕ → Memory → Option Cell
read_cell a m = if a == null then none else m.cells a

abbrev pub create_queue : Ends
create_queue = record { front = null; rear = null }

-- `temp` behind the last node.
unfoldable pub link_node : ℕ → Ends → Memory → Option (Ends × Memory)
unfolding read_cell write_cell
link_node temp q m = if q.rear == null then some (record { front = temp; rear = temp }, m) else (do
  last ← read_cell q.rear m
  some (record q { rear = temp }, write_cell q.rear (some (record last { next = temp })) m))

-- The node is written through what `malloc` returns without a test.
unfoldable pub enqueue_node : Option ℕ → Ends → Memory → Option (Ends × Memory)
unfolding link_node write_cell
enqueue_node process q m = elim m.pool [
  | [] ↦ none
  | temp ∷ pool ↦
      if temp == null
      then none
      else link_node temp q (
          write_cell temp (some (record { process = process; next = null }))
            (record m { pool = pool }))
]

-- The first node is taken out and freed.
unfoldable pub unlink_node : Ends → Cell → Memory → Option ℕ × Ends × Memory
unfolding write_cell
unlink_node q temp m = (
  temp.process,
  record { front = temp.next; rear = if temp.next == null then null else q.rear },
  write_cell q.front none m,
)

unfoldable pub dequeue_node : Ends → Memory → Option (Option ℕ × Ends × Memory)
unfolding read_cell unlink_node
dequeue_node q m =
    if q.front == null
    then some (none, q, m)
    else do temp ← read_cell q.front m; some (unlink_node q temp m)

-- A client of the queue: its calls in turn, and what the calls of dequeue return.
pub data Call : Type 0 where
  put_in : Option ℕ → Call
  take_out : Call

unfoldable pub node_calls : List Call → Ends → Memory → Option (List (Option ℕ))
unfolding enqueue_node dequeue_node
node_calls [] q m = some []
node_calls (put_in x ∷ calls) q m = do (q', m') ← enqueue_node x q m; node_calls calls q' m'
node_calls (take_out ∷ calls) q m = do
  (x, q', m') ← dequeue_node q m
  xs ← node_calls calls q' m'
  some (x ∷ xs)
