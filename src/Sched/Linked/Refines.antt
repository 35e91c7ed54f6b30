-- ===== src/Sched/Linked/Refines.antt =====
-- The linked queue of scheduler.c against the list of its processes.
use mathlib.Core.Path.{subst}
use cs.Base.{
  Unused, Unused-frame, used_apart, ℕ, ◌+◌, ◌≤◌, ◌≡◌, refl, ◌≢◌, ◌∙◌, sym, ap, true, false, Option,
  none, some, List, [], ◌∷◌, ◌++◌, ◌==◌, if◌then◌else◌, length, lacks, arith,
}
use cs.Sched.{Queue, enqueue, dequeue}
use cs.Sched.Linked.{
  null, Cell, Memory, Ends, write_cell, read_cell, create_queue, link_node, enqueue_node,
  unlink_node, dequeue_node, Call, put_in, take_out, node_calls,
}
use cs.Sched.Linked.Nodes.{
  Nodes, first, last, addresses, processes, Linked, ends_of, Stored, ne_null, Linked-frame,
  unused_apart, processes-append, last-append, last_cell, Linked-append,
}

-- What enqueue comes to, where the next address is `p`.
record Enqueued (m : Memory) (r : Nodes) (x : Option ℕ) (p : ℕ) (ps : List ℕ) : Type 0 where
  memory : Memory
  run : enqueue_node x (ends_of r) m ≡ some (ends_of (r ++ (p, x) ∷ []), memory)
  stored : Stored memory (r ++ (p, x) ∷ [])
  pool : memory.pool ≡ ps

link_last :
    (temp : ℕ) (q : Ends) (m : Memory) (v : Cell)
    → (q.rear == null) ≡ false
    → m.cells q.rear ≡ some v
    → link_node temp q m
      ≡ some (record q { rear = temp }, write_cell q.rear (some (record v { next = temp })) m)
unfolding link_node read_cell
link_last temp q m v ne at = rw (link_node, read_cell, ne, at) refl

-- The memory with the new node.
abbrev with_node : ℕ → Option ℕ → List ℕ → Memory → Memory
with_node p x ps m =
    write_cell p (some (record { process = x; next = null })) (record m { pool = ps })

enqueue_run :
    (x : Option ℕ) (q : Ends) (m : Memory) (p : ℕ) (ps : List ℕ)
    → m.pool ≡ p ∷ ps
    → (p == null) ≡ false
    → enqueue_node x q m ≡ link_node p q (with_node p x ps m)
unfolding enqueue_node
enqueue_run x q m p ps pool ne = simp (pool, ne, enqueue_node)

same : (b : ℕ) → (b == b) ≡ true
same b = ground arith

-- The new node stands on its own.
new_node :
    (m : Memory) (r : Nodes) (p : ℕ) (x : Option ℕ) (ps : List ℕ)
    → Linked m.cells r
    → Unused m.cells (p ∷ ps)
    → Stored (with_node p x ps m) r
      × ((with_node p x ps m).cells p ≡ some (record { process = x; next = null }))
unfolding write_cell
new_node m r p x ps linked (ne, free, once, unused) = (
  record {
    linked = Linked-frame m.cells p _ r linked (unused_apart m.cells p r free linked);
    unused = Unused-frame m.cells p _ ps unused once;
  },
  rw (same p) refl,
)

-- The memory with the new node behind the last one, `v`.
abbrev with_link : ℕ → ℕ → Cell → Memory → Memory
with_link p a v m = write_cell a (some (record v { next = p })) m

link_lem :
    (m : Memory) (r : Nodes) (p : ℕ) (x : Option ℕ)
    → Stored m r
    → p ≢ null
    → lacks p (addresses r) ≡ true
    → m.cells p ≡ some (record { process = x; next = null })
    → lacks p m.pool ≡ true
    → (m' : Memory) × (link_node p (ends_of r) m ≡ some (ends_of (r ++ (p, x) ∷ []), m'))
      × Stored m' (r ++ (p, x) ∷ [])
      × (m'.pool ≡ m.pool)
unfolding link_node write_cell
link_lem m [] p x s ne out new apart =
    (m, refl, record { linked = (ne, new, refl, tt); unused = s.unused }, refl)
link_lem m ((a, y) ∷ r) p x s ne out new apart =
    let (v, at, some_last) = last_cell m.cells a y r s.linked in
    (
      with_link p (last ((a, y) ∷ r)) v m,
      link_last p (ends_of ((a, y) ∷ r)) m v (ne_null _ some_last) at
          ∙ ap (λ k. some (record { front = a; rear = k }, with_link p (last ((a, y) ∷ r)) v m))
              (sym (last-append ((a, y) ∷ r) p x)),
      record {
        linked = Linked-append m.cells p x ne new a y r v s.linked out at;
        unused =
            Unused-frame m.cells (last ((a, y) ∷ r)) _ m.pool s.unused
              (used_apart m.cells (last ((a, y) ∷ r)) v m.pool at s.unused);
      },
      refl,
    )

enqueue_lem :
    (m : Memory) (r : Nodes) (x : Option ℕ) (p : ℕ) (ps : List ℕ)
    → Stored m r
    → m.pool ≡ p ∷ ps
    → Enqueued m r x p ps
unfolding write_cell
enqueue_lem m r x p ps s pool =
    let unused = subst (λ qs. Unused m.cells qs) pool s.unused in
    let (stored, new) = new_node m r p x ps s.linked unused in
    let (ne, free, once, _) = unused in
    let (m', run, held, kept) =
      link_lem (with_node p x ps m) r p x stored ne (unused_apart m.cells p r free s.linked) new
        once in
    record {
      memory = m';
      run = enqueue_run x (ends_of r) m p ps pool (ne_null p ne) ∙ run;
      stored = held;
      pool = kept;
    }

-- What dequeue comes to.
record Dequeued (m : Memory) (r : Nodes) : Type 0 where
  memory : Memory
  rest : Nodes
  run : dequeue_node (ends_of r) m ≡ some ((dequeue (processes r)).0, ends_of rest, memory)
  stored : Stored memory rest
  processes : processes rest ≡ (dequeue (processes r)).1
  pool : memory.pool ≡ m.pool

dequeue_run :
    (q : Ends) (m : Memory) (temp : Cell)
    → (q.front == null) ≡ false
    → m.cells q.front ≡ some temp
    → dequeue_node q m ≡ some (unlink_node q temp m)
unfolding dequeue_node read_cell
dequeue_run q m temp ne at = rw (dequeue_node, read_cell, ne, at) refl

-- The rear is NULL again exactly when the last node goes.
ends_after :
    (c : ℕ → Option Cell) (a : ℕ) (x : Option ℕ) (r : Nodes)
    → Linked c r
    → (if first r == null then null else last ((a, x) ∷ r)) ≡ last r
ends_after c a x [] h = refl
ends_after c a x ((b, y) ∷ r) (ne, at, once, h) = rw (ne_null b ne) refl

dequeue_lem : (m : Memory) (r : Nodes) → Stored m r → Dequeued m r
unfolding dequeue_node unlink_node write_cell
dequeue_lem m [] s = record {
  memory = m;
  rest = [];
  run = refl;
  stored = s;
  processes = refl;
  pool = refl;
}
dequeue_lem m ((a, x) ∷ r) s =
    let (ne, at, once, linked) = s.linked in
    record {
      memory = write_cell a none m;
      rest = r;
      run =
          dequeue_run (ends_of ((a, x) ∷ r)) m _ (ne_null a ne) at
          ∙ ap (λ k. some (x, record { front = first r; rear = k }, write_cell a none m))
              (ends_after m.cells a x r linked);
      stored = record {
        linked = Linked-frame m.cells a none r linked once;
        unused =
            Unused-frame m.cells a none m.pool s.unused (used_apart m.cells a _ m.pool at s.unused);
      };
      processes = refl;
      pool = refl;
    }

-- The same client over the list of the processes.
unfoldable pub queue_calls : List Call → Queue → List (Option ℕ)
queue_calls [] q = []
queue_calls (put_in x ∷ calls) q = queue_calls calls (enqueue q x)
queue_calls (take_out ∷ calls) q = let (x, q') = dequeue q in x ∷ queue_calls calls q'

unfoldable pub puts : List Call → ℕ
puts [] = 0
puts (put_in x ∷ calls) = puts calls + 1
puts (take_out ∷ calls) = puts calls

some_address :
    (pool : List ℕ) (n : ℕ) → n + 1 ≤ length pool → (p : ℕ) × (ps : List ℕ) × (pool ≡ p ∷ ps)
some_address [] n h = absurd (omega arith)
some_address (p ∷ ps) n h = (p, ps, refl)

fewer_left :
    (pool : List ℕ) (p : ℕ) (ps : List ℕ) (n : ℕ)
    → pool ≡ p ∷ ps
    → n + 1 ≤ length pool
    → n ≤ length ps
fewer_left pool p ps n e h = let longer = subst (λ qs. n + 1 ≤ length qs) e h in omega arith

calls_lem :
    (calls : List Call) (m : Memory) (r : Nodes)
    → Stored m r
    → puts calls ≤ length m.pool
    → node_calls calls (ends_of r) m ≡ some (queue_calls calls (processes r))
unfolding node_calls queue_calls puts
calls_lem [] m r s enough = refl
calls_lem (take_out ∷ calls) m r s enough =
    let d = dequeue_lem m r s in
    let later = calls_lem calls d.memory d.rest d.stored (rw (d.pool) enough) in
    rw (d.run, later, d.processes) refl
calls_lem (put_in x ∷ calls) m r s enough =
    let (p, ps, pool) = some_address m.pool (puts calls) enough in
    let e = enqueue_lem m r x p ps s pool in
    let fewer = fewer_left m.pool p ps (puts calls) pool enough in
    let later = calls_lem calls e.memory _ e.stored (rw (e.pool) fewer) in
    rw (e.run, later, processes-append r ((p, x) ∷ [])) refl

-- A client that starts with the queue of createQueue and calls enqueue and dequeue in any order
-- gets from the linked nodes what the list of the processes gives, each first in, first out and
-- NULL from the empty queue, and no call is undefined behaviour, where `malloc` has addresses for
-- all calls of enqueue, each once, not NULL, and with nothing on them.
pub node_calls-queue_calls :
    (calls : List Call) (m : Memory)
    → Unused m.cells m.pool
    → puts calls ≤ length m.pool
    → node_calls calls create_queue m ≡ some (queue_calls calls [])
node_calls-queue_calls calls m unused enough =
    calls_lem calls m [] (record { linked = tt; unused = unused }) enough
