-- ===== src/Ll/Nodes.antt =====
-- add, delete and the reader of ll.c.
use cs.Base.{
  ℕ, ◌-◌, ◌<◌, ◌≤◌, ◌≡◌, refl, ◌∙◌, ap, Bool, true, false, some, List, [], ◌∷◌, ◌++◌, Text, ◌==◌,
  length, if◌then◌else◌, arith, Bool-cases, inl, inr, lacks, take, ltb, not, ◌&&◌,
}
use cs.Ll.{
  Kernel, ListLaws, Module, add_node, delete_first, delete_node, printk, read_message, read_entry,
  my_proc_read,
}

delete_first-last :
    (x : ℕ) (xs : List ℕ) → lacks x xs ≡ true → delete_first x (xs ++ x ∷ []) ≡ some xs
unfolding delete_first
delete_first-last x [] h = rw (self x) refl
  where
    self : (c : ℕ) → (c == c) ≡ true
    self c = ground arith
delete_first-last x (y ∷ ys) h = elim (Bool-cases (y == x)) [
  | inl hit ↦ absurd (contra (y == x) (lacks x ys) hit h)
  | inr miss ↦ rw (miss, delete_first-last x ys (rw miss at h)) refl
]
  where
    contra : (p q : Bool) → p ≡ true → (not p && q) ≡ true → ⊥
    contra p q e f = ground arith

delete_node-found :
    (x : ℕ) (s : Module) (rest : List ℕ)
    → delete_first x s.my_list ≡ some rest
    → ((delete_node x s).0 ≡ 0) × ((delete_node x s).1.my_list ≡ rest)
unfolding delete_node printk
delete_node-found x s rest e = (rw (delete_node, e) refl, rw (delete_node, e) refl)

-- Where `list_add_tail` appends and there is memory, deleting a number that was added to a list
-- without it succeeds and gives the former list.
pub delete_node-add_node :
    (k : Kernel) (laws : ListLaws k) (x : ℕ) (s : Module)
    → lacks x s.my_list ≡ true
    → ((delete_node x (add_node k true x s).1).0 ≡ 0)
      × ((delete_node x (add_node k true x s).1).1.my_list ≡ s.my_list)
unfolding add_node
delete_node-add_node k laws x s h =
    delete_node-found x (add_node k true x s).1 s.my_list
      (rw (laws.list_add_tail_lem x s.my_list) (delete_first-last x s.my_list h))

take-all : (t : Text) → take (length t) t ≡ t
take-all [] = refl
take-all (c ∷ t) = ap (λ u. c ∷ u) (take-all t)

least : (a b : ℕ) → a ≤ b → (if ltb a b then a else b) ≡ a
least a b h = ground arith

pos-ne : (a : ℕ) → 0 < a → (a == 0) ≡ false
pos-ne a h = ground arith

-- The reader is at the front of the message.
pub record Rewound (msg : Text) (s : Module) : Type 0 where
  pub proc : s.proc ≡ some msg
  pub len : s.len ≡ length msg
  pub temp : s.temp ≡ length msg

my_proc_read-read_message :
    (msg : Text) (count : ℕ) (s : Module)
    → s.proc ≡ some msg
    → my_proc_read count s ≡ read_message msg count s
unfolding my_proc_read read_entry
my_proc_read-read_message msg count s proc = ap (λ e. read_entry e count s) proc

read_front :
    (msg : Text) (count : ℕ) (s : Module)
    → Rewound msg s
    → 0 < length msg
    → length msg ≤ count
    → my_proc_read count s ≡ (length msg, msg, record s { temp = 0 })
unfolding read_message
read_front msg count s r some_text h =
    my_proc_read-read_message msg count s r.proc
    ∙ rw
        (
          read_message,
          r.temp,
          least (length msg) count h,
          pos-ne (length msg) some_text,
          take-all msg,
          minus_self (length msg),
        )
        refl
  where
    minus_self : (a : ℕ) → a - a ≡ 0
    minus_self a = omega arith

read_end :
    (msg : Text) (count : ℕ) (s : Module)
    → s.proc ≡ some msg
    → s.temp ≡ 0
    → my_proc_read count s ≡ (0, [], record s { temp = s.len })
unfolding read_message
read_end msg count s proc temp =
    my_proc_read-read_message msg count s proc
    ∙ rw (read_message, temp, least 0 count (omega arith)) refl

-- With the reader at the front of a message that is not empty, a read of at least its length
-- returns the whole message, and the next one returns 0 and leaves the reader at the front again.
pub my_proc_read-message :
    (msg : Text) (count : ℕ) (s : Module)
    → Rewound msg s
    → 0 < length msg
    → length msg ≤ count
    → (s1 s2 : Module) × (my_proc_read count s ≡ (length msg, msg, s1))
      × (my_proc_read count s1 ≡ (0, [], s2))
      × Rewound msg s2
my_proc_read-message msg count s r some_text h = (
  record s { temp = 0 },
  record s { temp = s.len },
  read_front msg count s r some_text h,
  read_end msg count (record s { temp = 0 }) r.proc refl,
  record { proc = r.proc; len = r.len; temp = r.len },
)
