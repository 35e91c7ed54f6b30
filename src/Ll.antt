-- ===== src/Ll.antt =====
-- assignment-3-aanthoonyy-main/ll.c: the linked list example module.
-- The list is that of the values of its nodes, first to last; what `printk` logs is a text.
pub mod Nodes
pub mod Tests
use cs.Base.{
  ℕ, zero, suc, ◌+◌, ◌-◌, ◌%◌, ◌^◌, ◌≡◌, Bool, true, false, not, Option, none, some, List, [], ◌∷◌,
  ◌++◌, Text, codes, streq, ◌==◌, ltb, length, if◌then◌else◌, signed_decimal, is_digit, skip_spaces,
  number, to_space, take,
}

-- `list_add_tail` of the kernel.
pub record Kernel : Type 0 where
  pub list_add_tail : ℕ → List ℕ → List ℕ

-- What list.h documents of `list_add_tail`.
pub record ListLaws (k : Kernel) : Type 0 where
  pub list_add_tail_lem : (x : ℕ) (xs : List ℕ) → k.list_add_tail x xs ≡ xs ++ x ∷ []

-- The globals: the list, the proc entry with its message, and the counters of its reader.
pub record Module : Type 0 where
  pub my_list : List ℕ
  pub proc : Option Text
  pub len : ℕ
  pub temp : ℕ
  pub log : Text

unfoldable pub printk : Text → Module → Module
printk t s = record s { log = s.log ++ t }

-- The result is 1 where there is no memory.
unfoldable pub add_node : Kernel → Bool → ℕ → Module → ℕ × Module
unfolding printk
add_node k has_memory number s =
    if has_memory then (0, record s { my_list = k.list_add_tail number s.my_list }) else (
      1,
      printk (codes "Memory allocation failed, this should never fail due to GFP_KERNEL flag\n") s,
    )

unfoldable pub show_nodes : List ℕ → Text
show_nodes [] = []
show_nodes (x ∷ xs) = codes "Node is " ++ (signed_decimal x ++ (codes "\n" ++ show_nodes xs))

unfoldable pub show_list : Module → Module
unfolding show_nodes printk
show_list s = printk (show_nodes s.my_list) s

-- The list without the first node of that value, if there is one.
unfoldable pub delete_first : ℕ → List ℕ → Option (List ℕ)
delete_first x [] = none
delete_first x (y ∷ ys) =
    let rest = delete_first x ys in
    if y == x then some ys else elim rest [ none ↦ none | some zs ↦ some (y ∷ zs) ]

unfoldable pub delete_node : ℕ → Module → ℕ × Module
unfolding delete_first printk
delete_node number s = elim (delete_first number s.my_list) [
  | none ↦
      (1, printk (codes "Could not find the element " ++ (signed_decimal number ++ codes "\n")) s)
  | some rest ↦ (
    0,
    record (printk (codes "Found the element " ++ (signed_decimal number ++ codes "\n")) s) {
      my_list = rest;
    },
  )
]

-- `%d` where the buffer ends in other bytes than digits. `none` reads past the buffer, which has
-- no closing zero byte; without a digit the value stays 0.
unfoldable pub ends_inside : Text → Bool
ends_inside [] = false
ends_inside (c ∷ t) = if is_digit c then ends_inside t else true

unfoldable pub scan_value : Text → Option ℕ
unfolding ends_inside
scan_value [] = none
scan_value (c ∷ t) =
    if c == b'-'
    then (if ends_inside t then some ((2 ^ 32 - number 0 t % 2 ^ 32) % 2 ^ 32) else none)
    else if ends_inside (c ∷ t)
    then some (number 0 (c ∷ t) % 2 ^ 32)
    else none

-- `sscanf(str, "%s %d", command, &val)`, with 20 bytes for the command.
unfoldable pub scan_command : Text → Option (Text × ℕ)
unfolding scan_value
scan_command t =
    let (command, behind) = to_space (skip_spaces t) in
    elim behind [
      | [] ↦ none
      | c ∷ rest ↦
          if ltb (length command) 20
          then (elim (scan_value (skip_spaces (c ∷ rest))) [
            | none ↦ none
            | some val ↦ some (command, val)
          ])
          else none
    ]

unfoldable pub run_add : Kernel → Bool → ℕ → Module → Module
unfolding add_node printk
run_add k has_memory val s =
    (add_node k has_memory val
      (printk (codes "Adding data to linked list " ++ (signed_decimal val ++ codes "\n")) s)).1

unfoldable pub run_delete : ℕ → Module → Module
unfolding delete_node printk
run_delete val s =
    let (failed, s') =
      delete_node val (
        printk (codes "Deleting node from linked list " ++ (signed_decimal val ++ codes "\n")) s) in
    if failed == 0 then s' else printk (codes "Delete failed \n") s'

unfoldable pub run_command : Kernel → Bool → Text → ℕ → Module → Module
unfolding run_add run_delete show_list printk
run_command k has_memory command val s =
    if streq command (codes "add")
    then run_add k has_memory val s
    else if streq command (codes "delete")
    then run_delete val s
    else if streq command (codes "print")
    then show_list (printk (codes "Printing the linked list\n") s)
    else s

-- The text is what `copy_from_user` copied; where that failed the result is -EFAULT, `none`.
-- The whole is `none` where the scan reads past the buffer or overruns the command.
unfoldable pub my_proc_write : Kernel → Bool → Option Text → Module → Option (Option ℕ × Module)
unfolding scan_command run_command
my_proc_write k has_memory none s = some (none, s)
my_proc_write k has_memory (some str) s = elim (scan_command str) [
  | none ↦ none
  | some (command, val) ↦ some (some (length str), run_command k has_memory command val s)
]

-- What a read returns and copies: always the front of the message.
unfoldable pub read_message : Text → ℕ → Module → ℕ × Text × Module
read_message msg count s =
    let n = if ltb s.temp count then s.temp else count in
    let temp = s.temp - n in (n, take n msg, record s { temp = if n == 0 then s.len else temp })

unfoldable pub read_entry : Option Text → ℕ → Module → ℕ × Text × Module
unfolding read_message printk
read_entry none count s = (0, [], printk (codes "Null data") s)
read_entry (some msg) count s = read_message msg count s

unfoldable pub my_proc_read : ℕ → Module → ℕ × Text × Module
unfolding read_entry
my_proc_read count s = read_entry s.proc count s

abbrev pub message : Text
message = codes "Hello LL Module"

-- `proc_create_data` may fail, which ll_proc_init does not look at.
unfoldable pub create_new_proc_entry : Bool → Module → Module
create_new_proc_entry has_proc s = record s {
  proc = if has_proc then some message else none;
  len = length message;
  temp = length message;
}

unfoldable pub my_init : Bool → Module → Module
unfolding create_new_proc_entry printk
my_init has_proc s =
    record (create_new_proc_entry has_proc (printk (codes "Hello from Linked List Module") s)) {
      my_list = [];
    }

-- proc_cleanup removes the entry `hello`, which is not the one that was made: it stays.
unfoldable pub my_exit : Module → Module
unfolding printk
my_exit s =
    let s' : Module = elim s.proc [ none ↦ s | some msg ↦ printk (codes "Removed the entry") s ] in
    printk (codes "Bye from Hello Module") s'
