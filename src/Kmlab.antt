-- ===== src/Kmlab.antt =====
-- assignment-3-aanthoonyy-main/kmlab.c and kmlab_given.h: the kernel module that keeps the CPU
-- times of the processes that register with it.
-- A list head is the list of the entries that it links, first to last. The kernel's log is left
-- out.
pub mod Times
pub mod Reading
pub mod Steps
pub mod Tests
use cs.Base.{
  ℕ, zero, suc, ◌+◌, ◌-◌, ◌%◌, ◌^◌, ◌≡◌, Bool, true, false, not, ◌||◌, ◌&&◌, Option, none, some,
  List, [], ◌∷◌, ◌++◌, Text, codes, ◌==◌, ltb, leb, length, if◌then◌else◌, decimal, is_digit,
  skip_spaces, number,
}

-- `struct ll_struct`
pub record Entry : Type 0 where
  pub cpu_time : ℕ
  pub pid : ℕ

-- The calls into the kernel: the user time of the task with a process id, the insertion at the
-- front of a list, the clock, and the length of the timer's period in its ticks.
pub record Kernel : Type 0 where
  pub find_task : ℕ → Option ℕ
  pub list_add : Entry → List Entry → List Entry
  pub jiffies : ℕ
  pub msecs_to_jiffies : ℕ → ℕ

-- What list.h documents of `list_add`.
pub record ListLaws (k : Kernel) : Type 0 where
  pub list_add_lem : (e : Entry) (es : List Entry) → k.list_add e es ≡ e ∷ es

-- The globals: the list, when the timer is due, and whether the work queue exists; and of the proc
-- files, whether the directory kmlab exists, as it does while the module is loaded, whether there
-- is a file status in it, and whether there is a file status beside it, at the top.
pub record Module : Type 0 where
  pub my_list : List Entry
  pub timer : Option ℕ
  pub directory : Bool
  pub proc : Bool
  pub stray : Bool
  pub work_queue : Bool

-- The results of the handlers: a number of bytes, or an error.
pub data Result : Type 0 where
  bytes : ℕ → Result
  efault : Result
  enomem : Result

-- `get_cpu_use`: 0 with the time, or -1.
abbrev pub get_cpu_use : Kernel → ℕ → Option ℕ
get_cpu_use k pid = k.find_task pid

-- The loop of work_function: an entry gets the time of its process, or is taken out.
unfoldable pub work_loop : Kernel → List Entry → List Entry
work_loop k [] = []
work_loop k (e ∷ es) =
    let rest = work_loop k es in
    elim (get_cpu_use k e.pid) [
      | none ↦ rest
      | some cpu_use ↦ record e { cpu_time = cpu_use } ∷ rest
    ]

unfoldable pub work_function : Kernel → Module → Module
unfolding work_loop
work_function k s = record s { my_list = work_loop k s.my_list }

unfoldable pub mod_timer : Kernel → Module → Module
mod_timer k s = record s { timer = some (k.jiffies + k.msecs_to_jiffies 5000) }

unfoldable pub my_timer_callback : Kernel → Module → Module
unfolding work_function mod_timer
my_timer_callback k s = mod_timer k (work_function k s)

unfoldable pub cleanup_list : Module → Module
cleanup_list s = record s { my_list = [] }

-- `"%u: CPU time: %lu\n"`
abbrev pub entry_text : Entry → Text
entry_text e = decimal e.pid ++ (codes ": CPU time: " ++ (decimal e.cpu_time ++ codes "\n"))

abbrev pub procfs_max_size : ℕ
procfs_max_size = 1024

abbrev pub smaller : ℕ → ℕ → ℕ
smaller a b = if ltb a b then a else b

-- The text with the closing zero byte in place of its last byte: what `snprintf` leaves where the
-- text is as long as the room.
unfoldable pub cut_last : Text → Text
cut_last [] = []
cut_last (c ∷ []) = 0 ∷ []
cut_last (c ∷ d ∷ t) = c ∷ cut_last (d ∷ t)

-- `snprintf` behind `buf`, in a buffer of `size` bytes of which the code takes 1024 for granted.
-- `none` is an overrun: at once, or when as many bytes as were counted are copied.
unfoldable pub append_line : ℕ → Text → Text → Option Text
unfolding cut_last
append_line size buf t =
    if ltb (length buf + length t) size
    then some (buf ++ t)
    else if (size == procfs_max_size) && (length buf + length t == size)
    then some (buf ++ cut_last t)
    else none

-- The loop of procfile_read.
unfoldable pub read_loop : ℕ → ℕ → Text → List Entry → Option Text
unfolding append_line
read_loop buffer_length size buf [] = some buf
read_loop buffer_length size buf (e ∷ es) =
    if leb buffer_length (length buf)
    then some buf
    else elim (append_line size buf (entry_text e)) [
      | none ↦ none
      | some buf' ↦ read_loop buffer_length size buf' es
    ]

-- What a read comes to: the result and what was copied to the user.
unfoldable pub copied : Bool → Text → Result × Text
copied true buf = (bytes (length buf), buf)
copied false buf = (efault, [])

-- `kmalloc` and `copy_to_user` may fail. The offset is read, and never moved.
unfoldable pub procfile_read : Bool → Bool → ℕ → ℕ → Module → Option (Result × Text)
unfolding read_loop copied
procfile_read has_memory copies buffer_length offset s =
    if ltb 0 offset
    then some (bytes 0, [])
    else if not has_memory
    then some (enomem, [])
    else elim (read_loop buffer_length (smaller buffer_length procfs_max_size) [] s.my_list) [
      | none ↦ none
      | some buf ↦ some (copied copies buf)
    ]

-- `sscanf(str, "%u", …)`
unfoldable pub scan_unsigned : Text → Option ℕ
scan_unsigned t = elim (skip_spaces t) [
  | [] ↦ none
  | c ∷ r ↦ if is_digit c then some (number 0 (c ∷ r) % 2 ^ 32) else none
]

-- Both calls of `kmalloc` must succeed; `none` as the text is a `copy_from_user` that fails.
unfoldable pub procfile_write : Kernel → Bool → Bool → Option Text → Module → Result × Module
unfolding scan_unsigned
procfile_write k has_new has_str text s =
    if not has_new || not has_str then (enomem, s) else elim text [
      | none ↦ (efault, s)
      | some str ↦ elim (scan_unsigned str) [
        | none ↦ (efault, s)
        | some pid ↦ (
          bytes (length str),
          record s { my_list = k.list_add (record { cpu_time = 0; pid = pid }) s.my_list },
        )
      ]
    ]

-- `proc_mkdir`, `proc_create`, create_workqueue and `kmalloc` may fail. The status file is created
-- before the directory is tested, so without the directory it is made at the top, where it stays.
-- `none` is INIT_WORK on NULL.
unfoldable pub kmlab_init : Kernel → Bool → Bool → Bool → Bool → Module → Option (Result × Module)
unfolding mod_timer
kmlab_init k has_dir has_status has_queue has_struct s =
    if not has_dir
    then some (enomem, record s { stray = s.stray || has_status })
    else if not has_struct
    then none
    else some (
      bytes 0,
      mod_timer k
          (record s { my_list = []; directory = true; proc = has_status; work_queue = has_queue }),
    )

-- proc_remove takes the directory with what is in it. `none` is flush_workqueue on NULL, where
-- create_workqueue failed.
unfoldable pub kmlab_exit : Module → Option Module
unfolding cleanup_list
kmlab_exit s =
    let removed : Module = record (cleanup_list s) {
      directory = false;
      proc = false;
      timer = none;
    } in
    if removed.work_queue then some (record removed { work_queue = false }) else none
