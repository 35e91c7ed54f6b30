-- ===== src/Kmlab/Reading.antt =====
-- The proc file handlers of kmlab.c.
use mathlib.Core.List.{append-nil, append_assoc}
use cs.Base.{
  ℕ, ◌+◌, ◌%◌, ◌^◌, ◌<◌, ◌≤◌, ◌≡◌, refl, ◌∙◌, sym, ap, Bool, true, false, ◌&&◌, some, List, [], ◌∷◌,
  ◌++◌, Text, codes, ltb, leb, length, length-append, arith, decimal, is_digit, number, skip_spaces,
  all_digits, all_digits-decimal, number-decimal, is_space, number-append, decimal-pos,
}
use cs.Kmlab.{
  Entry, Kernel, ListLaws, Module, bytes, append_line, read_loop, entry_text, copied, smaller,
  procfs_max_size, procfile_read, procfile_write, scan_unsigned,
}
use cs.Kmlab.Times.{status_text}

not_reached : (a b size n : ℕ) → a + b < size → size ≤ n → leb n a ≡ false
not_reached a b size n h le = ground arith

room : (a b c size : ℕ) → a + (b + c) < size → ltb (a + b) size ≡ true
room a b c size h = ground arith

read_loop-status_text :
    (n size : ℕ) (buf : Text) (es : List Entry)
    → length buf + length (status_text es) < size
    → size ≤ n
    → read_loop n size buf es ≡ some (buf ++ status_text es)
unfolding read_loop append_line
read_loop-status_text n size buf [] h le = ap some (sym (append-nil buf))
read_loop-status_text n size buf (e ∷ es) h le =
    let split : length (status_text (e ∷ es)) ≡ length (entry_text e) + length (status_text es) =
      length-append (entry_text e) (status_text es) in
    let joined : length (buf ++ entry_text e) ≡ length buf + length (entry_text e) =
      length-append buf (entry_text e) in
    rw
      (
        read_loop,
        not_reached (length buf) (length (status_text (e ∷ es))) size n h le,
        append_line,
        room (length buf) (length (entry_text e)) (length (status_text es)) size
            (omega (arith, split, h)),
      )
      (read_loop-status_text n size (buf ++ entry_text e) es (omega (arith, split, joined, h)) le
        ∙ ap some (append_assoc buf (entry_text e) (status_text es)))

smaller_le : (a b : ℕ) → smaller a b ≤ a
smaller_le a b = ground arith

procfile_read-loop :
    (n : ℕ) (s : Module) (buf : Text)
    → read_loop n (smaller n procfs_max_size) [] s.my_list ≡ some buf
    → procfile_read true true n 0 s ≡ some (bytes (length buf), buf)
unfolding procfile_read copied
procfile_read-loop n s buf e = rw (procfile_read, e) refl

-- A read from offset 0 in which no call fails, of a list whose lines together are shorter than
-- both the user's buffer and 1024 bytes, copies the lines of all entries and returns their length.
pub procfile_read-status_text :
    (n : ℕ) (s : Module)
    → length (status_text s.my_list) < smaller n procfs_max_size
    → procfile_read true true n 0 s
      ≡ some (bytes (length (status_text s.my_list)), status_text s.my_list)
procfile_read-status_text n s h = procfile_read-loop n s (status_text s.my_list) (
    read_loop-status_text n (smaller n procfs_max_size) [] s.my_list (omega (arith, h))
      (smaller_le n procfs_max_size))

scan_unsigned-digits :
    (t u : Text) (c : ℕ)
    → 0 < length t
    → all_digits t ≡ true
    → is_digit c ≡ false
    → scan_unsigned (t ++ c ∷ u) ≡ some (number 0 t % 2 ^ 32)
unfolding scan_unsigned skip_spaces
scan_unsigned-digits [] u c some_digit h e = absurd (omega arith)
scan_unsigned-digits (x ∷ t) u c some_digit h e =
    let (d, s) = front x (all_digits t) h in
    rw (scan_unsigned, skip_spaces, s, d)
      (ap (λ m. some (m % 2 ^ 32)) (number-append 0 (x ∷ t) c u h e))
  where
    front :
        (x : ℕ) (b : Bool) → (is_digit x && b) ≡ true → (is_digit x ≡ true) × (is_space x ≡ false)
    front x b h = ground arith

scan_unsigned-decimal : (n : ℕ) → n < 2 ^ 32 → scan_unsigned (decimal n ++ codes "\n") ≡ some n
scan_unsigned-decimal n h =
    scan_unsigned-digits (decimal n) [] 10 (decimal-pos n) (all_digits-decimal n) refl
    ∙ ap (λ m. some (m % 2 ^ 32)) (number-decimal n (omega arith))
    ∙ ap some (omega arith)

-- Where `list_add` inserts at the front and no call fails, writing a process id below 2^32 as
-- userapp's echo does puts an entry of this process with the time 0 in front of the list, and
-- returns the length of the text.
pub procfile_write-decimal :
    (k : Kernel) (n : ℕ) (s : Module)
    → ListLaws k
    → n < 2 ^ 32
    → procfile_write k true true (some (decimal n ++ codes "\n")) s ≡ (
      bytes (length (decimal n ++ codes "\n")),
      record s { my_list = record { cpu_time = 0; pid = n } ∷ s.my_list },
    )
unfolding procfile_write
procfile_write-decimal k n s laws h =
    rw
      (
        procfile_write,
        scan_unsigned-decimal n h,
        laws.list_add_lem (record { cpu_time = 0; pid = n }) s.my_list,
      )
      refl
