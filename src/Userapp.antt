-- ===== src/Userapp.antt =====
-- assignment-3-aanthoonyy-main/userapp.c: a program that registers with kmlab and waits.
use cs.Base.{
  ℕ, ◌+◌, ◌-◌, ◌%◌, ◌^◌, Bool, Option, none, some, List, [], ◌∷◌, ◌++◌, Text, codes, ltb,
  if◌then◌else◌, decimal, atoi,
}

-- The command for the shell.
abbrev pub register_command : ℕ → Text
register_command pid = codes "echo " ++ (decimal pid ++ codes " > /proc/kmlab/status")

-- `a > b` on `int`s, held as their 32 bits.
abbrev pub int_greater : ℕ → ℕ → Bool
int_greater a b = ltb ((b + 2 ^ 31) % 2 ^ 32) ((a + 2 ^ 31) % 2 ^ 32)

-- The loop over what `time` returns: how often it is called, up to the end of the loop. `none`
-- goes on for ever.
unfoldable pub wait_expired : ℕ → ℕ → List ℕ → Option ℕ
wait_expired expire start_time [] = none
wait_expired expire start_time (now ∷ times) =
    let rest = wait_expired expire start_time times in
    if int_greater ((now + 2 ^ 64 - start_time) % 2 ^ 32) expire
    then some 1
    else elim rest [ none ↦ none | some n ↦ some (n + 1) ]

abbrev pub expire_of : List Text → ℕ
expire_of (prog ∷ arg ∷ []) = atoi arg
expire_of argv = 10

-- The command that is run, and the number of calls of `time` in the loop.
unfoldable pub main : List Text → ℕ → ℕ → List ℕ → Text × Option ℕ
unfolding wait_expired
main argv pid start_time times =
    (register_command pid, wait_expired (expire_of argv) start_time times)
