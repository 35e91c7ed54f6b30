-- ===== src/Sched/Random.antt =====
-- randomOS and getRandNumFromFile of scheduler.c.
use native.Mathlib.Nat.{mod-lt}
use cs.Base.{ℕ, zero, suc, ◌+◌, ◌%◌, ◌<◌, ◌≤◌, ◌≡◌, refl, false, some, List, [], ◌∷◌, ◌==◌, arith}
use cs.Sched.{u32, rand_loop, get_rand_num_from_file, random_os, seed_value}

rand_loop-some : (n : ℕ) (file : List ℕ) (x : ℕ) → (y : ℕ) × (rand_loop n file (some x) ≡ some y)
unfolding rand_loop
rand_loop-some zero file x = (x, refl)
rand_loop-some (suc n) [] x = (1804289383, refl)
rand_loop-some (suc n) (y ∷ file) x = rand_loop-some n file y

get_rand-some : (n : ℕ) (file : List ℕ) → 0 < n → (y : ℕ) × (get_rand_num_from_file n file ≡ some y)
unfolding get_rand_num_from_file
get_rand-some zero file h = absurd (omega arith)
get_rand-some (suc n) [] h = (1804289383, refl)
get_rand-some (suc n) (y ∷ file) h = rand_loop-some n file y

is_pos : (b : ℕ) → 0 < b → (b == 0) ≡ false
is_pos b h = ground arith

in_range :
    (x bound : ℕ)
    → 0 < bound
    → bound < u32
    → (0 < (1 + x % bound) % u32) × ((1 + x % bound) % u32 ≤ bound)
in_range x bound pos small = (omega (arith, mod-lt x pos), omega (arith, mod-lt x pos))

-- For a positive bound below 2^32 and a line number below 2^32, randomOS has a result, between 1
-- and the bound, whatever the file of random numbers holds.
pub random_os-bounds :
    (bound i : ℕ) (file : List ℕ)
    → 0 < bound
    → bound < u32
    → seed_value + i < u32
    → (burst : ℕ) × (random_os bound i file ≡ some burst) × (0 < burst) × (burst ≤ bound)
unfolding random_os
random_os-bounds bound i file pos small fits =
    let (x, e) = get_rand-some ((seed_value + i) % u32) file (omega arith) in
    (
      (1 + x % bound) % u32,
      rw (e, is_pos bound pos),
      (in_range x bound pos small).0,
      (in_range x bound pos small).1,
    )

pub random_os-some :
    (bound i : ℕ) (file : List ℕ)
    → 0 < bound
    → seed_value + i < u32
    → (burst : ℕ) × (random_os bound i file ≡ some burst)
unfolding random_os
random_os-some bound i file pos fits =
    let (x, e) = get_rand-some ((seed_value + i) % u32) file (omega arith) in
    ((1 + x % bound) % u32, rw (e, is_pos bound pos))
