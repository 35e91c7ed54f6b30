-- ===== src/Tiny/Sum.antt =====
-- The answer of adder.c to two numbers.
use cs.Base.{
  ℕ, ◌+◌, ◌^◌, ◌<◌, ◌≡◌, refl, ◌∙◌, true, some, ◌∷◌, ◌++◌, Text, codes, ltb, length, arith,
  split_at, split_at-append, atoi, decimal, atoi-decimal, all_digits-decimal, lacks-all_digits,
  length-decimal, signed_decimal,
}
use cs.Tiny.{maxline}
use cs.Tiny.Uri.{into-fits}
use cs.Tiny.Adder.{Printf, adder, page, content, response, add_int}

add_int-small : (n m : ℕ) → n + m < 2 ^ 31 → add_int n m ≡ some (n + m)
unfolding add_int
add_int-small n m h = ground arith

-- The answer to the numbers `n` and `m`: the headers, with the length of what follows.
abbrev pub sum_page : ℕ → ℕ → Text
sum_page n m = response (
    (codes "Welcome to add.com: THE Internet addition portal.\r\n<p>"
      ++ (codes "The answer is: "
          ++ (decimal n
              ++ (codes " + "
                  ++ (decimal m ++ (codes " = " ++ (decimal (n + m) ++ codes "\r\n<p>")))))))
    ++ codes "Thanks for visiting!\r\n")

-- What the program takes `sprintf` to do, which C does not promise.
pub record Appends (l : Printf) : Type 0 where
  pub sprintf_over_lem : (t u : Text) → l.sprintf_over t u ≡ some (t ++ u)

signed_small : (n : ℕ) → n < 2 ^ 31 → signed_decimal n ≡ decimal n
unfolding signed_decimal
signed_small n h = rw (less n h) refl
  where
    less : (n : ℕ) → n < 2 ^ 31 → ltb n (2 ^ 31) ≡ true
    less n h = ground arith

page-sum_page :
    (l : Printf) (n m : ℕ) → Appends l → n + m < 2 ^ 31 → page l n m ≡ some (sum_page n m)
unfolding page content
page-sum_page l n m a h =
    rw
      (
        page,
        add_int-small n m h,
        content,
        a.sprintf_over_lem _ _,
        a.sprintf_over_lem _ _,
        a.sprintf_over_lem _ _,
        signed_small n (omega arith),
        signed_small m (omega arith),
        signed_small (n + m) h,
      )
      refl

adder-args :
    (l : Printf) (buf a b : Text)
    → split_at b'&' buf ≡ some (a, b)
    → length a < maxline
    → length b < maxline
    → adder l (some buf) ≡ page l (atoi a) (atoi b)
unfolding adder
adder-args l buf a b e la lb = rw (adder, e, into-fits maxline a la, into-fits maxline b lb) refl

-- With a `sprintf` that appends, for two numbers whose sum is below 2^31, joined by an ampersand, the
-- adder answers with the page that has both and their sum, and with its length.
pub adder-sum_page :
    (l : Printf) (n m : ℕ)
    → Appends l
    → n + m < 2 ^ 31
    → adder l (some (decimal n ++ b'&' ∷ decimal m)) ≡ some (sum_page n m)
adder-sum_page l n m a h =
    adder-args l _ (decimal n) (decimal m)
      (split_at-append b'&' (decimal n) (decimal m)
        (lacks-all_digits b'&' (decimal n) refl (all_digits-decimal n)))
      (omega (arith, length-decimal n)) (omega (arith, length-decimal m))
    ∙ (rw (atoi-decimal n (omega arith), atoi-decimal m (omega arith)) (page-sum_page l n m a h))
