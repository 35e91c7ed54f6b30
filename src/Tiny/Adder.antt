-- ===== src/Tiny/Adder.antt =====
-- assignment-4-aanthoonyy-main/tiny/cgi-bin/adder.c: the sum of the two numbers of QUERY_STRING.
use cs.Base.{
  ℕ, ◌+◌, ◌%◌, ◌^◌, Bool, true, false, not, ◌&&◌, Option, none, some, ◌++◌, Text, codes, ltb,
  length, if◌then◌else◌, split_at, atoi, signed_decimal, decimal,
}
use cs.Tiny.{maxline, into}

-- What `sprintf(content, "%s…", content)` leaves in `content`, from what stood there and what the
-- format puts behind it. The array is both source and destination, so the call is undefined
-- behaviour: any result, or none, is possible, and a build with _FORTIFY_SOURCE loses what stood
-- there.
pub record Printf : Type 0 where
  pub sprintf_over : Text → Text → Option Text

-- An `int` is its 32 bits.
abbrev nonnegative : ℕ → Bool
nonnegative x = ltb x (2 ^ 31)

abbrev agree : Bool → Bool → Bool
agree a b = if a then b else if b then false else true

-- The sum of two `int`s; an overflow is undefined behaviour.
unfoldable pub add_int : ℕ → ℕ → Option ℕ
add_int x y =
    let sum = (x + y) % 2 ^ 32 in
    if agree (nonnegative x) (nonnegative y) && not (agree (nonnegative sum) (nonnegative x))
    then none
    else some sum

-- The line with the sum.
abbrev pub answer_line : ℕ → ℕ → ℕ → Text
answer_line n1 n2 sum =
    codes "The answer is: "
    ++ (signed_decimal n1
        ++ (codes " + "
            ++ (signed_decimal n2 ++ (codes " = " ++ (signed_decimal sum ++ codes "\r\n<p>")))))

unfoldable pub content : Printf → ℕ → ℕ → ℕ → Option Text
content l n1 n2 sum =
    elim (l.sprintf_over (codes "Welcome to add.com: ")
      (codes "THE Internet addition portal.\r\n<p>")) [
        | none ↦ none
        | some second ↦ elim (l.sprintf_over second (answer_line n1 n2 sum)) [
          | none ↦ none
          | some third ↦ l.sprintf_over third (codes "Thanks for visiting!\r\n")
        ]
      ]

abbrev pub response : Text → Text
response body =
    codes "Connection: close\r\nContent-length: "
    ++ (decimal (length body) ++ (codes "\r\nContent-type: text/html\r\n\r\n" ++ body))

unfoldable pub page : Printf → ℕ → ℕ → Option Text
unfolding content add_int
page l n1 n2 = elim (add_int n1 n2) [
  | none ↦ none
  | some sum ↦ elim (content l n1 n2 sum) [ none ↦ none | some body ↦ some (response body) ]
]

-- `NULL` is a variable that is not set. Without `&` the program writes through NULL.
unfoldable pub adder : Printf → Option Text → Option Text
unfolding page into
adder l none = page l 0 0
adder l (some buf) = elim (split_at b'&' buf) [
  | none ↦ none
  | some (arg1, arg2) ↦ elim (into maxline arg1) [
    | none ↦ none
    | some first ↦ elim (into maxline arg2) [
      | none ↦ none
      | some second ↦ page l (atoi first) (atoi second)
    ]
  ]
]
