-- ===== src/Tiny.antt =====
-- assignment-4-aanthoonyy-main/tiny/tiny.c: the web server, one request for each connection.
-- A connection is the list of the lines that Rio_readlineb will read from it. The log that the
-- server prints for itself is left out.
pub mod Adder
pub mod Uri
pub mod Headers
pub mod Status
pub mod Sum
pub mod Tests
use cs.Base.{
  ℕ, zero, suc, Bool, true, false, not, ◌&&◌, Option, none, some, List, [], ◌∷◌, ◌++◌, Text, codes,
  streq, ◌==◌, ltb, leb, length, if◌then◌else◌, split_at, strstr, signed_decimal, ◌%◌, ◌^◌,
  scan_words, ◌+◌, ◌-◌, map, ◌||◌,
}

abbrev pub maxline : ℕ
maxline = 8192

-- What doit reads of `struct stat`: S_ISREG, S_IRUSR, S_IXUSR and st_size.
pub record Stat : Type 0 where
  pub regular : Bool
  pub readable : Bool
  pub executable : Bool
  pub size : ℕ

-- The calls into the system and the library: `stat`, Open and Mmap together, and what a CGI
-- program writes to the client for a QUERY_STRING. Mmap ends the process where the call fails.
pub record World : Type 0 where
  pub stat : Text → Option Stat
  pub mmap : Text → ℕ → Option Text
  pub run_cgi : Text → Text → Text

-- What a request comes to. `reply` is all that is sent to the client; `stops` ends the process
-- behind what was sent; `waits` never returns; `fault` is undefined behaviour: a buffer overrun or
-- a read of a buffer that was never written.
pub data Outcome : Type 0 where
  reply : Text → Outcome
  stops : Text → Outcome
  waits : Outcome
  fault : Outcome

-- A text in a buffer of `n` bytes.
unfoldable pub into : ℕ → Text → Option Text
into n t = if ltb (length t) n then some t else none

abbrev pub or_fault : {A : Type 0} → Option A → (A → Outcome) → Outcome
or_fault none f = fault
or_fault (some a) f = f a

-- `strcasecmp(a, b) == 0`
abbrev pub lower : ℕ → ℕ
lower c = if leb 65 c && leb c 90 then c + 32 else c

unfoldable pub caseeq : Text → Text → Bool
caseeq a b = streq (map lower a) (map lower b)

-- What reading the headers comes to: the lines behind the empty one; a loop that never ends; or a
-- read of the buffer before anything was written to it.
pub data HeadersRead : Type 0 where
  ended : List Text → HeadersRead
  endless : HeadersRead
  unwritten : HeadersRead

-- The loop with a line in the buffer. At the end of the input Rio_readlineb leaves the buffer, and
-- the loop goes on for ever.
unfoldable pub headers_loop : Text → List Text → HeadersRead
headers_loop line [] = if streq line (codes "\r\n") then ended [] else endless
headers_loop line (next ∷ lines) =
    let rest = headers_loop next lines in
    if streq line (codes "\r\n") then ended (next ∷ lines) else rest

-- Where the input ends at once, strcmp reads the buffer as it is.
unfoldable pub read_requesthdrs : List Text → HeadersRead
unfolding headers_loop
read_requesthdrs [] = unwritten
read_requesthdrs (line ∷ lines) = headers_loop line lines

pub record Target : Type 0 where
  pub is_static : Bool
  pub filename : Text
  pub cgiargs : Text

-- `uri[strlen(uri)-1]`
unfoldable pub last_byte : Text → Option ℕ
last_byte [] = none
last_byte (c ∷ []) = some c
last_byte (c ∷ d ∷ t) = last_byte (d ∷ t)

unfoldable pub static_name : Text → ℕ → Text
static_name uri end =
    if end == b'/' then codes "." ++ (uri ++ codes "home.html") else codes "." ++ uri

-- The arguments go into MAXLINE bytes, which they cannot overrun: doit's `uri` has as many.
unfoldable pub parse_uri : Text → Option Target
unfolding static_name last_byte into
parse_uri uri = elim (strstr (codes "cgi-bin") uri) [
  | none ↦ elim (last_byte uri) [
    | none ↦ none
    | some end ↦ elim (into maxline (static_name uri end)) [
      | none ↦ none
      | some filename ↦ some (record { is_static = true; filename = filename; cgiargs = [] })
    ]
  ]
  | some found ↦ elim (split_at b'?' uri) [
    | none ↦ elim (into maxline (codes "." ++ uri)) [
      | none ↦ none
      | some filename ↦ some (record { is_static = false; filename = filename; cgiargs = [] })
    ]
    | some (path, args) ↦ elim (into maxline (codes "." ++ path)) [
      | none ↦ none
      | some filename ↦ some (record { is_static = false; filename = filename; cgiargs = args })
    ]
  ]
]

-- `sprintf` puts the line with the cause into a buffer of MAXLINE bytes.
unfoldable pub clienterror : Text → Text → Text → Text → Outcome
unfolding into
clienterror cause errnum shortmsg longmsg =
    or_fault (into maxline (codes "<p>" ++ (longmsg ++ (codes ": " ++ (cause ++ codes "\r\n")))))
      λ line. reply (
        codes "HTTP/1.0 "
        ++ (errnum
            ++ (codes " "
                ++ (shortmsg
                    ++ (codes "\r\n"
                        ++ (codes "Content-type: text/html\r\n\r\n"
                            ++ (codes "<html><title>Tiny Error</title>"
                                ++ (codes "<body bgcolor=ffffff>\r\n"
                                    ++ (errnum
                                        ++ (codes ": "
                                            ++ (shortmsg
                                                ++ (codes "\r\n"
                                                    ++ (line
                                                        ++ codes
                                                            "<hr><em>The Tiny Web server</em>\r\n")))))))))))))

unfoldable pub get_filetype : Text → Text
get_filetype filename =
    let has : Text → Bool =
      λ ending. elim (strstr ending filename) [ none ↦ false | some r ↦ true ] in
    if has (codes ".html")
    then codes "text/html"
    else if has (codes ".gif")
    then codes "image/gif"
    else if has (codes ".png")
    then codes "image/png"
    else if has (codes ".jpg")
    then codes "image/jpeg"
    else codes "text/plain"

abbrev pub ok_line : Text
ok_line = codes "HTTP/1.0 200 OK\r\nServer: Tiny Web Server\r\n"

unfoldable pub static_head : Text → ℕ → Text
unfolding get_filetype
static_head filename filesize =
    ok_line
    ++ (codes "Content-length: "
        ++ (signed_decimal filesize
            ++ (codes "\r\nContent-type: " ++ (get_filetype filename ++ codes "\r\n\r\n"))))

-- `filesize` is an `int`, given by its 32 bits, and Mmap maps as many bytes.
unfoldable pub serve_static : World → Text → ℕ → Outcome
unfolding static_head
serve_static w filename filesize = elim (w.mmap filename filesize) [
  | none ↦ stops (static_head filename filesize)
  | some body ↦ reply (static_head filename filesize ++ body)
]

unfoldable pub serve_dynamic : World → Text → Text → Outcome
serve_dynamic w filename cgiargs = reply (ok_line ++ w.run_cgi filename cgiargs)

-- doit behind the headers: the two kinds of content, and what `stat` says of the file.
unfoldable pub answer_static : World → Text → Stat → Outcome
unfolding clienterror serve_static
answer_static w filename sbuf =
    if not sbuf.regular || not sbuf.readable
    then clienterror filename (codes "403") (codes "Forbidden")
        (codes "Tiny couldn't read the file")
    else serve_static w filename (sbuf.size % 2 ^ 32)

unfoldable pub answer_dynamic : World → Text → Text → Stat → Outcome
unfolding clienterror serve_dynamic
answer_dynamic w filename cgiargs sbuf =
    if not sbuf.regular || not sbuf.executable
    then clienterror filename (codes "403") (codes "Forbidden")
        (codes "Tiny couldn't run the CGI program")
    else serve_dynamic w filename cgiargs

unfoldable pub answer_file : World → Target → Option Stat → Outcome
unfolding clienterror answer_static answer_dynamic
answer_file w t none =
    clienterror t.filename (codes "404") (codes "Not found") (codes "Tiny couldn't find this file")
answer_file w t (some sbuf) =
    if t.is_static
    then answer_static w t.filename sbuf
    else answer_dynamic w t.filename t.cgiargs sbuf

unfoldable pub answer : World → Text → Outcome
unfolding parse_uri answer_file
answer w uri = or_fault (parse_uri uri) λ t. answer_file w t (w.stat t.filename)

-- doit with the words of the request line; the third one is not used. A word that is missing
-- leaves its buffer unwritten.
unfoldable pub request : World → List Text → List Text → Outcome
unfolding answer read_requesthdrs caseeq clienterror
request w [] lines = fault
request w (method ∷ words) lines =
    if caseeq method (codes "GET")
    then elim (read_requesthdrs lines) [
      | unwritten ↦ fault
      | endless ↦ waits
      | ended rest ↦ elim words [ [] ↦ fault | uri ∷ more ↦ answer w uri ]
    ]
    else clienterror method (codes "501") (codes "Not Implemented")
        (codes "Tiny does not implement this method")

unfoldable pub doit : World → List Text → Outcome
unfolding request
doit w [] = reply []
doit w (line ∷ lines) = request w (scan_words 3 line) lines

-- The loop of main over the connections, up to one that does not come back to it.
unfoldable pub serve : World → List (List Text) → List Outcome
unfolding doit
serve w [] = []
serve w (connection ∷ more) =
    let rest = serve w more in
    let here = doit w connection in
    elim here [
      | reply t ↦ reply t ∷ rest
      | stops t ↦ stops t ∷ []
      | waits ↦ waits ∷ []
      | fault ↦ fault ∷ []
    ]

-- `none` is the message on the usage.
unfoldable pub main : World → List Text → List (List Text) → Option (List Outcome)
unfolding serve
main w argv connections = if length argv == 2 then some (serve w connections) else none
