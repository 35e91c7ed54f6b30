-- ===== src/Tiny/Tests.antt =====
-- The theorems about tiny.c at small requests.
use cs.Base.{
  ◌≢◌, ◌≡◌, refl, true, false, some, List, [], ◌∷◌, Text, codes, streq, arith, scan_words,
  skip_spaces, to_space, strstr, starts_with, ◌↔◌,
}
use cs.Tiny.{
  World, parse_uri, doit, ended, endless, unwritten, headers_loop, read_requesthdrs, caseeq,
  last_byte, static_name, into,
}
use cs.Tiny.Uri.{parse_uri-dynamic}
use cs.Tiny.Headers.{crlf, no_end, Ends, read_requesthdrs_iff}
use cs.Tiny.Status.{Sent, http_line, Readable, doit-Sent, doit-refused}

parse_uri-dynamic_example :
    parse_uri (codes "/cgi-bin/adder?1&2")
    ≡ some (record { is_static = false; filename = codes "./cgi-bin/adder"; cgiargs = codes "1&2" })
parse_uri-dynamic_example =
    parse_uri-dynamic (codes "/") (codes "/adder") (codes "1&2") refl (omega arith)

abbrev headers : List Text
headers = codes "Host: a\r\n" ∷ crlf ∷ []

read_requesthdrs_iff_example :
    ((read_requesthdrs headers ≡ ended []) ↔ Ends headers [])
    × ((read_requesthdrs headers ≡ endless) ↔ ((headers ≢ []) × (no_end headers ≡ true)))
    × ((read_requesthdrs headers ≡ unwritten) ↔ (headers ≡ []))
read_requesthdrs_iff_example = read_requesthdrs_iff headers []

abbrev world : World
world = record {
  stat = λ name. some (record { regular = true; readable = true; executable = false; size = 3 });
  mmap = λ name size. some (codes "abc");
  run_cgi = λ name args. [];
}

abbrev page_lines : List Text
page_lines = codes "GET /a.html HTTP/1.0\r\n" ∷ headers

page_lines-Readable : Readable page_lines (codes "GET") (codes "/a.html")
unfolding scan_words skip_spaces to_space read_requesthdrs headers_loop streq
page_lines-Readable = record {
  first = codes "GET /a.html HTTP/1.0\r\n";
  behind = headers;
  more = codes "HTTP/1.0" ∷ [];
  rest = [];
  split = refl;
  words = refl;
  headers = refl;
}

doit-Sent_example : Sent (http_line (codes "200") (codes "OK")) (doit world page_lines)
unfolding parse_uri static_name last_byte into caseeq streq strstr starts_with
doit-Sent_example =
    doit-Sent world page_lines (codes "GET") (codes "/a.html")
      (record { is_static = true; filename = codes "./a.html"; cgiargs = [] }) page_lines-Readable
      refl refl (omega arith)

doit-refused_example :
    Sent
      (http_line (codes "501") (codes "Not Implemented"))
      (doit world (codes "PUT /a.html HTTP/1.0\r\n" ∷ []))
unfolding scan_words skip_spaces to_space caseeq streq
doit-refused_example =
    doit-refused world (codes "PUT /a.html HTTP/1.0\r\n") [] (codes "PUT")
      (codes "/a.html" ∷ codes "HTTP/1.0" ∷ []) refl refl (omega arith)
