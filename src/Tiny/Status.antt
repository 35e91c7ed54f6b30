-- ===== src/Tiny/Status.antt =====
-- The responses of doit of tiny.c.
use cs.Base.{
  ◌%◌, ◌^◌, ℕ, ◌+◌, ◌<◌, ◌≡◌, refl, ◌∙◌, Bool, true, false, ◌&&◌, Option, none, some, List, ◌∷◌,
  ◌++◌, Text, codes, length, length-append, arith, if◌then◌else◌, starts_with, starts_with-append,
  starts_with-prepend, scan_words, Bool-cases, inl, inr, Option-cases,
}
use cs.Tiny.{
  maxline, Stat, World, Outcome, reply, stops, waits, fault, parse_uri, Target, clienterror,
  serve_static, serve_dynamic, static_head, answer_static, answer_dynamic, answer_file, answer,
  request, doit, caseeq, ended, read_requesthdrs,
}
use cs.Tiny.Uri.{into-fits}

-- What was sent begins with `p`, and the request is over.
abbrev pub Sent : Text → Outcome → Type 0
Sent p (reply t) = starts_with p t ≡ true
Sent p (stops t) = starts_with p t ≡ true
Sent p waits = ⊥
Sent p fault = ⊥

abbrev pub http_line : Text → Text → Text
http_line errnum shortmsg = codes "HTTP/1.0 " ++ (errnum ++ (codes " " ++ shortmsg))

http_line-starts :
    (errnum shortmsg t : Text)
    → starts_with
        (http_line errnum shortmsg)
        (codes "HTTP/1.0 " ++ (errnum ++ (codes " " ++ (shortmsg ++ t))))
      ≡ true
http_line-starts errnum shortmsg t =
    starts_with-prepend (codes "HTTP/1.0 ") _ _
    ∙ starts_with-prepend errnum _ _
    ∙ starts_with-prepend (codes " ") _ _
    ∙ starts_with-append shortmsg t

cause_line : (cause longmsg : Text) → Text
cause_line cause longmsg = codes "<p>" ++ (longmsg ++ (codes ": " ++ (cause ++ codes "\r\n")))

clienterror-Sent :
    (cause errnum shortmsg longmsg : Text)
    → length cause + length longmsg + 7 < maxline
    → Sent (http_line errnum shortmsg) (clienterror cause errnum shortmsg longmsg)
unfolding clienterror
clienterror-Sent cause errnum shortmsg longmsg h =
    rw
      (
        clienterror,
        into-fits maxline (codes "<p>" ++ (longmsg ++ (codes ": " ++ (cause ++ codes "\r\n")))) (
            omega (
              arith,
              length-append longmsg (codes ": " ++ (cause ++ codes "\r\n")),
              length-append cause (codes "\r\n"),
            )),
      )
      (http_line-starts errnum shortmsg _)

-- The status by what `stat` says of the file: it must be there, be a regular file, and have the
-- permission that its kind of content wants.
abbrev pub permitted : Bool → Stat → Bool
permitted is_static s = s.regular && (if is_static then s.readable else s.executable)

abbrev pub status_of : Bool → Option Stat → Text
status_of is_static none = http_line (codes "404") (codes "Not found")
status_of is_static (some s) =
    if permitted is_static s
    then http_line (codes "200") (codes "OK")
    else http_line (codes "403") (codes "Forbidden")

serve_static-Sent :
    (w : World) (filename : Text) (size : ℕ)
    → Sent (http_line (codes "200") (codes "OK")) (serve_static w filename size)
unfolding serve_static static_head starts_with
serve_static-Sent w filename size = elim (Option-cases (w.mmap filename size)) [
  | inl gone ↦ rw (serve_static, gone) refl
  | inr (body, e) ↦ rw (serve_static, e) refl
]

serve_dynamic-Sent :
    (w : World) (filename cgiargs : Text)
    → Sent (http_line (codes "200") (codes "OK")) (serve_dynamic w filename cgiargs)
unfolding serve_dynamic starts_with
serve_dynamic-Sent w filename cgiargs = refl

-- A file name that leaves room for the rest of an error line.
abbrev pub Short : Text → Type 0
Short filename = length filename < 8100

answer_static-Sent :
    (w : World) (filename : Text) (s : Stat)
    → Short filename
    → Sent (status_of true (some s)) (answer_static w filename s)
unfolding answer_static
answer_static-Sent w filename s h = elim (Bool-cases s.regular) [
  | inl r ↦ elim (Bool-cases s.readable) [
    | inl p ↦ rw (answer_static, r, p) (serve_static-Sent w filename (s.size % 2 ^ 32))
    | inr p ↦
        rw (answer_static, r, p)
          (clienterror-Sent filename (codes "403") (codes "Forbidden")
            (codes "Tiny couldn't read the file") (omega arith))
  ]
  | inr r ↦
      rw (answer_static, r)
        (clienterror-Sent filename (codes "403") (codes "Forbidden")
          (codes "Tiny couldn't read the file") (omega arith))
]

answer_dynamic-Sent :
    (w : World) (filename cgiargs : Text) (s : Stat)
    → Short filename
    → Sent (status_of false (some s)) (answer_dynamic w filename cgiargs s)
unfolding answer_dynamic
answer_dynamic-Sent w filename cgiargs s h = elim (Bool-cases s.regular) [
  | inl r ↦ elim (Bool-cases s.executable) [
    | inl p ↦ rw (answer_dynamic, r, p) (serve_dynamic-Sent w filename cgiargs)
    | inr p ↦
        rw (answer_dynamic, r, p)
          (clienterror-Sent filename (codes "403") (codes "Forbidden")
            (codes "Tiny couldn't run the CGI program") (omega arith))
  ]
  | inr r ↦
      rw (answer_dynamic, r)
        (clienterror-Sent filename (codes "403") (codes "Forbidden")
          (codes "Tiny couldn't run the CGI program") (omega arith))
]

answer_file-Sent :
    (w : World) (t : Target) (found : Option Stat)
    → Short t.filename
    → Sent (status_of t.is_static found) (answer_file w t found)
unfolding answer_file
answer_file-Sent w t none h =
    clienterror-Sent t.filename (codes "404") (codes "Not found")
      (codes "Tiny couldn't find this file") (omega arith)
answer_file-Sent w t (some s) h = elim (Bool-cases t.is_static) [
  | inl e ↦ rw e (answer_static-Sent w t.filename s h)
  | inr e ↦ rw e (answer_dynamic-Sent w t.filename t.cgiargs s h)
]

-- A connection whose first line has a method and a URI, and whose header lines end.
pub record Readable (lines : List Text) (method uri : Text) : Type 0 where
  pub first : Text
  pub behind : List Text
  pub more : List Text
  pub rest : List Text
  pub split : lines ≡ first ∷ behind
  pub words : scan_words 3 first ≡ method ∷ uri ∷ more
  pub headers : read_requesthdrs behind ≡ ended rest

-- Where a connection has a request line with a method and a URI and its header lines end, the
-- method is GET, parse_uri takes the URI, and the file name is shorter than 8100 bytes, doit sends
-- a response that begins with the status line of the file: 404 if it is not there, 403 if it is
-- not a regular file or its owner may not read it (for a CGI program: execute it), and 200
-- otherwise.
pub doit-Sent :
    (w : World) (lines : List Text) (method uri : Text) (t : Target)
    → Readable lines method uri
    → caseeq method (codes "GET") ≡ true
    → parse_uri uri ≡ some t
    → Short t.filename
    → Sent (status_of t.is_static (w.stat t.filename)) (doit w lines)
unfolding doit request answer
doit-Sent w lines method uri t r get e h =
    rw (r.split, doit, request, r.words, get, r.headers, answer, e)
      (answer_file-Sent w t (w.stat t.filename) h)

-- Where the method of the request line is not GET and is shorter than 8100 bytes, doit sends a
-- response that begins with the status line 501.
pub doit-refused :
    (w : World) (first : Text) (behind : List Text) (method : Text) (words : List Text)
    → scan_words 3 first ≡ method ∷ words
    → caseeq method (codes "GET") ≡ false
    → Short method
    → Sent (http_line (codes "501") (codes "Not Implemented")) (doit w (first ∷ behind))
unfolding doit request
doit-refused w first behind method words e other h =
    rw (doit, e, request, other)
      (clienterror-Sent method (codes "501") (codes "Not Implemented")
        (codes "Tiny does not implement this method") (omega arith))
