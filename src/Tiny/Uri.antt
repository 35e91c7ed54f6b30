-- ===== src/Tiny/Uri.antt =====
-- parse_uri of tiny.c on the URI of a CGI program.
use mathlib.Core.List.{append_assoc}
use cs.Base.{
  ℕ, ◌+◌, ◌<◌, ◌≡◌, refl, true, false, some, ◌∷◌, ◌++◌, Text, codes, ltb, length, arith, lacks,
  split_at-append, strstr, strstr-append, strstr, split_at,
}
use cs.Tiny.{maxline, into, parse_uri}

pub into-fits : (n : ℕ) (t : Text) → length t < n → into n t ≡ some t
unfolding into
into-fits n t h = rw (less (length t) n h)
  where
    less : (a b : ℕ) → a < b → ltb a b ≡ true
    less a b h = ground arith

abbrev pub cgi_bin : Text
cgi_bin = codes "cgi-bin"

parse_uri-question :
    (uri path args found : Text)
    → strstr cgi_bin uri ≡ some found
    → split_at b'?' uri ≡ some (path, args)
    → length path + 1 < maxline
    → parse_uri uri ≡ some (record { is_static = false; filename = b'.' ∷ path; cgiargs = args })
unfolding parse_uri
parse_uri-question uri path args found e f h =
    rw (parse_uri, e, f, into-fits maxline (b'.' ∷ path) (omega arith)) refl

-- On a URI that has `cgi-bin` in its path, no question mark in the path, and arguments behind a
-- question mark, parse_uri gives dynamic content with the path behind a dot as the file name, and
-- the arguments, where the file name fits into MAXLINE.
pub parse_uri-dynamic :
    (before behind args : Text)
    → lacks b'?' (before ++ (cgi_bin ++ behind)) ≡ true
    → length (before ++ (cgi_bin ++ behind)) + 1 < maxline
    → parse_uri ((before ++ (cgi_bin ++ behind)) ++ b'?' ∷ args)
      ≡ some (record {
        is_static = false;
        filename = b'.' ∷ (before ++ (cgi_bin ++ behind));
        cgiargs = args;
      })
parse_uri-dynamic before behind args h short =
    let (r, e) = strstr-append cgi_bin before (behind ++ b'?' ∷ args) in
    parse_uri-question _ (before ++ (cgi_bin ++ behind)) args r
      (rw
        (
          append_assoc before (cgi_bin ++ behind) (b'?' ∷ args),
          append_assoc cgi_bin behind (b'?' ∷ args),
        )
        e)
      (split_at-append b'?' (before ++ (cgi_bin ++ behind)) args h) short
