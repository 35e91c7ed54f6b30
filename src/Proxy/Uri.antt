-- ===== src/Proxy/Uri.antt =====
-- parse_uri of proxy.c.
use cs.Base.{
  ◌<◌, ◌≡◌, refl, ◌∙◌, true, some, ◌∷◌, ◌++◌, Text, codes, length, strstr, lacks, lacks-append,
  split_at-append, split_at-lacks, arith, starts_with,
}
use cs.Proxy.{Parts, parts, parse_authority, behind_slashes, parse_uri}
use cs.Tiny.Uri.{into-fits}

parts-fit :
    (host port path : Text)
    → length host < 100
    → length port < 100
    → length path < 100
    → parts host port path ≡ some (record { host = host; port = port; path = path })
unfolding parts
parts-fit host port path h o a =
    rw (parts, into-fits 100 host h, into-fits 100 port o, into-fits 100 path a)

-- Behind `//`, up to the slash.
parse_authority-port :
    (host port path : Text)
    → lacks b'/' host ≡ true
    → lacks b':' host ≡ true
    → lacks b'/' port ≡ true
    → length host < 100
    → length port < 100
    → length path < 99
    → parse_authority ((host ++ b':' ∷ port) ++ b'/' ∷ path)
      ≡ some (record { host = host; port = port; path = b'/' ∷ path })
unfolding parse_authority
parse_authority-port host port path hs hc ps h o a =
    rw
      (
        parse_authority,
        split_at-append b'/' (host ++ b':' ∷ port) path
            (lacks-append b'/' host (b':' ∷ port) hs ps),
        split_at-append b':' host port hc,
      )
      (parts-fit host port (b'/' ∷ path) h o (omega arith))

parse_authority-plain :
    (host path : Text)
    → lacks b'/' host ≡ true
    → lacks b':' host ≡ true
    → length host < 100
    → length path < 99
    → parse_authority (host ++ b'/' ∷ path)
      ≡ some (record { host = host; port = codes "80"; path = b'/' ∷ path })
unfolding parse_authority
parse_authority-plain host path hs hc h a =
    rw (parse_authority, split_at-append b'/' host path hs, split_at-lacks b':' host hc)
      (parts-fit host (codes "80") (b'/' ∷ path) h (omega arith) (omega arith))

parse_authority-host :
    (host : Text)
    → lacks b'/' host ≡ true
    → length host < 100
    → parse_authority host ≡ some (record { host = host; port = codes "80"; path = codes "/" })
unfolding parse_authority
parse_authority-host host hs h =
    rw (parse_authority, split_at-lacks b'/' host hs)
      (parts-fit host (codes "80") (codes "/") h (omega arith) (omega arith))

abbrev pub http : Text → Text
http t = codes "http://" ++ t

parse_uri-http : (t : Text) (before : Parts) → parse_uri (http t) before ≡ parse_authority t
unfolding parse_uri strstr starts_with behind_slashes
parse_uri-http t before = refl

-- parse_uri takes `http://host:port/path` apart into host, port and path, where host has neither
-- slash nor colon, port has no slash, and each fits into its 100 bytes, whatever the arrays held
-- before.
pub parse_uri-port :
    (host port path : Text) (before : Parts)
    → lacks b'/' host ≡ true
    → lacks b':' host ≡ true
    → lacks b'/' port ≡ true
    → length host < 100
    → length port < 100
    → length path < 99
    → parse_uri (http ((host ++ b':' ∷ port) ++ b'/' ∷ path)) before
      ≡ some (record { host = host; port = port; path = b'/' ∷ path })
parse_uri-port host port path before hs hc ps h o a =
    parse_uri-http _ before ∙ parse_authority-port host port path hs hc ps h o a

-- parse_uri takes `http://host/path` apart into host, the port 80 and path, where host has neither
-- slash nor colon, and both fit into their 100 bytes.
pub parse_uri-plain :
    (host path : Text) (before : Parts)
    → lacks b'/' host ≡ true
    → lacks b':' host ≡ true
    → length host < 100
    → length path < 99
    → parse_uri (http (host ++ b'/' ∷ path)) before
      ≡ some (record { host = host; port = codes "80"; path = b'/' ∷ path })
parse_uri-plain host path before hs hc h a =
    parse_uri-http _ before ∙ parse_authority-plain host path hs hc h a

-- On `http://host`, where host has no slash and fits into 100 bytes, parse_uri gives the host, the
-- port 80 and the path of a single slash.
pub parse_uri-host :
    (host : Text) (before : Parts)
    → lacks b'/' host ≡ true
    → length host < 100
    → parse_uri (http host) before
      ≡ some (record { host = host; port = codes "80"; path = codes "/" })
parse_uri-host host before hs h = parse_uri-http _ before ∙ parse_authority-host host hs h
