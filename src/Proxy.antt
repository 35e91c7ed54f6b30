-- ===== src/Proxy.antt =====
-- assignment-4-aanthoonyy-main/proxy.c: the proxy, one request for each connection.
pub mod Uri
pub mod Forwarding
pub mod Tests
use cs.Base.{
  ℕ, zero, suc, Bool, true, false, not, ◌&&◌, Option, none, some, List, [], ◌∷◌, ◌++◌, Text, codes,
  ◌==◌, ltb, length, if◌then◌else◌, split_at, strstr, scan_words,
}
use cs.Tiny.{into, caseeq}

-- The arrays host, port and path of parse_uri.
pub record Parts : Type 0 where
  pub host : Text
  pub port : Text
  pub path : Text

-- Each of the arrays has 100 bytes; more is an overrun.
unfoldable pub parts : Text → Text → Text → Option Parts
unfolding into
parts host port path = elim (into 100 host) [
  | none ↦ none
  | some h ↦ elim (into 100 port) [
    | none ↦ none
    | some o ↦ elim (into 100 path) [
      | none ↦ none
      | some a ↦ some (record { host = h; port = o; path = a })
    ]
  ]
]

-- What parse_uri finds behind `//`: `rest` is what stands behind the first slash, so the path is
-- `rest` with the slash in front.
unfoldable pub parse_authority : Text → Option Parts
unfolding parts
parse_authority begin = elim (split_at b'/' begin) [
  | none ↦ parts begin (codes "80") (codes "/")
  | some (authority, rest) ↦ elim (split_at b':' authority) [
    | some (host, port) ↦ parts host port (b'/' ∷ rest)
    | none ↦ parts authority (codes "80") (b'/' ∷ rest)
  ]
]

-- `begin += 2`
unfoldable pub behind_slashes : Text → Text
behind_slashes (a ∷ b ∷ t) = t
behind_slashes t = []

-- A URI without `//` leaves the arrays.
unfoldable pub parse_uri : Text → Parts → Option Parts
unfolding parse_authority behind_slashes
parse_uri uri before = elim (strstr (codes "//") uri) [
  | none ↦ some before
  | some found ↦ parse_authority (behind_slashes found)
]

-- The variables of main that outlive a connection. `none` is a buffer that was never written.
pub record Vars : Type 0 where
  pub buffer : Option Text
  pub method : Text
  pub uri : Text
  pub version : Text

-- `sscanf(buffer, "%s %s %s", method, uri, version)` writes the words that are there.
unfoldable pub scan_version : List Text → Vars → Option Vars
unfolding into
scan_version [] v = some v
scan_version (version ∷ words) v = elim (into 100 version) [
  | none ↦ none
  | some o ↦ some (record v { version = o })
]

unfoldable pub scan_uri : List Text → Vars → Option Vars
unfolding scan_version
scan_uri [] v = some v
scan_uri (uri ∷ words) v = elim (into 100 uri) [
  | none ↦ none
  | some u ↦ scan_version words (record v { uri = u })
]

unfoldable pub scan_request : Text → Vars → Option Vars
unfolding scan_uri
scan_request line v = elim (scan_words 3 line) [
  | [] ↦ some v
  | method ∷ words ↦ elim (into 100 method) [
    | none ↦ none
    | some m ↦ scan_uri words (record v { method = m })
  ]
]

-- What a call of Open_clientfd comes to: a negative result; the end of the process, which the
-- library may choose on an error; or a server, that is the pieces that Rio_readlineb reads from it
-- for a request.
pub data Connection : Type 0 where
  negative : Connection
  exits : Connection
  server : (Text → List Text) → Connection

pub record Net : Type 0 where
  pub open_clientfd : Text → Text → Connection

-- What a connection comes to: whether the process ends, the variables behind it, the requests that
-- went to a server, and what was sent to the client.
pub record Served : Type 0 where
  pub ends : Bool
  pub vars : Vars
  pub asked : List (Text × Text × Text)
  pub sent : List Text

abbrev pub first_byte : Text → ℕ
first_byte [] = 0
first_byte (c ∷ t) = c

abbrev pub get_request : Text → Text
get_request path = codes "GET " ++ (path ++ codes " HTTP/1.0\r\n\r\n")

abbrev pub unserved : Vars → Served
unserved v = record { ends = false; vars = v; asked = []; sent = [] }

unfoldable pub forward : Net → Parts → Vars → Served
forward net p v =
    if not (first_byte p.host == b'0') && not (first_byte p.path == b'0')
    then (elim (net.open_clientfd p.host p.port) [
      | negative ↦ unserved v
      | exits ↦ record { ends = true; vars = v; asked = []; sent = [] }
      | server answers ↦ record {
        ends = false;
        vars = v;
        asked = (p.host, p.port, get_request p.path) ∷ [];
        sent = answers (get_request p.path);
      }
    ])
    else unserved v

-- One round of main's loop. `read` is what Rio_readlineb comes to: -1, the end of the process,
-- which the library may choose on an error, the end of the input, which leaves the buffer, or a
-- line.
pub data Read : Type 0 where
  failed : Read
  died : Read
  end_of_input : Read
  line : Text → Read

unfoldable pub filled : Read → Option Text → Option Text
filled failed b = b
filled died b = b
filled end_of_input b = b
filled (line t) b = some t

unfoldable pub handle : Net → Vars → Option Served
unfolding forward parse_uri
handle net v =
    if caseeq v.method (codes "GET")
    then (elim (parse_uri v.uri (record { host = []; port = []; path = [] })) [
      | none ↦ none
      | some p ↦ some (forward net p v)
    ])
    else some (unserved v)

unfoldable pub read_request : Net → Option Text → Vars → Option Served
unfolding scan_request handle
read_request net none v = none
read_request net (some t) v = elim (scan_request t (record v { buffer = some t })) [
  | none ↦ none
  | some v' ↦ handle net v'
]

unfoldable pub round : Net → Read → Vars → Option Served
unfolding read_request filled
round net failed v = some (unserved v)
round net died v = some (record { ends = true; vars = v; asked = []; sent = [] })
round net end_of_input v = read_request net v.buffer v
round net (line t) v = read_request net (some t) v

-- main: the connections in turn, up to one that ends the process, from the empty words; `none` is undefined behaviour.
unfoldable pub rounds : Net → List Read → Vars → Option (List Served)
unfolding round
rounds net [] v = some []
rounds net (r ∷ rs) v = elim (round net r v) [
  | none ↦ none
  | some served ↦
      let rest = rounds net rs served.vars in
      if served.ends
      then some (served ∷ [])
      else elim rest [ none ↦ none | some more ↦ some (served ∷ more) ]
]

unfoldable pub main : Net → List Read → Option (List Served)
unfolding rounds
main net reads = rounds net reads (record { buffer = none; method = []; uri = []; version = [] })
