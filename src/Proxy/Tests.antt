-- ===== src/Proxy/Tests.antt =====
-- The theorems about proxy.c at one request.
use cs.Base.{◌≡◌, refl, none, some, [], ◌∷◌, Text, codes, arith}
use cs.Proxy.{Parts, parse_uri, Vars, Net, server}
use cs.Proxy.Uri.{parse_uri-port}

abbrev host : Text
host = codes "localhost"

abbrev port : Text
port = codes "8080"

abbrev path : Text
path = codes "home.html"

abbrev no_parts : Parts
no_parts = record { host = []; port = []; path = [] }

parse_uri-port_example :
    parse_uri (codes "http://localhost:8080/home.html") no_parts
    ≡ some (record { host = host; port = port; path = codes "/home.html" })
parse_uri-port_example =
    parse_uri-port host port path no_parts refl refl refl (omega arith) (omega arith) (omega arith)

-- A server that sends the request back.
abbrev net : Net
net = record { open_clientfd = λ h p. server λ request. request ∷ [] }

abbrev vars : Vars
vars = record { buffer = none; method = []; uri = []; version = [] }

abbrev version : Text
version = codes "HTTP/1.0"

abbrev uri : Text
uri = codes "http://localhost:8080/home.html"
