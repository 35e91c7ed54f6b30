-- ===== src/Proxy/Forwarding.antt =====
-- A request that proxy.c forwards.
use cs.Base.{some, List, [], ◌∷◌, ◌++◌, Text, codes}
use cs.Proxy.{Parts, Vars, Net}
use cs.Proxy.Uri.{http}

-- The line of a request in three words.
abbrev pub request_line : Text → Text → Text
request_line uri version = codes "GET" ++ b' ' ∷ (uri ++ b' ' ∷ (version ++ codes "\r\n"))

abbrev no_parts : Parts
no_parts = record { host = []; port = []; path = [] }

-- The words of the request line in their arrays.
abbrev pub with_words : Text → Text → Vars → Vars
with_words uri version v = record v {
  buffer = some (request_line uri version);
  method = codes "GET";
  uri = uri;
  version = version;
}

module _ (net : Net) (v : Vars) (host port path version : Text) (answers : Text → List Text) where
  abbrev uri : Text
  uri = http ((host ++ b':' ∷ port) ++ b'/' ∷ path)
