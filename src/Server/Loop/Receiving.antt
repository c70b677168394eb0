-- ===== src/Server/Loop/Receiving.antt =====
-- server.go, Handle: ReadBorrowed decodes the packets of a connection round by round.
use kama_rpc_go.Base.{List, [], ◌∷◌, Bytes, Option, none, some, Result, ok, err, nil_header}
use kama_rpc_go.Protocol.Header.{Header}
use kama_rpc_go.Protocol.Intern.{Cache}
use kama_rpc_go.Protocol.Message.{Library, Message, decode}
use kama_rpc_go.Server.Loop.{Request, Round}

-- A message without a header cannot come: DecodeInto fills in the connection's own.
abbrev pub with_header : Bytes → Option Header → Result Request
with_header body none = err nil_header
with_header body (some h) = ok (record { header = h; body = body })

abbrev pub request_of : Result Message → Result Request
request_of (err e) = err e
request_of (ok m) = with_header m.body m.header

-- The rounds on these packets, with all else that happens in each round.
unfoldable pub receive : Library → List Bytes → Cache → List Round → List Round
receive lib [] cache rs = []
receive lib (p ∷ ps) cache [] = []
receive lib (p ∷ ps) cache (r ∷ rs) =
    let d = decode lib p cache in record r { read = request_of d.0 } ∷ receive lib ps d.1 rs
