-- ===== src/Protocol/HeaderJson/Parse.antt =====
-- header_json.go, parseHeaderFast and parseHeaderJSON. An index `i` into the slice is the rest of
-- the slice from there, `data[i:]`.
use kama_rpc_go.Base.{
  ℕ, zero, suc, ◌^◌, ltb, ◌==◌, if◌then◌else◌, ◌&&◌, Bool, true, false, [], ◌∷◌, Bytes, length,
  Option, none, some, Result, ok, codes, bytes_beq,
}
use kama_rpc_go.Protocol.Header.{Header, zero_header}
use kama_rpc_go.Protocol.Intern.{Cache, intern_bytes}
use kama_rpc_go.Protocol.HeaderJson.Encode.{Json}
use kama_rpc_go.Protocol.HeaderJson.Scan.{skip_space, parse_raw_bytes, parse_uint}

-- The cases of the `switch string(key)`, each with the value that it assigns.
pub data Member : Type 0 where
  service method error : Bytes → Member
  request_id codec compression : ℕ → Member

infixl 5 ◌>>=◌
abbrev pub ◌>>=◌ : {A B : Type 0} → Option A → (A → Option B) → Option B
none >>= f = none
some a >>= f = f a

unfoldable pub text_member : (Bytes → Member) → Bytes → Option (Member × Bytes)
text_member m buf = do (b, rest) ← parse_raw_bytes buf; some (m b, rest)

unfoldable pub number_member : (ℕ → Member) → ℕ → Bytes → Option (Member × Bytes)
number_member m bound buf = do
  (v, rest) ← parse_uint buf
  if ltb v bound then some (m v, rest) else none

unfoldable pub read_value : Bytes → Bytes → Option (Member × Bytes)
read_value key buf =
    if bytes_beq key (codes "ServiceName")
    then text_member service buf
    else if bytes_beq key (codes "MethodName")
    then text_member method buf
    else if bytes_beq key (codes "Error")
    then text_member error buf
    else if bytes_beq key (codes "RequestID")
    then number_member request_id (2 ^ 64) buf
    else if bytes_beq key (codes "CodecType")
    then number_member codec 256 buf
    else if bytes_beq key (codes "Compression")
    then number_member compression 256 buf
    else none

-- `i >= len(data) || data[i] != c` fails.
unfoldable pub expect : ℕ → Bytes → Option Bytes
expect c [] = none
expect c (d ∷ rest) = if d == c then some rest else none

-- One key with its colon and its value.
unfoldable pub read_member : Bytes → Option (Member × Bytes)
read_member buf = do
  (key, rest) ← parse_raw_bytes (skip_space buf)
  rest ← expect b':' (skip_space rest)
  read_value key (skip_space rest)

-- Service and method names are interned, errors are not.
unfoldable pub assign : Member → Header → Cache → Header × Cache
assign (service b) h c = let r = intern_bytes b c in (record h { service_name = r.0 }, r.1)
assign (method b) h c = let r = intern_bytes b c in (record h { method_name = r.0 }, r.1)
assign (error b) h c = (record h { error = b }, c)
assign (request_id v) h c = (record h { request_id = v }, c)
assign (codec v) h c = (record h { codec_type = v }, c)
assign (compression v) h c = (record h { compression = v }, c)

-- How a round of the loop ends: `return false`, `return true` with the header, or the next round.
pub data Round : Type 0 where
  fails : Round
  done : Round
  again : Bytes → Round

unfoldable pub at_end : Bytes → Bool
at_end [] = true
at_end (c ∷ rest) = false

unfoldable pub after_value : Bytes → Round
after_value [] = fails
after_value (c ∷ rest) =
    if c == b','
    then again rest
    else if (c == b'}') && at_end (skip_space rest)
    then done
    else fails

unfoldable pub fast_end :
    (Bytes → Header → Cache → Option Header × Cache)
    → Round
    → Header × Cache
    → Option Header × Cache
fast_end next fails r = (none, r.1)
fast_end next done r = (some r.0, r.1)
fast_end next (again rest) r = next rest r.0 r.1

unfoldable pub member_end :
    (Bytes → Header → Cache → Option Header × Cache)
    → Option (Member × Bytes)
    → Header
    → Cache
    → Option Header × Cache
member_end next none h c = (none, c)
member_end next (some (m, rest)) h c = fast_end next (after_value (skip_space rest)) (assign m h c)

-- Each round takes a byte at least, so as many rounds as the slice has bytes are enough.
unfoldable pub members : ℕ → Bytes → Header → Cache → Option Header × Cache
members zero buf h c = (none, c)
members (suc fuel) buf h c = member_end (members fuel) (read_member buf) h c

-- From behind the opening brace.
unfoldable pub object_body : Bytes → Cache → Option Header × Cache
object_body [] c = (none, c)
object_body (d ∷ rest) c =
    if d == b'}'
    then (if at_end (skip_space rest) then some zero_header else none, c)
    else members (length (d ∷ rest)) (d ∷ rest) zero_header c

unfoldable pub fast_from : Option Bytes → Cache → Option Header × Cache
fast_from none c = (none, c)
fast_from (some rest) c = object_body (skip_space rest) c

-- `none` is the `false` that sends the caller to encoding/json.
unfoldable pub parse_header_fast : Bytes → Cache → Option Header × Cache
parse_header_fast buf c = fast_from (expect b'{' (skip_space buf)) c

unfoldable pub fall_back : Json → Bytes → Option Header × Cache → Result Header × Cache
fall_back j buf (some h, c) = (ok h, c)
fall_back j buf (none, c) = (j.unmarshal buf, c)

unfoldable pub parse_header_json : Json → Bytes → Cache → Result Header × Cache
parse_header_json j buf c = fall_back j buf (parse_header_fast buf c)
