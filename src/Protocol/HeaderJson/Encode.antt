-- ===== src/Protocol/HeaderJson/Encode.antt =====
-- header_json.go, appendHeaderJSON and what it calls. encoding/json, to which both directions
-- fall back, is a parameter.
use kama_rpc_go.Base.{
  ℕ, zero, suc, ◌+◌, ◌/◌, ◌%◌, ltb, leb, ◌==◌, if◌then◌else◌, ◌&&◌, ◌||◌, not, Bool, false, [], ◌∷◌,
  ◌++◌, Bytes, Result, ok, err, codes,
}
use kama_rpc_go.Protocol.Header.{Header}

-- json.Marshal and json.Unmarshal at a Header. Unmarshal fills a zero header.
pub record Json : Type 0 where
  pub marshal : Header → Result Bytes
  pub unmarshal : Bytes → Result Header

-- Marked in `safeJSONByte`: 0x20 to 0x7f but " \ < > and &.
unfoldable pub safe_json_byte : ℕ → Bool
safe_json_byte c =
    leb 0x20 c && ltb c 0x80 && not (c == b'"' || c == 0x5c || c == b'<' || c == b'>' || c == b'&')

unfoldable pub string_needs_escape : Bytes → Bool
string_needs_escape [] = false
string_needs_escape (c ∷ s) = not (safe_json_byte c) || string_needs_escape s

-- strconv.AppendUint in base 10: `k` more digits may stand before the last one.
unfoldable pub decimal : ℕ → ℕ → Bytes
decimal zero v = (b'0' + v % 10) ∷ []
decimal (suc k) v =
    let more = decimal k (v / 10) ++ ((b'0' + v % 10) ∷ []) in
    if ltb v 10 then (b'0' + v) ∷ [] else more

-- 20 digits hold every uint64.
abbrev pub append_uint : Bytes → ℕ → Bytes
append_uint dst v = dst ++ decimal 19 v

unfoldable pub append_fields : Bytes → Header → Bytes
append_fields dst h =
    let dst = append_uint (dst ++ codes "{\"RequestID\":") h.request_id in
    let dst = dst ++ codes ",\"ServiceName\":\"" ++ h.service_name in
    let dst = dst ++ codes "\",\"MethodName\":\"" ++ h.method_name in
    let dst = dst ++ codes "\",\"Error\":\"" ++ h.error in
    let dst = append_uint (dst ++ codes "\",\"CodecType\":") h.codec_type in
    let dst = append_uint (dst ++ codes ",\"Compression\":") h.compression in dst ++ codes "}"

unfoldable pub append_marshalled : Bytes → Result Bytes → Result Bytes
append_marshalled dst (ok b) = ok (dst ++ b)
append_marshalled dst (err e) = err e

unfoldable pub append_header_json : Json → Bytes → Header → Result Bytes
append_header_json j dst h =
    if string_needs_escape h.service_name
      || string_needs_escape h.method_name
      || string_needs_escape h.error
    then append_marshalled dst (j.marshal h)
    else ok (append_fields dst h)
