-- ===== src/Protocol/Message.antt =====
-- internal/core/protocol/message.go: a message and its frame on the wire. A slice is its
-- contents: the capacity that appendEncoded reserves, and the arrays that slices share, change
-- no byte. `int` has 64 bits, so that the sums of lengths do not wrap.
pub mod Framing
pub mod Appending
pub mod RoundTrip
mod Runs
use kama_rpc_go.Base.{
  ℕ, zero, suc, ◌+◌, ◌-◌, ◌*◌, ◌/◌, ◌%◌, ◌<◌, ◌≤◌, ◌^◌, ◌≡◌, ltb, leb, ◌==◌, if◌then◌else◌, ◌&&◌,
  ◌||◌, not, Bool, true, false, List, [], ◌∷◌, ◌++◌, Bytes, length, take, drop, replicate, Option,
  none, some, Result, Error, ok, err, nil_header, data_too_short, invalid_magic, incomplete_packet,
  ◌>>=◌,
}
use kama_rpc_go.Codec.Compress.{Gzip, compress, decompress, compression_none}
use kama_rpc_go.Protocol.Header.{Header, magic_json_header, magic_binary_header, header_fixed_len}
use kama_rpc_go.Protocol.Intern.{Cache, and_then}
use kama_rpc_go.Protocol.HeaderBinary.{append_header_binary, parse_header_binary, slice}
use kama_rpc_go.Protocol.HeaderJson.Encode.{Json, append_header_json}
use kama_rpc_go.Protocol.HeaderJson.Parse.{parse_header_json}

-- `header` is a pointer, which may be nil.
pub record Message : Type 0 where
  pub header : Option Header
  pub body : Bytes

-- The parts of Go's library that the package calls.
pub record Library : Type 0 where
  pub gzip : Gzip
  pub json : Json

abbrev pub min_compress_size : ℕ
min_compress_size = 512

-- binary.BigEndian.PutUint16, PutUint32 and Uint32.
abbrev pub put_uint16 : ℕ → Bytes
put_uint16 v = (v / 256 % 256) ∷ (v % 256) ∷ []

abbrev pub put_uint32 : ℕ → Bytes
put_uint32 v = (v / 2 ^ 24 % 256) ∷ (v / 2 ^ 16 % 256) ∷ (v / 256 % 256) ∷ (v % 256) ∷ []

unfoldable pub big_endian : ℕ → Bytes → ℕ
big_endian acc [] = acc
big_endian acc (b ∷ bytes) = big_endian (acc * 256 + b) bytes

abbrev pub decode_header_len : Bytes → ℕ
decode_header_len = big_endian 0

abbrev pub decode_body_len : Bytes → ℕ
decode_body_len = big_endian 0

-- The compression that takes effect: a small body is left as it is.
unfoldable pub effective_compression : ℕ → Bytes → ℕ
effective_compression compression body =
    if not (compression == compression_none) && ltb (length body) min_compress_size
    then compression_none
    else compression

unfoldable pub append_by_magic : Library → ℕ → Bytes → Header → Result Bytes
append_by_magic lib magic buf h =
    if magic == magic_json_header
    then append_header_json lib.json buf h
    else ok (append_header_binary buf h)

-- copy(buf[base:], bytes): the fixed part is filled in last.
unfoldable pub overwrite : ℕ → Bytes → Bytes → Bytes
overwrite base bytes buf = take base buf ++ (bytes ++ drop (base + length bytes) buf)

unfoldable pub fixed_header : ℕ → ℕ → ℕ → Bytes
fixed_header magic header_len body_len =
    put_uint16 magic ++ (put_uint32 (header_len % 2 ^ 32) ++ put_uint32 (body_len % 2 ^ 32))

-- From the body as it goes on the wire, and the header copy that tells its compression.
unfoldable pub append_frame : Library → Bytes → ℕ → Header → Bytes → Result Bytes
append_frame lib dst magic h body = do
  let base = length dst
  buf ← append_by_magic lib magic (dst ++ replicate header_fixed_len 0) h
  let header_len = length buf - base - header_fixed_len
  ok (overwrite base (fixed_header magic header_len (length body)) (buf ++ body))

unfoldable pub append_with_header : Library → Bytes → ℕ → Bytes → Option Header → Result Bytes
append_with_header lib dst magic body none = err nil_header
append_with_header lib dst magic body (some h) = do
  let compression = effective_compression h.compression body
  bytes ← (if compression == compression_none then ok body else compress lib.gzip body compression)
  append_frame lib dst magic (record h { compression = compression }) bytes

unfoldable pub append_encoded : Library → Bytes → ℕ → Message → Result Bytes
append_encoded lib dst magic msg = append_with_header lib dst magic msg.body msg.header

-- AppendEncoded, AppendEncodedJSONHeader and Encode.
abbrev pub append_encoded_binary : Library → Bytes → Message → Result Bytes
append_encoded_binary lib dst msg = append_encoded lib dst magic_binary_header msg

abbrev pub append_encoded_json : Library → Bytes → Message → Result Bytes
append_encoded_json lib dst msg = append_encoded lib dst magic_json_header msg

abbrev pub encode : Library → Message → Result Bytes
encode lib msg = append_encoded_binary lib [] msg

pub parse_by_magic : Library → ℕ → Bytes → Cache → Result Header × Cache
parse_by_magic lib magic bytes c =
    if magic == magic_binary_header
    then parse_header_binary bytes c
    else parse_header_json lib.json bytes c

-- The body, once the header is known.
pub decode_body : Library → Bytes → Header → Cache → Result Message × Cache
decode_body lib bytes h c =
    let body =
      if h.compression == compression_none
      then ok bytes
      else decompress lib.gzip bytes h.compression in
    (body >>= λ b. ok (record { header = some h; body = b }), c)

decode_frame : Library → ℕ → ℕ → ℕ → Bytes → Cache → Result Message × Cache
decode_frame lib magic header_len body_len buf c =
    let total = header_fixed_len + header_len + body_len in
    if ltb (length buf) total
    then (err incomplete_packet, c)
    else and_then
        (parse_by_magic lib magic (slice buf header_fixed_len (header_fixed_len + header_len)) c)
        (decode_body lib (slice buf (header_fixed_len + header_len) total))

-- DecodeInto and Decode: the message is filled in, or dropped with an error.
pub decode : Library → Bytes → Cache → Result Message × Cache
decode lib buf c =
    let magic = big_endian 0 (slice buf 0 2) in
    if ltb (length buf) header_fixed_len
    then (err data_too_short, c)
    else if not (magic == magic_json_header) && not (magic == magic_binary_header)
    then (err invalid_magic, c)
    else decode_frame lib magic (decode_header_len (slice buf 2 6))
        (decode_body_len (slice buf 6 10)) buf c
