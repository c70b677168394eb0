-- ===== src/Protocol/HeaderBinary.antt =====
-- internal/core/protocol/header_binary.go: protocol v2. `parseHeaderBinary` fills `*h` from
-- Header{}; on an error its callers drop `*h`, so the model returns the header or the error.
-- An index into the slice is a number; int(n) is exact, since n is at most 2 ^ 20.
pub mod RoundTrip
pub mod Safety
mod Runs
use kama_rpc_go.Base.{
  ℕ, ◌+◌, ◌-◌, ◌≤◌, ◌<◌, ◌^◌, ◌≡◌, ltb, leb, if◌then◌else◌, ◌||◌, Bool, true, false, List, [], ◌∷◌,
  ◌++◌, Bytes, take, drop, length, get_elem?, Option, none, some, bad_request_id, header_truncated,
  bad_string_length, header_string_too_long,
}
use kama_rpc_go.Protocol.Header.{Header, max_header_string_len}
use kama_rpc_go.Protocol.Intern.{Parse, ◌>>=◌, return, fail_with, intern_bytes}
use kama_rpc_go.Protocol.Uvarint.{Uvarint, value, bad, uvarint, append_uvarint}
use kama_rpc_go.Base.{ok}

unfoldable pub append_len_prefixed : Bytes → Bytes → Bytes
append_len_prefixed dst s = append_uvarint dst (length s) ++ s

unfoldable pub append_header_binary : Bytes → Header → Bytes
append_header_binary dst h =
    let dst = append_uvarint dst h.request_id in
    let dst = dst ++ (h.codec_type ∷ h.compression ∷ []) in
    let dst = append_len_prefixed dst h.service_name in
    let dst = append_len_prefixed dst h.method_name in append_len_prefixed dst h.error

pub max_header_binary_len : Header → ℕ
max_header_binary_len h =
    10 + 2 + 15 + length h.service_name + length h.method_name + length h.error

-- data[i:j]
abbrev pub slice : Bytes → ℕ → ℕ → Bytes
slice buf i j = take (j - i) (drop i buf)

-- `internBytes(b)` or `string(b)`
pub to_string : Bool → Bytes → Parse Bytes
to_string true b c = let r = intern_bytes b c in (ok r.0, r.1)
to_string false b c = (ok b, c)

-- From the length `n` on, whose last byte is before index `i`.
read_string : Bytes → ℕ → ℕ → Bool → Parse (Bytes × ℕ)
read_string buf i n intern =
    let end = i + n in
    if ltb max_header_string_len n
    then fail_with (header_string_too_long n)
    else if ltb (length buf) end || ltb end i
    then fail_with header_truncated
    else (do s ← to_string intern (slice buf i end); return (s, end))

read_length : Bytes → ℕ → Bool → Uvarint → Parse (Bytes × ℕ)
read_length buf i intern bad = fail_with bad_string_length
read_length buf i intern (value n read) = read_string buf (i + read) n intern

pub read_len_prefixed : Bytes → ℕ → Bool → Parse (Bytes × ℕ)
read_len_prefixed buf i intern =
    if leb (length buf) i
    then fail_with header_truncated
    else read_length buf i intern (uvarint (drop i buf))

-- data[i] and data[i+1], after the check `i+2 > len(data)`.
read_enums : Bytes → Option (ℕ × ℕ)
read_enums (a ∷ b ∷ rest) = some (a, b)
read_enums (a ∷ []) = none
read_enums [] = none

-- The three strings from index `i` on.
read_strings : Bytes → ℕ → ℕ → ℕ → ℕ → Parse Header
read_strings buf i id codec comp = do
  (service, i) ← read_len_prefixed buf i true
  (method, i) ← read_len_prefixed buf i true
  (error, i) ← read_len_prefixed buf i false
  return (record {
    request_id = id;
    service_name = service;
    method_name = method;
    error = error;
    codec_type = codec;
    compression = comp;
  })

read_after_id : Bytes → ℕ → ℕ → Option (ℕ × ℕ) → Parse Header
read_after_id buf id i none = fail_with header_truncated
read_after_id buf id i (some (codec, comp)) = read_strings buf (i + 2) id codec comp

parse_from_id : Bytes → Uvarint → Parse Header
parse_from_id buf bad = fail_with bad_request_id
parse_from_id buf (value id n) = read_after_id buf id n (read_enums (drop n buf))

pub parse_header_binary : Bytes → Parse Header
parse_header_binary buf = parse_from_id buf (uvarint buf)
