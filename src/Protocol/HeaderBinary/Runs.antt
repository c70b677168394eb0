-- ===== src/Protocol/HeaderBinary/Runs.antt =====
-- Runs of the binary header and of the interning cache, and the theorems at inputs.
use kama_rpc_go.Base.{
  ◌≡◌, refl, arith, true, [], ◌∷◌, ◌++◌, Bytes, err, header_truncated, header_string_too_long,
  bad_request_id, codes, lookup, insert,
}
use kama_rpc_go.Protocol.Header.{Header, IsHeader}
use kama_rpc_go.Protocol.Intern.{empty-IsCache, Reads, intern_bytes}
use kama_rpc_go.Protocol.Uvarint.{uvarint, uvarint_bytes, uvarint_loop, append_uvarint}
use kama_rpc_go.Protocol.HeaderBinary.{
  append_header_binary, append_len_prefixed, read_len_prefixed, read_length, read_string,
  parse_from_id, parse_header_binary,
}
use kama_rpc_go.Protocol.HeaderBinary.RoundTrip.{parse_header_binary-append_header_binary}
use kama_rpc_go.Protocol.HeaderBinary.Safety.{Ensures, parse_header_binary-Ensures}

abbrev sample : Header
sample = record {
  request_id = 300;
  service_name = codes "Arith";
  method_name = codes "Add";
  error = [];
  codec_type = 1;
  compression = 1;
}

abbrev sample_bytes : Bytes
sample_bytes = 0xac ∷ 2 ∷ 1 ∷ 1 ∷ 5 ∷ (codes "Arith" ++ (3 ∷ (codes "Add" ++ (0 ∷ []))))

sample-IsHeader : IsHeader sample
sample-IsHeader = omega arith

sample_run : append_header_binary [] sample ≡ sample_bytes
unfolding append_header_binary append_len_prefixed append_uvarint uvarint_bytes
sample_run = refl

parse_header_binary-append_header_binary_example :
    Reads (parse_header_binary (append_header_binary [] sample ++ (9 ∷ 9 ∷ [])) []) sample
parse_header_binary-append_header_binary_example =
    parse_header_binary-append_header_binary sample (9 ∷ 9 ∷ []) [] sample-IsHeader empty-IsCache

-- A length that points behind the end, and one above the limit.
cut_off : (read_len_prefixed (5 ∷ 1 ∷ 2 ∷ []) 0 true []).0 ≡ err header_truncated
unfolding read_len_prefixed read_length read_string uvarint uvarint_loop
cut_off = refl

too_long :
    (read_len_prefixed (0xff ∷ 0xff ∷ 0xff ∷ 1 ∷ []) 0 true []).0
    ≡ err (header_string_too_long 4194303)
unfolding read_len_prefixed read_length read_string uvarint uvarint_loop
too_long = refl

bad_id : (parse_header_binary (0x80 ∷ []) []).0 ≡ err bad_request_id
unfolding parse_header_binary parse_from_id uvarint uvarint_loop
bad_id = refl

parse_header_binary-Ensures_example : Ensures IsHeader (parse_header_binary sample_bytes [])
parse_header_binary-Ensures_example =
    parse_header_binary-Ensures sample_bytes [] (omega arith) empty-IsCache

interned_once : intern_bytes (codes "Add") [] ≡ (codes "Add", (codes "Add", codes "Add") ∷ [])
unfolding intern_bytes lookup insert
interned_once = refl
