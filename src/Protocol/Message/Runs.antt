-- ===== src/Protocol/Message/Runs.antt =====
-- Runs of the message codec, and the theorem at an input.
use kama_rpc_go.Base.{
  ◌≡◌, refl, arith, inl, [], ◌∷◌, ◌++◌, Bytes, none, some, ok, err, foreign, codes, data_too_short,
  nil_header, invalid_magic, incomplete_packet, replicate,
}
use kama_rpc_go.Codec.Compress.{storing, storing-IsGzip}
use kama_rpc_go.Protocol.Header.{Header, magic_binary_header}
use kama_rpc_go.Protocol.Intern.{empty-IsCache, Reads}
use kama_rpc_go.Protocol.Uvarint.{append_uvarint, uvarint_bytes}
use kama_rpc_go.Protocol.HeaderBinary.{append_header_binary, append_len_prefixed}
use kama_rpc_go.Protocol.Message.{
  Library, append_encoded, append_with_header, append_frame, append_by_magic, overwrite,
  fixed_header, effective_compression, decode, decode_frame, big_endian,
}
use kama_rpc_go.Protocol.Message.Framing.{IsPacket}
use kama_rpc_go.Protocol.Message.RoundTrip.{sent_header, decode-append_encoded}

abbrev lib : Library
lib = record {
  gzip = storing;
  json = record { marshal = λ h. err (foreign 0); unmarshal = λ b. err (foreign 0) };
}

abbrev sample : Header
sample = record {
  request_id = 7;
  service_name = codes "Arith";
  method_name = codes "Add";
  error = [];
  codec_type = 1;
  compression = 1;
}

-- A small body goes uncompressed, and the header on the wire says so.
abbrev sample_frame : Bytes
sample_frame =
    0x4b
    ∷ 0x53
    ∷ 0
    ∷ 0
    ∷ 0
    ∷ 14
    ∷ 0
    ∷ 0
    ∷ 0
    ∷ 2
    ∷ 7
    ∷ 1
    ∷ 0
    ∷ 5
    ∷ (codes "Arith" ++ (3 ∷ (codes "Add" ++ (0 ∷ 42 ∷ 43 ∷ []))))

sample_run :
    append_encoded lib
      (1 ∷ [])
      magic_binary_header
      (record { header = some sample; body = 42 ∷ 43 ∷ [] })
    ≡ ok (1 ∷ sample_frame)
unfolding append_encoded append_with_header effective_compression append_frame append_by_magic
    overwrite fixed_header append_header_binary append_len_prefixed append_uvarint uvarint_bytes
sample_run = refl

decode-append_encoded_example :
    (frame : Bytes) × (1 ∷ sample_frame ≡ (1 ∷ []) ++ frame)
    × IsPacket frame
    × Reads
        (decode lib (frame ++ (0x4b ∷ [])) [])
        (record { header = some (sent_header sample (42 ∷ 43 ∷ [])); body = 42 ∷ 43 ∷ [] })
decode-append_encoded_example =
    decode-append_encoded lib (1 ∷ []) magic_binary_header sample (42 ∷ 43 ∷ []) (1 ∷ sample_frame)
      (0x4b ∷ []) [] storing-IsGzip empty-IsCache (inl (refl, omega arith)) sample_run (omega arith)

no_header :
    append_encoded lib [] magic_binary_header (record { header = none; body = [] }) ≡ err nil_header
unfolding append_encoded append_with_header
no_header = refl

short : decode lib (0x4b ∷ 0x53 ∷ []) [] ≡ (err data_too_short, [])
unfolding decode
short = refl

wrong_magic : decode lib (replicate 10 0) [] ≡ (err invalid_magic, [])
unfolding decode big_endian
wrong_magic = refl

half_packet :
    decode lib (0x4b ∷ 0x53 ∷ 0 ∷ 0 ∷ 0 ∷ 14 ∷ 0 ∷ 0 ∷ 0 ∷ 2 ∷ []) [] ≡ (err incomplete_packet, [])
unfolding decode decode_frame big_endian
half_packet = refl
