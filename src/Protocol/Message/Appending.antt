-- ===== src/Protocol/Message/Appending.antt =====
-- message.go, AppendEncoded: what it appends does not depend on the buffer that it is given.
use kama_rpc_go.Base.{
  ℕ, ◌<◌, ◌≡◌, refl, ap, ◌∙◌, arith, [], ◌++◌, Bytes, length, replicate, some, Result, ok, err,
  ◌>>=◌,
}
use kama_rpc_go.Codec.Compress.{compress, compression_none, compress_skip}
use kama_rpc_go.Protocol.Header.{Header, magic_binary_header, header_fixed_len}
use kama_rpc_go.Protocol.HeaderBinary.{append_header_binary}
use kama_rpc_go.Protocol.HeaderBinary.RoundTrip.{append_header_binary-eq-append}
use kama_rpc_go.Protocol.Message.{
  Library, min_compress_size, effective_compression, append_by_magic, append_frame,
  append_with_header, append_encoded_binary, append_encoded,
}
use kama_rpc_go.Protocol.Message.Framing.{frame_bytes, append_frame-text}
use kama_rpc_go.Protocol.Message.RoundTrip.{sent_header}

-- The frame of protocol v2, around a body as it goes on the wire.
abbrev pub binary_frame : Header → Bytes → Bytes
binary_frame h wire = frame_bytes magic_binary_header (append_header_binary [] h) wire

append_frame-binary :
    (lib : Library) (dst : Bytes) (h : Header) (wire : Bytes)
    → append_frame lib dst magic_binary_header h wire ≡ ok (dst ++ binary_frame h wire)
append_frame-binary lib dst h wire =
    append_frame-text lib dst magic_binary_header h wire (append_header_binary [] h) text
  where
    text :
        append_by_magic lib magic_binary_header (dst ++ replicate header_fixed_len 0) h
        ≡ ok (dst ++ replicate header_fixed_len 0 ++ append_header_binary [] h)
    text =
        unfold append_by_magic in
        ap ok (append_header_binary-eq-append (dst ++ replicate header_fixed_len 0) h)

-- What AppendEncoded does, in three pieces: compress the body, build the frame, append it.
pub append_encoded_binary_lem :
    (lib : Library) (dst : Bytes) (h : Header) (body : Bytes)
    → append_encoded_binary lib dst (record { header = some h; body = body }) ≡ (
        compress lib.gzip body (sent_header h body).compression >>= λ wire.
        ok (dst ++ binary_frame (sent_header h body) wire))
unfolding append_encoded append_with_header
append_encoded_binary_lem lib dst h body =
    let comp : ℕ = effective_compression h.compression body in
    rw (compress_skip lib.gzip body comp) (finish (compress lib.gzip body comp))
  where
    finish :
        (r : Result Bytes)
        → (r >>= append_frame lib dst magic_binary_header (sent_header h body))
          ≡ (r >>= λ wire. ok (dst ++ binary_frame (sent_header h body) wire))
    finish (err e) = refl
    finish (ok wire) = append_frame-binary lib dst (sent_header h body) wire

-- A body below the limit is not compressed, so that it is encoded without fail.
pub append_encoded_binary-small :
    (lib : Library) (dst : Bytes) (h : Header) (body : Bytes)
    → length body < min_compress_size
    → append_encoded_binary lib dst (record { header = some h; body = body })
      ≡ ok (dst ++ binary_frame (sent_header h body) body)
append_encoded_binary-small lib dst h body small =
    let none_effective : effective_compression h.compression body ≡ compression_none =
      effective_small h.compression in
    append_encoded_binary_lem lib dst h body
    ∙ ap (λ (r : Result Bytes). r >>= λ wire. ok (dst ++ binary_frame (sent_header h body) wire))
        (uncompressed none_effective)
  where
    effective_small : (t : ℕ) → effective_compression t body ≡ compression_none
    effective_small t = unfold effective_compression in ground arith

    uncompressed : {t : ℕ} → t ≡ compression_none → compress lib.gzip body t ≡ ok body
    uncompressed e = unfold compress in rw e
