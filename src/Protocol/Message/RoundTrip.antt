-- ===== src/Protocol/Message/RoundTrip.antt =====
-- message.go: decoding what was encoded, in both versions of the protocol.
use kama_rpc_go.Base.{
  ℕ, ◌<◌, ◌≤◌, ◌^◌, ◌≡◌, refl, sym, ap, ◌∙◌, arith, [], ◌++◌, Bytes, length, replicate, some, ok,
  ◌⊎◌, inl, inr, length-append, append-nil, >>=-eq-ok,
}
use kama_rpc_go.Codec.Compress.{
  IsGzip, compress, decompress-compress, compress_skip, decompress_skip,
}
use kama_rpc_go.Protocol.Header.{
  Header, IsHeader, magic_json_header, magic_binary_header, header_fixed_len,
}
use kama_rpc_go.Protocol.Intern.{Cache, IsCache, empty-IsCache, Reads}
use kama_rpc_go.Protocol.HeaderBinary.{append_header_binary}
use kama_rpc_go.Protocol.HeaderBinary.RoundTrip.{
  parse_header_binary-append_header_binary, append_header_binary-eq-append,
}
use kama_rpc_go.Protocol.HeaderJson.RoundTrip.{
  IsPlain, json_text, parse_header_json-append_header_json,
}
use kama_rpc_go.Protocol.Message.{
  Library, effective_compression, append_by_magic, fixed_header, append_with_header, append_encoded,
  parse_by_magic, decode_body, decode,
}
use kama_rpc_go.Protocol.Message.Framing.{
  IsMagic, frame_bytes, IsPacket, frame_bytes-IsPacket, append_frame-text, decode-Reads,
}

-- The body's compression is undone by the type that the header tells.
decode_body-Reads :
    (lib : Library) (body wire : Bytes) (h : Header) (c : Cache)
    → IsGzip lib.gzip
    → compress lib.gzip body h.compression ≡ ok wire
    → IsCache c
    → Reads (decode_body lib wire h c) (record { header = some h; body = body })
unfolding decode_body
decode_body-Reads lib body wire h c g e w =
    rw
      (
        decompress_skip lib.gzip wire h.compression,
        decompress-compress lib.gzip body wire h.compression g e,
      )
      (refl, w)

-- What a version of the protocol promises for a header: it has a text, which is appended to any
-- buffer and read back.
record HasText (lib : Library) (magic : ℕ) (h : Header) : Type 0 where
  text : Bytes
  appended : (buf : Bytes) → append_by_magic lib magic buf h ≡ ok (buf ++ text)
  read_back : (c : Cache) → IsCache c → Reads (parse_by_magic lib magic text c) h

binary_text : (lib : Library) (h : Header) → IsHeader h → HasText lib magic_binary_header h
unfolding append_by_magic parse_by_magic
binary_text lib h v = record {
  text = append_header_binary [] h;
  appended = λ buf. ap ok (append_header_binary-eq-append buf h);
  read_back = λ c w. rw append-nil at (parse_header_binary-append_header_binary h [] c v w);
}

plain_text : (lib : Library) (h : Header) → IsPlain h → HasText lib magic_json_header h
unfolding append_by_magic parse_by_magic
plain_text lib h p = record {
  text = json_text h;
  appended = λ buf. (parse_header_json-append_header_json lib.json buf h [] p empty-IsCache).0;
  read_back = λ c w. (parse_header_json-append_header_json lib.json [] h c p w).1;
}

-- The header as it goes on the wire.
abbrev pub sent_header : Header → Bytes → Header
sent_header h body = record h { compression = effective_compression h.compression body }

-- The frame that is appended, with its body in the form that compression gives it.
abbrev IsFrame : Library → ℕ → Header → Bytes → Bytes → Type 0
IsFrame lib magic h body frame =
    (wire : Bytes) × (compress lib.gzip body (sent_header h body).compression ≡ ok wire)
    × (t : HasText lib magic (sent_header h body)) × (frame ≡ frame_bytes magic t.text wire)

append_encoded-IsFrame :
    (lib : Library) (dst : Bytes) (magic : ℕ) (h : Header) (body out : Bytes)
    → HasText lib magic (sent_header h body)
    → append_encoded lib dst magic (record { header = some h; body = body }) ≡ ok out
    → (frame : Bytes) × (out ≡ dst ++ frame) × IsFrame lib magic h body frame
unfolding append_encoded append_with_header
append_encoded-IsFrame lib dst magic h body out t e =
    let comp : ℕ = effective_compression h.compression body in
    let (wire, e₁, e₂) = >>=-eq-ok _ _ e in
    let built =
      append_frame-text lib dst magic (sent_header h body) wire t.text
        (t.appended (dst ++ replicate header_fixed_len 0)) in
    (
      frame_bytes magic t.text wire,
      cc (e₂, built),
      (wire, sym (compress_skip lib.gzip body comp) ∙ e₁, t, refl),
    )

-- The headers that a version of the protocol can carry.
abbrev pub IsCarried : ℕ → Header → Type 0
IsCarried magic h =
    ((magic ≡ magic_binary_header) × IsHeader h) ⊎ ((magic ≡ magic_json_header) × IsPlain h)

effective-le : (t : ℕ) (body : Bytes) → effective_compression t body ≤ t
unfolding effective_compression
effective-le t body = ground arith

sent_text :
    (lib : Library) (magic : ℕ) (h : Header) (body : Bytes)
    → IsCarried magic h
    → HasText lib magic (sent_header h body)
sent_text lib magic h body (inl (e, v)) = rw e (
    binary_text lib (sent_header h body) (record {
      id_fits = v.id_fits;
      codec_fits = v.codec_fits;
      compression_fits = omega (arith, effective-le h.compression body);
      service_fits = v.service_fits;
      method_fits = v.method_fits;
      error_fits = v.error_fits;
    }))
sent_text lib magic h body (inr (e, p)) = rw e (
    plain_text lib (sent_header h body) (record {
      id_fits = p.id_fits;
      codec_fits = p.codec_fits;
      compression_fits = omega (arith, effective-le h.compression body);
      service_plain = p.service_plain;
      method_plain = p.method_plain;
      error_plain = p.error_plain;
    }))

IsCarried-IsMagic : (magic : ℕ) (h : Header) → IsCarried magic h → IsMagic magic
IsCarried-IsMagic magic h (inl (e, v)) = inr e
IsCarried-IsMagic magic h (inr (e, p)) = inl e

IsFrame-IsPacket :
    (lib : Library) (magic : ℕ) (h : Header) (body frame : Bytes)
    → length frame < 2 ^ 32
    → IsFrame lib magic h body frame
    → IsPacket frame
IsFrame-IsPacket lib magic h body frame small (wire, e, t, f) =
    rw f (frame_bytes-IsPacket magic t.text wire (rw f at small))

frame-Reads :
    (lib : Library) (magic : ℕ) (h : Header) (body frame rest : Bytes) (c : Cache)
    → IsGzip lib.gzip
    → IsCache c
    → IsMagic magic
    → length frame < 2 ^ 32
    → IsFrame lib magic h body frame
    → Reads
        (decode lib (frame ++ rest) c)
        (record { header = some (sent_header h body); body = body })
frame-Reads lib magic h body frame rest c g w k small (wire, e, t, f) =
    let n : length frame
        ≡ length (fixed_header magic (length t.text) (length wire) ++ (t.text ++ wire)) =
      ap (λ (b : Bytes). length b) f in
    let s₁ = length-append (fixed_header magic (length t.text) (length wire)) (t.text ++ wire) in
    let s₂ = length-append t.text wire in
    rw f (
      decode-Reads lib magic t.text wire rest (sent_header h body) _ c k (omega arith) (omega arith)
        (t.read_back c w) (λ c' w'. decode_body-Reads lib body wire (sent_header h body) c' g e w'))

-- What appendEncoded appends, in either version of the protocol, decodes to the message that was
-- encoded, with the compression that took effect written in the header, whatever follows the
-- frame; the frame is as long as its length fields say, and what stood in the buffer before is
-- kept. The buffer has fewer than 2 ^ 32 bytes; a header of version 2 has strings of at most 1 MiB
-- and numbers in range, and one of version 1 is written by JSON without an escape.
pub decode-append_encoded :
    (lib : Library) (dst : Bytes) (magic : ℕ) (h : Header) (body out rest : Bytes) (c : Cache)
    → IsGzip lib.gzip
    → IsCache c
    → IsCarried magic h
    → append_encoded lib dst magic (record { header = some h; body = body }) ≡ ok out
    → length out < 2 ^ 32
    → (frame : Bytes) × (out ≡ dst ++ frame)
      × IsPacket frame
      × Reads
          (decode lib (frame ++ rest) c)
          (record { header = some (sent_header h body); body = body })
decode-append_encoded lib dst magic h body out rest c g w k e small =
    let (frame, eq, shape) =
      append_encoded-IsFrame lib dst magic h body out (sent_text lib magic h body k) e in
    let n : length out ≡ length (dst ++ frame) = ap (λ (b : Bytes). length b) eq in
    let fits : length frame < 2 ^ 32 = omega (arith, length-append dst frame) in
    (
      frame,
      eq,
      IsFrame-IsPacket lib magic h body frame fits shape,
      frame-Reads lib magic h body frame rest c g w (IsCarried-IsMagic magic h k) fits shape,
    )
