-- ===== src/Protocol/Message/Framing.antt =====
-- message.go: the fixed part of a frame and its three pieces, appended and taken apart.
use kama_rpc_go.Base.{
  ℕ, ◌+◌, ◌-◌, ◌%◌, ◌<◌, ◌≤◌, ◌^◌, ◌≡◌, refl, sym, ap, ap₂, ◌∙◌, arith, ltb, ◌==◌, ◌&&◌, not, false,
  ◌++◌, Bytes, length, replicate, ok, ◌⊎◌, length-append, take-append, drop-append, append_assoc,
}
use kama_rpc_go.Protocol.Header.{Header, magic_json_header, magic_binary_header, header_fixed_len}
use kama_rpc_go.Protocol.Intern.{Cache, IsCache, Reads, and_then-Reads}
use kama_rpc_go.Protocol.HeaderBinary.{slice}
use kama_rpc_go.Protocol.HeaderBinary.RoundTrip.{slice_middle}
use kama_rpc_go.Protocol.Message.{
  Message, Library, put_uint16, put_uint32, big_endian, decode_header_len, decode_body_len,
  append_by_magic, overwrite, fixed_header, append_frame, parse_by_magic, decode_body, decode_frame,
  decode,
}

big_endian-put_uint32 : (v : ℕ) → v < 2 ^ 32 → big_endian 0 (put_uint32 (v % 2 ^ 32)) ≡ v
unfolding big_endian
big_endian-put_uint32 v h = omega arith

abbrev pub IsMagic : ℕ → Type 0
IsMagic m = (m ≡ magic_json_header) ⊎ (m ≡ magic_binary_header)

big_endian-put_uint16 : (m : ℕ) → m < 2 ^ 16 → big_endian 0 (put_uint16 m) ≡ m
unfolding big_endian
big_endian-put_uint16 m h = omega arith

-- Overwriting the placeholder of the fixed part.
overwrite-placeholder :
    (dst zeros fixed rest : Bytes)
    → length zeros ≡ length fixed
    → overwrite (length dst) fixed (dst ++ (zeros ++ rest)) ≡ dst ++ (fixed ++ rest)
unfolding overwrite
overwrite-placeholder dst zeros fixed rest h = rw (
  take-append dst (zeros ++ rest) (length dst) refl,
  ← append_assoc dst zeros rest,
  drop-append (dst ++ zeros) rest (length dst + length fixed)
      (omega (arith, length-append dst zeros)),
)

pub length-fixed_header : (magic m n : ℕ) → header_fixed_len ≡ length (fixed_header magic m n)
unfolding fixed_header
length-fixed_header magic m n = refl

-- A frame: the fixed part, the header's text and the body as it goes on the wire.
abbrev pub frame_bytes : ℕ → Bytes → Bytes → Bytes
frame_bytes magic text body = fixed_header magic (length text) (length body) ++ (text ++ body)

-- Bytes that are one packet: as long as the two length fields say.
abbrev pub IsPacket : Bytes → Type 0
IsPacket s =
    (header_fixed_len ≤ length s)
    × (header_fixed_len + decode_header_len (slice s 2 6) + decode_body_len (slice s 6 10)
        ≡ length s)

pub append_frame-text :
    (lib : Library) (dst : Bytes) (magic : ℕ) (h : Header) (body text : Bytes)
    → append_by_magic lib magic (dst ++ replicate header_fixed_len 0) h
      ≡ ok (dst ++ replicate header_fixed_len 0 ++ text)
    → append_frame lib dst magic h body ≡ ok (dst ++ frame_bytes magic text body)
unfolding append_frame
append_frame-text lib dst magic h body text e =
    rw
      (
        e,
        len,
        append_assoc (dst ++ replicate header_fixed_len 0) text body,
        append_assoc dst (replicate header_fixed_len 0) (text ++ body),
      )
      (ap ok (
        overwrite-placeholder dst (replicate header_fixed_len 0) _ (text ++ body)
          (length-fixed_header magic (length text) (length body))))
  where
    len :
        length (dst ++ replicate header_fixed_len 0 ++ text) - length dst - header_fixed_len
        ≡ length text
    len = omega (
      arith,
      length-append (dst ++ replicate header_fixed_len 0) text,
      length-append dst (replicate {A = ℕ} header_fixed_len 0),
    )

decode_frame-Reads :
    (lib : Library) (magic : ℕ) (fixed text body rest : Bytes) (h : Header) (m : Message)
    (c : Cache)
    → length fixed ≡ header_fixed_len
    → Reads (parse_by_magic lib magic text c) h
    → ((c' : Cache) → IsCache c' → Reads (decode_body lib body h c') m)
    → Reads
        (decode_frame lib magic (length text) (length body) (fixed ++ (text ++ (body ++ rest))) c)
        m
unfolding decode_frame
decode_frame-Reads lib magic fixed text body rest h m c len p b =
    rw
      (complete, slice_middle fixed text (body ++ rest) 10 (10 + length text) (sym len) refl, whole)
      (and_then-Reads _ _ p b)
  where
    complete :
        ltb (length (fixed ++ (text ++ (body ++ rest)))) (10 + length text + length body) ≡ false
    complete = ground (
      arith,
      length-append fixed (text ++ (body ++ rest)),
      length-append text (body ++ rest),
      length-append body rest,
    )

    whole :
        slice
          (fixed ++ (text ++ (body ++ rest)))
          (10 + length text)
          (10 + length text + length body)
        ≡ body
    whole =
        rw (← append_assoc fixed text (body ++ rest)) (
          slice_middle (fixed ++ text) body rest _ _ (omega (arith, length-append fixed text)) refl)

module _ (magic m n : ℕ) (rest : Bytes) where
  magic_field : magic < 2 ^ 16 → big_endian 0 (slice (fixed_header magic m n ++ rest) 0 2) ≡ magic
  unfolding fixed_header
  magic_field h = big_endian-put_uint16 magic h

  header_field : m < 2 ^ 32 → decode_header_len (slice (fixed_header magic m n ++ rest) 2 6) ≡ m
  unfolding fixed_header
  header_field h = big_endian-put_uint32 m h

  body_field : n < 2 ^ 32 → decode_body_len (slice (fixed_header magic m n ++ rest) 6 10) ≡ n
  unfolding fixed_header
  body_field h = big_endian-put_uint32 n h

pub frame_bytes-IsPacket :
    (magic : ℕ) (text body : Bytes)
    → length (frame_bytes magic text body) < 2 ^ 32
    → IsPacket (frame_bytes magic text body)
frame_bytes-IsPacket magic text body small =
    let fixed : Bytes = fixed_header magic (length text) (length body) in
    let n = length-append fixed (text ++ body) in
    let k = length-append text body in
    let f = length-fixed_header magic (length text) (length body) in
    let total : header_fixed_len + length text + length body
        ≡ length (frame_bytes magic text body) =
      omega (arith, n, k, f) in
    (
      omega (arith, n, f),
      ap₂ (λ x y. header_fixed_len + x + y)
            (header_field magic (length text) (length body) (text ++ body) (omega (arith, n, k)))
            (body_field magic (length text) (length body) (text ++ body) (omega (arith, n, k)))
          ∙ total,
    )

pub decode-Reads :
    (lib : Library) (magic : ℕ) (text body rest : Bytes) (h : Header) (m : Message) (c : Cache)
    → IsMagic magic
    → length text < 2 ^ 32
    → length body < 2 ^ 32
    → Reads (parse_by_magic lib magic text c) h
    → ((c' : Cache) → IsCache c' → Reads (decode_body lib body h c') m)
    → Reads (decode lib (frame_bytes magic text body ++ rest) c) m
unfolding decode
decode-Reads lib magic text body rest h m c k ht hb p b =
    let fixed : Bytes = fixed_header magic (length text) (length body) in
    rw
      (
        append_assoc fixed (text ++ body) rest,
        append_assoc text body rest,
        magic_field magic (length text) (length body) (text ++ (body ++ rest)) (omega arith),
        header_field magic (length text) (length body) (text ++ (body ++ rest)) ht,
        body_field magic (length text) (length body) (text ++ (body ++ rest)) hb,
        long fixed (length-fixed_header magic _ _),
        known,
      )
      (decode_frame-Reads lib magic fixed text body rest h m c (sym (length-fixed_header magic _ _))
        p b)
  where
    long :
        (fixed : Bytes)
        → 10 ≡ length fixed
        → ltb (length (fixed ++ (text ++ (body ++ rest)))) 10 ≡ false
    long fixed e = ground (arith, length-append fixed (text ++ (body ++ rest)))

    known : (not (magic == magic_json_header) && not (magic == magic_binary_header)) ≡ false
    known = ground arith
