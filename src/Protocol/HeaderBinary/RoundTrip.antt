-- ===== src/Protocol/HeaderBinary/RoundTrip.antt =====
-- header_binary.go: parseHeaderBinary reads back what appendHeaderBinary wrote, with whatever a
-- later version of the protocol appends behind it.
use kama_rpc_go.Base.{
  ℕ, ◌+◌, ◌-◌, ◌≤◌, ◌<◌, ◌^◌, ◌≡◌, refl, ap, arith, leb, Bool, true, false, [], ◌∷◌, ◌++◌, Bytes,
  length, length-append, take-append, drop-append, append_assoc, le→ltb, ok,
}
use kama_rpc_go.Protocol.Header.{Header, IsHeader, max_header_string_len}
use kama_rpc_go.Protocol.Intern.{Reads, and_then-Reads, Cache, IsCache, intern_bytes-IsCache}
use kama_rpc_go.Protocol.Uvarint.{
  append_uvarint, uvarint_bytes, uvarint-bytes, length-uvarint_bytes, length-uvarint_bytes-le,
}
use kama_rpc_go.Protocol.HeaderBinary.{
  append_len_prefixed, append_header_binary, slice, to_string, max_header_binary_len, read_string,
  read_length, read_len_prefixed, read_enums, read_strings, read_after_id, parse_from_id,
  parse_header_binary,
}

to_string-Reads : (b : Bool) (s : Bytes) (c : Cache) → IsCache c → Reads (to_string b s c) s
unfolding to_string
to_string-Reads true s c w = let (e, w') = intern_bytes-IsCache s c w in (ap ok e, w')
to_string-Reads false s c w = (refl, w)

-- The bytes of a length-prefixed string.
abbrev prefixed : Bytes → Bytes
prefixed s = uvarint_bytes 9 (length s) ++ s

pub slice_middle :
    (pre s rest : Bytes) (i j : ℕ)
    → i ≡ length pre
    → j ≡ i + length s
    → slice (pre ++ (s ++ rest)) i j ≡ s
slice_middle pre s rest i j hi hj =
    rw (drop-append pre (s ++ rest) i hi) (take-append s rest (j - i) (omega arith))

read_string-Reads :
    (pre s rest : Bytes) (i : ℕ) (b : Bool) (c : Cache)
    → i ≡ length pre
    → length s ≤ max_header_string_len
    → IsCache c
    → Reads (read_string (pre ++ (s ++ rest)) i (length s) b c) (s, i + length s)
unfolding read_string
read_string-Reads pre s rest i b c hi hs w =
    rw
      (
        le→ltb max_header_string_len (length s) hs,
        le→ltb (length (pre ++ (s ++ rest))) (i + length s)
            (omega (arith, length-append pre (s ++ rest), length-append s rest)),
        le→ltb (i + length s) i (omega arith),
        slice_middle pre s rest i (i + length s) hi refl,
      )
      (and_then-Reads (to_string b s c) _ (to_string-Reads b s c w) (λ c' w'. (refl, w')))

read_len_prefixed-Reads :
    (pre s rest : Bytes) (i : ℕ) (b : Bool) (c : Cache)
    → i ≡ length pre
    → length s ≤ max_header_string_len
    → IsCache c
    → Reads (read_len_prefixed (pre ++ (prefixed s ++ rest)) i b c) (s, i + length (prefixed s))
unfolding read_len_prefixed read_length
read_len_prefixed-Reads pre s rest i b c hi hs w =
    let head : Bytes = uvarint_bytes 9 (length s) in
    rw
      (
        append_assoc head s rest,
        inside,
        drop-append pre _ i hi,
        uvarint-bytes (length s) (s ++ rest) (omega arith),
        ← append_assoc pre head (s ++ rest),
        end,
      )
      (read_string-Reads (pre ++ head) s rest (i + length head) b c
        (omega (arith, length-append pre head)) hs w)
  where
    inside : leb (length (pre ++ (uvarint_bytes 9 (length s) ++ (s ++ rest)))) i ≡ false
    inside = ground (
      arith,
      length-append pre (uvarint_bytes 9 (length s) ++ (s ++ rest)),
      length-append (uvarint_bytes 9 (length s)) (s ++ rest),
      length-uvarint_bytes 9 (length s),
    )

    end : i + length (prefixed s) ≡ i + length (uvarint_bytes 9 (length s)) + length s
    end = omega (arith, length-append (uvarint_bytes 9 (length s)) s)

-- The same at a slice that is known to have this form.
read_at :
    (buf pre s rest : Bytes) (i : ℕ) (b : Bool) (c : Cache)
    → buf ≡ pre ++ (prefixed s ++ rest)
    → i ≡ length pre
    → length s ≤ max_header_string_len
    → IsCache c
    → Reads (read_len_prefixed buf i b c) (s, i + length (prefixed s))
read_at buf pre s rest i b c e hi hs w = rw e (read_len_prefixed-Reads pre s rest i b c hi hs w)

strings : Header → Bytes → Bytes
strings h rest = prefixed h.service_name ++ (prefixed h.method_name ++ (prefixed h.error ++ rest))

read_strings-Reads :
    (h : Header) (pre rest : Bytes) (i : ℕ) (c : Cache)
    → i ≡ length pre
    → IsHeader h
    → IsCache c
    → Reads (read_strings (pre ++ strings h rest) i h.request_id h.codec_type h.compression c) h
unfolding read_strings strings
read_strings-Reads h pre rest i c hi v w =
    and_then-Reads _ _ (read_at _ pre h.service_name _ i true c refl hi v.service_fits w) (λ c₁ w₁.
      and_then-Reads _ _
        (read_at _ (pre ++ prefixed h.service_name) h.method_name (prefixed h.error ++ rest) _ true
          c₁ (simp append_assoc) (omega (arith, length-append pre (prefixed h.service_name)))
          v.method_fits w₁)
        (λ c₂ w₂.
          and_then-Reads _ _
            (read_at _ (pre ++ prefixed h.service_name ++ prefixed h.method_name) h.error rest _
              false c₂ (simp append_assoc)
              (omega (
                arith,
                length-append pre (prefixed h.service_name),
                length-append (pre ++ prefixed h.service_name) (prefixed h.method_name),
              ))
              v.error_fits w₂)
            (λ c₃ w₃. (refl, w₃))))

-- What appendHeaderBinary writes, bracketed to the right.
append_header_binary-strings :
    (dst : Bytes) (h : Header) (rest : Bytes)
    → append_header_binary dst h ++ rest
      ≡ dst ++ (uvarint_bytes 9 h.request_id ++ (h.codec_type ∷ h.compression ∷ strings h rest))
unfolding append_header_binary append_len_prefixed append_uvarint strings
append_header_binary-strings dst h rest = simp append_assoc

parse_strings-Reads :
    (h : Header) (rest : Bytes) (c : Cache)
    → IsHeader h
    → IsCache c
    → Reads
        (parse_header_binary
          (uvarint_bytes 9 h.request_id ++ (h.codec_type ∷ h.compression ∷ strings h rest))
          c)
        h
unfolding parse_header_binary parse_from_id read_after_id read_enums
parse_strings-Reads h rest c v w =
    let id : Bytes = uvarint_bytes 9 h.request_id in
    let enums : Bytes = h.codec_type ∷ h.compression ∷ [] in
    rw
      (
        uvarint-bytes h.request_id _ v.id_fits,
        drop-append id (enums ++ strings h rest) _ refl,
        ← append_assoc id enums (strings h rest),
      )
      (read_strings-Reads h (id ++ enums) rest _ c (omega (arith, length-append id enums)) v w)

-- Parsing what appendHeaderBinary wrote of a header, with strings of at most 1 MiB and numbers in the
-- range of their types, gives the header back, whatever bytes a later version appends behind it, and
-- keeps the interning cache faithful and bounded.
pub parse_header_binary-append_header_binary :
    (h : Header) (rest : Bytes) (c : Cache)
    → IsHeader h
    → IsCache c
    → Reads (parse_header_binary (append_header_binary [] h ++ rest) c) h
parse_header_binary-append_header_binary h rest c v w =
    rw (append_header_binary-strings [] h rest) (parse_strings-Reads h rest c v w)

pub append_header_binary-eq-append :
    (dst : Bytes) (h : Header) → append_header_binary dst h ≡ dst ++ append_header_binary [] h
unfolding append_header_binary append_len_prefixed append_uvarint
append_header_binary-eq-append dst h = simp append_assoc

-- The length that AppendEncoded reserves for a header is enough.
pub length-append_header_binary-le :
    (h : Header)
    → length h.service_name < 2 ^ 35
    → length h.method_name < 2 ^ 35
    → length h.error < 2 ^ 35
    → length (append_header_binary [] h) ≤ max_header_binary_len h
unfolding append_header_binary append_len_prefixed append_uvarint max_header_binary_len
length-append_header_binary-le h hs hm he = omega (
  arith,
  length-uvarint_bytes 9 h.request_id,
  length-uvarint_bytes-le 4 9 (length h.service_name),
  length-uvarint_bytes-le 4 9 (length h.method_name),
  length-uvarint_bytes-le 4 9 (length h.error),
  length-append {0},
)
