-- ===== src/Protocol/HeaderJson/RoundTrip.antt =====
-- header_json.go: the fast parser reads back what the hand-written encoder wrote.
use kama_rpc_go.Base.{
  ℕ, suc, ◌≤◌, ◌<◌, ◌^◌, ◌≡◌, refl, ap, ◌∙◌, arith, false, [], ◌∷◌, ◌++◌, Bytes, some, append_assoc,
  ok, codes, IsByte, lt→ltb,
}
use kama_rpc_go.Protocol.Header.{Header, zero_header}
use kama_rpc_go.Protocol.Intern.{Reads, Cache, IsCache, intern_bytes, intern_bytes-IsCache}
use kama_rpc_go.Protocol.HeaderJson.Encode.{
  Json, string_needs_escape, decimal, append_fields, append_header_json,
}
use kama_rpc_go.Protocol.HeaderJson.Scan.{skip_space, scan_raw, parse_raw_bytes}
use kama_rpc_go.Protocol.HeaderJson.Parse.{
  Member, text_member, number_member, expect, read_value, read_member, assign, after_value,
  member_end, fast_end, done, again, members, object_body, fast_from, parse_header_fast, fall_back,
  parse_header_json, at_end,
}
use kama_rpc_go.Protocol.HeaderJson.Scanning.{
  parse_raw_bytes-quoted, IsStop, parse_uint-decimal, skip_space-decimal,
}

-- A header whose strings the hand-written encoder writes as they are.
pub record IsPlain (h : Header) : Type 0 where
  pub id_fits : h.request_id < 2 ^ 64
  pub codec_fits : IsByte h.codec_type
  pub compression_fits : IsByte h.compression
  pub service_plain : string_needs_escape h.service_name ≡ false
  pub method_plain : string_needs_escape h.method_name ≡ false
  pub error_plain : string_needs_escape h.error ≡ false

-- The text of a header, bracketed to the right, from each member on.
abbrev compression_text : Header → Bytes → Bytes
compression_text h rest =
    codes "\"Compression\":" ++ (decimal 19 h.compression ++ (codes "}" ++ rest))

abbrev codec_text : Header → Bytes → Bytes
codec_text h rest =
    codes "\"CodecType\":" ++ (decimal 19 h.codec_type ++ (codes "," ++ compression_text h rest))

abbrev error_text : Header → Bytes → Bytes
error_text h rest = codes "\"Error\":\"" ++ (h.error ++ (codes "\"," ++ codec_text h rest))

abbrev method_text : Header → Bytes → Bytes
method_text h rest =
    codes "\"MethodName\":\"" ++ (h.method_name ++ (codes "\"," ++ error_text h rest))

abbrev service_text : Header → Bytes → Bytes
service_text h rest =
    codes "\"ServiceName\":\"" ++ (h.service_name ++ (codes "\"," ++ method_text h rest))

abbrev id_text : Header → Bytes → Bytes
id_text h rest =
    codes "\"RequestID\":" ++ (decimal 19 h.request_id ++ (codes "," ++ service_text h rest))

append_fields-text : (dst : Bytes) (h : Header) → append_fields dst h ≡ dst ++ (b'{' ∷ id_text h [])
unfolding append_fields
append_fields-text dst h = simp append_assoc

read_text :
    (m : Bytes → Member) (s rest : Bytes)
    → string_needs_escape s ≡ false
    → text_member m (b'"' ∷ (s ++ (b'"' ∷ rest))) ≡ some (m s, rest)
unfolding text_member
read_text m s rest h = rw (parse_raw_bytes-quoted s rest h)

read_number :
    (m : ℕ → Member) (bound v c : ℕ) (rest : Bytes)
    → v < bound
    → bound ≤ 2 ^ 64
    → IsStop c
    → number_member m bound (decimal 19 v ++ (c ∷ rest)) ≡ some (m v, c ∷ rest)
unfolding number_member
read_number m bound v c rest h b stop =
    rw (parse_uint-decimal v c rest (omega arith) stop, lt→ltb v bound h)

comma-IsStop : IsStop b','
comma-IsStop = record { no_digit = refl; no_float = refl }

brace-IsStop : IsStop b'}'
brace-IsStop = record { no_digit = refl; no_float = refl }

module _ (h : Header) (rest : Bytes) (p : IsPlain h) where
  id_member :
      read_member (id_text h rest)
      ≡ some (Member.request_id h.request_id, codes "," ++ service_text h rest)
  unfolding read_member parse_raw_bytes scan_raw skip_space expect read_value
  id_member =
      rw (skip_space-decimal h.request_id) (
        read_number Member.request_id (2 ^ 64) h.request_id _ _ p.id_fits (omega arith)
          comma-IsStop)

  service_member :
      read_member (service_text h rest)
      ≡ some (Member.service h.service_name, codes "," ++ method_text h rest)
  unfolding read_member parse_raw_bytes scan_raw skip_space expect read_value
  service_member = read_text Member.service h.service_name _ p.service_plain

  method_member :
      read_member (method_text h rest)
      ≡ some (Member.method h.method_name, codes "," ++ error_text h rest)
  unfolding read_member parse_raw_bytes scan_raw skip_space expect read_value
  method_member = read_text Member.method h.method_name _ p.method_plain

  error_member :
      read_member (error_text h rest) ≡ some (Member.error h.error, codes "," ++ codec_text h rest)
  unfolding read_member parse_raw_bytes scan_raw skip_space expect read_value
  error_member = read_text Member.error h.error _ p.error_plain

  codec_member :
      read_member (codec_text h rest)
      ≡ some (Member.codec h.codec_type, codes "," ++ compression_text h rest)
  unfolding read_member parse_raw_bytes scan_raw skip_space expect read_value
  codec_member =
      rw (skip_space-decimal h.codec_type)
        (read_number Member.codec 256 h.codec_type _ _ p.codec_fits (omega arith) comma-IsStop)

  compression_member :
      read_member (compression_text h rest)
      ≡ some (Member.compression h.compression, codes "}" ++ rest)
  unfolding read_member parse_raw_bytes scan_raw skip_space expect read_value
  compression_member = rw (skip_space-decimal h.compression) (
      read_number Member.compression 256 h.compression _ _ p.compression_fits (omega arith)
        brace-IsStop)

-- One round of the loop that goes on, and one that ends it.
members-again :
    (fuel : ℕ) (buf after next : Bytes) (m : Member) (h : Header) (c : Cache)
    → read_member buf ≡ some (m, after)
    → after_value (skip_space after) ≡ again next
    → members (suc fuel) buf h c ≡ members fuel next (assign m h c).0 (assign m h c).1
unfolding members member_end fast_end
members-again fuel buf after next m h c e f = rw (e, f)

members-done :
    (fuel : ℕ) (buf after : Bytes) (m : Member) (h : Header) (c : Cache)
    → read_member buf ≡ some (m, after)
    → after_value (skip_space after) ≡ done
    → members (suc fuel) buf h c ≡ (some (assign m h c).0, (assign m h c).1)
unfolding members member_end fast_end
members-done fuel buf after m h c e f = rw (e, f)

-- The two names go through the interning cache.
abbrev cache_service : Header → Cache → Cache
cache_service h c = (intern_bytes h.service_name c).1

abbrev interned : Header → Cache → Header
interned h c = record h {
  service_name = (intern_bytes h.service_name c).0;
  method_name = (intern_bytes h.method_name (cache_service h c)).0;
}

members-text :
    (h : Header) (c : Cache) (fuel : ℕ)
    → IsPlain h
    → members (suc (suc (suc (suc (suc (suc fuel)))))) (id_text h []) zero_header c
      ≡ (some (interned h c), (intern_bytes h.method_name (cache_service h c)).1)
unfolding assign skip_space after_value at_end
members-text h c fuel p =
    members-again _ _ _ _ _ _ c (id_member h [] p) refl
    ∙ members-again _ _ _ _ _ _ c (service_member h [] p) refl
    ∙ members-again _ _ _ _ _ _ (cache_service h c) (method_member h [] p) refl
    ∙ members-again _ _ _ _ _ _ _ (error_member h [] p) refl
    ∙ members-again _ _ _ _ _ _ _ (codec_member h [] p) refl
    ∙ members-done _ _ _ _ _ _ (compression_member h [] p) refl

parse_header_fast-text :
    (h : Header) (c : Cache)
    → IsPlain h
    → parse_header_fast (b'{' ∷ id_text h []) c
      ≡ (some (interned h c), (intern_bytes h.method_name (cache_service h c)).1)
unfolding parse_header_fast expect skip_space fast_from object_body
parse_header_fast-text h c p = members-text h c _ p

append_header_json-text :
    (j : Json) (dst : Bytes) (h : Header)
    → IsPlain h
    → append_header_json j dst h ≡ ok (dst ++ (b'{' ∷ id_text h []))
unfolding append_header_json
append_header_json-text j dst h p =
    rw (p.service_plain, p.method_plain, p.error_plain) (ap ok (append_fields-text dst h))

fall_back-interned :
    (j : Json) (h : Header) (c : Cache)
    → IsPlain h
    → IsCache c
    → Reads (parse_header_json j (b'{' ∷ id_text h []) c) h
unfolding parse_header_json fall_back
fall_back-interned j h c p w =
    let (e, w₁) = intern_bytes-IsCache h.service_name c w in
    let (e', w₂) = intern_bytes-IsCache h.method_name (cache_service h c) w₁ in
    rw (parse_header_fast-text h c p) (rw (e, e'), w₂)

-- The bytes that appendHeaderJSON adds for a plain header.
abbrev pub json_text : Header → Bytes
json_text h = b'{' ∷ id_text h []

-- For a header whose strings need no escape, appendHeaderJSON appends a text that does not depend
-- on encoding/json, and parseHeaderJSON reads it back, whatever encoding/json does, and keeps the
-- interning cache faithful and bounded.
pub parse_header_json-append_header_json :
    (j : Json) (dst : Bytes) (h : Header) (c : Cache)
    → IsPlain h
    → IsCache c
    → (append_header_json j dst h ≡ ok (dst ++ json_text h))
      × Reads (parse_header_json j (json_text h) c) h
parse_header_json-append_header_json j dst h c p w =
    (append_header_json-text j dst h p, fall_back-interned j h c p w)
