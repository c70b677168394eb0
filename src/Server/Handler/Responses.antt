-- ===== src/Server/Handler/Responses.antt =====
-- Every request gets one response, which the client reads back.
use kama_rpc_go.Base.{
  ℕ, ◌<◌, ◌≤◌, ◌^◌, ◌≡◌, refl, sym, ap, ◌∙◌, arith, inl, drop, drop-append, Bool, true, false, [],
  ◌++◌, ◌∷◌, Option, none, ltb, lookup, bytes_eq, method_not_found, Bytes, IsByte, length, some,
  Error, Result, ok, err, ◌>>=◌,
}
use kama_rpc_go.Codec.Compress.{IsGzip, compress}
use kama_rpc_go.Codec.Registry.{Registry}
use kama_rpc_go.Protocol.Header.{Header, IsHeader, max_header_string_len, magic_binary_header}
use kama_rpc_go.Protocol.Intern.{Cache, IsCache, empty-IsCache, Reads}
use kama_rpc_go.Protocol.Message.{
  Library, Message, append_encoded_binary, effective_compression, decode,
}
use kama_rpc_go.Protocol.Message.Appending.{
  append_encoded_binary_lem, append_encoded_binary-small, binary_frame,
}
use kama_rpc_go.Protocol.Message.Framing.{IsPacket}
use kama_rpc_go.Protocol.Message.RoundTrip.{sent_header, decode-append_encoded}
use kama_rpc_go.Server.Service.{ServiceEntry, MethodEntry, lookup_method}
use kama_rpc_go.Server.Handler.{
  Runtime, Handler, codec_for, or_else, error_text_of, invoke_found, append_error_response,
  error_header, invoke, response_header, respond_encoded, respond_marshalled, respond_invoked,
  append_response,
}

-- What a run appended to `dst`: one packet, which decodes to the message, whatever follows it.
abbrev pub Appends : Library → Bytes → Bytes → Message → Type 0
Appends lib dst out m =
    (frame : Bytes) × (out ≡ dst ++ frame)
    × IsPacket frame
    × ((rest : Bytes) (c : Cache) → IsCache c → Reads (decode lib (frame ++ rest) c) m)

-- The messages that the responses stand for: an error's text, or the reply's bytes.
abbrev pub error_message : ℕ → Bytes → Message
error_message id text = record { header = some (sent_header (error_header id text) []); body = [] }

pub append_encoded_binary-Appends :
    (lib : Library) (dst out : Bytes) (h : Header) (body : Bytes)
    → IsGzip lib.gzip
    → IsHeader h
    → append_encoded_binary lib dst (record { header = some h; body = body }) ≡ ok out
    → length out < 2 ^ 32
    → Appends lib dst out (record { header = some (sent_header h body); body = body })
append_encoded_binary-Appends lib dst out h body g v e small =
    let at = λ (rest : Bytes) (c : Cache) (w : IsCache c).
      decode-append_encoded lib dst magic_binary_header h body out rest c g w (inl (refl, v)) e
        small in
    let (frame, eq, packet, _) = at [] [] empty-IsCache in
    (
      frame,
      eq,
      packet,
      λ rest c w.
          let (frame', eq', packet', reads) = at rest c w in
          let same : frame ≡ frame' =
            sym (drop-append dst frame (length dst) refl)
            ∙ ap (drop (length dst)) (sym eq ∙ eq')
            ∙ drop-append dst frame' (length dst) refl in
          rw same reads,
    )

pub append_error_response-Appends :
    (lib : Library) (dst : Bytes) (id : ℕ) (text : Bytes)
    → IsGzip lib.gzip
    → id < 2 ^ 64
    → length text ≤ max_header_string_len
    → length (append_error_response lib dst id text) < 2 ^ 32
    → Appends lib dst (append_error_response lib dst id text) (error_message id text)
unfolding append_error_response
append_error_response-Appends lib dst id text g fits short small =
    let e = append_encoded_binary-small lib dst (error_header id text) [] (omega arith) in
    let o = ap (or_else dst) e in
    rw o (
      append_encoded_binary-Appends lib dst _ (error_header id text) [] g (omega arith) e
        (rw o at small))

-- Whether the handler has an error to report, and the message of its response.
abbrev pub is_err : Result Bytes → Bool
is_err (ok b) = false
is_err (err e) = true

module _ {Req Rep : Type 0} (rt : Runtime Req Rep) where
  -- The request's value: the body's, or without a body a new one.
  unfoldable pub request_value : ℕ → MethodEntry → Bytes → Result Req
  request_value c m [] = ok (rt.new_value m.req_type)
  request_value c m (x ∷ body) = rt.unmarshal c m.req_type (x ∷ body)

  -- What the call of a method returns, if it is there.
  unfoldable pub called : ℕ → ServiceEntry → Bytes → Bytes → Option MethodEntry → Result Rep
  unfolding request_value
  called c service method body none = err (method_not_found service.name method)
  called c service method body (some m) = request_value c m body >>= rt.call m.fn

  -- What comes of a request: the reply's bytes, if it can be called, encoded and compressed.
  unfoldable pub outcome :
      Handler → Registry → Library → Header → Bytes → ServiceEntry → Result Bytes
  unfolding called
  outcome h reg lib msg body service = do
    let c = codec_for h reg msg.codec_type
    rep ← called c service msg.method_name body (lookup msg.method_name service.methods)
    b ← rt.marshal c rep
    _ ← compress lib.gzip b (effective_compression 1 b)
    ok b

  called-invoke_found :
      (c : ℕ) (service : ServiceEntry) (method body : Bytes) (m : Option MethodEntry)
      → invoke_found rt c service.name method body m ≡ called c service method body m
  unfolding invoke_found called request_value
  called-invoke_found c service method body none = refl
  called-invoke_found c service method [] (some m) = refl
  called-invoke_found c service method (x ∷ body) (some m) =
      let there : ltb 0 (length (x ∷ body)) ≡ true = ground arith in rw there

  -- invoke unmarshals the body, if there is one, and calls the method, if there is one.
  invoke-called :
      (c : ℕ) (service : ServiceEntry) (method body : Bytes)
      → invoke rt c service method body
        ≡ called c service method body (lookup method service.methods)
  unfolding invoke lookup_method
  invoke-called c service method body =
      called-invoke_found c service method body (lookup method service.methods)

  unfoldable pub response_to : ℕ → ℕ → Result Bytes → Message
  response_to id c (err e) = error_message id (error_text_of rt e)
  response_to id c (ok b) = record {
    header = some (sent_header (response_header rt id c) b);
    body = b;
  }

  -- What is relied on of the environment: the types of codecs are bytes.
  pub record IsRuntime : Type 0 where
    pub byte_types : (c : ℕ) → IsByte (rt.codec_type c)

  -- The header can carry the text of the error, if there is one.
  abbrev pub Fits : Result Bytes → Type 0
  Fits (ok b) = Unit {0}
  Fits (err e) = length (error_text_of rt e) ≤ max_header_string_len

  -- A pair of the buffer and the flag that stands for an outcome.
  abbrev pub Answers : Library → Bytes → ℕ → ℕ → Result Bytes → Bytes × Bool → Type 0
  Answers lib dst id c o r = Appends lib dst r.0 (response_to id c o) × (r.1 ≡ is_err o)

  error-Answers :
      (lib : Library) (dst : Bytes) (id c : ℕ) (e : Error)
      → Fits (err e)
      → IsGzip lib.gzip
      → id < 2 ^ 64
      → length (append_error_response lib dst id (error_text_of rt e)) < 2 ^ 32
      → Answers lib dst id c (err e) (append_error_response lib dst id (error_text_of rt e), true)
  unfolding response_to
  error-Answers lib dst id c e short g fits small =
      (append_error_response-Appends lib dst id (error_text_of rt e) g fits short small, refl)

  respond_encoded-Answers :
      (lib : Library) (dst : Bytes) (id c : ℕ) (b : Bytes) (z : Result Bytes)
      → IsRuntime
      → IsGzip lib.gzip
      → id < 2 ^ 64
      → compress lib.gzip b (effective_compression 1 b) ≡ z
      → Fits (z >>= λ _. ok b)
      → (let r = respond_encoded rt lib dst id (
            z >>= λ wire.
            ok (dst ++ binary_frame (sent_header (response_header rt id c) b) wire)) in
          length r.0 < 2 ^ 32 → Answers lib dst id c (z >>= λ _. ok b) r)
  unfolding respond_encoded response_to
  respond_encoded-Answers lib dst id c b (err e) v g fits q short small =
      error-Answers lib dst id c e short g fits small
  respond_encoded-Answers lib dst id c b (ok wire) v g fits q short small =
      let h = response_header rt id c in
      let valid : IsHeader h = record {
        id_fits = fits;
        codec_fits = v.byte_types c;
        compression_fits = omega arith;
        service_fits = omega arith;
        method_fits = omega arith;
        error_fits = omega arith;
      } in
      let e =
        append_encoded_binary_lem lib dst h b
        ∙ ap (λ (z : Result Bytes). z >>= λ w. ok (dst ++ binary_frame (sent_header h b) w)) q in
      (append_encoded_binary-Appends lib dst _ h b g valid e small, refl)

  respond_marshalled-Answers :
      (lib : Library) (dst : Bytes) (id c : ℕ) (m : Result Bytes)
      → IsRuntime
      → IsGzip lib.gzip
      → id < 2 ^ 64
      → Fits (m >>= λ b. compress lib.gzip b (effective_compression 1 b) >>= λ _. ok b)
      → length (respond_marshalled rt lib dst id c m).0 < 2 ^ 32
      → Answers lib dst id c
          (m >>= λ b. compress lib.gzip b (effective_compression 1 b) >>= λ _. ok b)
          (respond_marshalled rt lib dst id c m)
  unfolding respond_marshalled
  respond_marshalled-Answers lib dst id c (err e) v g fits short small =
      error-Answers lib dst id c e short g fits small
  respond_marshalled-Answers lib dst id c (ok b) v g fits short small =
      let e = append_encoded_binary_lem lib dst (response_header rt id c) b in
      rw e (
        respond_encoded-Answers lib dst id c b (compress lib.gzip b (effective_compression 1 b)) v g
          fits refl short (rw e at small))

  respond_invoked-Answers :
      (lib : Library) (dst : Bytes) (id c : ℕ) (rep : Result Rep)
      → IsRuntime
      → IsGzip lib.gzip
      → id < 2 ^ 64
      → Fits (
          rep >>= λ x.
          rt.marshal c x >>= λ b. compress lib.gzip b (effective_compression 1 b) >>= λ _. ok b)
      → length (respond_invoked rt lib dst id c rep).0 < 2 ^ 32
      → Answers lib dst id c
          (rep >>= λ x.
            rt.marshal c x >>= λ b. compress lib.gzip b (effective_compression 1 b) >>= λ _. ok b)
          (respond_invoked rt lib dst id c rep)
  unfolding respond_invoked
  respond_invoked-Answers lib dst id c (err e) v g fits short small =
      error-Answers lib dst id c e short g fits small
  respond_invoked-Answers lib dst id c (ok rep) v g fits short small =
      respond_marshalled-Answers lib dst id c (rt.marshal c rep) v g fits short small

  -- Whatever happens to a request (a codec that fails, an unknown method, an error of the call, a
  -- reply that cannot be encoded), AppendResponse appends one frame to what stands in the
  -- buffer, which decodes to a message with the request's id: the reply's bytes, or the error's
  -- text; and it reports a failure in the second case exactly. The text of the error, if there is
  -- one, is of 1 MiB at most, codec types are bytes, and the buffer stays below 2 ^ 32 bytes.
  pub append_response-Answers :
      (h : Handler) (reg : Registry) (lib : Library) (dst : Bytes) (msg : Header) (body : Bytes)
      (service : ServiceEntry)
      → IsRuntime
      → IsGzip lib.gzip
      → msg.request_id < 2 ^ 64
      → Fits (outcome h reg lib msg body service)
      → length (append_response rt h reg lib dst msg body service).0 < 2 ^ 32
      → Answers lib dst msg.request_id
          (codec_for h reg msg.codec_type)
          (outcome h reg lib msg body service)
          (append_response rt h reg lib dst msg body service)
  unfolding append_response outcome
  append_response-Answers h reg lib dst msg body service v g fits short small =
      let c = codec_for h reg msg.codec_type in
      let e = invoke-called c service msg.method_name body in
      rw e (
        respond_invoked-Answers lib dst msg.request_id c
          (called c service msg.method_name body (lookup msg.method_name service.methods)) v g fits
          short (rw e at small))
