-- ===== src/Server/Handler/Appending.antt =====
-- A response does not depend on the buffer that it is appended to.
use kama_rpc_go.Base.{
  ℕ, ◌≡◌, refl, sym, ap, ◌∙◌, arith, Bool, true, [], ◌++◌, Bytes, Result, ok, err, ◌>>=◌,
}
use kama_rpc_go.Codec.Compress.{compress}
use kama_rpc_go.Codec.Registry.{Registry}
use kama_rpc_go.Protocol.Header.{Header}
use kama_rpc_go.Protocol.Message.{Library}
use kama_rpc_go.Protocol.Message.Appending.{
  append_encoded_binary_lem, append_encoded_binary-small, binary_frame,
}
use kama_rpc_go.Protocol.Message.RoundTrip.{sent_header}
use kama_rpc_go.Server.Service.{ServiceEntry}
use kama_rpc_go.Server.Handler.{
  error_text_of, Runtime, Handler, codec_for, or_else, append_error_response, error_header, invoke,
  response_header, respond_encoded, respond_marshalled, respond_invoked, append_response,
}

pub append_error_response-eq-append :
    (lib : Library) (dst : Bytes) (id : ℕ) (text : Bytes)
    → append_error_response lib dst id text ≡ dst ++ append_error_response lib [] id text
unfolding append_error_response
append_error_response-eq-append lib dst id text =
    let h = error_header id text in
    let e = ap (or_else dst) (append_encoded_binary-small lib dst h [] (omega arith)) in
    let e' = ap (or_else []) (append_encoded_binary-small lib [] h [] (omega arith)) in
    e ∙ ap (λ t. dst ++ t) (sym e')

-- The flag, and the buffer behind `dst`.
abbrev behind : Bytes → Bytes × Bool → Bytes × Bool
behind dst r = (dst ++ r.0, r.1)

module _ {Req Rep : Type 0} (rt : Runtime Req Rep) (lib : Library) (dst : Bytes) (id : ℕ) where
  error-eq-append :
      (text : Bytes)
      → (append_error_response lib dst id text, true)
        ≡ behind dst (append_error_response lib [] id text, true)
  error-eq-append text = ap (λ t. (t, true)) (append_error_response-eq-append lib dst id text)

  respond_encoded-eq-append :
      (h : Header) (z : Result Bytes)
      → respond_encoded rt lib dst id (z >>= λ wire. ok (dst ++ binary_frame h wire))
        ≡ behind dst (respond_encoded rt lib [] id (z >>= λ wire. ok ([] ++ binary_frame h wire)))
  unfolding respond_encoded
  respond_encoded-eq-append h (err e) = error-eq-append (error_text_of rt e)
  respond_encoded-eq-append h (ok wire) = refl

  respond_marshalled-eq-append :
      (c : ℕ) (m : Result Bytes)
      → respond_marshalled rt lib dst id c m ≡ behind dst (respond_marshalled rt lib [] id c m)
  unfolding respond_marshalled
  respond_marshalled-eq-append c (err e) = error-eq-append (error_text_of rt e)
  respond_marshalled-eq-append c (ok body) =
      let h = response_header rt id c in
      rw (append_encoded_binary_lem lib dst h body, append_encoded_binary_lem lib [] h body)
        (respond_encoded-eq-append (sent_header h body)
          (compress lib.gzip body (sent_header h body).compression))

  respond_invoked-eq-append :
      (c : ℕ) (rep : Result Rep)
      → respond_invoked rt lib dst id c rep ≡ behind dst (respond_invoked rt lib [] id c rep)
  unfolding respond_invoked
  respond_invoked-eq-append c (err e) = error-eq-append (error_text_of rt e)
  respond_invoked-eq-append c (ok rep) = respond_marshalled-eq-append c (rt.marshal c rep)

pub append_response-eq-append :
    {Req Rep : Type 0} (rt : Runtime Req Rep) (h : Handler) (reg : Registry) (lib : Library)
    (dst : Bytes) (msg : Header) (body : Bytes) (service : ServiceEntry)
    → append_response rt h reg lib dst msg body service ≡ (
      dst ++ (append_response rt h reg lib [] msg body service).0,
      (append_response rt h reg lib [] msg body service).1,
    )
unfolding append_response
append_response-eq-append rt h reg lib dst msg body service =
    respond_invoked-eq-append rt lib dst msg.request_id (codec_for h reg msg.codec_type)
      (invoke rt (codec_for h reg msg.codec_type) service msg.method_name body)
