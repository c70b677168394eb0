-- ===== src/Server/Handler.antt =====
-- internal/server/handler.go. reflect's calls, the codecs and the texts of errors are a parameter;
-- values of Go are of two types, requests and replies. A slice that is given back to a pool is
-- of no effect.
pub mod Appending
pub mod Responses
pub mod Runs
use kama_rpc_go.Base.{
  ℕ, ltb, ◌++◌, codes, ◌==◌, if◌then◌else◌, Bool, true, false, [], Bytes, length, Option, none,
  some, Error, Result, ok, err, ◌>>=◌, method_not_found,
}
use kama_rpc_go.Codec.Registry.{Registry, get}
use kama_rpc_go.Codec.Compress.{compression_gzip}
use kama_rpc_go.Protocol.Header.{Header}
use kama_rpc_go.Protocol.Message.{Library, Message, append_encoded_binary}
use kama_rpc_go.Server.Service.{MethodEntry, ServiceEntry, lookup_method}

-- A codec's Marshal, Unmarshal and Type, reflect.New and Call, and Error() of the errors that others make.
pub record Runtime (Req Rep : Type 0) : Type 0 where
  pub unmarshal : ℕ → ℕ → Bytes → Result Req
  pub new_value : ℕ → Req
  pub call : ℕ → Req → Result Rep
  pub marshal : ℕ → Rep → Result Bytes
  pub codec_type : ℕ → ℕ
  pub error_text : Error → Bytes

pub record Handler : Type 0 where
  pub codec : ℕ

-- codecFor: the codec of the request's type, or the handler's own.
unfoldable pub codec_or : ℕ → Option ℕ → ℕ
codec_or codec none = codec
codec_or codec (some c) = c

unfoldable pub codec_for : Handler → Registry → ℕ → ℕ
unfolding codec_or
codec_for h reg t = codec_or h.codec (if t == 0 then none else get t reg)

unfoldable pub or_else : Bytes → Result Bytes → Bytes
or_else dst (ok out) = out
or_else dst (err e) = dst

abbrev pub error_header : ℕ → Bytes → Header
error_header request_id text = record {
  request_id = request_id;
  service_name = [];
  method_name = [];
  error = text;
  codec_type = 0;
  compression = compression_gzip;
}

unfoldable pub append_error_response : Library → Bytes → ℕ → Bytes → Bytes
unfolding or_else
append_error_response lib dst request_id text = or_else dst (
    append_encoded_binary lib dst
      (record { header = some (error_header request_id text); body = [] }))

module _ {Req Rep : Type 0} (rt : Runtime Req Rep) where
  -- Error(), with the text of invoke's own error.
  unfoldable pub error_text_of : Error → Bytes
  error_text_of (method_not_found service method) =
      codes "method not found: " ++ (service ++ (codes "." ++ method))
  error_text_of e = rt.error_text e

  -- The request's value, the call, and the reply that it filled in.
  unfoldable pub invoke_found : ℕ → Bytes → Bytes → Bytes → Option MethodEntry → Result Rep
  invoke_found c service method body none = err (method_not_found service method)
  invoke_found c service method body (some m) = do
    req ←
        (if ltb 0 (length body)
          then rt.unmarshal c m.req_type body
          else ok (rt.new_value m.req_type))
    rt.call m.fn req

  unfoldable pub invoke : ℕ → ServiceEntry → Bytes → Bytes → Result Rep
  unfolding invoke_found
  invoke c service method body =
      invoke_found c service.name method body (lookup_method service method)

  -- The header of a response without an error.
  abbrev pub response_header : ℕ → ℕ → Header
  response_header request_id c = record {
    request_id = request_id;
    service_name = [];
    method_name = [];
    error = [];
    codec_type = rt.codec_type c;
    compression = compression_gzip;
  }

  -- From AppendEncoded's result, Marshal's and invoke's on: each error becomes an error response.
  unfoldable pub respond_encoded : Library → Bytes → ℕ → Result Bytes → Bytes × Bool
  respond_encoded lib dst id (err e) = (append_error_response lib dst id (error_text_of e), true)
  respond_encoded lib dst id (ok out) = (out, false)

  unfoldable pub respond_marshalled : Library → Bytes → ℕ → ℕ → Result Bytes → Bytes × Bool
  unfolding respond_encoded
  respond_marshalled lib dst id c (err e) =
      (append_error_response lib dst id (error_text_of e), true)
  respond_marshalled lib dst id c (ok body) =
      respond_encoded lib dst id (
        append_encoded_binary lib dst
          (record { header = some (response_header id c); body = body }))

  -- `result != nil` always: invoke returns a pointer.
  unfoldable pub respond_invoked : Library → Bytes → ℕ → ℕ → Result Rep → Bytes × Bool
  unfolding respond_marshalled
  respond_invoked lib dst id c (err e) = (append_error_response lib dst id (error_text_of e), true)
  respond_invoked lib dst id c (ok rep) = respond_marshalled lib dst id c (rt.marshal c rep)

  -- AppendResponse, with whether the call failed.
  unfoldable pub append_response :
      Handler → Registry → Library → Bytes → Header → Bytes → ServiceEntry → Bytes × Bool
  unfolding respond_invoked
  append_response h reg lib dst msg body service =
      let c = codec_for h reg msg.codec_type in
      respond_invoked lib dst msg.request_id c (invoke c service msg.method_name body)
