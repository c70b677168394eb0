-- ===== src/Server/Handler/Runs.antt =====
-- Runs of the handler, and its theorem at an input.
use kama_rpc_go.Base.{
  ◌≡◌, refl, arith, [], ◌∷◌, Bytes, ltb, if◌then◌else◌, true, false, ok, err, foreign, codes,
  lookup,
}
use kama_rpc_go.Codec.Compress.{storing, storing-IsGzip}
use kama_rpc_go.Codec.Registry.{no_codecs}
use kama_rpc_go.Protocol.Header.{Header}
use kama_rpc_go.Protocol.Uvarint.{append_uvarint, uvarint_bytes}
use kama_rpc_go.Protocol.HeaderBinary.{append_header_binary, append_len_prefixed}
use kama_rpc_go.Protocol.Message.{
  Library, append_encoded, append_with_header, append_frame, append_by_magic, overwrite,
  fixed_header, effective_compression,
}
use kama_rpc_go.Server.Service.{ServiceEntry, lookup_method}
use kama_rpc_go.Server.Handler.{
  Runtime, Handler, codec_for, codec_or, append_error_response, invoke, invoke_found,
  respond_encoded, respond_marshalled, respond_invoked, append_response,
}
use kama_rpc_go.Codec.Compress.{compress}
use kama_rpc_go.Server.Handler.{error_text_of}
use kama_rpc_go.Server.Handler.Responses.{
  called, request_value, IsRuntime, Answers, outcome, append_response-Answers,
}

-- Requests and replies are bytes as they are; method 0 answers with its request, and any other fails.
abbrev pub echo : Runtime Bytes Bytes
echo = record {
  unmarshal = λ c t b. ok b;
  new_value = λ t. [];
  call = λ fn b. if ltb 0 fn then err (foreign 0) else ok b;
  marshal = λ c b. ok b;
  codec_type = λ c. 0;
  error_text = λ e. codes "no";
}

abbrev pub lib : Library
lib = record {
  gzip = storing;
  json = record { marshal = λ h. err (foreign 0); unmarshal = λ b. err (foreign 0) };
}

abbrev pub service : ServiceEntry
service = record {
  name = codes "S";
  methods =
      (codes "M", record { fn = 0; req_type = 1; reply_type = 1 })
      ∷ (codes "F", record { fn = 1; req_type = 1; reply_type = 1 })
      ∷ [];
}

abbrev pub call_of : Bytes → Header
call_of method = record {
  request_id = 7;
  service_name = codes "S";
  method_name = method;
  error = [];
  codec_type = 0;
  compression = 0;
}

abbrev pub handler : Handler
handler = record { codec = 0 }

replies_run :
    append_response echo handler no_codecs lib (9 ∷ []) (call_of (codes "M")) (42 ∷ []) service
    ≡ (9 ∷ 0x4b ∷ 0x53 ∷ 0 ∷ 0 ∷ 0 ∷ 6 ∷ 0 ∷ 0 ∷ 0 ∷ 1 ∷ 7 ∷ 0 ∷ 0 ∷ 0 ∷ 0 ∷ 0 ∷ 42 ∷ [], false)
unfolding append_response codec_for codec_or invoke invoke_found lookup_method lookup
    respond_invoked respond_marshalled respond_encoded append_encoded append_with_header
    effective_compression append_frame append_by_magic overwrite fixed_header append_header_binary
    append_len_prefixed append_uvarint uvarint_bytes
replies_run = refl

fails_run :
    append_response echo handler no_codecs lib [] (call_of (codes "F")) [] service
    ≡ (append_error_response lib [] 7 (codes "no"), true)
unfolding append_response codec_for codec_or invoke invoke_found lookup_method lookup
    respond_invoked error_text_of
fails_run = refl

unknown_run :
    append_response echo handler no_codecs lib [] (call_of (codes "X")) [] service
    ≡ (append_error_response lib [] 7 (codes "method not found: S.X"), true)
unfolding append_response codec_for codec_or invoke invoke_found lookup_method lookup
    respond_invoked error_text_of
unknown_run = refl

pub echo-IsRuntime : IsRuntime echo
echo-IsRuntime = record { byte_types = λ c. omega arith }

replies_outcome :
    outcome echo handler no_codecs lib (call_of (codes "M")) (42 ∷ []) service ≡ ok (42 ∷ [])
unfolding outcome called request_value lookup compress effective_compression
replies_outcome = refl

append_response-Answers_example :
    Answers echo lib
      (9 ∷ [])
      7
      (codec_for handler no_codecs 0)
      (outcome echo handler no_codecs lib (call_of (codes "M")) (42 ∷ []) service)
      (append_response echo handler no_codecs lib (9 ∷ []) (call_of (codes "M")) (42 ∷ []) service)
append_response-Answers_example =
    append_response-Answers echo handler no_codecs lib (9 ∷ []) (call_of (codes "M")) (42 ∷ [])
      service echo-IsRuntime storing-IsGzip (omega arith) (rw replies_outcome tt)
      (rw replies_run (omega arith))
