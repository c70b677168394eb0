-- ===== src/Protocol/HeaderJson/Runs.antt =====
-- Runs of the JSON header, and the theorem at an input.
use kama_rpc_go.Base.{◌≡◌, refl, arith, [], ◌∷◌, ◌++◌, none, some, ok, err, foreign, codes}
use kama_rpc_go.Protocol.Header.{Header}
use kama_rpc_go.Protocol.Intern.{empty-IsCache, Reads}
use kama_rpc_go.Protocol.HeaderJson.Encode.{
  Json, append_header_json, append_fields, decimal, string_needs_escape, safe_json_byte,
}
use kama_rpc_go.Protocol.HeaderJson.Scan.{
  parse_uint, check_uint, span_digits, leading_zero, not_integer, skip_space,
}
use kama_rpc_go.Protocol.HeaderJson.Parse.{
  parse_header_fast, parse_header_json, fast_from, object_body, at_end, expect, fall_back,
}
use kama_rpc_go.Protocol.HeaderJson.RoundTrip.{
  IsPlain, json_text, parse_header_json-append_header_json,
}

abbrev sample : Header
sample = record {
  request_id = 12;
  service_name = codes "Arith";
  method_name = codes "Add";
  error = [];
  codec_type = 2;
  compression = 1;
}

-- An encoding/json that always fails: the hand-written paths do not need it.
abbrev no_json : Json
no_json = record { marshal = λ h. err (foreign 0); unmarshal = λ b. err (foreign 0) }

sample_run :
    append_header_json no_json [] sample
    ≡ ok (
        codes
          "{\"RequestID\":12,\"ServiceName\":\"Arith\",\"MethodName\":\"Add\",\"Error\":\"\",\"CodecType\":2,\"Compression\":1}")
unfolding append_header_json append_fields decimal string_needs_escape safe_json_byte
sample_run = refl

sample-IsPlain : IsPlain sample
unfolding string_needs_escape safe_json_byte
sample-IsPlain = record {
  id_fits = omega arith;
  codec_fits = omega arith;
  compression_fits = omega arith;
  service_plain = refl;
  method_plain = refl;
  error_plain = refl;
}

parse_header_json-append_header_json_example :
    (append_header_json no_json (1 ∷ []) sample ≡ ok ((1 ∷ []) ++ json_text sample))
    × Reads (parse_header_json no_json (json_text sample) []) sample
parse_header_json-append_header_json_example =
    parse_header_json-append_header_json no_json (1 ∷ []) sample [] sample-IsPlain empty-IsCache

-- A number with a leading zero, and a float, are left to encoding/json.
leading_zero_refused : parse_uint (codes "01,") ≡ none
unfolding parse_uint check_uint span_digits leading_zero
leading_zero_refused = refl

float_refused : parse_uint (codes "1e3,") ≡ none
unfolding parse_uint check_uint span_digits leading_zero not_integer
float_refused = refl

empty_object :
    (parse_header_fast (codes " { } ") []).0
    ≡ some (record {
      request_id = 0;
      service_name = [];
      method_name = [];
      error = [];
      codec_type = 0;
      compression = 0;
    })
unfolding parse_header_fast fast_from object_body at_end expect skip_space
empty_object = refl

fallen_back : parse_header_json no_json [] [] ≡ (err (foreign 0), [])
unfolding parse_header_json fall_back parse_header_fast fast_from expect skip_space
fallen_back = refl
