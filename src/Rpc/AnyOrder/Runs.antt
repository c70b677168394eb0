-- ===== src/Rpc/AnyOrder/Runs.antt =====
-- A slow call and a quick one: the goroutine's answer comes last.
use kama_rpc_go.Base.{
  ◌≡◌, refl, arith, if◌then◌else◌, List, [], ◌∷◌, Bytes, none, map, flatten, All,
}
use kama_rpc_go.Protocol.Uvarint.{append_uvarint, uvarint_bytes}
use kama_rpc_go.Protocol.HeaderBinary.{append_header_binary, append_len_prefixed}
use kama_rpc_go.Protocol.Message.{
  append_encoded, append_with_header, append_frame, append_by_magic, overwrite, fixed_header,
  effective_compression,
}
use kama_rpc_go.Server.Service.{lookup_method}
use kama_rpc_go.Server.Handler.{
  codec_for, codec_or, append_error_response, or_else, invoke, invoke_found, respond_encoded,
  respond_marshalled, respond_invoked, append_response,
}
use kama_rpc_go.Server.Loop.{Round}
use kama_rpc_go.Server.Loop.Batching.{reply_found, reply}
use kama_rpc_go.Transport.TcpClient.Answers.{waits_for}
use kama_rpc_go.Transport.TcpClient.Batch.{among}
use kama_rpc_go.Transport.TcpClient.ReadLoop.{Distinct, read_loop}
use kama_rpc_go.Rpc.Serving.{arrived}
use kama_rpc_go.Rpc.Endings.{delivered}
use kama_rpc_go.Server.Loop.Goroutines.{process}
use kama_rpc_go.Rpc.AnyOrder.{
  Served, served_id, answer_bytes, bytes_to, ending_at, IsServed, answers_complete,
}
use kama_rpc_go.Base.{lookup, bytes_eq, append-nil}
use kama_rpc_go.Codec.Compress.{storing-IsGzip}
use kama_rpc_go.Codec.Registry.{no_codecs}
use kama_rpc_go.Protocol.Intern.{empty-IsCache}
use kama_rpc_go.Server.Handler.Runs.{echo, lib, handler, echo-IsRuntime}
use kama_rpc_go.Rpc.Session.{read_packets}
use kama_rpc_go.Codec.Compress.{compress}
use kama_rpc_go.Server.Handler.{error_text_of}
use kama_rpc_go.Server.Handler.Responses.{outcome, called, request_value}
use kama_rpc_go.Rpc.Endings.{gives, ending, ending_found, ending_of}
use kama_rpc_go.Rpc.Runs.{second_ending, services, round, first, second, client, client-Waits}

-- The first call, to a slow service: the goroutine's answer comes after the second's.
abbrev slow_round : Round
slow_round = record round { avg_cost = 1000000 }

abbrev behind : Served
behind = record { request = arrived first; future = 5; round = slow_round }

abbrev ahead : Served
ahead = record { request = arrived second; future = 6; round = round }

behind-bytes :
    bytes_to echo handler no_codecs lib services behind
    ≡ 0x4b ∷ 0x53 ∷ 0 ∷ 0 ∷ 0 ∷ 6 ∷ 0 ∷ 0 ∷ 0 ∷ 1 ∷ 1 ∷ 0 ∷ 0 ∷ 0 ∷ 0 ∷ 0 ∷ 42 ∷ []
unfolding answer_bytes process reply reply_found append_response codec_for codec_or invoke
    invoke_found lookup_method lookup respond_invoked respond_marshalled respond_encoded
    append_encoded append_with_header effective_compression append_frame append_by_magic overwrite
    fixed_header append_header_binary append_len_prefixed append_uvarint uvarint_bytes
behind-bytes = refl

ahead-bytes :
    bytes_to echo handler no_codecs lib services ahead
    ≡ 0x4b ∷ 0x53 ∷ 0 ∷ 0 ∷ 0 ∷ 8 ∷ 0 ∷ 0 ∷ 0 ∷ 0 ∷ 2 ∷ 0 ∷ 0 ∷ 0 ∷ 0 ∷ 2 ∷ 110 ∷ 111 ∷ []
unfolding answer_bytes reply reply_found append_response codec_for codec_or invoke invoke_found
    lookup_method lookup respond_invoked error_text_of append_error_response or_else append_encoded
    append_with_header effective_compression append_frame append_by_magic overwrite fixed_header
    append_header_binary append_len_prefixed append_uvarint uvarint_bytes
ahead-bytes = refl

abbrev swapped : List Served
swapped = ahead ∷ behind ∷ []

behind_ending : ending_at echo handler no_codecs lib services behind ≡ gives (42 ∷ [])
unfolding ending ending_found ending_of outcome called request_value lookup compress
    effective_compression
behind_ending = refl

served : All (IsServed echo handler no_codecs lib services) swapped
served = (
  record {
    id_fits = omega arith;
    short = rw second_ending (omega arith);
    response_fits = rw ahead-bytes (omega arith);
  },
  (
    record {
      id_fits = omega arith;
      short = rw behind_ending tt;
      response_fits = rw behind-bytes (omega arith);
    },
    tt,
  ),
)

abbrev swapped_answers : Bytes
swapped_answers = flatten (map (bytes_to echo handler no_codecs lib services) swapped)

swapped_down : flatten (swapped_answers ∷ []) ≡ swapped_answers
unfolding flatten
swapped_down = append-nil swapped_answers

swapped-Distinct : Distinct (map served_id swapped)
unfolding among
swapped-Distinct = (refl, (refl, tt))

answers_complete_example :
    let r = read_loop lib (read_packets (λ c n. n) (swapped_answers ∷ [])) [] client in
    (r.0
      ≡ map
          (λ (k : Served). delivered k.future (ending_at echo handler no_codecs lib services k))
          swapped)
    × (waits_for r.1 1 ≡ (if among 1 (map served_id swapped) then none else waits_for client 1))
answers_complete_example =
    answers_complete echo handler no_codecs lib services (λ c n. n) swapped (swapped_answers ∷ [])
      [] client 1 (λ c n. omega arith) echo-IsRuntime storing-IsGzip empty-IsCache served
      swapped-Distinct (client-Waits.1.0, (client-Waits.0, tt)) swapped_down
