-- ===== src/Rpc/Runs.antt =====
-- Two calls on one connection, over sockets that cut up the streams.
use kama_rpc_go.Base.{◌++◌}
use kama_rpc_go.Base.{
  ℕ, ◌<◌, ◌^◌, ◌≡◌, refl, arith, if◌then◌else◌, true, List, [], ◌∷◌, Bytes, length, none, some, ok,
  map, flatten, All,
}
use kama_rpc_go.Protocol.Uvarint.{append_uvarint, uvarint_bytes}
use kama_rpc_go.Protocol.HeaderBinary.{append_header_binary, append_len_prefixed}
use kama_rpc_go.Protocol.Message.{
  append_encoded_binary, append_encoded, append_with_header, append_frame, append_by_magic,
  overwrite, fixed_header, effective_compression,
}
use kama_rpc_go.Server.Service.{ServiceEntry, lookup_method}
use kama_rpc_go.Server.Handler.{
  codec_for, codec_or, append_error_response, or_else, invoke, invoke_found, respond_encoded,
  respond_marshalled, respond_invoked, append_response,
}
use kama_rpc_go.Codec.Compress.{compress}
use kama_rpc_go.Base.{conn_closed, err, false}
use kama_rpc_go.Server.Handler.{error_text_of}
use kama_rpc_go.Server.Handler.Responses.{outcome, called, request_value}
use kama_rpc_go.Rpc.Endings.{IsShort, gives, tells, ending, ending_found, ending_of}
use kama_rpc_go.Rpc.Serving.{IsLast}
use kama_rpc_go.Server.Loop.{Round, serve}
use kama_rpc_go.Server.Loop.Batching.{reply_found, reply}
use kama_rpc_go.Server.Loop.InOrder.{bytes_of}
use kama_rpc_go.Server.Loop.Receiving.{receive}
use kama_rpc_go.Transport.TcpClient.{TcpClient}
use kama_rpc_go.Transport.TcpClient.Answers.{waits_for}
use kama_rpc_go.Transport.Pending.{store}
use kama_rpc_go.Transport.Pending.Table.{waiting}
use kama_rpc_go.Transport.TcpClient.Batch.{among}
use kama_rpc_go.Transport.TcpClient.ReadLoop.{Distinct, read_loop}
use kama_rpc_go.Rpc.Serving.{
  Call, arrived, call_bytes, call_rounds, call_ids, idle, ending_to, IsCall,
}
use kama_rpc_go.Rpc.Endings.{delivered}
use kama_rpc_go.Base.{codes, lookup, bytes_eq, insert, append-nil}
use kama_rpc_go.Codec.Compress.{storing-IsGzip}
use kama_rpc_go.Codec.Registry.{no_codecs}
use kama_rpc_go.Protocol.Intern.{empty-IsCache}
use kama_rpc_go.Server.Handler.Runs.{echo, lib, service, handler, call_of, echo-IsRuntime}
use kama_rpc_go.Protocol.Intern.{Reads}
use kama_rpc_go.Protocol.Message.{decode}
use kama_rpc_go.Protocol.Message.RoundTrip.{sent_header}
use kama_rpc_go.Transport.Connection.{wrote, flush, flush_from}
use kama_rpc_go.Transport.Connection.GroupCommit.{
  Write, no_writes, write_raw, flushed, own_flushed, take_turn, take_batch, Event, enters, flushes,
  locks, step, run,
}
use kama_rpc_go.Transport.Connection.GroupCommit.Messages.{write, write_delivers}
use mathlib.Core.List.{Memᴰ}
use kama_rpc_go.Rpc.Session.{read_packets, Waits, calls_complete}
use kama_rpc_go.Transport.TcpClient.{new_tcp_client, begin_send, register}

abbrev pub services : List (Bytes × ServiceEntry)
services = (codes "S", service) ∷ []

abbrev pub round : Round
round = record {
  buffered = true;
  read = ok (record { header = call_of []; body = [] });
  allowed = true;
  avg_cost = 0;
  elapsed = 3;
  head_written = true;
  written = true;
}

abbrev call_with : ℕ → Bytes → Bytes → ℕ → Call
call_with id method bytes future = record {
  request = record { header = record (call_of method) { request_id = id }; body = 42 ∷ [] };
  bytes = bytes;
  future = future;
  round = round;
}

-- The method M answers, and F fails.
abbrev pub first : Call
first =
    call_with 1 (codes "M")
      (0x4b ∷ 0x53 ∷ 0 ∷ 0 ∷ 0 ∷ 8 ∷ 0 ∷ 0 ∷ 0 ∷ 1 ∷ 1 ∷ 0 ∷ 0 ∷ 1 ∷ 83 ∷ 1 ∷ 77 ∷ 0 ∷ 42 ∷ []) 5

abbrev pub second : Call
second =
    call_with 2 (codes "F")
      (0x4b ∷ 0x53 ∷ 0 ∷ 0 ∷ 0 ∷ 8 ∷ 0 ∷ 0 ∷ 0 ∷ 1 ∷ 2 ∷ 0 ∷ 0 ∷ 1 ∷ 83 ∷ 1 ∷ 70 ∷ 0 ∷ 42 ∷ []) 6

abbrev up : List Bytes
up =
    (0x4b ∷ 0x53 ∷ 0 ∷ [])
    ∷ (0 ∷ 0 ∷ 8 ∷ 0 ∷ 0 ∷ 0 ∷ 1 ∷ 1 ∷ 0 ∷ 0 ∷ 1 ∷ 83 ∷ 1 ∷ 77 ∷ 0 ∷ 42 ∷ 0x4b ∷ [])
    ∷ (0x53 ∷ 0 ∷ 0 ∷ 0 ∷ 8 ∷ 0 ∷ 0 ∷ 0 ∷ 1 ∷ 2 ∷ 0 ∷ 0 ∷ 1 ∷ 83 ∷ 1 ∷ 70 ∷ 0 ∷ 42 ∷ [])
    ∷ []

abbrev last : Round
last = record round { buffered = false; read = err conn_closed }

last-IsLast : IsLast echo handler no_codecs lib services last
last-IsLast = record { error = conn_closed; ends = refl; drained = refl; last_written = refl }

abbrev answers : Bytes
answers =
    (serve echo handler no_codecs lib services
      (receive lib (read_packets (λ c n. n) up) [] (call_rounds (first ∷ second ∷ []))
        ++ (last ∷ []))
      idle).wire

abbrev pub client : TcpClient
client = (begin_send (begin_send (new_tcp_client 5)).1).1

first_encoded :
    append_encoded_binary lib [] (record { header = some first.request.header; body = 42 ∷ [] })
    ≡ ok first.bytes
unfolding append_encoded append_with_header effective_compression append_frame append_by_magic
    overwrite fixed_header append_header_binary append_len_prefixed append_uvarint uvarint_bytes
first_encoded = refl

second_encoded :
    append_encoded_binary lib [] (record { header = some second.request.header; body = 42 ∷ [] })
    ≡ ok second.bytes
unfolding append_encoded append_with_header effective_compression append_frame append_by_magic
    overwrite fixed_header append_header_binary append_len_prefixed append_uvarint uvarint_bytes
second_encoded = refl

first-reply :
    bytes_of (reply echo handler no_codecs lib services round (arrived first))
    ≡ 0x4b ∷ 0x53 ∷ 0 ∷ 0 ∷ 0 ∷ 6 ∷ 0 ∷ 0 ∷ 0 ∷ 1 ∷ 1 ∷ 0 ∷ 0 ∷ 0 ∷ 0 ∷ 0 ∷ 42 ∷ []
unfolding reply reply_found bytes_of append_response codec_for codec_or invoke invoke_found
    lookup_method lookup respond_invoked respond_marshalled respond_encoded append_encoded
    append_with_header effective_compression append_frame append_by_magic overwrite fixed_header
    append_header_binary append_len_prefixed append_uvarint uvarint_bytes
first-reply = refl

second-reply :
    bytes_of (reply echo handler no_codecs lib services round (arrived second))
    ≡ 0x4b ∷ 0x53 ∷ 0 ∷ 0 ∷ 0 ∷ 8 ∷ 0 ∷ 0 ∷ 0 ∷ 0 ∷ 2 ∷ 0 ∷ 0 ∷ 0 ∷ 0 ∷ 2 ∷ 110 ∷ 111 ∷ []
unfolding reply reply_found bytes_of append_response codec_for codec_or invoke invoke_found
    lookup_method lookup respond_invoked error_text_of append_error_response or_else append_encoded
    append_with_header effective_compression append_frame append_by_magic overwrite fixed_header
    append_header_binary append_len_prefixed append_uvarint uvarint_bytes
second-reply = refl

pub first_ending : ending_to echo handler no_codecs lib services first ≡ gives (42 ∷ [])
unfolding ending ending_found ending_of outcome called request_value lookup compress
    effective_compression
first_ending = refl

pub second_ending : ending_to echo handler no_codecs lib services second ≡ tells (codes "no")
unfolding ending ending_found ending_of outcome called request_value lookup compress
    effective_compression error_text_of
second_ending = refl

call_with-IsCall :
    (id : ℕ) (method bytes : Bytes) (future : ℕ)
    → id < 2 ^ 64
    → length method < 2
    → append_encoded_binary lib []
        (record { header = some (call_with id method bytes future).request.header; body = 42 ∷ [] })
      ≡ ok bytes
    → IsShort (ending_to echo handler no_codecs lib services (call_with id method bytes future))
    → length bytes < 100
    → length (
        bytes_of (
          reply echo handler no_codecs lib services round
            (arrived (call_with id method bytes future))))
      < 100
    → IsCall echo handler no_codecs lib services (call_with id method bytes future)
call_with-IsCall id method bytes future fits short e told small few = record {
  valid = record {
    id_fits = fits;
    codec_fits = omega arith;
    compression_fits = omega arith;
    service_fits = omega arith;
    method_fits = omega arith;
    error_fits = omega arith;
  };
  encoded = e;
  short = told;
  request_fits = omega arith;
  response_fits = omega arith;
  quick = omega arith;
  written = (refl, refl);
}

up_lem : flatten up ≡ flatten (call_bytes (first ∷ second ∷ []))
unfolding flatten
up_lem = refl

down_lem : flatten (answers ∷ []) ≡ answers
unfolding flatten
down_lem = append-nil answers

distinct : Distinct (call_ids (first ∷ second ∷ []))
unfolding among
distinct = (refl, (refl, tt))

pub client-Waits : All (Waits client) (first ∷ second ∷ [])
unfolding begin_send register new_tcp_client store insert lookup waiting
client-Waits = (refl, (refl, tt))

calls_complete_example :
    let r = read_loop lib (read_packets (λ c n. n) (answers ∷ [])) [] client in
    (r.0
      ≡ map
          (λ (k : Call). delivered k.future (ending_to echo handler no_codecs lib services k))
          (first ∷ second ∷ []))
    × (waits_for r.1 2
        ≡ (if among 2 (call_ids (first ∷ second ∷ [])) then none else waits_for client 2))
calls_complete_example =
    calls_complete echo handler no_codecs lib services (λ c n. n) (first ∷ second ∷ []) last up
      (answers ∷ []) [] [] client 2 (λ c n. omega arith) echo-IsRuntime storing-IsGzip empty-IsCache
      empty-IsCache
      (
        call_with-IsCall 1 (codes "M") first.bytes 5 (omega arith) (omega arith) first_encoded
            (rw first_ending tt) (omega arith) (rw first-reply (omega arith)),
        (
          call_with-IsCall 2 (codes "F") second.bytes 6 (omega arith) (omega arith) second_encoded
              (rw second_ending (omega arith)) (omega arith) (rw second-reply (omega arith)),
          tt,
        ),
      )
      last-IsLast distinct client-Waits up_lem down_lem

abbrev written_first : Write
written_first = record { writer = 3; bytes = first.bytes }

abbrev alone : List Event
alone = enters written_first ∷ flushes (wrote 4 ∷ wrote 15 ∷ []) ∷ locks ∷ []

run-alone : (run no_writes alone).returned ≡ (written_first, ok tt) ∷ []
unfolding run step write_raw flushed own_flushed take_turn take_batch flush flush_from
run-alone = refl

write_delivers_example :
    (write lib 3 (record { header = some first.request.header; body = 42 ∷ [] }) no_writes
      ≡ step no_writes (enters written_first))
    × ((before after : Bytes) × ((run no_writes alone).wire ≡ before ++ (first.bytes ++ after))
        × Reads
            (decode lib (first.bytes ++ after) [])
            (record { header = some (sent_header first.request.header (42 ∷ [])); body = 42 ∷ [] }))
write_delivers_example =
    write_delivers lib alone written_first first.request.header (42 ∷ []) no_writes []
      storing-IsGzip
      (call_with-IsCall 1 (codes "M") first.bytes 5 (omega arith) (omega arith) first_encoded
        (rw first_ending tt) (omega arith) (rw first-reply (omega arith))).valid
      first_encoded (omega arith) empty-IsCache (rw run-alone (Memᴰ.head refl))
