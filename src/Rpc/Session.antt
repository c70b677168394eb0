-- ===== src/Rpc/Session.antt =====
-- Calls from end to end: the server serves the requests on its stream, and the client reads the
-- stream of the responses.
use kama_rpc_go.Base.{
  ℕ, ◌+◌, ◌≤◌, ◌≡◌, refl, ap, ap₂, ◌∙◌, arith, if◌then◌else◌, List, [], ◌∷◌, Bytes, length, none,
  some, map, flatten, All,
}
use kama_rpc_go.Codec.Compress.{IsGzip}
use kama_rpc_go.Codec.Registry.{Registry}
use kama_rpc_go.Protocol.Intern.{Cache, IsCache}
use kama_rpc_go.Protocol.Message.{Library}
use kama_rpc_go.Protocol.Message.Framing.{IsPacket}
use kama_rpc_go.Server.Service.{ServiceEntry}
use kama_rpc_go.Server.Handler.{Runtime, Handler}
use kama_rpc_go.Server.Handler.Responses.{IsRuntime}
use kama_rpc_go.Server.Loop.{serve}
use kama_rpc_go.Server.Loop.Receiving.{receive}
use kama_rpc_go.Transport.PacketBuffer.Stream.{split, split-flatten}
use kama_rpc_go.Transport.TcpClient.{TcpClient, Completion}
use kama_rpc_go.Transport.TcpClient.Answers.{waits_for}
use kama_rpc_go.Transport.TcpClient.Batch.{among}
use kama_rpc_go.Transport.TcpClient.ReadLoop.{
  ids_of, Distinct, Waiting, completion, read_loop, read_loop-delivers,
}
use kama_rpc_go.Transport.PacketBuffer.{new_packet_buffer}
use kama_rpc_go.Transport.PacketBuffer.Refinement.{new_packet_buffer-IsBuffer}
use kama_rpc_go.Transport.Connection.Reading.{pieces, read_all, read_all-split}
use kama_rpc_go.Base.{◌++◌}
use kama_rpc_go.Server.Loop.{Round}
use kama_rpc_go.Rpc.Serving.{
  IsLast, Call, call_bytes, call_rounds, call_ids, idle, ending_to, IsCall, response,
  response_packets, IsCall-IsResponse, requests-IsPacket, responses-IsPacket, wire_lem,
}
use kama_rpc_go.Rpc.Endings.{delivered, response_of-id, complete_with-delivered}

-- The packets that the reading loop of a connection delivers, from what its socket returns.
abbrev pub read_packets : (ℕ → ℕ → ℕ) → List Bytes → List Bytes
read_packets grow chunks =
    (read_all grow (length (flatten chunks) + 1) (pieces chunks) new_packet_buffer).0

pub read_packets_lem :
    (grow : ℕ → ℕ → ℕ) (chunks ps : List Bytes)
    → ((c n : ℕ) → n ≤ grow c n)
    → All IsPacket ps
    → flatten chunks ≡ flatten ps
    → read_packets grow chunks ≡ ps
unfolding new_packet_buffer
read_packets_lem grow chunks ps g h e =
    (read_all-split grow (length (flatten chunks) + 1) chunks new_packet_buffer g
      new_packet_buffer-IsBuffer (omega arith)).0
    ∙ ap (λ s. (split s).0) e
    ∙ ap (λ z. z.0) (split-flatten ps h)

abbrev pub Waits : TcpClient → Call → Type 0
Waits c k = waits_for c k.request.header.request_id ≡ some k.future

module _ {Req Rep : Type 0} (rt : Runtime Req Rep) (handler : Handler) (reg : Registry)
    (lib : Library) (services : List (Bytes × ServiceEntry)) where
  pub Waiting-response :
      (c : TcpClient) (ks : List Call)
      → All (λ (k : Call). waits_for c k.request.header.request_id ≡ some k.future) ks
      → All (Waiting c) (map (response rt handler reg lib services) ks)
  Waiting-response c [] h = tt
  Waiting-response c (k ∷ ks) (h, hs) = (
    ap (waits_for c) (
          response_of-id rt handler reg lib services k.request.header.request_id _
            (ending_to rt handler reg lib services k))
        ∙ h,
    Waiting-response c ks hs,
  )

  ids_lem : (ks : List Call) → ids_of (map (response rt handler reg lib services) ks) ≡ call_ids ks
  ids_lem [] = refl
  ids_lem (k ∷ ks) =
      ap₂ (λ (n : ℕ) (ns : List ℕ). n ∷ ns)
        (response_of-id rt handler reg lib services k.request.header.request_id _
          (ending_to rt handler reg lib services k))
        (ids_lem ks)

  pub responses-Distinct :
      (ks : List Call)
      → Distinct (call_ids ks)
      → Distinct (ids_of (map (response rt handler reg lib services) ks))
  responses-Distinct ks d = rw (ids_lem ks) d

  completions_lem :
      (ks : List Call)
      → map completion (map (response rt handler reg lib services) ks)
        ≡ map (λ (k : Call). delivered k.future (ending_to rt handler reg lib services k)) ks
  completions_lem [] = refl
  completions_lem (k ∷ ks) =
      ap₂ (λ (x : Completion) (xs : List Completion). x ∷ xs)
        (complete_with-delivered rt handler reg lib services _ _ k.future
          (ending_to rt handler reg lib services k))
        (completions_lem ks)

  -- Calls whose requests are written to a connection one after another, over sockets that cut up both
  -- streams in any way: the server's loop reads the requests and sends its answers, the client
  -- reads these, and each call's future is completed, in order, with what its own request ended
  -- in: the reply's bytes, or the text of the refusal or error (an empty text arrives as an
  -- empty reply, without an error). No other future is completed, and of all requests that
  -- waited exactly these wait no more. What the client reads is what the server has written when
  -- its last round, with no packet buffered, finds the stream at its end. The calls are encoded
  -- without error, with distinct ids that wait, to quick services; numbers and strings of headers
  -- are in range, texts of errors are of 1 MiB at most, and each packet has fewer than 2 ^ 32 bytes;
  -- the server's writes succeed.
  pub calls_complete :
      (grow : ℕ → ℕ → ℕ) (ks : List Call) (last : Round) (up down : List Bytes)
      (at_server at_client : Cache) (c : TcpClient) (j : ℕ)
      → ((c n : ℕ) → n ≤ grow c n)
      → IsRuntime rt
      → IsGzip lib.gzip
      → IsCache at_server
      → IsCache at_client
      → All (IsCall rt handler reg lib services) ks
      → IsLast rt handler reg lib services last
      → Distinct (call_ids ks)
      → All (Waits c) ks
      → flatten up ≡ flatten (call_bytes ks)
      → flatten down
        ≡ (serve rt handler reg lib services
            (receive lib (read_packets grow up) at_server (call_rounds ks) ++ (last ∷ []))
            idle).wire
      → (let r = read_loop lib (read_packets grow down) at_client c in
          (r.0
            ≡ map (λ (k : Call). delivered k.future (ending_to rt handler reg lib services k)) ks)
          × (waits_for r.1 j ≡ (if among j (call_ids ks) then none else waits_for c j)))
  calls_complete grow ks last up down at_server at_client c j g v gz i i' w l d waits e e' =
      let rs = map (response rt handler reg lib services) ks in
      let read_up : read_packets grow up ≡ call_bytes ks =
        read_packets_lem grow up (call_bytes ks) g
          (requests-IsPacket rt handler reg lib services ks gz w) e in
      let on_wire : flatten down ≡ flatten (response_packets rt handler reg lib services ks) =
        e'
        ∙ ap
            (λ ps.
              (serve rt handler reg lib services
                (receive lib ps at_server (call_rounds ks) ++ (last ∷ [])) idle).wire)
            read_up
        ∙ wire_lem rt handler reg lib services ks last at_server v gz i w l in
      let read_down : read_packets grow down ≡ response_packets rt handler reg lib services ks =
        read_packets_lem grow down _ g (responses-IsPacket rt handler reg lib services ks v gz w)
          on_wire in
      let (done, left) =
        read_loop-delivers lib rs at_client c j i'
          (IsCall-IsResponse rt handler reg lib services ks v gz w) (responses-Distinct ks d)
          (Waiting-response c ks waits) in
      rw read_down (
        done ∙ completions_lem ks,
        left ∙ ap (λ ns. if among j ns then none else waits_for c j) (ids_lem ks),
      )
