-- ===== src/Rpc/Serving.antt =====
-- The server's side of many calls: what it reads are the requests, and what it sends are the packets
-- of the responses.
use kama_rpc_go.Base.{
  ℕ, ◌+◌, ◌<◌, ◌≤◌, ◌^◌, ◌≡◌, refl, ap, ap₂, ◌∙◌, false, List, [], ◌∷◌, ◌++◌, Bytes, length, some,
  ok, map, flatten, All,
}
use kama_rpc_go.Codec.Compress.{IsGzip}
use kama_rpc_go.Codec.Registry.{Registry}
use kama_rpc_go.Protocol.Header.{IsHeader}
use kama_rpc_go.Protocol.Intern.{Cache, IsCache}
use kama_rpc_go.Protocol.Message.{Library, append_encoded_binary, decode}
use kama_rpc_go.Protocol.Message.Framing.{IsPacket}
use kama_rpc_go.Protocol.Message.RoundTrip.{sent_header}
use kama_rpc_go.Server.Service.{ServiceEntry}
use kama_rpc_go.Server.Handler.{Runtime, Handler, codec_for}
use kama_rpc_go.Server.Handler.Responses.{IsRuntime}
use kama_rpc_go.Server.Loop.{Request, Round, Serving, dispatch_threshold, serve}
use kama_rpc_go.Server.Loop.Batching.{Reply, reply_found, reply}
use kama_rpc_go.Server.Loop.InOrder.{
  bytes_of, starts_of, in_order, in_order-ok, answered, Written, serve-Follows,
}
use kama_rpc_go.Server.Loop.Receiving.{request_of, receive}
use kama_rpc_go.Transport.TcpClient.ReadLoop.{Response, IsResponse}
use kama_rpc_go.Server.Loop.Writing.{Reads, serve-snoc, last_round-wire}
use kama_rpc_go.Base.{Error, err, true}
use kama_rpc_go.Rpc.Endings.{
  IsShort, Ending, request-Carries, ending, response_of, Ends, reply-Ends,
}

-- A call: the request, with its id, its bytes on the wire, the future that waits for the answer, and
-- what else happens in the server's round that serves it.
pub record Call : Type 0 where
  pub request : Request
  pub bytes : Bytes
  pub future : ℕ
  pub round : Round

-- The request as the server decodes it.
abbrev pub arrived : Call → Request
arrived k = record { header = sent_header k.request.header k.request.body; body = k.request.body }

abbrev pub call_bytes : List Call → List Bytes
call_bytes = map (λ (k : Call). k.bytes)

abbrev pub call_rounds : List Call → List Round
call_rounds = map (λ (k : Call). k.round)

abbrev pub call_ids : List Call → List ℕ
call_ids = map (λ (k : Call). k.request.header.request_id)

-- A loop that starts.
abbrev pub idle : Serving
idle = record {
  resp_buf = [];
  wire = [];
  spawned = [];
  observed = [];
  stored_cost = 0;
  returned = false;
}

module _ {Req Rep : Type 0} (rt : Runtime Req Rep) (handler : Handler) (reg : Registry)
    (lib : Library) (services : List (Bytes × ServiceEntry)) where
  abbrev pub reply_to : Call → Reply
  reply_to k = reply rt handler reg lib services k.round (arrived k)

  abbrev pub ending_to : Call → Ending
  ending_to k = ending rt handler reg lib services k.round (arrived k)

  -- A call that is encoded, whose service is quick, and all of whose writes succeed, with bytes and
  -- texts in range.
  pub record IsCall (k : Call) : Type 0 where
    pub valid : IsHeader k.request.header
    pub encoded :
        append_encoded_binary lib []
          (record { header = some k.request.header; body = k.request.body })
        ≡ ok k.bytes
    pub short : IsShort (ending_to k)
    pub request_fits : length k.bytes < 2 ^ 32
    pub response_fits : length (bytes_of (reply_to k)) < 2 ^ 32
    pub quick : k.round.avg_cost ≤ dispatch_threshold
    pub written : Written rt handler reg lib services k.round

  pub call-Ends :
      (k : Call)
      → IsRuntime rt
      → IsGzip lib.gzip
      → IsCall k
      → Ends rt handler reg lib services (arrived k) (reply_to k) (ending_to k)
  call-Ends k v g w =
      reply-Ends rt handler reg lib services k.round (arrived k) v g w.valid.id_fits w.short w.quick
        w.response_fits

  -- The response to a call.
  abbrev pub response : Call → Response
  response k =
      let m =
        response_of rt handler reg lib services (arrived k).header.request_id
          (codec_for handler reg (arrived k).header.codec_type) (ending_to k) in
      record { packet = bytes_of (reply_to k); header = m.0; body = m.1; future = k.future }

  pub IsCall-IsResponse :
      (ks : List Call)
      → IsRuntime rt
      → IsGzip lib.gzip
      → All IsCall ks
      → All (IsResponse lib) (map response ks)
  IsCall-IsResponse [] v g w = tt
  IsCall-IsResponse (k ∷ ks) v g (w, ws) = ((call-Ends k v g w).2, IsCall-IsResponse ks v g ws)

  abbrev pub response_packets : List Call → List Bytes
  response_packets ks = map (λ (r : Response). r.packet) (map response ks)

  pub requests-IsPacket :
      (ks : List Call) → IsGzip lib.gzip → All IsCall ks → All IsPacket (call_bytes ks)
  requests-IsPacket [] g w = tt
  requests-IsPacket (k ∷ ks) g (w, ws) = (
    (request-Carries lib k.request.header k.request.body k.bytes g w.valid w.encoded
        w.request_fits).0,
    requests-IsPacket ks g ws,
  )

  pub responses-IsPacket :
      (ks : List Call)
      → IsRuntime rt
      → IsGzip lib.gzip
      → All IsCall ks
      → All IsPacket (response_packets ks)
  responses-IsPacket [] v g w = tt
  responses-IsPacket (k ∷ ks) v g (w, ws) = ((call-Ends k v g w).1, responses-IsPacket ks v g ws)

  abbrev pub received_rounds : List Call → Cache → List Round
  received_rounds ks cache = receive lib (call_bytes ks) cache (call_rounds ks)

  received-Written :
      (ks : List Call) (cache : Cache)
      → All IsCall ks
      → All (Written rt handler reg lib services) (received_rounds ks cache)
  unfolding receive
  received-Written [] cache w = tt
  received-Written (k ∷ ks) cache (w, ws) =
      (w.written, received-Written ks (decode lib k.bytes cache).1 ws)

  -- The request is read, and answered as it is by itself.
  answered_call :
      (k : Call) (n : ℕ) (r : Round) (rs : List Round)
      → IsRuntime rt
      → IsGzip lib.gzip
      → IsCall k
      → r.read ≡ ok (arrived k)
      → reply rt handler reg lib services r (arrived k) ≡ reply_to k
      → (in_order rt handler reg lib services (n + length (bytes_of (reply_to k))) rs).1 ≡ []
      → in_order rt handler reg lib services n (r ∷ rs) ≡ (
        bytes_of (reply_to k)
            ++ (in_order rt handler reg lib services (n + length (bytes_of (reply_to k))) rs).0,
        [],
      )
  unfolding starts_of
  answered_call k n r rs v g w read same none_started =
      in_order-ok rt handler reg lib services n r rs (arrived k) read
      ∙ ap
          (λ a.
            answered rt handler reg lib services n (arrived k) a
              (λ m. in_order rt handler reg lib services m rs))
          same
      ∙ ap₂
          (λ a b. (
            bytes_of (reply_to k)
                ++ (in_order rt handler reg lib services (n + length (bytes_of (reply_to k))) rs).0,
            starts_of n (arrived k) a ++ b,
          ))
          (call-Ends k v g w).0 none_started

  in_order-received :
      (ks : List Call) (n : ℕ) (cache : Cache)
      → IsRuntime rt
      → IsGzip lib.gzip
      → IsCache cache
      → All IsCall ks
      → in_order rt handler reg lib services n (received_rounds ks cache)
        ≡ (flatten (response_packets ks), [])
  unfolding receive flatten
  in_order-received [] n cache v g i w = unfold in_order in refl
  in_order-received (k ∷ ks) n cache v g i (w, ws) =
      let (_, carries) =
        request-Carries lib k.request.header k.request.body k.bytes g w.valid w.encoded
          w.request_fits in
      let (read, i') = carries cache i in
      let ih =
        in_order-received ks (n + length (bytes_of (reply_to k))) (decode lib k.bytes cache).1 v g
          i' ws in
      answered_call k n (record (k.round) { read = request_of (decode lib k.bytes cache).0 })
        (received_rounds ks (decode lib k.bytes cache).1) v g w (ap request_of read)
        (unfold reply reply_found in refl) (ap (λ z. z.1) ih)
      ∙ ap (λ (z : Bytes × List (ℕ × Request × ServiceEntry)). (bytes_of (reply_to k) ++ z.0, []))
          ih

  received-Reads :
      (ks : List Call) (cache : Cache)
      → IsGzip lib.gzip
      → IsCache cache
      → All IsCall ks
      → All (Reads rt handler reg lib services) (received_rounds ks cache)
  unfolding receive
  received-Reads [] cache g i w = tt
  received-Reads (k ∷ ks) cache g i (w, ws) =
      let (_, carries) =
        request-Carries lib k.request.header k.request.body k.bytes g w.valid w.encoded
          w.request_fits in
      let (read, i') = carries cache i in
      ((arrived k, ap request_of read), received-Reads ks (decode lib k.bytes cache).1 g i' ws)

  -- The round in which the connection ends, with no packet buffered.
  pub record IsLast (r : Round) : Type 0 where
    pub error : Error
    pub ends : r.read ≡ err error
    pub drained : r.buffered ≡ false
    pub last_written : r.head_written ≡ true

  pub wire_lem :
      (ks : List Call) (last : Round) (cache : Cache)
      → IsRuntime rt
      → IsGzip lib.gzip
      → IsCache cache
      → All IsCall ks
      → IsLast last
      → (serve rt handler reg lib services (received_rounds ks cache ++ (last ∷ [])) idle).wire
        ≡ flatten (response_packets ks)
  wire_lem ks last cache v g i w l =
      let rs = received_rounds ks cache in
      let written = received-Written ks cache w in
      ap (λ (u : Serving). u.wire)
        (serve-snoc rt handler reg lib services rs last idle written (received-Reads ks cache g i w)
          refl)
      ∙ last_round-wire rt handler reg lib services last l.error
          (serve rt handler reg lib services rs idle) l.ends l.drained l.last_written
      ∙ (serve-Follows rt handler reg lib services rs idle written refl).0
      ∙ ap (λ z. z.0) (in_order-received ks 0 cache v g i w)
