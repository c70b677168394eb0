-- ===== src/Rpc/AnyOrder.antt =====
-- Calls to slow services too: each is answered by a goroutine of its own, so that the answers reach
-- the client in any order.
mod Runs
use kama_rpc_go.Base.{
  ℕ, ◌+◌, ◌<◌, ◌≤◌, ◌^◌, ◌≡◌, refl, sym, ap, ap₂, ◌∙◌, arith, ltb, if◌then◌else◌, Bool, true, false,
  List, [], ◌∷◌, Bytes, length, Option, none, some, map, flatten, All, codes, bytes_eq, lookup,
  Bool-cases, inl, inr, length-append,
}
use kama_rpc_go.Codec.Compress.{IsGzip}
use kama_rpc_go.Codec.Registry.{Registry}
use kama_rpc_go.Protocol.Header.{max_header_string_len}
use kama_rpc_go.Protocol.Intern.{Cache, IsCache}
use kama_rpc_go.Protocol.Message.{Library}
use kama_rpc_go.Protocol.Message.Framing.{IsPacket}
use kama_rpc_go.Server.Service.{ServiceEntry}
use kama_rpc_go.Server.Handler.{Runtime, Handler, codec_for, append_error_response}
use kama_rpc_go.Server.Handler.Responses.{IsRuntime}
use kama_rpc_go.Server.Loop.{Request, Round, dispatch_threshold}
use kama_rpc_go.Server.Loop.Batching.{Reply, replied, started, reply_found, reply}
use kama_rpc_go.Server.Loop.InOrder.{bytes_of}
use kama_rpc_go.Server.Loop.Goroutines.{process}
use kama_rpc_go.Transport.TcpClient.{TcpClient, Completion}
use kama_rpc_go.Transport.TcpClient.Answers.{waits_for}
use kama_rpc_go.Transport.TcpClient.Batch.{among}
use kama_rpc_go.Transport.TcpClient.ReadLoop.{
  Response, IsResponse, ids_of, Distinct, Waiting, completion, read_loop, read_loop-delivers,
}
use kama_rpc_go.Rpc.Endings.{
  IsShort, Ending, tells, delivered, ending_found, ending, response_of, response_of-id,
  complete_with-delivered, Ends, error-Ends, call-Ends,
}
use kama_rpc_go.Rpc.Session.{read_packets, read_packets_lem}

-- A request as the server decodes it, with the future that waits for its answer, and what else
-- happens in the round that serves it.
pub record Served : Type 0 where
  pub request : Request
  pub future : ℕ
  pub round : Round

abbrev pub served_id : Served → ℕ
served_id k = k.request.header.request_id

abbrev pub WaitsFor : TcpClient → Served → Type 0
WaitsFor c k = waits_for c (served_id k) ≡ some k.future

module _ {Req Rep : Type 0} (rt : Runtime Req Rep) (handler : Handler) (reg : Registry)
    (lib : Library) (services : List (Bytes × ServiceEntry)) where
  -- The bytes of the answer, from the loop or from the goroutine.
  unfoldable pub answer_bytes : Request → Reply → Bytes
  answer_bytes req (replied b) = b
  answer_bytes req (started service) = (process rt handler reg lib req service true).0

  abbrev pub bytes_to : Served → Bytes
  bytes_to k = answer_bytes k.request (reply rt handler reg lib services k.round k.request)

  abbrev Arrives : Request → Bytes → Ending → Type 0
  Arrives req b e = Ends rt handler reg lib services req (replied b) e

  answer_found-Ends :
      (r : Round) (req : Request) (o : Option ServiceEntry)
      → IsRuntime rt
      → IsGzip lib.gzip
      → req.header.request_id < 2 ^ 64
      → IsShort (ending_found rt handler reg lib services req o)
      → length (answer_bytes req (reply_found rt handler reg lib services r req o)) < 2 ^ 32
      → Arrives req
          (answer_bytes req (reply_found rt handler reg lib services r req o))
          (ending_found rt handler reg lib services req o)
  unfolding answer_bytes reply_found process ending_found
  answer_found-Ends r req none v g fits short small =
      error-Ends rt handler reg lib services req _ g fits short small
  answer_found-Ends r req (some service) v g fits short small =
      elim (Bool-cases (ltb dispatch_threshold r.avg_cost)) [
        | inl slow ↦
            rw slow
              (call-Ends rt handler reg lib services req service v g fits short (rw slow at small))
        | inr quick ↦
            rw quick
              (call-Ends rt handler reg lib services req service v g fits short (rw quick at small))
      ]

  limited_or :
      (allowed : Bool) (r : Round) (req : Request)
      → IsRuntime rt
      → IsGzip lib.gzip
      → req.header.request_id < 2 ^ 64
      → (let found = lookup req.header.service_name services in
          let limited =
            append_error_response lib [] req.header.request_id (codes "rate limit exceeded") in
          let b = answer_bytes req (
            if allowed
            then reply_found rt handler reg lib services r req found
            else replied limited) in
          let e =
            (if allowed
              then ending_found rt handler reg lib services req found
              else tells (codes "rate limit exceeded")) in
          IsShort e → length b < 2 ^ 32 → Arrives req b e)
  unfolding answer_bytes
  limited_or true r req v g fits short small =
      answer_found-Ends r req (lookup req.header.service_name services) v g fits short small
  limited_or false r req v g fits short small =
      error-Ends rt handler reg lib services req (codes "rate limit exceeded") g fits short small

  abbrev pub ending_at : Served → Ending
  ending_at k = ending rt handler reg lib services k.round k.request

  -- What a call needs of its bytes and texts.
  pub record IsServed (k : Served) : Type 0 where
    pub id_fits : served_id k < 2 ^ 64
    pub short : IsShort (ending_at k)
    pub response_fits : length (bytes_to k) < 2 ^ 32

  served-Ends :
      (k : Served)
      → IsRuntime rt
      → IsGzip lib.gzip
      → IsServed k
      → Arrives k.request (bytes_to k) (ending_at k)
  unfolding reply ending
  served-Ends k v g w =
      limited_or k.round.allowed k.round k.request v g w.id_fits w.short w.response_fits

  abbrev response_at : Served → Response
  response_at k =
      let m =
        response_of rt handler reg lib services (served_id k)
          (codec_for handler reg k.request.header.codec_type) (ending_at k) in
      record { packet = bytes_to k; header = m.0; body = m.1; future = k.future }

  -- The lists that go with a list of calls.
  record Answered (c : TcpClient) (ks : List Served) (rs : List Response) : Type 0 where
    packets : All IsPacket (map bytes_to ks)
    same_packets : map (λ (r : Response). r.packet) rs ≡ map bytes_to ks
    responses : All (IsResponse lib) rs
    ids : ids_of rs ≡ map served_id ks
    waits : All (Waiting c) rs
    completions : map completion rs ≡ map (λ (k : Served). delivered k.future (ending_at k)) ks

  answered_lem :
      (c : TcpClient) (ks : List Served)
      → IsRuntime rt
      → IsGzip lib.gzip
      → All IsServed ks
      → All (WaitsFor c) ks
      → Answered c ks (map response_at ks)
  unfolding bytes_of
  answered_lem c [] v g w h = record {
    packets = tt;
    same_packets = refl;
    responses = tt;
    ids = refl;
    waits = tt;
    completions = refl;
  }
  answered_lem c (k ∷ ks) v g (w, ws) (h, hs) =
      let e = served-Ends k v g w in
      let rest = answered_lem c ks v g ws hs in
      let id = response_of-id rt handler reg lib services (served_id k) _ (ending_at k) in
      record {
        packets = (e.1, rest.packets);
        same_packets = ap (λ (ps : List Bytes). bytes_to k ∷ ps) rest.same_packets;
        responses = (e.2, rest.responses);
        ids = ap₂ (λ (n : ℕ) (ns : List ℕ). n ∷ ns) id rest.ids;
        waits = (ap (waits_for c) id ∙ h, rest.waits);
        completions =
            ap₂ (λ (x : Completion) (xs : List Completion). x ∷ xs)
              (complete_with-delivered rt handler reg lib services _ _ k.future (ending_at k))
              rest.completions;
      }

  -- The answers of any calls, from the loop or from goroutines, in any order on the wire and over a
  -- socket that cuts them up in any way: each call's future is completed with what its own
  -- request ended in, in the order in which the answers come, no other future is, and exactly
  -- these requests wait no more. An error whose text is empty completes its future as an empty
  -- reply does, without an error. The ids are distinct and wait, the text of an answer that is
  -- an error is of 1 MiB at most, and its bytes are fewer than 2 ^ 32.
  pub answers_complete :
      (grow : ℕ → ℕ → ℕ) (ks : List Served) (down : List Bytes) (at_client : Cache) (c : TcpClient)
      (j : ℕ)
      → ((c n : ℕ) → n ≤ grow c n)
      → IsRuntime rt
      → IsGzip lib.gzip
      → IsCache at_client
      → All IsServed ks
      → Distinct (map served_id ks)
      → All (WaitsFor c) ks
      → flatten down ≡ flatten (map bytes_to ks)
      → (let r = read_loop lib (read_packets grow down) at_client c in
          (r.0 ≡ map (λ (k : Served). delivered k.future (ending_at k)) ks)
          × (waits_for r.1 j ≡ (if among j (map served_id ks) then none else waits_for c j)))
  answers_complete grow ks down at_client c j g v gz i w d waits e =
      let a = answered_lem c ks v gz w waits in
      let rs = map response_at ks in
      let (done, left) =
        read_loop-delivers lib rs at_client c j i a.responses (rw a.ids d) a.waits in
      let read_down : read_packets grow down ≡ map (λ (r : Response). r.packet) rs =
        read_packets_lem grow down _ g a.packets e ∙ sym a.same_packets in
      rw read_down
        (done ∙ a.completions, left ∙ ap (λ ns. if among j ns then none else waits_for c j) a.ids)
