-- ===== src/Rpc/Endings.antt =====
-- What the server answers a request with, seen from the client.
use kama_rpc_go.Base.{
  ℕ, ◌<◌, ◌≤◌, ◌^◌, ◌≡◌, refl, arith, if◌then◌else◌, List, [], ◌∷◌, ◌++◌, Bytes, length, Option,
  none, some, Result, ok, err, remote, codes, bytes_eq, lookup, Bool-cases, inl, inr, append-nil,
  le→ltb,
}
use kama_rpc_go.Codec.Compress.{IsGzip}
use kama_rpc_go.Codec.Registry.{Registry}
use kama_rpc_go.Protocol.Header.{Header, IsHeader, max_header_string_len}
use kama_rpc_go.Protocol.Message.{Library, Message, append_encoded_binary}
use kama_rpc_go.Protocol.Message.Framing.{IsPacket}
use kama_rpc_go.Protocol.Message.RoundTrip.{sent_header}
use kama_rpc_go.Server.Service.{ServiceEntry}
use kama_rpc_go.Server.Handler.{
  Runtime, Handler, codec_for, error_text_of, append_error_response, append_response, error_header,
  response_header,
}
use kama_rpc_go.Server.Handler.Responses.{
  Appends, append_encoded_binary-Appends, append_error_response-Appends, outcome, response_to,
  IsRuntime, Fits, append_response-Answers,
}
use kama_rpc_go.Server.Loop.{Request, Round, dispatch_threshold}
use kama_rpc_go.Server.Loop.Batching.{Reply, replied, reply_found, reply}
use kama_rpc_go.Server.Loop.InOrder.{bytes_of}
use kama_rpc_go.Transport.TcpClient.{Completion, complete_with}
use kama_rpc_go.Transport.TcpClient.ReadLoop.{Carries}

-- The bytes of a reply, or the text of an error.
pub data Ending : Type 0 where
  gives tells : Bytes → Ending

-- The header of the response can carry the text, if there is one.
abbrev pub IsShort : Ending → Type 0
IsShort (gives b) = Unit {0}
IsShort (tells text) = length text ≤ max_header_string_len

-- What the caller's future is completed with. An error without a text arrives as an empty reply.
pub told : ℕ → Bytes → Completion
told f [] = (f, [], none)
told f (x ∷ text) = (f, [], some (remote (x ∷ text)))

pub delivered : ℕ → Ending → Completion
delivered f (gives b) = (f, b, none)
delivered f (tells text) = told f text

Appends-Carries :
    (lib : Library) (out : Bytes) (m : Message)
    → Appends lib [] out m
    → IsPacket out × Carries lib out m
Appends-Carries lib out m (frame, e, packet, reads) =
    rw e (packet, λ c v. rw append-nil at (reads [] c v))

-- A request that the client encodes is one packet, which the server decodes to it.
pub request-Carries :
    (lib : Library) (h : Header) (body out : Bytes)
    → IsGzip lib.gzip
    → IsHeader h
    → append_encoded_binary lib [] (record { header = some h; body = body }) ≡ ok out
    → length out < 2 ^ 32
    → IsPacket out × Carries lib out (record { header = some (sent_header h body); body = body })
request-Carries lib h body out g v e small =
    Appends-Carries lib out _ (append_encoded_binary-Appends lib [] out h body g v e small)

module _ {Req Rep : Type 0} (rt : Runtime Req Rep) (handler : Handler) (reg : Registry)
    (lib : Library) (services : List (Bytes × ServiceEntry)) where
  unfoldable pub ending_of : Result Bytes → Ending
  ending_of (ok b) = gives b
  ending_of (err e) = tells (error_text_of rt e)

  Fits-ending_of : (o : Result Bytes) → IsShort (ending_of o) → Fits rt o
  unfolding ending_of
  Fits-ending_of (ok b) short = short
  Fits-ending_of (err e) short = short

  -- How a request ends: refused by the limiter, without a service, or as its call ends.
  unfoldable pub ending_found : Request → Option ServiceEntry → Ending
  ending_found req none = tells (codes "service not found: " ++ req.header.service_name)
  ending_found req (some service) =
      ending_of (outcome rt handler reg lib req.header req.body service)

  unfoldable pub ending : Round → Request → Ending
  ending r req =
      if r.allowed
      then ending_found req (lookup req.header.service_name services)
      else tells (codes "rate limit exceeded")

  -- The response's header and body.
  pub response_of : ℕ → ℕ → Ending → Header × Bytes
  response_of id c (gives b) = (sent_header (response_header rt id c) b, b)
  response_of id c (tells text) = (sent_header (error_header id text) [], [])

  abbrev message_of : Header × Bytes → Message
  message_of m = record { header = some m.0; body = m.1 }

  pub response_of-id : (id c : ℕ) (e : Ending) → (response_of id c e).0.request_id ≡ id
  unfolding response_of
  response_of-id id c (gives b) = refl
  response_of-id id c (tells text) = refl

  pub complete_with-delivered :
      (id c f : ℕ) (e : Ending)
      → complete_with (response_of id c e).0 (response_of id c e).1 f ≡ delivered f e
  unfolding complete_with response_of delivered told
  complete_with-delivered id c f (gives b) = refl
  complete_with-delivered id c f (tells []) = refl
  complete_with-delivered id c f (tells (x ∷ text)) = refl

  response_to-message :
      (id c : ℕ) (o : Result Bytes)
      → response_to rt id c o ≡ message_of (response_of id c (ending_of o))
  unfolding response_to response_of ending_of
  response_to-message id c (ok b) = refl
  response_to-message id c (err e) = refl

  abbrev codec_of : Request → ℕ
  codec_of req = codec_for handler reg req.header.codec_type

  abbrev pub Ends : Request → Reply → Ending → Type 0
  Ends req a e =
      (a ≡ replied (bytes_of a))
      × IsPacket (bytes_of a)
      × Carries lib (bytes_of a) (message_of (response_of req.header.request_id (codec_of req) e))

  pub error-Ends :
      (req : Request) (text : Bytes)
      → IsGzip lib.gzip
      → req.header.request_id < 2 ^ 64
      → length text ≤ max_header_string_len
      → length (append_error_response lib [] req.header.request_id text) < 2 ^ 32
      → Ends req (replied (append_error_response lib [] req.header.request_id text)) (tells text)
  unfolding bytes_of response_of
  error-Ends req text g fits short small =
      let (packet, carries) =
        Appends-Carries lib _ _
          (append_error_response-Appends lib [] req.header.request_id text g fits short small) in
      (refl, packet, carries)

  pub call-Ends :
      (req : Request) (service : ServiceEntry)
      → IsRuntime rt
      → IsGzip lib.gzip
      → req.header.request_id < 2 ^ 64
      → IsShort (ending_of (outcome rt handler reg lib req.header req.body service))
      → length (append_response rt handler reg lib [] req.header req.body service).0 < 2 ^ 32
      → Ends req
          (replied (append_response rt handler reg lib [] req.header req.body service).0)
          (ending_of (outcome rt handler reg lib req.header req.body service))
  unfolding bytes_of
  call-Ends req service v g fits short small =
      let (appends, _) =
        append_response-Answers rt handler reg lib [] req.header req.body service v g fits
          (Fits-ending_of (outcome rt handler reg lib req.header req.body service) short) small in
      let (packet, carries) = Appends-Carries lib _ _ appends in
      let e =
        response_to-message req.header.request_id (codec_of req)
          (outcome rt handler reg lib req.header req.body service) in
      (refl, packet, rw e at carries)

  found-Ends :
      (r : Round) (req : Request) (o : Option ServiceEntry)
      → IsRuntime rt
      → IsGzip lib.gzip
      → req.header.request_id < 2 ^ 64
      → IsShort (ending_found req o)
      → r.avg_cost ≤ dispatch_threshold
      → length (bytes_of (reply_found rt handler reg lib services r req o)) < 2 ^ 32
      → Ends req (reply_found rt handler reg lib services r req o) (ending_found req o)
  unfolding reply_found ending_found bytes_of
  found-Ends r req none v g fits short quick small = error-Ends req _ g fits short small
  found-Ends r req (some service) v g fits short quick small =
      rw (le→ltb dispatch_threshold r.avg_cost quick) (
        call-Ends req service v g fits short
          (rw (le→ltb dispatch_threshold r.avg_cost quick) at small))

  -- The answer to a request whose service is quick is one packet, which decodes to its ending.
  pub reply-Ends :
      (r : Round) (req : Request)
      → IsRuntime rt
      → IsGzip lib.gzip
      → req.header.request_id < 2 ^ 64
      → IsShort (ending r req)
      → r.avg_cost ≤ dispatch_threshold
      → length (bytes_of (reply rt handler reg lib services r req)) < 2 ^ 32
      → Ends req (reply rt handler reg lib services r req) (ending r req)
  unfolding reply ending reply_found append_error_response bytes_of
  reply-Ends r req v g fits short quick small = elim (Bool-cases r.allowed) [
    | inl through ↦ rw through (
        found-Ends r req (lookup req.header.service_name services) v g fits (rw through at short)
          quick (rw through at small))
    | inr limited ↦
        rw limited
          (error-Ends req (codes "rate limit exceeded") g fits (omega arith) (rw limited at small))
  ]
