-- ===== src/Server/Loop/Batching.antt =====
-- What a round sends and starts: gathering responses and writing them at once changes nothing.
use kama_rpc_go.Base.{
  ltb, leb, if◌then◌else◌, ◌&&◌, not, Bool, true, false, List, [], ◌∷◌, ◌++◌, Bytes, length, Option,
  none, some, Error, Result, ok, err, codes, bytes_eq, lookup, if_false, ◌≡◌, refl, sym, ap, ◌∙◌,
  arith, append_assoc, append-nil, Bool-cases, inl, inr,
}
use kama_rpc_go.Codec.Registry.{Registry}
use kama_rpc_go.Protocol.Message.{Library}
use kama_rpc_go.Server.Service.{ServiceEntry}
use kama_rpc_go.Server.Handler.{Runtime, Handler, append_error_response, append_response}
use kama_rpc_go.Server.Handler.Appending.{
  append_error_response-eq-append, append_response-eq-append,
}
use kama_rpc_go.Server.Loop.{
  Request, Round, Serving, dispatch_threshold, max_batched_response_bytes, write_responses,
  write_if, refuse, spawn, append_and_record, serve_found, serve_looked_up, serve_request,
  serve_read, serve_round,
}

-- What a request is answered with: bytes here and now, or a goroutine.
pub data Reply : Type 0 where
  replied : Bytes → Reply
  started : ServiceEntry → Reply

-- The bytes written and those that wait to be written.
abbrev pub sent : Serving → Bytes
sent s = s.wire ++ s.resp_buf

-- What a round does to the loop, if it answers `req` so.
abbrev pub Serves : Reply → Request → Serving → Serving → Type 0
Serves (replied b) req s t = (sent t ≡ sent s ++ b) × (t.spawned ≡ s.spawned) × (t.returned ≡ false)
Serves (started service) req s t =
    (sent t ≡ sent s)
    × (t.spawned ≡ s.spawned ++ ((length (sent s), req, service) ∷ []))
    × (t.returned ≡ false)

write_if_lem :
    (test : Bool) (s : Serving)
    → s.returned ≡ false
    → (sent (write_if test true s) ≡ sent s)
      × ((write_if test true s).spawned ≡ s.spawned)
      × ((write_if test true s).returned ≡ false)
unfolding write_if write_responses
write_if_lem test s h = elim (Bool-cases (ltb 0 (length s.resp_buf) && test)) [
  | inl yes_write ↦ rw yes_write (append-nil (s.wire ++ s.resp_buf), refl, h)
  | inr no_write ↦ rw no_write (refl, refl, h)
]

write_succeeds_lem :
    (test written : Bool) (s : Serving)
    → written ≡ true
    → s.returned ≡ false
    → (sent (write_if test written s) ≡ sent s)
      × ((write_if test written s).spawned ≡ s.spawned)
      × ((write_if test written s).returned ≡ false)
write_succeeds_lem test written s e h = rw e (write_if_lem test s h)

append-unwritten : (w b : Bytes) → (ltb 0 (length b) && true) ≡ false → w ≡ w ++ b
append-unwritten w [] h = sym (append-nil w)
append-unwritten w (x ∷ b) h = absurd (ground arith)

pub write_if_all : (s : Serving) → (write_if true true s).wire ≡ sent s
unfolding write_if write_responses
write_if_all s = elim (Bool-cases (ltb 0 (length s.resp_buf) && true)) [
  | inl gathered ↦ rw gathered
  | inr nothing ↦ rw nothing (append-unwritten s.wire s.resp_buf nothing)
]

Serves-from :
    (reply : Reply) (req : Request) (s t u : Serving)
    → sent t ≡ sent s
    → t.spawned ≡ s.spawned
    → Serves reply req t u
    → Serves reply req s u
Serves-from (replied b) req s t u same kept (e, k, h) = (cc, cc, h)
Serves-from (started service) req s t u same kept (e, k, h) = (cc, cc, h)

pub Serves-going :
    (a : Reply) (req : Request) (s t : Serving) → Serves a req s t → t.returned ≡ false
Serves-going (replied b) req s t (_, _, h) = h
Serves-going (started service) req s t (_, _, h) = h

refuse_lem :
    (lib : Library) (text : Bytes) (req : Request) (s : Serving)
    → s.returned ≡ false
    → Serves
        (replied (append_error_response lib [] req.header.request_id text))
        req
        s
        (refuse lib text req s)
unfolding refuse
refuse_lem lib text req s h = (
  ap (λ t. s.wire ++ t) (append_error_response-eq-append lib s.resp_buf req.header.request_id text)
      ∙ sym (append_assoc s.wire s.resp_buf _),
  refl,
  h,
)

spawn_lem :
    (req : Request) (service : ServiceEntry) (s t : Serving)
    → sent t ≡ sent s
    → t.spawned ≡ s.spawned
    → t.returned ≡ false
    → t.wire ≡ sent s
    → Serves (started service) req s (spawn req service t)
unfolding spawn
spawn_lem req service s t same kept h all = simp h (same, cc, refl)

write_responses_lem :
    (req : Request) (s t : Serving) (b : Bytes)
    → Serves (replied b) req s t
    → Serves (replied b) req s (write_responses true t)
unfolding write_responses
write_responses_lem req s t b (e, kept, h) = (append-nil (sent t) ∙ e, kept, h)

module _ {Req Rep : Type 0} (rt : Runtime Req Rep) (handler : Handler) (reg : Registry)
    (lib : Library) (services : List (Bytes × ServiceEntry)) where
  -- How a request is answered, by itself.
  unfoldable pub reply_found : Round → Request → Option ServiceEntry → Reply
  reply_found r req none = replied (
      append_error_response lib [] req.header.request_id
        (codes "service not found: " ++ req.header.service_name))
  reply_found r req (some service) =
      if ltb dispatch_threshold r.avg_cost
      then started service
      else replied (append_response rt handler reg lib [] req.header req.body service).0

  unfoldable pub reply : Round → Request → Reply
  reply r req =
      if r.allowed
      then reply_found r req (lookup req.header.service_name services)
      else replied
          (append_error_response lib [] req.header.request_id (codes "rate limit exceeded"))

  append_and_record_lem :
      (r : Round) (req : Request) (service : ServiceEntry) (s : Serving)
      → s.returned ≡ false
      → Serves
          (replied (append_response rt handler reg lib [] req.header req.body service).0)
          req
          s
          (append_and_record rt handler reg lib services r req service s)
  unfolding append_and_record
  append_and_record_lem r req service s h = (
    ap (λ (t : Bytes × Bool). s.wire ++ t.0)
          (append_response-eq-append rt handler reg lib s.resp_buf req.header req.body service)
        ∙ sym (append_assoc s.wire s.resp_buf _),
    refl,
    h,
  )

  serve_found_lem :
      (r : Round) (req : Request) (service : ServiceEntry) (s : Serving)
      → r.written ≡ true
      → s.returned ≡ false
      → Serves
          (reply_found r req (some service))
          req
          s
          (serve_found rt handler reg lib services r req service s)
  unfolding serve_found reply_found
  serve_found_lem r req service s w h = elim (Bool-cases (ltb dispatch_threshold r.avg_cost)) [
    | inl slow ↦
        let (same, kept, going) = write_if_lem true s h in
        rw (slow, w)
          (spawn_lem req service s (write_if true true s) same kept going (write_if_all s))
    | inr quick ↦
        let done = append_and_record_lem r req service s h in
        simp (quick, w)
          (elim (Bool-cases (
            leb max_batched_response_bytes
              (length (append_and_record rt handler reg lib services r req service s).resp_buf))) [
                | inl much ↦ simp much (
                    write_responses_lem req s
                      (append_and_record rt handler reg lib services r req service s) _ done)
                | inr little ↦ simp little done
              ])
  ]

  serve_looked_up_lem :
      (r : Round) (req : Request) (o : Option ServiceEntry) (s : Serving)
      → r.written ≡ true
      → s.returned ≡ false
      → Serves (reply_found r req o) req s (serve_looked_up rt handler reg lib services r req o s)
  unfolding serve_looked_up reply_found
  serve_looked_up_lem r req none s w h = refuse_lem lib _ req s h
  serve_looked_up_lem r req (some service) s w h = serve_found_lem r req service s w h

  serve_request_lem :
      (r : Round) (req : Request) (s : Serving)
      → r.written ≡ true
      → s.returned ≡ false
      → Serves (reply r req) req s (serve_request rt handler reg lib services r req s)
  unfolding serve_request reply
  serve_request_lem r req s w h = elim (Bool-cases r.allowed) [
    | inl let_through ↦
        simp let_through (serve_looked_up_lem r req (lookup req.header.service_name services) s w h)
    | inr limited ↦ simp limited (refuse_lem lib (codes "rate limit exceeded") req s h)
  ]

  serve_read-goes :
      (r : Round) (o : Result Request) (req : Request) (t : Serving)
      → o ≡ ok req
      → t.returned ≡ false
      → serve_read rt handler reg lib services r o t
        ≡ serve_request rt handler reg lib services r req t
  unfolding serve_read
  serve_read-goes r o req t e h = rw e (if_false t _ h)

  pub serve_round_lem :
      (r : Round) (req : Request) (s : Serving)
      → r.read ≡ ok req
      → r.head_written ≡ true
      → r.written ≡ true
      → s.returned ≡ false
      → Serves (reply r req) req s (serve_round rt handler reg lib services r s)
  unfolding serve_round
  serve_round_lem r req s e hw w h =
      let (same, kept, going) = write_succeeds_lem (not r.buffered) r.head_written s hw h in
      let t = write_if (not r.buffered) r.head_written s in
      rw (serve_read-goes r r.read req t e going)
        (Serves-from (reply r req) req s t _ same kept (serve_request_lem r req t w going))

  -- A round that reads an error sends nothing new, starts nothing, and ends the loop.
  pub serve_round_err :
      (r : Round) (e : Error) (s : Serving)
      → r.read ≡ err e
      → r.head_written ≡ true
      → s.returned ≡ false
      → (sent (serve_round rt handler reg lib services r s) ≡ sent s)
        × ((serve_round rt handler reg lib services r s).spawned ≡ s.spawned)
        × ((serve_round rt handler reg lib services r s).returned ≡ true)
  unfolding serve_round serve_read
  serve_round_err r e s read hw h =
      let (same, kept, going) = write_succeeds_lem (not r.buffered) r.head_written s hw h in
      rw read (same, kept, refl)
