-- ===== src/Server/Loop/Writing.antt =====
-- Before the loop reads on with no packet buffered, all that it has gathered is written.
use kama_rpc_go.Base.{
  ltb, leb, not, Bool, true, false, List, [], ◌∷◌, ◌++◌, Bytes, length, All, Option, none, some,
  Error, Result, ok, err, bytes_eq, lookup, if_true, if_false, ◌≡◌, refl, sym, ap, ◌∙◌, append-nil,
  Bool-cases, inl, inr, ◌&&◌,
}
use kama_rpc_go.Codec.Registry.{Registry}
use kama_rpc_go.Protocol.Message.{Library}
use kama_rpc_go.Server.Service.{ServiceEntry}
use kama_rpc_go.Server.Handler.{Runtime, Handler}
use kama_rpc_go.Server.Loop.{
  Request, Round, Serving, dispatch_threshold, max_batched_response_bytes, write_responses,
  write_if, refuse, spawn, append_and_record, serve_found, serve_looked_up, serve_request,
  serve_read, serve_round, serve,
}
use kama_rpc_go.Server.Loop.Batching.{sent, write_if_all, Serves-going, reply, serve_round_lem}
use kama_rpc_go.Server.Loop.InOrder.{in_order, Follows, Written, serve_goes, serve-Follows}

-- What is on the wire stays, and more may come.
abbrev pub Begins : Bytes → Serving → Type 0
Begins b t = (more : Bytes) × (t.wire ≡ b ++ more)

write_responses-Begins : (written : Bool) (s : Serving) → Begins s.wire (write_responses written s)
unfolding write_responses
write_responses-Begins true s = (s.resp_buf, refl)
write_responses-Begins false s = ([], sym (append-nil s.wire))

write_if-Begins : (test written : Bool) (s : Serving) → Begins s.wire (write_if test written s)
unfolding write_if
write_if-Begins test written s = elim (Bool-cases (ltb 0 (length s.resp_buf) && test)) [
  | inl yes_write ↦ rw yes_write (write_responses-Begins written s)
  | inr no_write ↦ rw no_write ([], sym (append-nil s.wire))
]

spawn-wire :
    (req : Request) (service : ServiceEntry) (s : Serving) → (spawn req service s).wire ≡ s.wire
unfolding spawn
spawn-wire req service s = elim (Bool-cases s.returned) [
  | inl ended ↦ rw ended
  | inr going ↦ rw going
]

module _ {Req Rep : Type 0} (rt : Runtime Req Rep) (handler : Handler) (reg : Registry)
    (lib : Library) (services : List (Bytes × ServiceEntry)) where
  serve_found-Begins :
      (r : Round) (req : Request) (service : ServiceEntry) (s : Serving)
      → Begins s.wire (serve_found rt handler reg lib services r req service s)
  unfolding serve_found append_and_record
  serve_found-Begins r req service s = elim (Bool-cases (ltb dispatch_threshold r.avg_cost)) [
    | inl slow ↦
        let (more, e) = write_if-Begins true r.written s in
        rw slow (more, spawn-wire req service (write_if true r.written s) ∙ e)
    | inr quick ↦
        simp quick
          (elim (Bool-cases (
            leb max_batched_response_bytes
              (length (append_and_record rt handler reg lib services r req service s).resp_buf))) [
                | inl much ↦ simp much (
                    write_responses-Begins r.written
                      (append_and_record rt handler reg lib services r req service s))
                | inr little ↦ simp little ([], sym (append-nil s.wire))
              ])
  ]

  serve_looked_up-Begins :
      (r : Round) (req : Request) (o : Option ServiceEntry) (s : Serving)
      → Begins s.wire (serve_looked_up rt handler reg lib services r req o s)
  unfolding serve_looked_up refuse
  serve_looked_up-Begins r req none s = ([], sym (append-nil s.wire))
  serve_looked_up-Begins r req (some service) s = serve_found-Begins r req service s

  serve_request-Begins :
      (r : Round) (req : Request) (s : Serving)
      → Begins s.wire (serve_request rt handler reg lib services r req s)
  unfolding serve_request refuse
  serve_request-Begins r req s = elim (Bool-cases r.allowed) [
    | inl through ↦
        simp through (serve_looked_up-Begins r req (lookup req.header.service_name services) s)
    | inr limited ↦ simp limited ([], sym (append-nil s.wire))
  ]

  serve_read-Begins :
      (r : Round) (o : Result Request) (s : Serving)
      → Begins s.wire (serve_read rt handler reg lib services r o s)
  unfolding serve_read
  serve_read-Begins r (err e) s = ([], sym (append-nil s.wire))
  serve_read-Begins r (ok req) s =
      let (more, e) = serve_request-Begins r req s in
      elim (Bool-cases s.returned) [
        | inl ended ↦
            ([], ap (λ (u : Serving). u.wire) (if_true s _ ended) ∙ sym (append-nil s.wire))
        | inr going ↦ (more, ap (λ (u : Serving). u.wire) (if_false s _ going) ∙ e)
      ]

  head_write :
      (r : Round) (s : Serving)
      → r.buffered ≡ false
      → r.head_written ≡ true
      → (write_if (not r.buffered) r.head_written s).wire ≡ sent s
  head_write r s nothing w = rw (nothing, w) (write_if_all s)

  serve_round-Begins :
      (r : Round) (s : Serving)
      → r.buffered ≡ false
      → r.head_written ≡ true
      → Begins (sent s) (serve_round rt handler reg lib services r s)
  unfolding serve_round
  serve_round-Begins r s nothing w =
      let (more, e) = serve_read-Begins r r.read (write_if (not r.buffered) r.head_written s) in
      (more, e ∙ ap (λ b. b ++ more) (head_write r s nothing w))

  -- The round in which the reading ends.
  pub last_round-wire :
      (r : Round) (e : Error) (s : Serving)
      → r.read ≡ err e
      → r.buffered ≡ false
      → r.head_written ≡ true
      → (serve_round rt handler reg lib services r s).wire ≡ sent s
  unfolding serve_round serve_read
  last_round-wire r e s read nothing w = rw read (head_write r s nothing w)

  -- The round reads a request.
  abbrev pub Reads : Round → Type 0
  Reads r = (req : Request) × (r.read ≡ ok req)

  pub serve-going :
      (rs : List Round) (s : Serving)
      → All (Written rt handler reg lib services) rs
      → All Reads rs
      → s.returned ≡ false
      → (serve rt handler reg lib services rs s).returned ≡ false
  serve-going [] s w h going = unfold serve in going
  serve-going (r ∷ rs) s ((hw, w), ws) ((req, read), reads) going =
      let one = serve_round_lem rt handler reg lib services r req s read hw w going in
      rw (serve_goes rt handler reg lib services r rs s going) (
        serve-going rs (serve_round rt handler reg lib services r s) ws reads
          (Serves-going (reply rt handler reg lib services r req) req s _ one))

  pub serve-snoc :
      (rs : List Round) (r : Round) (s : Serving)
      → All (Written rt handler reg lib services) rs
      → All Reads rs
      → s.returned ≡ false
      → serve rt handler reg lib services (rs ++ (r ∷ [])) s
        ≡ serve_round rt handler reg lib services r (serve rt handler reg lib services rs s)
  serve-snoc [] r s w h going =
      serve_goes rt handler reg lib services r [] s going ∙ unfold serve in refl
  serve-snoc (q ∷ rs) r s ((hw, w), ws) ((req, read), reads) going =
      let one = serve_round_lem rt handler reg lib services q req s read hw w going in
      let t = serve_round rt handler reg lib services q s in
      serve_goes rt handler reg lib services q (rs ++ (r ∷ [])) s going
      ∙ serve-snoc rs r t ws reads
          (Serves-going (reply rt handler reg lib services q req) req s _ one)
      ∙ ap (serve_round rt handler reg lib services r)
          (sym (serve_goes rt handler reg lib services q rs s going))

  -- While the reads and the writes succeed, what the loop has written and gathered is the answers to
  -- the requests it read, each as if it were alone, in the order in which they arrived, and the
  -- goroutines start in that order too, each when all the answers to earlier requests are
  -- written. And before the loop reads on when no whole packet is buffered, so that it may wait,
  -- all these answers are written: the wire begins with them, whatever that read returns.
  pub serve-Writes :
      (rs : List Round) (r : Round) (s : Serving)
      → All (Written rt handler reg lib services) rs
      → All Reads rs
      → r.buffered ≡ false
      → r.head_written ≡ true
      → s.returned ≡ false
      → (let all = in_order rt handler reg lib services (length (sent s)) rs in
          Follows s (serve rt handler reg lib services rs s) all
          × Begins (sent s ++ all.0) (serve rt handler reg lib services (rs ++ (r ∷ [])) s))
  serve-Writes rs r s w reads nothing hw going =
      let t = serve rt handler reg lib services rs s in
      let follows = serve-Follows rt handler reg lib services rs s w going in
      let (more, e) = serve_round-Begins r t nothing hw in
      (
        follows,
        (
          more,
          ap (λ (u : Serving). u.wire) (serve-snoc rs r s w reads going)
              ∙ e
              ∙ ap (λ b. b ++ more) follows.0,
        ),
      )
