-- ===== src/Server/Loop/InOrder.antt =====
-- The loop serves the requests of a connection in order.
use kama_rpc_go.Base.{
  ℕ, ◌+◌, true, false, List, [], ◌∷◌, ◌++◌, Bytes, length, All, Error, Result, ok, err, bytes_eq,
  if_false, if_true, Result-cases, ◌≡◌, refl, sym, ap, ◌∙◌, arith, append_assoc, append-nil,
  length-append, inl, inr,
}
use kama_rpc_go.Codec.Registry.{Registry}
use kama_rpc_go.Protocol.Message.{Library}
use kama_rpc_go.Server.Service.{ServiceEntry}
use kama_rpc_go.Server.Handler.{Runtime, Handler}
use kama_rpc_go.Server.Loop.{Request, Round, Serving, serve_round, serve}
use kama_rpc_go.Server.Loop.Batching.{
  Reply, replied, started, sent, Serves, Serves-going, reply, serve_round_lem, serve_round_err,
}

-- A request, the bytes that were sent before it and after, and the goroutine that it starts.
unfoldable pub bytes_of : Reply → Bytes
bytes_of (replied b) = b
bytes_of (started service) = []

unfoldable pub starts_of : ℕ → Request → Reply → List (ℕ × Request × ServiceEntry)
starts_of n req (replied b) = []
starts_of n req (started service) = (n, req, service) ∷ []

-- The requests that are read, up to the first error, each answered by itself and in order: the
-- bytes, and the goroutines with the number of bytes before each, from `n` on.
-- What a list of rounds sends and starts.
abbrev pub Follows : Serving → Serving → Bytes × List (ℕ × Request × ServiceEntry) → Type 0
Follows s t out = (sent t ≡ sent s ++ out.0) × (t.spawned ≡ s.spawned ++ out.1)

module _ {Req Rep : Type 0} (rt : Runtime Req Rep) (handler : Handler) (reg : Registry)
    (lib : Library) (services : List (Bytes × ServiceEntry)) where
  abbrev pub answered :
      ℕ
      → Request
      → Reply
      → (ℕ → Bytes × List (ℕ × Request × ServiceEntry))
      → Bytes × List (ℕ × Request × ServiceEntry)
  answered n req a others =
      let rest = others (n + length (bytes_of a)) in
      (bytes_of a ++ rest.0, starts_of n req a ++ rest.1)

  pub in_order_read :
      ℕ
      → Round
      → (ℕ → Bytes × List (ℕ × Request × ServiceEntry))
      → Result Request
      → Bytes × List (ℕ × Request × ServiceEntry)
  in_order_read n r others (err e) = ([], [])
  in_order_read n r others (ok req) =
      answered n req (reply rt handler reg lib services r req) others

  unfoldable pub in_order : ℕ → List Round → Bytes × List (ℕ × Request × ServiceEntry)
  in_order n [] = ([], [])
  in_order n (r ∷ rs) = in_order_read n r (λ m. in_order m rs) r.read

  serve_returned :
      (rs : List Round) (s : Serving)
      → s.returned ≡ true
      → serve rt handler reg lib services rs s ≡ s
  unfolding serve
  serve_returned [] s h = refl
  serve_returned (r ∷ rs) s h = if_true s _ h

  pub in_order-ok :
      (n : ℕ) (r : Round) (rs : List Round) (req : Request)
      → r.read ≡ ok req
      → in_order n (r ∷ rs)
        ≡ answered n req (reply rt handler reg lib services r req) (λ m. in_order m rs)
  unfolding in_order in_order_read
  in_order-ok n r rs req e = ap (in_order_read n r (λ m. in_order m rs)) e

  in_order-err :
      (n : ℕ) (r : Round) (rs : List Round) (e : Error)
      → r.read ≡ err e
      → in_order n (r ∷ rs) ≡ ([], [])
  unfolding in_order in_order_read
  in_order-err n r rs e h = ap (in_order_read n r (λ m. in_order m rs)) h

  Serves-Follows :
      (a : Reply) (req : Request) (s t u : Serving)
      (others : ℕ → Bytes × List (ℕ × Request × ServiceEntry))
      → Serves a req s t
      → Follows t u (others (length (sent t)))
      → Follows s u (answered (length (sent s)) req a others)
  unfolding bytes_of starts_of
  Serves-Follows (replied b) req s t u others (same, kept, going) (f, g) =
      let n : length (sent t) ≡ length (sent s) + length b = rw same (length-append (sent s) b) in
      (
        rw (sym n)
            (f ∙ ap (λ z. z ++ (others (length (sent t))).0) same ∙ append_assoc (sent s) b _),
        rw (sym n, sym kept) g,
      )
  Serves-Follows (started service) req s t u others (same, kept, going) (f, g) =
      let n : length (sent t) ≡ length (sent s) + 0 = rw same (omega arith) in
      (
        rw (sym n, sym same) f,
        rw (sym n)
            (g ∙ ap (λ z. z ++ (others (length (sent t))).1) kept ∙ append_assoc s.spawned _ _),
      )

  -- Every write of the loop succeeds.
  abbrev pub Written : Round → Type 0
  Written r = (r.head_written ≡ true) × (r.written ≡ true)

  pub serve_goes :
      (r : Round) (rs : List Round) (s : Serving)
      → s.returned ≡ false
      → serve rt handler reg lib services (r ∷ rs) s
        ≡ serve rt handler reg lib services rs (serve_round rt handler reg lib services r s)
  unfolding serve
  serve_goes r rs s h = if_false s _ h

  serve-Follows_nil :
      (s : Serving)
      → Follows s (serve rt handler reg lib services [] s) (in_order (length (sent s)) [])
  unfolding serve in_order
  serve-Follows_nil s = (sym (append-nil (sent s)), sym (append-nil s.spawned))

  -- While the writes succeed, what the loop has written and gathered is the answers to the requests
  -- it read, each as if it were alone, in the order in which they arrived, up to the first error of
  -- the reading; and the goroutines start in that order too, each when all the answers to earlier
  -- requests are written. When packets were buffered makes no difference to either.
  pub serve-Follows :
      (rs : List Round) (s : Serving)
      → All Written rs
      → s.returned ≡ false
      → Follows s (serve rt handler reg lib services rs s) (in_order (length (sent s)) rs)
  serve-Follows [] s w h = serve-Follows_nil s
  serve-Follows (r ∷ rs) s ((hw, w), ws) h = rw (serve_goes r rs s h) (elim (Result-cases r.read) [
    | inl (e, read) ↦
        let (same, kept, done) = serve_round_err rt handler reg lib services r e s read hw h in
        rw
          (
            in_order-err (length (sent s)) r rs e read,
            serve_returned rs (serve_round rt handler reg lib services r s) done,
          )
          (same ∙ sym (append-nil (sent s)), kept ∙ sym (append-nil s.spawned))
    | inr (req, read) ↦
        let one = serve_round_lem rt handler reg lib services r req s read hw w h in
        rw (in_order-ok (length (sent s)) r rs req read) (
          Serves-Follows (reply rt handler reg lib services r req) req s
            (serve_round rt handler reg lib services r s)
            (serve rt handler reg lib services rs (serve_round rt handler reg lib services r s))
            (λ m. in_order m rs) one
            (serve-Follows rs (serve_round rt handler reg lib services r s) ws
              (Serves-going (reply rt handler reg lib services r req) req s _ one)))
  ])
