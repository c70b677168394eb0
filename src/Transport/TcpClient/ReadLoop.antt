-- ===== src/Transport/TcpClient/ReadLoop.antt =====
-- tcp_client.go, readLoop: the packets that come in, one after another, each decoded and its future
-- completed. An error ends the loop and fails the client.
use kama_rpc_go.Base.{
  ℕ, ◌==◌, ◌≡◌, refl, ap, ◌∙◌, if◌then◌else◌, false, List, [], ◌∷◌, ◌++◌, map, Bytes, Option, none,
  some, Result, ok, err, All, if_false, ==_iff, arith,
}
use kama_rpc_go.Protocol.Header.{Header}
use kama_rpc_go.Protocol.Intern.{Cache, IsCache, Reads}
use kama_rpc_go.Protocol.Message.{Library, Message, decode}
use kama_rpc_go.Transport.TcpClient.{
  TcpClient, Completion, fail, complete_with, complete_found, answer,
}
use kama_rpc_go.Transport.TcpClient.Answers.{waits_for, answer-completes}
use kama_rpc_go.Transport.TcpClient.Batch.{among}

-- A message without a header cannot come: DecodeInto fills in the connection's own.
unfoldable pub answer_header : Option Header → Bytes → TcpClient → List Completion × TcpClient
answer_header none body c = ([], c)
answer_header (some h) body c = answer h body c

-- A round, and the rounds behind it.
unfoldable pub dispatch :
    (TcpClient → List Completion × TcpClient)
    → Result Message
    → TcpClient
    → List Completion × TcpClient
unfolding answer_header
dispatch more (err e) c = fail e c
dispatch more (ok m) c =
    let r = answer_header m.header m.body c in let rest = more r.1 in (r.0 ++ rest.0, rest.1)

-- readLoop on the packets that the connection delivers, until it blocks for the next one.
unfoldable pub read_loop : Library → List Bytes → Cache → TcpClient → List Completion × TcpClient
unfolding dispatch
read_loop lib [] cache c = ([], c)
read_loop lib (p ∷ ps) cache c =
    let d = decode lib p cache in dispatch (λ c'. read_loop lib ps d.1 c') d.0 c

-- A response on its way: its packet, what it decodes to, and the future that waits for it.
pub record Response : Type 0 where
  pub packet : Bytes
  pub header : Header
  pub body : Bytes
  pub future : ℕ

abbrev pub Carries : Library → Bytes → Message → Type 0
Carries lib p m = (c : Cache) → IsCache c → Reads (decode lib p c) m

abbrev pub IsResponse : Library → Response → Type 0
IsResponse lib r = Carries lib r.packet (record { header = some r.header; body = r.body })

abbrev pub ids_of : List Response → List ℕ
ids_of = map (λ (r : Response). r.header.request_id)

-- No number stands in the list twice.
abbrev pub Distinct : List ℕ → Type 0
Distinct [] = Unit
Distinct (n ∷ ns) = (among n ns ≡ false) × Distinct ns

abbrev pub Waiting : TcpClient → Response → Type 0
Waiting c r = waits_for c r.header.request_id ≡ some r.future

among-swap : (n m : ℕ) (ns : List ℕ) → All (λ k. n == k ≡ false) ns → among n ns ≡ false
unfolding among
among-swap n m [] h = refl
among-swap n m (k ∷ ns) (h, hs) = ground (arith, among-swap n m ns hs, ==_iff n k, ==_iff k n)

-- What is left of the requests that wait, when one is answered that is not among them.
All-Waiting :
    (c d : TcpClient) (id : ℕ) (rs : List Response)
    → ((j : ℕ) → waits_for d j ≡ (if id == j then none else waits_for c j))
    → among id (ids_of rs) ≡ false
    → All (Waiting c) rs
    → All (Waiting d) rs
unfolding among
All-Waiting c d id [] e fresh w = tt
All-Waiting c d id (r ∷ rs) e fresh (w, ws) =
    let other : id == r.header.request_id ≡ false = ground arith in
    (e r.header.request_id ∙ if_false none _ other ∙ w, All-Waiting c d id rs e (ground arith) ws)

abbrev pub completion : Response → Completion
completion r = complete_with r.header r.body r.future

dispatch_response :
    (more : TcpClient → List Completion × TcpClient) (o : Result Message) (r : Response)
    (c : TcpClient)
    → o ≡ ok (record { header = some r.header; body = r.body })
    → Waiting c r
    → dispatch more o c ≡ (
      completion r ∷ (more (answer r.header r.body c).1).0,
      (more (answer r.header r.body c).1).1,
    )
unfolding dispatch answer_header complete_found
dispatch_response more o r c e w =
    let found = (answer-completes r.header r.body c 0).0 ∙ ap (complete_found r.header r.body) w in
    ap (λ z. dispatch more z c) e
    ∙ ap
        (λ (cs : List Completion).
          (cs ++ (more (answer r.header r.body c).1).0, (more (answer r.header r.body c).1).1))
        found

answered_lem :
    (id j : ℕ) (ids : List ℕ) (o : Option ℕ)
    → (if among j ids then none else (if id == j then none else o))
      ≡ (if among j (id ∷ ids) then none else o)
unfolding among
answered_lem id j ids o = ground arith

-- Responses that come in any order, to requests that wait, complete exactly the futures of these
-- requests, each with its own response and in the order in which the responses come; then none
-- of them waits any more, and every other request waits as before.
pub read_loop-delivers :
    (lib : Library) (rs : List Response) (cache : Cache) (c : TcpClient) (j : ℕ)
    → IsCache cache
    → All (IsResponse lib) rs
    → Distinct (ids_of rs)
    → All (Waiting c) rs
    → (let r = read_loop lib (map (λ (r : Response). r.packet) rs) cache c in
        (r.0 ≡ map completion rs)
        × (waits_for r.1 j ≡ (if among j (ids_of rs) then none else waits_for c j)))
unfolding read_loop among
read_loop-delivers lib [] cache c j v h d w = (refl, refl)
read_loop-delivers lib (r ∷ rs) cache c j v (h, hs) (d, ds) (w, ws) =
    let (e, v') = h cache v in
    let rest : List Bytes = map (λ (r : Response). r.packet) rs in
    let c' : TcpClient = (answer r.header r.body c).1 in
    let one = λ (k : ℕ). (answer-completes r.header r.body c k).1 in
    let (done, left) =
      read_loop-delivers lib rs (decode lib r.packet cache).1 c' j v' hs ds
        (All-Waiting c c' r.header.request_id rs one d ws) in
    let step =
      dispatch_response (λ c'. read_loop lib rest (decode lib r.packet cache).1 c')
        (decode lib r.packet cache).0 r c e w in
    (
      ap (λ z. z.0) step ∙ ap (λ cs. completion r ∷ cs) done,
      ap (λ z. waits_for z.1 j) step
          ∙ left
          ∙ ap (λ (o : Option ℕ). if among j (ids_of rs) then none else o) (one j)
          ∙ answered_lem r.header.request_id j (ids_of rs) (waits_for c j),
    )
