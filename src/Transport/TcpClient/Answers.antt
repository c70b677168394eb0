-- ===== src/Transport/TcpClient/Answers.antt =====
-- Each answer goes to the future of its request, and a failure reaches every future.
use kama_rpc_go.Base.{
  ℕ, ◌==◌, ◌≡◌, refl, ap, if◌then◌else◌, true, false, List, [], ◌∷◌, map, Bytes, Option, none, some,
  Error,
}
use kama_rpc_go.Protocol.Header.{Header}
use kama_rpc_go.Transport.Pending.Table.{waiting, waiting-load_and_delete, drain_all-waiting}
use kama_rpc_go.Transport.TcpClient.{TcpClient, failed_with, fail, complete_found, answer}
use mathlib.Core.List.{Memᴰ}

-- The future that waits for the answer to a request.
abbrev pub waits_for : TcpClient → ℕ → Option ℕ
waits_for c seq = waiting c.pending seq

-- An answer completes the future that waits for its request id, and no other one: with the body,
-- or with the error that its header tells. Then nothing waits for that id, and every other request
-- waits as before. An answer for which nothing waits completes nothing.
pub answer-completes :
    (h : Header) (body : Bytes) (c : TcpClient) (j : ℕ)
    → ((answer h body c).0 ≡ complete_found h body (waits_for c h.request_id))
      × (waits_for (answer h body c).1 j ≡ (if h.request_id == j then none else waits_for c j))
unfolding answer
answer-completes h body c j =
    let (e, w) = waiting-load_and_delete c.pending h.request_id j in
    (ap (complete_found h body) e, w)

Mem-map :
    (e : Error) (f : ℕ) (fs : List ℕ) → Memᴰ f fs → Memᴰ (failed_with e f) (map (failed_with e) fs)
Mem-map e f [] m = elim m [ ]
Mem-map e f (g ∷ fs) (Memᴰ.head p) = Memᴰ.head (ap (failed_with e) p)
Mem-map e f (g ∷ fs) (Memᴰ.tail m) = Memᴰ.tail (Mem-map e f fs m)

-- When the connection fails, every future that waits is completed with that error, nothing waits
-- any more, and the client is closed.
pub fail-completes :
    (e : Error) (c : TcpClient) (seq : ℕ)
    → c.closed ≡ false
    → ((f : ℕ) → waits_for c seq ≡ some f → Memᴰ (failed_with e f) (fail e c).0)
      × (waits_for (fail e c).1 seq ≡ none)
      × ((fail e c).1.closed ≡ true)
unfolding fail
fail-completes e c seq h =
    let (all, none_left) = drain_all-waiting c.pending seq in
    simp h ((λ f w. Mem-map e f _ (all f w)), none_left, refl)
