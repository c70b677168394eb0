-- ===== src/Transport/TcpClient/Once.antt =====
-- No future is completed twice, whatever the goroutines do and in whatever order.
use kama_rpc_go.Base.{
  ℕ, ◌+◌, ◌≤◌, ◌<◌, ◌≡◌, refl, arith, if◌then◌else◌, ltb, List, [], ◌∷◌, ◌++◌, map, Bytes, Option,
  none, some, Error, ==_iff, ap,
}
use kama_rpc_go.Protocol.Header.{Header}
use kama_rpc_go.Transport.Pending.{delete, drain_shard, load_and_delete}
use kama_rpc_go.Transport.TcpClient.{
  TcpClient, Completion, new_tcp_client, next_seq, failed_with, register, complete_with,
  complete_found, answer,
}
use kama_rpc_go.Transport.TcpClient.Counting.{
  hit, count, count-append, in_pending, in_pending-store, in_pending-delete, hits,
  in_pending-load_and_delete, in_pending-drain_shard, in_pending-new_pending_map,
}

-- What the goroutines that share a client do: a sender registers a request, or withdraws one that
-- it could not write; the reader takes an answer; a failing client has one shard's turn in its
-- drain. They come in any order, also those that the tests of `closed` rule out.
pub data Event : Type 0 where
  registers : Event
  withdraws : ℕ → Event
  answers : Header → Bytes → Event
  drains : (i : ℕ) → i < 32 → Error → Event

unfoldable pub step : TcpClient → Event → List Completion × TcpClient
step c registers = ([], (register c).1)
step c (withdraws seq) = ([], record c { pending = delete seq c.pending })
step c (answers h body) = answer h body c
step c (drains i small e) =
    let r = drain_shard i c.pending in (map (failed_with e) r.0, record c { pending = r.1 })

unfoldable pub run : TcpClient → List Event → List Completion × TcpClient
run c [] = ([], c)
run c (ev ∷ evs) = let r = step c ev in let rest = run r.1 evs in (r.0 ++ rest.0, rest.1)

-- The futures that the completions are about.
abbrev pub completed : List Completion → List ℕ
completed [] = []
completed ((f, res, e) ∷ cs) = f ∷ completed cs

completed-append : (xs ys : List Completion) → completed (xs ++ ys) ≡ completed xs ++ completed ys
completed-append [] ys = refl
completed-append ((f, res, e) ∷ xs) ys = ap (λ t. f ∷ t) (completed-append xs ys)

completed-failed_with : (e : Error) (fs : List ℕ) → completed (map (failed_with e) fs) ≡ fs
completed-failed_with e [] = refl
completed-failed_with e (f ∷ fs) = ap (λ t. f ∷ t) (completed-failed_with e fs)

count-complete_found :
    (f : ℕ) (h : Header) (body : Bytes) (o : Option ℕ)
    → count f (completed (complete_found h body o)) ≡ hits f o
unfolding complete_found complete_with count
count-complete_found f h body none = refl
count-complete_found f h body (some g) = with_error h.error refl
  where
    with_error :
        (x : Bytes) → h.error ≡ x → count f (completed (complete_with h body g ∷ [])) ≡ hit f g
    with_error [] e = unfold complete_with count in rw e (omega arith)
    with_error (b ∷ bs) e = unfold complete_with count in rw e (omega arith)

-- How often a future may still be completed, at most: once if NewFuture has made it.
abbrev made : ℕ → TcpClient → ℕ
made f c = if ltb f c.allocated then 1 else 0

-- What a step takes out of the table, what it completes and what it makes.
step-count :
    (f : ℕ) (c : TcpClient) (ev : Event)
    → in_pending f (step c ev).1.pending + count f (completed (step c ev).0) + made f c
      ≤ in_pending f c.pending + made f (step c ev).1
unfolding step
step-count f c registers =
    unfold register count in
    ground (arith, in_pending-store f (next_seq c) c.allocated c.pending, ==_iff f c.allocated)
step-count f c (withdraws seq) = unfold count in omega (arith, in_pending-delete f seq c.pending)
step-count f c (answers h body) =
    unfold answer in
    omega (
      arith,
      in_pending-load_and_delete f h.request_id c.pending,
      count-complete_found f h body (load_and_delete h.request_id c.pending).0,
    )
step-count f c (drains i small e) =
    rw (completed-failed_with e (drain_shard i c.pending).0)
      (omega (arith, in_pending-drain_shard f i c.pending small))

run-count :
    (f : ℕ) (c : TcpClient) (evs : List Event)
    → in_pending f (run c evs).1.pending + count f (completed (run c evs).0) + made f c
      ≤ in_pending f c.pending + made f (run c evs).1
unfolding run
run-count f c [] = unfold count in omega arith
run-count f c (ev ∷ evs) =
    rw
      (
        completed-append (step c ev).0 (run (step c ev).1 evs).0,
        count-append f (completed (step c ev).0) (completed (run (step c ev).1 evs).0),
      )
      (omega (arith, step-count f c ev, run-count f (step c ev).1 evs))

-- From a new client on, whatever the goroutines do and in whatever order: a future is completed
-- once at most, waits in the table once at most, and never both.
pub run-once :
    (n f : ℕ) (evs : List Event)
    → let r = run (new_tcp_client n) evs in in_pending f r.1.pending + count f (completed r.0) ≤ 1
run-once n f evs =
    let start : in_pending f (new_tcp_client n).pending ≡ 0 =
      unfold new_tcp_client in in_pending-new_pending_map f in
    let all = run-count f (new_tcp_client n) evs in ground (arith, start, all)
