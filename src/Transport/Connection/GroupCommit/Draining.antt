-- ===== src/Transport/Connection/GroupCommit/Draining.antt =====
-- WriteRaw: the leader ends, and wakes those who wait.
use kama_rpc_go.Base.{
  ◌≡◌, refl, ap, ◌∙◌, List, [], ◌∷◌, Option, none, some, Result, Bytes, ◌⊎◌, inl, inr,
}
use kama_rpc_go.Base.{ℕ, ◌++◌}
use kama_rpc_go.Transport.Connection.GroupCommit.{Event, no_writes}
use kama_rpc_go.Transport.Connection.GroupCommit.Waiting.{
  calls_of, returned_calls, entered, all_return,
}
use kama_rpc_go.Transport.Connection.{SocketWrite, flush}
use kama_rpc_go.Transport.Connection.GroupCommit.{
  Write, WriteBatch, Leader, idle, writes_own, turns, writes_batch, Writes, own_flushed,
  batch_flushed, flushed, take_batch, take_turn, flushes, locks, step, run,
}
use kama_rpc_go.Transport.Connection.GroupCommit.Order.{leader_bytes, batch_bytes}

-- The writes are enough for the block: the flush ends, with an error or without.
abbrev pub Returns : List SocketWrite → Bytes → Type 0
Returns writes block = (r : Result (Unit {0})) × ((flush writes block).1 ≡ some r)

-- No flush is going on.
abbrev Ready : Writes → Type 0
Ready s = (s.leader ≡ idle) ⊎ ((w : Write) × (own : Result (Unit {0})) × (s.leader ≡ turns w own))

own_flushed-Ready :
    (w : Write) (out : Bytes × Option (Result (Unit {0}))) (s : Writes) (r : Result (Unit {0}))
    → out.1 ≡ some r
    → Ready (own_flushed w out s) × ((own_flushed w out s).batch ≡ s.batch)
unfolding own_flushed
own_flushed-Ready w (out, some q) s r e = (inr (w, q, refl), refl)
own_flushed-Ready w (out, none) s r e = cc

batch_flushed-Ready :
    (w : Write) (own : Result (Unit {0})) (b : WriteBatch)
    (out : Bytes × Option (Result (Unit {0}))) (s : Writes) (r : Result (Unit {0}))
    → out.1 ≡ some r
    → Ready (batch_flushed w own b out s) × ((batch_flushed w own b out s).batch ≡ s.batch)
unfolding batch_flushed
batch_flushed-Ready w own b (out, some q) s r e = (inr (w, own, refl), refl)
batch_flushed-Ready w own b (out, none) s r e = cc

flushed-Ready :
    (l : Leader) (writes : List SocketWrite) (s : Writes)
    → s.leader ≡ l
    → Returns writes (leader_bytes l)
    → Ready (flushed l writes s) × ((flushed l writes s).batch ≡ s.batch)
unfolding flushed
flushed-Ready idle writes s h ends = (inl h, refl)
flushed-Ready (writes_own w) writes s h (r, e) = own_flushed-Ready w (flush writes w.bytes) s r e
flushed-Ready (turns w own) writes s h ends = (inr (w, own, h), refl)
flushed-Ready (writes_batch w own b) writes s h (r, e) =
    batch_flushed-Ready w own b (flush writes b.buf) s r e

-- The turn after a batch's flush, when no other has come.
batch_flushed-idle :
    (w : Write) (own : Result (Unit {0})) (b : WriteBatch)
    (out : Bytes × Option (Result (Unit {0}))) (s : Writes) (r : Result (Unit {0}))
    → out.1 ≡ some r
    → s.batch ≡ none
    → (step (batch_flushed w own b out s) locks).leader ≡ idle
unfolding step batch_flushed take_turn take_batch
batch_flushed-idle w own b (out, some q) s r e h =
    ap (λ o. (take_batch w own o (batch_flushed w own b (out, some q) s)).leader) h
batch_flushed-idle w own b (out, none) s r e h = cc

take_batch-drains :
    (w : Write) (own : Result (Unit {0})) (o : Option WriteBatch) (writes : List SocketWrite)
    (s : Writes)
    → Returns writes (batch_bytes o)
    → (run (take_batch w own o s) (flushes writes ∷ locks ∷ [])).leader ≡ idle
unfolding run step flushed take_turn take_batch
take_batch-drains w own none writes s ends = refl
take_batch-drains w own (some b) writes s (r, e) =
    batch_flushed-idle w own b (flush writes b.buf) (take_batch w own (some b) s) r e refl

Ready-drains :
    (s : Writes) (writes : List SocketWrite)
    → Ready s
    → Returns writes (batch_bytes s.batch)
    → (run s (locks ∷ flushes writes ∷ locks ∷ [])).leader ≡ idle
unfolding run step take_turn flushed
Ready-drains s writes (inl h) ends =
    let turn : step s locks ≡ s = ap (λ l. take_turn l s) h in
    let write : step s (flushes writes) ≡ s = ap (λ l. flushed l writes s) h in
    ap (λ t. (run t (flushes writes ∷ locks ∷ [])).leader) turn
    ∙ ap (λ t. (run t (locks ∷ [])).leader) write
    ∙ ap (λ t. t.leader) turn
    ∙ h
Ready-drains s writes (inr (w, own, h)) ends =
    ap (λ l. (run (take_turn l s) (flushes writes ∷ locks ∷ [])).leader) h
    ∙ take_batch-drains w own s.batch writes s ends

abbrev ending : List SocketWrite → List SocketWrite → List Event
ending own_writes batch_writes = flushes own_writes ∷ locks ∷ flushes batch_writes ∷ locks ∷ []

leader_drains :
    (s : Writes) (own_writes batch_writes : List SocketWrite)
    → Returns own_writes (leader_bytes s.leader)
    → Returns batch_writes (batch_bytes s.batch)
    → (run s (flushes own_writes ∷ locks ∷ flushes batch_writes ∷ locks ∷ [])).leader ≡ idle
unfolding run step
leader_drains s own_writes batch_writes ends batch_ends =
    let (ready, kept) = flushed-Ready s.leader own_writes s refl ends in
    Ready-drains (flushed s.leader own_writes s) batch_writes ready (rw kept batch_ends)

run_append : (s : Writes) (es fs : List Event) → run s (es ++ fs) ≡ run (run s es) fs
unfolding run
run_append s [] fs = refl
run_append s (e ∷ es) fs = run_append (step s e) es fs

-- After any events from the start on, a leader whose flushes end, with errors or without, is done
-- after two flushes and two turns at most, if no other calls come: no leader is left, and each of
-- the calls that were made has returned, as many times as it was made.
pub leader_ends :
    (n : ℕ) (es : List Event) (own_writes batch_writes : List SocketWrite)
    → Returns own_writes (leader_bytes (run no_writes es).leader)
    → Returns batch_writes (batch_bytes (run no_writes es).batch)
    → (let all = es ++ (flushes own_writes ∷ locks ∷ flushes batch_writes ∷ locks ∷ []) in
        ((run no_writes all).leader ≡ idle)
        × (calls_of n (returned_calls (run no_writes all)) ≡ calls_of n (entered all)))
leader_ends n es own_writes batch_writes ends batch_ends =
    let done =
      ap (λ (s : Writes). s.leader) (run_append no_writes es (ending own_writes batch_writes))
      ∙ leader_drains (run no_writes es) own_writes batch_writes ends batch_ends in
    (done, all_return n (es ++ ending own_writes batch_writes) done)
