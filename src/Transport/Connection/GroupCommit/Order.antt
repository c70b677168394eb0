-- ===== src/Transport/Connection/GroupCommit/Order.antt =====
-- WriteRaw: what is written, and in which order.
use kama_rpc_go.Base.{
  ℕ, ◌⊎◌, ◌+◌, ◌≡◌, refl, sym, ap, ◌∙◌, arith, ◌==◌, true, List, [], ◌∷◌, ◌++◌, length, map, All,
  Option, none, some, Result, ok, Bytes, Bool-cases, inl, inr, append_assoc, append-nil,
}
use kama_rpc_go.Transport.Connection.{SocketWrite, wrote, flush, flush_from}
use kama_rpc_go.Transport.Connection.Flushing.{flush-ok}
use kama_rpc_go.Transport.Connection.GroupCommit.{
  Write, WriteBatch, Leader, idle, writes_own, turns, writes_batch, Writes, join, write_raw,
  own_flushed, batch_flushed, flushed, take_batch, take_turn, Event, enters, flushes, locks, step,
  run,
}
use kama_rpc_go.Transport.Connection.GroupCommit.Shapes.{
  IsWrites, Shape-idle, Shape-unbatched, step-IsWrites,
}
use kama_rpc_go.Transport.Connection.GroupCommit.Waiting.{entered}

-- The bytes that a leader is writing, and those of a batch that waits.
abbrev pub leader_bytes : Leader → Bytes
leader_bytes idle = []
leader_bytes (writes_own w) = w.bytes
leader_bytes (turns w own) = []
leader_bytes (writes_batch w own b) = b.buf

abbrev pub batch_bytes : Option WriteBatch → Bytes
batch_bytes none = []
batch_bytes (some b) = b.buf

-- What is written already, what is being written, and what waits.
abbrev pub stream : Writes → Bytes
stream s = s.wire ++ (leader_bytes s.leader ++ batch_bytes s.batch)

abbrev pub blocks : List Write → Bytes
blocks [] = []
blocks (w ∷ ws) = w.bytes ++ blocks ws

-- The socket's writes do not fail, though they may take a part of the bytes.
abbrev pub Clean : Event → Type 0
Clean (enters w) = Unit {0}
Clean (flushes writes) = (sizes : List ℕ) × (writes ≡ map wrote sizes)
Clean locks = Unit {0}

-- A flush that has not returned, or has written everything.
flush_from-clean :
    (sizes : List ℕ) (bytes : Bytes) (total : ℕ)
    → ((flush_from (map wrote sizes) bytes total).1 ≡ none)
      ⊎ ((flush_from (map wrote sizes) bytes total).1 ≡ some (ok tt))
unfolding flush_from
flush_from-clean [] bytes total = ground arith
flush_from-clean (n ∷ sizes) bytes total = ground (arith, flush_from-clean sizes bytes (total + n))

-- What a flush without failure gives: nothing yet, or all the bytes.
abbrev pub Whole : Bytes → Bytes × Option (Result (Unit {0})) → Type 0
Whole bytes out = (out.1 ≡ none) ⊎ (out ≡ (bytes, some (ok tt)))

flush-Whole :
    (writes : List SocketWrite) (bytes : Bytes)
    → Clean (flushes writes)
    → Whole bytes (flush writes bytes)
unfolding flush
flush-Whole writes bytes (sizes, e) = rw e (elim (flush_from-clean sizes bytes 0) [
  | inl running ↦ inl running
  | inr done ↦ inr (cc (flush-ok (map wrote sizes) bytes done, done))
])

pub empty_lem : (b : Bytes) → (length b == 0) ≡ true → b ≡ []
empty_lem [] h = refl
empty_lem (x ∷ b) h = absurd (ground arith)

join-stream :
    (a b : Bytes) (w : Write) (o : Option WriteBatch)
    → a ++ (b ++ (join w o).buf) ≡ (a ++ (b ++ batch_bytes o)) ++ w.bytes
unfolding join
join-stream a b w none = simp append_assoc
join-stream a b w (some c) = simp append_assoc

write_raw-stream :
    (w : Write) (s : Writes) → IsWrites s → stream (write_raw w s) ≡ stream s ++ w.bytes
unfolding write_raw
write_raw-stream w s v = elim (Bool-cases (length w.bytes == 0)) [
  | inl empty ↦
      rw empty (sym (ap (λ b. stream s ++ b) (empty_lem w.bytes empty) ∙ append-nil (stream s)))
  | inr full ↦ rw full (elim (Bool-cases s.writing) [
    | inl busy ↦ simp busy (join-stream s.wire (leader_bytes s.leader) w s.batch)
    | inr free ↦
        let none_leads = Shape-idle s.leader s.writing s.batch v free in
        let leads = ap leader_bytes none_leads in
        let waits = ap batch_bytes (Shape-unbatched s.leader s.writing s.batch none_leads v) in
        simp free (rw (leads, waits) (simp append-nil))
  ])
]

own_flushed-stream :
    (w : Write) (out : Bytes × Option (Result (Unit {0}))) (s : Writes)
    → s.leader ≡ writes_own w
    → Whole w.bytes out
    → stream (own_flushed w out s) ≡ stream s
unfolding own_flushed
own_flushed-stream w (out, none) s h whole = refl
own_flushed-stream w (out, some r) s h (inl running) = absurd (ground arith)
own_flushed-stream w (out, some r) s h (inr done) =
    rw (ap leader_bytes h, ap (λ p. p.0) done) (append_assoc s.wire w.bytes (batch_bytes s.batch))

batch_flushed-stream :
    (w : Write) (own : Result (Unit {0})) (b : WriteBatch)
    (out : Bytes × Option (Result (Unit {0}))) (s : Writes)
    → s.leader ≡ writes_batch w own b
    → Whole b.buf out
    → stream (batch_flushed w own b out s) ≡ stream s
unfolding batch_flushed
batch_flushed-stream w own b (out, none) s h whole = refl
batch_flushed-stream w own b (out, some r) s h (inl running) = absurd (ground arith)
batch_flushed-stream w own b (out, some r) s h (inr done) =
    rw (ap leader_bytes h, ap (λ p. p.0) done) (append_assoc s.wire b.buf (batch_bytes s.batch))

flushed-stream :
    (l : Leader) (writes : List SocketWrite) (s : Writes)
    → s.leader ≡ l
    → Clean (flushes writes)
    → stream (flushed l writes s) ≡ stream s
unfolding flushed
flushed-stream idle writes s h c = refl
flushed-stream (writes_own w) writes s h c =
    own_flushed-stream w (flush writes w.bytes) s h (flush-Whole writes w.bytes c)
flushed-stream (turns w own) writes s h c = refl
flushed-stream (writes_batch w own b) writes s h c =
    batch_flushed-stream w own b (flush writes b.buf) s h (flush-Whole writes b.buf c)

take_batch-stream :
    (w : Write) (own : Result (Unit {0})) (o : Option WriteBatch) (s : Writes)
    → s.leader ≡ turns w own
    → s.batch ≡ o
    → stream (take_batch w own o s) ≡ stream s
unfolding take_batch
take_batch-stream w own none s h e = rw (ap leader_bytes h, ap batch_bytes e) refl
take_batch-stream w own (some b) s h e =
    rw (ap leader_bytes h, ap batch_bytes e) (ap (λ c. s.wire ++ c) (append-nil b.buf))

take_turn-stream : (l : Leader) (s : Writes) → s.leader ≡ l → stream (take_turn l s) ≡ stream s
unfolding take_turn
take_turn-stream (turns w own) s h = take_batch-stream w own s.batch s h refl
take_turn-stream idle s h = refl
take_turn-stream (writes_own w) s h = refl
take_turn-stream (writes_batch w own b) s h = refl

step-stream :
    (s : Writes) (e : Event)
    → IsWrites s
    → Clean e
    → stream (step s e) ≡ stream s ++ blocks (entered (e ∷ []))
unfolding step
step-stream s (enters w) v c =
    write_raw-stream w s v ∙ ap (λ b. stream s ++ b) (sym (append-nil w.bytes))
step-stream s (flushes writes) v c =
    flushed-stream s.leader writes s refl c ∙ sym (append-nil (stream s))
step-stream s locks v c = take_turn-stream s.leader s refl ∙ sym (append-nil (stream s))

blocks-cons :
    (e : Event) (es : List Event)
    → blocks (entered (e ∷ es)) ≡ blocks (entered (e ∷ [])) ++ blocks (entered es)
blocks-cons (enters w) es = ap (λ b. b ++ blocks (entered es)) (sym (append-nil w.bytes))
blocks-cons (flushes writes) es = refl
blocks-cons locks es = refl

-- While no write fails, what is on the wire, with what the leader writes and what waits in the
-- batch, is the blocks of all the calls, each whole, in the order in which the calls were made,
-- however they were joined into batches and however the socket cuts up each write.
pub run-stream :
    (s : Writes) (es : List Event)
    → IsWrites s
    → All Clean es
    → stream (run s es) ≡ stream s ++ blocks (entered es)
unfolding run
run-stream s [] v c = sym (append-nil (stream s))
run-stream s (e ∷ es) v (c, cs) =
    run-stream (step s e) es (step-IsWrites s e v) cs
    ∙ ap (λ b. b ++ blocks (entered es)) (step-stream s e v c)
    ∙ append_assoc (stream s) (blocks (entered (e ∷ []))) (blocks (entered es))
    ∙ ap (λ b. stream s ++ b) (sym (blocks-cons e es))
