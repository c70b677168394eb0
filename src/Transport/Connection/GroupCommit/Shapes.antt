-- ===== src/Transport/Connection/GroupCommit/Shapes.antt =====
-- WriteRaw: the flag that tells whether a goroutine writes, and the batch, agree with what goes on.
use kama_rpc_go.Base.{
  ◌≡◌, refl, arith, ◌==◌, Bool, true, false, List, [], ◌∷◌, length, Option, none, some, Result,
  Bytes, Bool-cases, inl, inr,
}
use kama_rpc_go.Transport.Connection.{SocketWrite, flush}
use kama_rpc_go.Transport.Connection.GroupCommit.{
  Write, WriteBatch, Leader, idle, writes_own, turns, writes_batch, Writes, write_raw, own_flushed,
  batch_flushed, flushed, take_batch, take_turn, Event, enters, flushes, locks, step, run,
}

-- `writing` is set while there is a leader, and only then a batch.
abbrev pub Shape : Leader → Bool → Option WriteBatch → Type 0
Shape idle writing batch = (writing ≡ false) × (batch ≡ none)
Shape (writes_own w) writing batch = writing ≡ true
Shape (turns w own) writing batch = writing ≡ true
Shape (writes_batch w own b) writing batch = writing ≡ true

abbrev pub IsWrites : Writes → Type 0
IsWrites s = Shape s.leader s.writing s.batch

pub Shape-idle :
    (l : Leader) (writing : Bool) (batch : Option WriteBatch)
    → Shape l writing batch
    → writing ≡ false
    → l ≡ idle
Shape-idle idle writing batch v h = refl
Shape-idle (writes_own w) writing batch v h = cc
Shape-idle (turns w own) writing batch v h = cc
Shape-idle (writes_batch w own b) writing batch v h = cc

Shape-busy :
    (l : Leader) (writing : Bool) (batch next : Option WriteBatch)
    → Shape l writing batch
    → writing ≡ true
    → Shape l true next
Shape-busy idle writing batch next v h = absurd (ground arith)
Shape-busy (writes_own w) writing batch next v h = refl
Shape-busy (turns w own) writing batch next v h = refl
Shape-busy (writes_batch w own b) writing batch next v h = refl

write_raw-IsWrites : (w : Write) (s : Writes) → IsWrites s → IsWrites (write_raw w s)
unfolding write_raw
write_raw-IsWrites w s v = elim (Bool-cases (length w.bytes == 0)) [
  | inl empty ↦ rw empty v
  | inr full ↦ rw full (elim (Bool-cases s.writing) [
    | inl busy ↦ simp busy (Shape-busy s.leader s.writing s.batch _ v busy)
    | inr free ↦ simp free refl
  ])
]

own_flushed-IsWrites :
    (w : Write) (out : Bytes × Option (Result (Unit {0}))) (s : Writes)
    → IsWrites s
    → s.writing ≡ true
    → IsWrites (own_flushed w out s)
unfolding own_flushed
own_flushed-IsWrites w (out, none) s v busy = v
own_flushed-IsWrites w (out, some r) s v busy = busy

batch_flushed-IsWrites :
    (w : Write) (own : Result (Unit {0})) (b : WriteBatch)
    (out : Bytes × Option (Result (Unit {0}))) (s : Writes)
    → IsWrites s
    → s.writing ≡ true
    → IsWrites (batch_flushed w own b out s)
unfolding batch_flushed
batch_flushed-IsWrites w own b (out, none) s v busy = v
batch_flushed-IsWrites w own b (out, some r) s v busy = busy

flushed-IsWrites :
    (l : Leader) (writes : List SocketWrite) (s : Writes)
    → IsWrites s
    → Shape l s.writing s.batch
    → IsWrites (flushed l writes s)
unfolding flushed
flushed-IsWrites idle writes s v busy = v
flushed-IsWrites (writes_own w) writes s v busy =
    own_flushed-IsWrites w (flush writes w.bytes) s v busy
flushed-IsWrites (turns w own) writes s v busy = v
flushed-IsWrites (writes_batch w own b) writes s v busy =
    batch_flushed-IsWrites w own b (flush writes b.buf) s v busy

take_batch-IsWrites :
    (w : Write) (own : Result (Unit {0})) (o : Option WriteBatch) (s : Writes)
    → s.batch ≡ o
    → s.writing ≡ true
    → IsWrites (take_batch w own o s)
unfolding take_batch
take_batch-IsWrites w own none s e busy = (refl, e)
take_batch-IsWrites w own (some b) s e busy = busy

take_turn-IsWrites :
    (l : Leader) (s : Writes) → IsWrites s → Shape l s.writing s.batch → IsWrites (take_turn l s)
unfolding take_turn
take_turn-IsWrites (turns w own) s v busy = take_batch-IsWrites w own s.batch s refl busy
take_turn-IsWrites idle s v busy = v
take_turn-IsWrites (writes_own w) s v busy = v
take_turn-IsWrites (writes_batch w own b) s v busy = v

pub step-IsWrites : (s : Writes) (e : Event) → IsWrites s → IsWrites (step s e)
unfolding step
step-IsWrites s (enters w) v = write_raw-IsWrites w s v
step-IsWrites s (flushes writes) v = flushed-IsWrites s.leader writes s v v
step-IsWrites s locks v = take_turn-IsWrites s.leader s v v

pub run-IsWrites : (s : Writes) (es : List Event) → IsWrites s → IsWrites (run s es)
unfolding run
run-IsWrites s [] v = v
run-IsWrites s (e ∷ es) v = run-IsWrites (step s e) es (step-IsWrites s e v)

pub Shape-unbatched :
    (l : Leader) (writing : Bool) (batch : Option WriteBatch)
    → l ≡ idle
    → Shape l writing batch
    → batch ≡ none
Shape-unbatched idle writing batch h v = v.1
Shape-unbatched (writes_own w) writing batch h v = cc
Shape-unbatched (turns w own) writing batch h v = cc
Shape-unbatched (writes_batch w own b) writing batch h v = cc
