-- ===== src/Transport/Connection/GroupCommit/Delivery.antt =====
-- WriteRaw: what the result that a call gets says about its own bytes.
use kama_rpc_go.Base.{
  ◌≡◌, refl, sym, ap, ◌∙◌, ◌==◌, List, [], ◌∷◌, ◌++◌, length, map, All, Option, none, some, Result,
  ok, err, Bytes, Bool-cases, inl, inr, append_assoc, append-nil, Error,
}
use kama_rpc_go.Transport.Connection.{SocketWrite, flush}
use kama_rpc_go.Transport.Connection.Flushing.{flush-ok}
use kama_rpc_go.Transport.Connection.GroupCommit.{
  Write, WriteBatch, Leader, idle, writes_own, turns, writes_batch, Writes, no_writes, join,
  write_raw, own_flushed, batch_flushed, flushed, take_batch, take_turn, Event, enters, flushes,
  locks, step, run,
}
use kama_rpc_go.Transport.Connection.GroupCommit.Order.{blocks, empty_lem}

-- The block stands on the wire in one piece.
abbrev pub Contains : Bytes → Bytes → Type 0
Contains wire block = (before : Bytes) × (behind : Bytes) × (wire ≡ before ++ block ++ behind)

-- What a call's result promises: no error, and the call's bytes are on the wire; or an error.
abbrev pub Delivered : Bytes → Write × Result (Unit {0}) → Type 0
Delivered wire (w, ok u) = Contains wire w.bytes
Delivered wire (w, err e) = Unit {0}

abbrev Gathered : WriteBatch → Type 0
Gathered b = b.buf ≡ blocks b.waiting

abbrev BatchKept : Option WriteBatch → Type 0
BatchKept none = Unit {0}
BatchKept (some b) = Gathered b

abbrev LeaderKept : Bytes → Leader → Type 0
LeaderKept wire idle = Unit {0}
LeaderKept wire (writes_own w) = Unit {0}
LeaderKept wire (turns w own) = Delivered wire (w, own)
LeaderKept wire (writes_batch w own b) = Delivered wire (w, own) × Gathered b

abbrev Kept : Writes → Type 0
Kept s = All (Delivered s.wire) s.returned × LeaderKept s.wire s.leader × BatchKept s.batch

Delivered-append :
    (wire more : Bytes) (p : Write × Result (Unit {0}))
    → Delivered wire p
    → Delivered (wire ++ more) p
Delivered-append wire more (w, ok u) (a, b, e) =
    (a, b ++ more, ap (λ z. z ++ more) e ∙ append_assoc (a ++ w.bytes) b more)
Delivered-append wire more (w, err e) d = tt

All-Delivered :
    (wire more : Bytes) (ps : List (Write × Result (Unit {0})))
    → All (Delivered wire) ps
    → All (Delivered (wire ++ more)) ps
All-Delivered wire more [] d = tt
All-Delivered wire more (p ∷ ps) (d, ds) =
    (Delivered-append wire more p d, All-Delivered wire more ps ds)

All-append :
    (wire : Bytes) (xs ys : List (Write × Result (Unit {0})))
    → All (Delivered wire) xs
    → All (Delivered wire) ys
    → All (Delivered wire) (xs ++ ys)
All-append wire [] ys p q = q
All-append wire (x ∷ xs) ys (p, ps) q = (p, All-append wire xs ys ps q)

-- What a flush promises.
abbrev Flushed : Bytes → Bytes × Option (Result (Unit {0})) → Type 0
Flushed bytes (out, some (ok u)) = out ≡ bytes
Flushed bytes (out, some (err e)) = Unit {0}
Flushed bytes (out, none) = Unit {0}

Flushed-from :
    (bytes : Bytes) (out : Bytes × Option (Result (Unit {0})))
    → (out.1 ≡ some (ok tt) → out.0 ≡ bytes)
    → Flushed bytes out
Flushed-from bytes (out, some (ok u)) f = f refl
Flushed-from bytes (out, some (err e)) f = tt
Flushed-from bytes (out, none) f = tt

flush-Flushed : (writes : List SocketWrite) (bytes : Bytes) → Flushed bytes (flush writes bytes)
flush-Flushed writes bytes = Flushed-from bytes (flush writes bytes) (flush-ok writes bytes)

blocks-append : (vs ws : List Write) → blocks (vs ++ ws) ≡ blocks vs ++ blocks ws
blocks-append [] ws = refl
blocks-append (v ∷ vs) ws =
    ap (λ b. v.bytes ++ b) (blocks-append vs ws)
    ∙ sym (append_assoc v.bytes (blocks vs) (blocks ws))

join-Kept : (w : Write) (o : Option WriteBatch) → BatchKept o → Gathered (join w o)
unfolding join
join-Kept w none k = sym (append-nil w.bytes)
join-Kept w (some b) k =
    ap (λ z. z ++ w.bytes) k
    ∙ ap (λ z. blocks b.waiting ++ z) (sym (append-nil w.bytes))
    ∙ sym (blocks-append b.waiting (w ∷ []))

-- All the calls of a batch, when its bytes are on the wire.
All-Contains :
    (wire before : Bytes) (ws : List Write)
    → wire ≡ before ++ blocks ws
    → All (Delivered wire) (map (λ v. (v, ok tt)) ws)
All-Contains wire before [] e = tt
All-Contains wire before (w ∷ ws) e =
    let split = e ∙ sym (append_assoc before w.bytes (blocks ws)) in
    ((before, blocks ws, split), All-Contains wire (before ++ w.bytes) ws split)

write_raw-Kept : (w : Write) (s : Writes) → Kept s → Kept (write_raw w s)
unfolding write_raw
write_raw-Kept w s (d, l, b) = elim (Bool-cases (length w.bytes == 0)) [
  | inl empty ↦ rw empty (
    All-append s.wire s.returned ((w, ok tt) ∷ []) d
        (([], s.wire, ap (λ z. z ++ s.wire) (sym (empty_lem w.bytes empty))), tt),
    l,
    b,
  )
  | inr full ↦ rw full (elim (Bool-cases s.writing) [
    | inl busy ↦ simp busy (d, l, join-Kept w s.batch b)
    | inr free ↦ simp free (d, tt, b)
  ])
]

own_flushed-Kept :
    (w : Write) (out : Bytes × Option (Result (Unit {0}))) (s : Writes)
    → Kept s
    → Flushed w.bytes out
    → Kept (own_flushed w out s)
unfolding own_flushed
own_flushed-Kept w (out, none) s k f = k
own_flushed-Kept w (out, some (ok u)) s (d, l, b) f = (
  All-Delivered s.wire out s.returned d,
  (s.wire, [], ap (λ z. s.wire ++ z) f ∙ sym (append-nil (s.wire ++ w.bytes))),
  b,
)
own_flushed-Kept w (out, some (err e)) s (d, l, b) f =
    (All-Delivered s.wire out s.returned d, tt, b)

All-failed :
    (wire : Bytes) (e : Error) (ws : List Write) → All (Delivered wire) (map (λ v. (v, err e)) ws)
All-failed wire e [] = tt
All-failed wire e (w ∷ ws) = (tt, All-failed wire e ws)

batch_flushed-Kept :
    (w : Write) (own : Result (Unit {0})) (b : WriteBatch)
    (out : Bytes × Option (Result (Unit {0}))) (s : Writes)
    → Kept s
    → Delivered s.wire (w, own)
    → Gathered b
    → Flushed b.buf out
    → Kept (batch_flushed w own b out s)
unfolding batch_flushed
batch_flushed-Kept w own b (out, none) s k o g f = k
batch_flushed-Kept w own b (out, some (ok u)) s (d, l, k) o g f = (
  All-append (s.wire ++ out) s.returned (map (λ v. (v, ok u)) b.waiting)
      (All-Delivered s.wire out s.returned d)
      (All-Contains (s.wire ++ out) s.wire b.waiting (ap (λ z. s.wire ++ z) (f ∙ g))),
  Delivered-append s.wire out (w, own) o,
  k,
)
batch_flushed-Kept w own b (out, some (err e)) s (d, l, k) o g f = (
  All-append (s.wire ++ out) s.returned (map (λ v. (v, err e)) b.waiting)
      (All-Delivered s.wire out s.returned d) (All-failed (s.wire ++ out) e b.waiting),
  Delivered-append s.wire out (w, own) o,
  k,
)

flushed-Kept :
    (l : Leader) (writes : List SocketWrite) (s : Writes)
    → Kept s
    → LeaderKept s.wire l
    → Kept (flushed l writes s)
unfolding flushed
flushed-Kept idle writes s k l = k
flushed-Kept (writes_own w) writes s k l =
    own_flushed-Kept w (flush writes w.bytes) s k (flush-Flushed writes w.bytes)
flushed-Kept (turns w own) writes s k l = k
flushed-Kept (writes_batch w own b) writes s k (o, g) =
    batch_flushed-Kept w own b (flush writes b.buf) s k o g (flush-Flushed writes b.buf)

take_batch-Kept :
    (w : Write) (own : Result (Unit {0})) (o : Option WriteBatch) (s : Writes)
    → Kept s
    → Delivered s.wire (w, own)
    → BatchKept o
    → s.batch ≡ o
    → Kept (take_batch w own o s)
unfolding take_batch
take_batch-Kept w own none s (d, l, k) e b h =
    (All-append s.wire s.returned ((w, own) ∷ []) d (e, tt), tt, k)
take_batch-Kept w own (some c) s (d, l, k) e b h = (d, (e, b), tt)

take_turn-Kept : (l : Leader) (s : Writes) → Kept s → LeaderKept s.wire l → Kept (take_turn l s)
unfolding take_turn
take_turn-Kept (turns w own) s (d, l, k) e = take_batch-Kept w own s.batch s (d, l, k) e k refl
take_turn-Kept idle s k l = k
take_turn-Kept (writes_own w) s k l = k
take_turn-Kept (writes_batch w own b) s k l = k

step-Kept : (s : Writes) (e : Event) → Kept s → Kept (step s e)
unfolding step
step-Kept s (enters w) k = write_raw-Kept w s k
step-Kept s (flushes writes) (d, l, b) = flushed-Kept s.leader writes s (d, l, b) l
step-Kept s locks (d, l, b) = take_turn-Kept s.leader s (d, l, b) l

run-Kept : (s : Writes) (es : List Event) → Kept s → Kept (run s es)
unfolding run
run-Kept s [] k = k
run-Kept s (e ∷ es) k = run-Kept (step s e) es (step-Kept s e k)

-- Whichever writes fail, in every order of calls, flushes and turns: a call of WriteRaw that
-- returned without an error, whether its goroutine wrote or another wrote for it, has its bytes
-- on the wire, in one piece.
pub returned-Delivered :
    (es : List Event) → All (Delivered (run no_writes es).wire) (run no_writes es).returned
returned-Delivered es = (run-Kept no_writes es (tt, tt, tt)).0
