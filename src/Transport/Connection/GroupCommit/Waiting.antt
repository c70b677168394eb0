-- ===== src/Transport/Connection/GroupCommit/Waiting.antt =====
-- WriteRaw: every call returns once, and none is forgotten.
use kama_rpc_go.Base.{
  ℕ, ◌+◌, ◌≡◌, refl, ap, arith, ◌==◌, if◌then◌else◌, List, [], ◌∷◌, ◌++◌, length, map, Option, none,
  some, Result, ok, Bytes, Bool-cases, inl, inr,
}
use kama_rpc_go.Transport.Connection.{SocketWrite, flush}
use kama_rpc_go.Transport.Connection.GroupCommit.{
  Write, WriteBatch, Leader, idle, writes_own, turns, writes_batch, Writes, no_writes, join,
  write_raw, own_flushed, batch_flushed, flushed, take_batch, take_turn, Event, enters, flushes,
  locks, step, run,
}
use kama_rpc_go.Transport.Connection.GroupCommit.Shapes.{
  IsWrites, Shape-idle, Shape-unbatched, step-IsWrites, run-IsWrites,
}

-- How many of the calls are the call `n`.
unfoldable pub calls_of : ℕ → List Write → ℕ
calls_of n [] = 0
calls_of n (w ∷ ws) = (if w.writer == n then 1 else 0) + calls_of n ws

-- The calls that a leader works for, its own among them, and those that wait in a batch.
abbrev pub leader_calls : Leader → List Write
leader_calls idle = []
leader_calls (writes_own w) = w ∷ []
leader_calls (turns w own) = w ∷ []
leader_calls (writes_batch w own b) = w ∷ b.waiting

abbrev pub batch_calls : Option WriteBatch → List Write
batch_calls none = []
batch_calls (some b) = b.waiting

abbrev pub returned_calls : Writes → List Write
returned_calls s = map (λ p. p.0) s.returned

-- The calls that have been made.
abbrev pub entered : List Event → List Write
entered [] = []
entered (enters w ∷ es) = w ∷ entered es
entered (flushes writes ∷ es) = entered es
entered (locks ∷ es) = entered es

calls_of-append :
    (n : ℕ) (vs ws : List Write) → calls_of n (vs ++ ws) ≡ calls_of n vs + calls_of n ws
unfolding calls_of
calls_of-append n [] ws = omega arith
calls_of-append n (v ∷ vs) ws = omega (arith, calls_of-append n vs ws)

returned-append :
    (ps qs : List (Write × Result (Unit {0})))
    → map (λ p. p.0) (ps ++ qs) ≡ map (λ p. p.0) ps ++ map (λ p. p.0) qs
returned-append [] qs = refl
returned-append (p ∷ ps) qs = ap (λ ws. p.0 ∷ ws) (returned-append ps qs)

returned-map :
    (r : Result (Unit {0})) (ws : List Write)
    → map (λ (p : Write × Result (Unit {0})). p.0) (map (λ v. (v, r)) ws) ≡ ws
returned-map r [] = refl
returned-map r (w ∷ ws) = ap (λ vs. w ∷ vs) (returned-map r ws)

-- The calls to which an answer is given last.
returned_more :
    (n : ℕ) (ps qs : List (Write × Result (Unit {0}))) (ws : List Write)
    → map (λ p. p.0) qs ≡ ws
    → calls_of n (map (λ p. p.0) (ps ++ qs)) ≡ calls_of n (map (λ p. p.0) ps) + calls_of n ws
returned_more n ps qs ws e =
    rw (returned-append ps qs, e) (calls_of-append n (map (λ p. p.0) ps) ws)

-- Waiting, or returned.
unfoldable pub known : ℕ → Writes → ℕ
known n s =
    calls_of n (leader_calls s.leader)
    + calls_of n (batch_calls s.batch)
    + calls_of n (returned_calls s)

batch-join :
    (n : ℕ) (w : Write) (o : Option WriteBatch)
    → calls_of n (join w o).waiting ≡ calls_of n (batch_calls o) + calls_of n (w ∷ [])
unfolding join calls_of
batch-join n w none = omega arith
batch-join n w (some b) = calls_of-append n b.waiting (w ∷ [])

write_raw-known :
    (n : ℕ) (w : Write) (s : Writes)
    → IsWrites s
    → known n (write_raw w s) ≡ known n s + calls_of n (w ∷ [])
unfolding write_raw known calls_of
write_raw-known n w s v = elim (Bool-cases (length w.bytes == 0)) [
  | inl empty ↦ rw empty (omega (arith, returned_more n s.returned ((w, ok tt) ∷ []) (w ∷ []) refl))
  | inr full ↦ rw full (elim (Bool-cases s.writing) [
    | inl busy ↦ simp busy (omega (arith, batch-join n w s.batch))
    | inr free ↦
        let none_leads =
          ap (λ l. calls_of n (leader_calls l)) (Shape-idle s.leader s.writing s.batch v free) in
        simp free (omega (arith, none_leads))
  ])
]

own_flushed-known :
    (n : ℕ) (w : Write) (out : Bytes × Option (Result (Unit {0}))) (s : Writes)
    → s.leader ≡ writes_own w
    → known n (own_flushed w out s) ≡ known n s
unfolding own_flushed known
own_flushed-known n w (out, none) s h = refl
own_flushed-known n w (out, some r) s h = omega (arith, ap (λ l. calls_of n (leader_calls l)) h)

batch_flushed-known :
    (n : ℕ) (w : Write) (own : Result (Unit {0})) (b : WriteBatch)
    (out : Bytes × Option (Result (Unit {0}))) (s : Writes)
    → s.leader ≡ writes_batch w own b
    → known n (batch_flushed w own b out s) ≡ known n s
unfolding batch_flushed known calls_of
batch_flushed-known n w own b (out, none) s h = refl
batch_flushed-known n w own b (out, some r) s h = omega (
  arith,
  ap (λ l. calls_of n (leader_calls l)) h,
  returned_more n s.returned (map (λ v. (v, r)) b.waiting) b.waiting (returned-map r b.waiting),
)

flushed-known :
    (n : ℕ) (l : Leader) (writes : List SocketWrite) (s : Writes)
    → s.leader ≡ l
    → known n (flushed l writes s) ≡ known n s
unfolding flushed
flushed-known n idle writes s h = refl
flushed-known n (writes_own w) writes s h = own_flushed-known n w (flush writes w.bytes) s h
flushed-known n (turns w own) writes s h = refl
flushed-known n (writes_batch w own b) writes s h =
    batch_flushed-known n w own b (flush writes b.buf) s h

take_batch-known :
    (n : ℕ) (w : Write) (own : Result (Unit {0})) (o : Option WriteBatch) (s : Writes)
    → s.leader ≡ turns w own
    → s.batch ≡ o
    → known n (take_batch w own o s) ≡ known n s
unfolding take_batch known calls_of
take_batch-known n w own none s h e = omega (
  arith,
  ap (λ l. calls_of n (leader_calls l)) h,
  ap (λ o. calls_of n (batch_calls o)) e,
  returned_more n s.returned ((w, own) ∷ []) (w ∷ []) refl,
)
take_batch-known n w own (some b) s h e =
    omega (arith, ap (λ l. calls_of n (leader_calls l)) h, ap (λ o. calls_of n (batch_calls o)) e)

take_turn-known :
    (n : ℕ) (l : Leader) (s : Writes) → s.leader ≡ l → known n (take_turn l s) ≡ known n s
unfolding take_turn
take_turn-known n (turns w own) s h = take_batch-known n w own s.batch s h refl
take_turn-known n idle s h = refl
take_turn-known n (writes_own w) s h = refl
take_turn-known n (writes_batch w own b) s h = refl

step-known :
    (n : ℕ) (s : Writes) (e : Event)
    → IsWrites s
    → known n (step s e) ≡ known n s + calls_of n (entered (e ∷ []))
unfolding step calls_of
step-known n s (enters w) v = write_raw-known n w s v
step-known n s (flushes writes) v = omega (arith, flushed-known n s.leader writes s refl)
step-known n s locks v = omega (arith, take_turn-known n s.leader s refl)

entered-cons :
    (n : ℕ) (e : Event) (es : List Event)
    → calls_of n (entered (e ∷ es)) ≡ calls_of n (entered (e ∷ [])) + calls_of n (entered es)
unfolding calls_of
entered-cons n (enters w) es = omega arith
entered-cons n (flushes writes) es = omega arith
entered-cons n locks es = omega arith

-- In every order of calls, flushes and turns, whether writes fail or not, each call of WriteRaw is
-- at each moment in one place: it waits, as the leader or in one batch, or it has returned, once.
pub run-known :
    (n : ℕ) (s : Writes) (es : List Event)
    → IsWrites s
    → known n (run s es) ≡ known n s + calls_of n (entered es)
unfolding run
run-known n s [] v = unfold calls_of in omega arith
run-known n s (e ∷ es) v = omega (
  arith,
  run-known n (step s e) es (step-IsWrites s e v),
  step-known n s e v,
  entered-cons n e es,
)

-- When no leader is left, no call is left waiting either: each that was made has returned.
pub all_return :
    (n : ℕ) (es : List Event)
    → (run no_writes es).leader ≡ idle
    → calls_of n (returned_calls (run no_writes es)) ≡ calls_of n (entered es)
unfolding known calls_of
all_return n es h =
    let s = run no_writes es in
    let v = run-IsWrites no_writes es (refl, refl) in
    omega (
      arith,
      run-known n no_writes es (refl, refl),
      ap (λ l. calls_of n (leader_calls l)) h,
      ap (λ o. calls_of n (batch_calls o)) (Shape-unbatched s.leader s.writing s.batch h v),
    )
