-- ===== src/Transport/TcpClient/Batch.antt =====
-- tcp_client.go, SendAsyncBatch: registering and encoding the messages, then one write. A batch is
-- two steps, before the write and after it; the futures that it makes are known by numbers.
use kama_rpc_go.Base.{
  ℕ, ◌+◌, ◌%◌, ◌^◌, ◌<◌, ◌≡◌, refl, sym, ap, ◌∙◌, arith, ◌==◌, ==_iff, if◌then◌else◌, ◌||◌, Bool,
  true, false, List, [], ◌∷◌, Bytes, length, Option, none, some, Result, Error, ok, err,
  conn_closed, Bool-cases, inl, inr, if_true, if_false,
}
use kama_rpc_go.Protocol.Header.{Header}
use kama_rpc_go.Protocol.Message.{Library, Message, append_encoded_binary}
use kama_rpc_go.Transport.Pending.{PendingMap, delete, store}
use kama_rpc_go.Transport.Pending.Table.{waiting, waiting-store, waiting-delete}
use kama_rpc_go.Transport.TcpClient.{TcpClient, Completion, next_seq, register, fail}

-- A message that SendAsyncBatch is given, whose header is there.
pub record Request : Type 0 where
  pub header : Header
  pub body : Bytes

abbrev pub numbered : ℕ → Request → Message
numbered seq m = record { header = some (record (m.header) { request_id = seq }); body = m.body }

-- `rollback`, over the request ids that are registered: newest first here, and each is deleted.
unfoldable pub roll_back : List ℕ → PendingMap → PendingMap
roll_back [] p = p
roll_back (seq ∷ seqs) p = delete seq (roll_back seqs p)

abbrev pub drop_all_of : List ℕ → TcpClient → TcpClient
drop_all_of seqs c = record c { pending = roll_back seqs c.pending }

-- What a loop over the messages ends with: the bytes, and the ids and futures, newest first.
abbrev pub Encoded : Type 0
Encoded = Bytes × List ℕ × List ℕ

-- After a message was encoded, or not: on with the loop, or roll back.
unfoldable pub encoded_or :
    (Bytes → List ℕ → List ℕ → TcpClient → Result Encoded × TcpClient)
    → List ℕ
    → List ℕ
    → Result Bytes
    → TcpClient
    → Result Encoded × TcpClient
encoded_or more seqs futures (err e) c = (err e, drop_all_of seqs c)
encoded_or more seqs futures (ok buf) c = more buf seqs futures c

unfoldable pub encode_all :
    Library → List Request → Bytes → List ℕ → List ℕ → TcpClient → Result Encoded × TcpClient
unfolding encoded_or register
encode_all lib [] buf seqs futures c = (ok (buf, seqs, futures), c)
encode_all lib (m ∷ ms) buf seqs futures c =
    encoded_or (λ buf' seqs' futures' c'. encode_all lib ms buf' seqs' futures' c')
      ((register c).0.0 ∷ seqs) ((register c).0.1 ∷ futures)
      (append_encoded_binary lib buf (numbered (register c).0.0 m)) (register c).1

-- SendAsyncBatch up to the write. No messages are no futures and no write.
unfoldable pub begin_batch : Library → List Request → TcpClient → Result Encoded × TcpClient
unfolding encode_all
begin_batch lib [] c = (ok ([], [], []), c)
begin_batch lib (m ∷ ms) c =
    if c.closed then (err conn_closed, c) else encode_all lib (m ∷ ms) [] [] [] c

-- After the write of a batch, by what it returned.
unfoldable pub end_batch : List ℕ → Option Error → TcpClient → List Completion × TcpClient
end_batch seqs none c = ([], c)
end_batch seqs (some e) c = fail e (drop_all_of seqs c)

unfoldable pub among : ℕ → List ℕ → Bool
among j [] = false
among j (seq ∷ seqs) = seq == j || among j seqs

waiting-roll_back :
    (seqs : List ℕ) (p : PendingMap) (j : ℕ)
    → waiting (roll_back seqs p) j ≡ (if among j seqs then none else waiting p j)
unfolding roll_back among
waiting-roll_back [] p j = refl
waiting-roll_back (seq ∷ seqs) p j =
    ground
      (arith, waiting-delete (roll_back seqs p) seq j, waiting-roll_back seqs p j, ==_iff seq j)

-- Whether the request id is of this batch: then it was free and now waits, or else it is as it was.
abbrev pub Stored : Bool → PendingMap → PendingMap → ℕ → Type 0
Stored true before after j = (waiting before j ≡ none) × ((f : ℕ) × (waiting after j ≡ some f))
Stored false before after j = waiting after j ≡ waiting before j

-- The table of requests: an error leaves the table as it was, and without one each of `n` requests waits.
abbrev pub Kept : PendingMap → ℕ → Result Encoded × TcpClient → Type 0
Kept before n (err e, c) = (j : ℕ) → waiting c.pending j ≡ waiting before j
Kept before n (ok (bytes, seqs, futures), c) =
    (length seqs ≡ n) × (length futures ≡ n) × ((j : ℕ) → Stored (among j seqs) before c.pending j)

Stored-step :
    (b : Bool) (before p q : PendingMap) (j : ℕ)
    → waiting q j ≡ waiting p j
    → Stored b before p j
    → Stored b before q j
Stored-step true before p q j e (free, (f, h)) = (free, (f, e ∙ h))
Stored-step false before p q j e h = e ∙ h

store-Stored :
    (before p : PendingMap) (seqs : List ℕ) (seq f j : ℕ)
    → waiting before seq ≡ none
    → Stored (among j seqs) before p j
    → Stored (among j (seq ∷ seqs)) before (store seq f p) j
unfolding among
store-Stored before p seqs seq f j free h = elim (Bool-cases (seq == j)) [
  | inl same ↦
      let e : seq ≡ j = (==_iff seq j).0 same in
      rw same (rw (sym e) free, (f, waiting-store p seq f j ∙ if_true _ _ same))
  | inr differs ↦ rw differs (
      Stored-step (among j seqs) before p (store seq f p) j
        (waiting-store p seq f j ∙ if_false _ _ differs) h)
]

roll_back-Stored :
    (b : Bool) (before p : PendingMap) (j : ℕ)
    → Stored b before p j
    → (if b then none else waiting p j) ≡ waiting before j
roll_back-Stored true before p j (free, h) = sym free
roll_back-Stored false before p j h = h

encoded_or-Kept :
    (more : Bytes → List ℕ → List ℕ → TcpClient → Result Encoded × TcpClient)
    (seqs futures : List ℕ) (o : Result Bytes) (before : PendingMap) (n : ℕ) (c : TcpClient)
    → ((j : ℕ) → Stored (among j seqs) before c.pending j)
    → ((buf : Bytes) → Kept before n (more buf seqs futures c))
    → Kept before n (encoded_or more seqs futures o c)
unfolding encoded_or
encoded_or-Kept more seqs futures (err e) before n c h go = λ j.
    waiting-roll_back seqs c.pending j ∙ roll_back-Stored (among j seqs) before c.pending j (h j)
encoded_or-Kept more seqs futures (ok buf) before n c h go = go buf

next_id : (seq i : ℕ) → ((seq + 1) % 2 ^ 64 + 1 + i) % 2 ^ 64 ≡ (seq + 1 + (i + 1)) % 2 ^ 64
next_id seq i = omega arith

encode_all-Kept :
    (lib : Library) (ms : List Request) (buf : Bytes) (seqs futures : List ℕ) (before : PendingMap)
    (n : ℕ) (c : TcpClient)
    → length seqs + length ms ≡ n
    → length futures + length ms ≡ n
    → ((i : ℕ) → i < length ms → waiting before ((c.seq + 1 + i) % 2 ^ 64) ≡ none)
    → ((j : ℕ) → Stored (among j seqs) before c.pending j)
    → Kept before n (encode_all lib ms buf seqs futures c)
unfolding encode_all register
encode_all-Kept lib [] buf seqs futures before n c k l fresh h = (omega arith, omega arith, h)
encode_all-Kept lib (m ∷ ms) buf seqs futures before n c k l fresh h =
    let seq = next_seq c in
    let first : seq ≡ (c.seq + 1 + 0) % 2 ^ 64 = omega arith in
    let free : waiting before seq ≡ none = ap (waiting before) first ∙ fresh 0 (omega arith) in
    let stored : (j : ℕ)
        → Stored (among j (seq ∷ seqs)) before (store seq c.allocated c.pending) j =
      λ j. store-Stored before c.pending seqs seq c.allocated j free (h j) in
    encoded_or-Kept (λ buf' seqs' futures' c'. encode_all lib ms buf' seqs' futures' c')
      (seq ∷ seqs) (c.allocated ∷ futures)
      (append_encoded_binary lib buf (numbered (register c).0.0 m)) before n (register c).1 stored
      (λ buf'.
        encode_all-Kept lib ms buf' (seq ∷ seqs) (c.allocated ∷ futures) before n (register c).1
          (omega arith) (omega arith)
          (λ i below. ap (waiting before) (next_id c.seq i) ∙ fresh (i + 1) (omega arith)) stored)

pub begin_batch-Kept :
    (lib : Library) (ms : List Request) (c : TcpClient)
    → ((i : ℕ) → i < length ms → waiting c.pending ((c.seq + 1 + i) % 2 ^ 64) ≡ none)
    → Kept c.pending (length ms) (begin_batch lib ms c)
unfolding begin_batch among
begin_batch-Kept lib [] c fresh = (refl, refl, λ j. refl)
begin_batch-Kept lib (m ∷ ms) c fresh = elim (Bool-cases c.closed) [
  | inl shut ↦ simp shut (λ j. refl)
  | inr live ↦ rw (if_false (err conn_closed, c) (encode_all lib (m ∷ ms) [] [] [] c) live) (
      encode_all-Kept lib (m ∷ ms) [] [] [] c.pending (length (m ∷ ms)) c (omega arith)
        (omega arith) fresh (λ j. refl))
]
