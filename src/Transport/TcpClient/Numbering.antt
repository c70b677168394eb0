-- ===== src/Transport/TcpClient/Numbering.antt =====
-- SendAsyncBatch up to its write: the ids and the futures of the messages, and their bytes.
use kama_rpc_go.Base.{
  ℕ, ◌+◌, ◌%◌, ◌^◌, ◌<◌, ◌≤◌, ◌≡◌, ◌⊎◌, refl, sym, ap, ◌∙◌, arith, ◌==◌, ==_iff, true, false, List,
  [], ◌∷◌, Bytes, length, none, some, Result, ok, err, ◌>>=◌, conn_closed, Bool-cases, inl, inr,
  if_true, if_false,
}
use Prim.Native.Nat.{zero, suc}
use kama_rpc_go.Protocol.Message.{Library, append_encoded_binary}
use kama_rpc_go.Transport.Pending.{PendingMap, store}
use kama_rpc_go.Transport.Pending.Table.{waiting, waiting-store}
use kama_rpc_go.Transport.TcpClient.{TcpClient, next_seq, register}
use kama_rpc_go.Transport.TcpClient.Batch.{
  Request, Encoded, numbered, encoded_or, encode_all, begin_batch, among, Stored, Kept,
  begin_batch-Kept,
}

-- The id of message `i` of a batch.
abbrev pub id_at : ℕ → ℕ → ℕ
id_at seq i = (seq + 1 + i) % 2 ^ 64

-- The values at the numbers below `n`, the last first.
unfoldable pub listed : (ℕ → ℕ) → ℕ → List ℕ
listed f zero = []
listed f (suc n) = f n ∷ listed f n

-- The messages from number `i` on, each with its own id, behind `buf`.
unfoldable pub encodings : Library → ℕ → ℕ → List Request → Bytes → Result Bytes
encodings lib seq i [] buf = ok buf
encodings lib seq i (m ∷ ms) buf =
    append_encoded_binary lib buf (numbered (id_at seq i) m) >>= encodings lib seq (suc i) ms

abbrev pub Awaits : ℕ → ℕ → ℕ → PendingMap → Type 0
Awaits seq first n p = (i : ℕ) → i < n → waiting p (id_at seq i) ≡ some (first + i)

-- `n` messages with these bytes, with the ids behind `seq` and the futures from `first` on.
abbrev pub Numbered : ℕ → ℕ → ℕ → Result Bytes → Result Encoded × TcpClient → Type 0
Numbered seq first n wanted (err e, d) = wanted ≡ err e
Numbered seq first n wanted (ok (bytes, seqs, futures), d) =
    (wanted ≡ ok bytes)
    × (seqs ≡ listed (id_at seq) n)
    × (futures ≡ listed (λ i. first + i) n)
    × Awaits seq first n d.pending

Numbered-from :
    (seq first n : ℕ) (o o' : Result Bytes) (r : Result Encoded × TcpClient)
    → o ≡ o'
    → Numbered seq first n o' r
    → Numbered seq first n o r
Numbered-from seq first n o o' r e h = rw e h

encoded_or-Numbered :
    (more : Bytes → List ℕ → List ℕ → TcpClient → Result Encoded × TcpClient)
    (seqs futures : List ℕ) (o : Result Bytes) (others : Bytes → Result Bytes) (seq first n : ℕ)
    (d : TcpClient)
    → ((buf : Bytes) → Numbered seq first n (others buf) (more buf seqs futures d))
    → Numbered seq first n (o >>= others) (encoded_or more seqs futures o d)
unfolding encoded_or
encoded_or-Numbered more seqs futures (err e) others seq first n d go = refl
encoded_or-Numbered more seqs futures (ok buf) others seq first n d go = go buf

Awaits-store :
    (seq first k : ℕ) (d : TcpClient)
    → d.seq % 2 ^ 64 ≡ (seq + k) % 2 ^ 64
    → d.allocated ≡ first + k
    → k < 2 ^ 64
    → Awaits seq first k d.pending
    → Awaits seq first (suc k) (store (next_seq d) d.allocated d.pending)
Awaits-store seq first k d at alloc few h = λ i below.
    let e = waiting-store d.pending (next_seq d) d.allocated (id_at seq i) in
    elim (Bool-cases (next_seq d == id_at seq i)) [
      | inl same ↦
          let ids = (==_iff (next_seq d) (id_at seq i)).0 same in
          let it : d.allocated ≡ first + i = omega arith in e ∙ if_true _ _ same ∙ ap some it
      | inr differs ↦
          let earlier : i < k = ground (arith, ==_iff (next_seq d) (id_at seq i)) in
          e ∙ if_false _ _ differs ∙ h i earlier
    ]

encode_all-Numbered :
    (lib : Library) (ms : List Request) (buf : Bytes) (seqs futures : List ℕ) (seq first k n : ℕ)
    (d : TcpClient)
    → k + length ms ≡ n
    → n ≤ 2 ^ 64
    → d.seq % 2 ^ 64 ≡ (seq + k) % 2 ^ 64
    → d.allocated ≡ first + k
    → seqs ≡ listed (id_at seq) k
    → futures ≡ listed (λ i. first + i) k
    → Awaits seq first k d.pending
    → Numbered seq first n (encodings lib seq k ms buf) (encode_all lib ms buf seqs futures d)
unfolding encode_all register encodings listed
encode_all-Numbered lib [] buf seqs futures seq first k n d len few at alloc es fs h =
    let all : k ≡ n = omega arith in rw (sym all) (refl, es, fs, h)
encode_all-Numbered lib (m ∷ ms) buf seqs futures seq first k n d len few at alloc es fs h =
    let id : next_seq d ≡ id_at seq k = omega arith in
    Numbered-from seq first n (encodings lib seq k (m ∷ ms) buf)
      (append_encoded_binary lib buf (numbered (next_seq d) m) >>= encodings lib seq (suc k) ms)
      (encode_all lib (m ∷ ms) buf seqs futures d)
      (ap (λ q. append_encoded_binary lib buf (numbered q m) >>= encodings lib seq (suc k) ms)
        (sym id))
      (encoded_or-Numbered (λ buf' seqs' futures' c'. encode_all lib ms buf' seqs' futures' c')
        (next_seq d ∷ seqs) (d.allocated ∷ futures)
        (append_encoded_binary lib buf (numbered (next_seq d) m)) (encodings lib seq (suc k) ms) seq
        first n (register d).1
        (λ buf'.
          encode_all-Numbered lib ms buf' (next_seq d ∷ seqs) (d.allocated ∷ futures) seq first
            (suc k) n (register d).1 (omega arith) few (omega arith) (omega arith) (rw (id, es))
            (rw (alloc, fs)) (Awaits-store seq first k d at alloc (omega arith) h)))

-- All or nothing. An error is that of a closed connection or of a message that cannot be encoded.
abbrev pub AllOrNothing : Library → TcpClient → List Request → Result Encoded × TcpClient → Type 0
AllOrNothing lib c ms (err e, d) =
    ((j : ℕ) → waiting d.pending j ≡ waiting c.pending j)
    × (((c.closed ≡ true) × (e ≡ conn_closed)) ⊎ (encodings lib c.seq 0 ms [] ≡ err e))
AllOrNothing lib c ms (ok (bytes, seqs, futures), d) =
    ((ms ≡ []) ⊎ (c.closed ≡ false))
    × Numbered c.seq c.allocated (length ms) (encodings lib c.seq 0 ms [])
        (ok (bytes, seqs, futures), d)
    × ((j : ℕ) → among j seqs ≡ false → waiting d.pending j ≡ waiting c.pending j)

both :
    (lib : Library) (c : TcpClient) (ms : List Request) (r : Result Encoded × TcpClient)
    → c.closed ≡ false
    → Kept c.pending (length ms) r
    → Numbered c.seq c.allocated (length ms) (encodings lib c.seq 0 ms []) r
    → AllOrNothing lib c ms r
both lib c ms (err e, d) live kept h = (kept, inr h)
both lib c ms (ok (bytes, seqs, futures), d) live (_, _, kept) h =
    (inr live, h, λ j. others j (kept j))
  where
    others :
        (j : ℕ)
        → Stored (among j seqs) c.pending d.pending j
        → among j seqs ≡ false
        → waiting d.pending j ≡ waiting c.pending j
    others j st e = rw e at st

-- SendAsyncBatch up to its write is all or nothing, where the request ids to come are free and fewer
-- than 2 ^ 64. An error, which is that of a closed connection or of a message that cannot be
-- encoded, leaves the table of requests exactly as it was. Without an error the connection is open
-- (or there are no messages), the bytes are those of the messages one behind another, each with an
-- id of its own, the ids and futures are the next ones, the future of each message waits under its
-- id, and every other request is as it was.
pub begin_batch-AllOrNothing :
    (lib : Library) (ms : List Request) (c : TcpClient)
    → length ms ≤ 2 ^ 64
    → ((i : ℕ) → i < length ms → waiting c.pending (id_at c.seq i) ≡ none)
    → AllOrNothing lib c ms (begin_batch lib ms c)
unfolding begin_batch
begin_batch-AllOrNothing lib [] c few fresh =
    unfold encodings listed among in
    (inl refl, (refl, refl, refl, λ i below. absurd (omega arith)), λ j e. refl)
begin_batch-AllOrNothing lib (m ∷ ms) c few fresh =
    let kept = begin_batch-Kept lib (m ∷ ms) c fresh in
    elim (Bool-cases c.closed) [
      | inl shut ↦
          rw (if_true (err conn_closed, c) (encode_all lib (m ∷ ms) [] [] [] c) shut)
            (λ j. refl, inl (shut, refl))
      | inr live ↦
          let open_conn = if_false (err conn_closed, c) (encode_all lib (m ∷ ms) [] [] [] c) live in
          rw open_conn (
            both lib c (m ∷ ms) (encode_all lib (m ∷ ms) [] [] [] c) live (rw open_conn at kept) (
              encode_all-Numbered lib (m ∷ ms) [] [] [] c.seq c.allocated 0 (length (m ∷ ms)) c
                (omega arith) few (omega arith) (omega arith) (unfold listed in refl)
                (unfold listed in refl) (λ i below. absurd (omega arith))))
    ]
