-- ===== src/Transport/Connection/GroupCommit/Messages.antt =====
-- tcp_connection.go, Write: a message is encoded and its bytes are written in one piece.
use kama_rpc_go.Base.{
  ℕ, ◌<◌, ◌^◌, ◌≡◌, refl, ap, ◌∙◌, List, [], ◌∷◌, ◌++◌, Bytes, length, some, Result, ok, err, All,
  append_assoc, inl,
}
use kama_rpc_go.Codec.Compress.{IsGzip}
use kama_rpc_go.Protocol.Header.{Header, IsHeader, magic_binary_header}
use kama_rpc_go.Protocol.Intern.{Cache, IsCache, Reads}
use kama_rpc_go.Protocol.Message.{Library, Message, append_encoded_binary, decode}
use kama_rpc_go.Protocol.Message.RoundTrip.{sent_header, decode-append_encoded}
use kama_rpc_go.Transport.Connection.GroupCommit.{
  Write, Writes, no_writes, write_raw, Event, enters, step, run,
}
use kama_rpc_go.Transport.Connection.GroupCommit.Delivery.{returned-Delivered}
use mathlib.Core.List.{Memᴰ}

-- A message that cannot be encoded is an error at once.
unfoldable pub write_encoded : ℕ → Result Bytes → Writes → Writes
write_encoded writer (err e) s = record s {
  returned = s.returned ++ ((record { writer = writer; bytes = [] }, err e) ∷ []);
}
write_encoded writer (ok bytes) s = write_raw (record { writer = writer; bytes = bytes }) s

unfoldable pub write : Library → ℕ → Message → Writes → Writes
unfolding write_encoded
write lib writer msg s = write_encoded writer (append_encoded_binary lib [] msg) s

All-Mem : {A : Type 0} (P : A → Type 0) (x : A) (xs : List A) → All P xs → Memᴰ x xs → P x
All-Mem P x [] ps mem = elim mem [ ]
All-Mem P x (y ∷ ys) (p, ps) (Memᴰ.head e) = rw e p
All-Mem P x (y ∷ ys) (p, ps) (Memᴰ.tail mem) = All-Mem P x ys ps mem

-- A Write of a message that can be encoded is a call of WriteRaw with its bytes; and if that call has
-- returned without an error, whichever goroutine wrote for it and whatever other writes failed,
-- then the message is read back at its place in the bytes on the wire. The header has strings of at
-- most 1 MiB and numbers in range, and the message has fewer than 2 ^ 32 bytes.
pub write_delivers :
    (lib : Library) (es : List Event) (w : Write) (h : Header) (body : Bytes) (s : Writes)
    (cache : Cache)
    → IsGzip lib.gzip
    → IsHeader h
    → append_encoded_binary lib [] (record { header = some h; body = body }) ≡ ok w.bytes
    → length w.bytes < 2 ^ 32
    → IsCache cache
    → Memᴰ (w, ok tt) (run no_writes es).returned
    → (write lib w.writer (record { header = some h; body = body }) s ≡ step s (enters w))
      × ((before after : Bytes) × ((run no_writes es).wire ≡ before ++ (w.bytes ++ after))
          × Reads
              (decode lib (w.bytes ++ after) cache)
              (record { header = some (sent_header h body); body = body }))
unfolding write step
write_delivers lib es w h body s cache g v e small i mem =
    let (before, after, on_wire) = All-Mem _ _ _ (returned-Delivered es) mem in
    let (frame, same, packet, reads) =
      decode-append_encoded lib [] magic_binary_header h body w.bytes after cache g i
        (inl (refl, v)) e small in
    (
      ap (λ b. write_encoded w.writer b s) e,
      (before, after, on_wire ∙ append_assoc before w.bytes after, rw same reads),
    )
