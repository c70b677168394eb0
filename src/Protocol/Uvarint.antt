-- ===== src/Protocol/Uvarint.antt =====
-- The variable-length integers of Go's encoding/binary, which the binary header is made of:
-- AppendUvarint and Uvarint. A uint64 is a number below 2 ^ 64.
use kama_rpc_go.Base.{
  ℕ, zero, suc, ◌+◌, ◌*◌, ◌/◌, ◌%◌, ◌^◌, ◌≤◌, ◌<◌, ◌≡◌, ap, arith, ltb, ◌==◌, ◌&&◌, if◌then◌else◌,
  [], ◌∷◌, ◌++◌, Bytes, IsByte, All, length,
}

abbrev pub IsU64 : ℕ → Type 0
IsU64 v = v < 2 ^ 64

-- The bytes of `x`, seven bits a byte, low bits first, the top bit set on all bytes but the last.
-- `k` bounds the rounds of `for x >= 0x80`: ten bytes hold every uint64.
unfoldable pub uvarint_bytes : ℕ → ℕ → Bytes
uvarint_bytes zero x = (x % 256) ∷ []
uvarint_bytes (suc k) x =
    let more = (x % 128 + 128) ∷ uvarint_bytes k (x / 128) in if ltb x 128 then x ∷ [] else more

-- AppendUvarint(dst, x)
unfoldable pub append_uvarint : Bytes → ℕ → Bytes
append_uvarint dst x = dst ++ uvarint_bytes 9 x

-- Uvarint's pair (value, n): `value x n` for n > 0, `bad` for n <= 0.
pub data Uvarint : Type 0 where
  value : ℕ → ℕ → Uvarint
  bad : Uvarint

-- One round for each byte that `range buf` has not reached: `i` its index, `p` is 1 << s, and the
-- bits or-ed into `x` are above those it has, so that `|` is a sum.
unfoldable pub uvarint_loop : Bytes → ℕ → ℕ → ℕ → Uvarint
uvarint_loop [] i x p = bad
uvarint_loop (b ∷ buf) i x p =
    let more = uvarint_loop buf (i + 1) ((x + b % 128 * p) % 2 ^ 64) (p * 128) in
    if i == 10
    then bad
    else if ltb b 128
    then (if (i == 9) && ltb 1 b then bad else value ((x + b * p) % 2 ^ 64) (i + 1))
    else more

unfoldable pub uvarint : Bytes → Uvarint
unfolding uvarint_loop
uvarint buf = uvarint_loop buf 0 0 1

-- A last byte, and a byte before it.
last_byte :
    (b i x p : ℕ) (rest : Bytes)
    → b < 128
    → i < 10
    → (i ≡ 9 → b ≤ 1)
    → x + b * p < 2 ^ 64
    → uvarint_loop (b ∷ rest) i x p ≡ value (x + b * p) (i + 1)
unfolding uvarint_loop
last_byte b i x p rest hb hi top fits = ground arith

inner_byte :
    (g i x p : ℕ) (rest : Bytes)
    → g < 128
    → i < 10
    → x + g * p < 2 ^ 64
    → uvarint_loop ((g + 128) ∷ rest) i x p ≡ uvarint_loop rest (i + 1) (x + g * p) (p * 128)
unfolding uvarint_loop
inner_byte g i x p rest hg hi fits = ground arith

split_digit : (w p : ℕ) → w * p ≡ w % 128 * p + w / 128 * (p * 128)
split_digit w p =
    let e : w ≡ w % 128 + w / 128 * 128 = omega arith in omega (arith, ap (λ (t : ℕ). t * p) e)

-- `w` is what is still to be read, at place value `p`; `k` more bytes may follow the first.
uvarint_loop-bytes :
    (k i w x p : ℕ) (rest : Bytes)
    → k + i ≡ 9
    → w < 2 * 128 ^ k
    → x + w * p < 2 ^ 64
    → uvarint_loop (uvarint_bytes k w ++ rest) i x p
      ≡ value (x + w * p) (i + length (uvarint_bytes k w))
unfolding uvarint_bytes
uvarint_loop-bytes zero i w x p rest hk hw fits =
    let e : w % 256 ≡ w = omega arith in
    rw e (last_byte w i x p rest (omega arith) (omega arith) (λ _. omega arith) fits)
uvarint_loop-bytes (suc k) i w x p rest hk hw fits = ground (
  arith,
  last_byte w i x p rest,
  split_digit w p,
  inner_byte (w % 128) i x p (uvarint_bytes k (w / 128) ++ rest),
  uvarint_loop-bytes k (i + 1) (w / 128) (x + w % 128 * p) (p * 128) rest (omega arith),
)

-- Uvarint reads back what AppendUvarint wrote, whatever follows it.
pub uvarint-bytes :
    (v : ℕ) (rest : Bytes)
    → IsU64 v
    → uvarint (uvarint_bytes 9 v ++ rest) ≡ value v (length (uvarint_bytes 9 v))
unfolding uvarint
uvarint-bytes v rest h = ground (arith, uvarint_loop-bytes 9 0 v 0 1 rest)

pub length-uvarint_bytes :
    (k v : ℕ) → (1 ≤ length (uvarint_bytes k v)) × (length (uvarint_bytes k v) ≤ k + 1)
unfolding uvarint_bytes
length-uvarint_bytes zero v = omega arith
length-uvarint_bytes (suc k) v = ground (arith, length-uvarint_bytes k (v / 128))

pub uvarint_bytes-IsByte : (k v : ℕ) → All IsByte (uvarint_bytes k v)
unfolding uvarint_bytes
uvarint_bytes-IsByte zero v = omega arith
uvarint_bytes-IsByte (suc k) v = ground (arith, uvarint_bytes-IsByte k (v / 128))

uvarint_loop_bounds :
    (buf : Bytes) (i x p v n : ℕ)
    → uvarint_loop buf i x p ≡ value v n
    → IsU64 v × (i < n) × (n ≤ i + length buf)
unfolding uvarint_loop
uvarint_loop_bounds [] i x p v n h = cc
uvarint_loop_bounds (b ∷ buf) i x p v n h =
    ground (arith, uvarint_loop_bounds buf (i + 1) ((x + b % 128 * p) % 2 ^ 64) (p * 128) v n)

-- A value that Uvarint returns is a uint64, and it takes at least a byte and none past the end.
pub uvarint_bounds :
    (buf : Bytes) (v n : ℕ) → uvarint buf ≡ value v n → IsU64 v × (0 < n) × (n ≤ length buf)
unfolding uvarint
uvarint_bounds buf v n h = ground (arith, uvarint_loop_bounds buf 0 0 1 v n)

-- A number of j + 1 groups takes at most that many bytes.
pub length-uvarint_bytes-le :
    (j k v : ℕ) → v < 128 ^ suc j → j ≤ k → length (uvarint_bytes k v) ≤ j + 1
unfolding uvarint_bytes
length-uvarint_bytes-le zero zero v h le = omega arith
length-uvarint_bytes-le zero (suc k) v h le = ground arith
length-uvarint_bytes-le (suc j) zero v h le = absurd (omega arith)
length-uvarint_bytes-le (suc j) (suc k) v h le =
    ground (arith, length-uvarint_bytes-le j k (v / 128) (omega arith))
