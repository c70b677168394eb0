-- ===== src/Codec/Compress.antt =====
-- internal/core/codec/compress.go. compress/gzip is a parameter: a writer and a reader of whole
-- streams, each of which may fail. The pools of writers and readers hold no state that a
-- result depends on, since each use begins with Reset.
use kama_rpc_go.Base.{
  ℕ, ◌≡◌, refl, ◌≢◌, Bytes, [], ◌∷◌, ◌==◌, if◌then◌else◌, Result, ok, err, unsupported_compression,
  arith,
}

-- gzip.Writer over a buffer, with Write and Close; gzip.Reader with ReadAll and Close.
pub record Gzip : Type 0 where
  pub gzip : Bytes → Result Bytes
  pub gunzip : Bytes → Result Bytes

-- What the documentation of compress/gzip says: a stream that was written reads back as what was
-- written, and a stream has at least its header of ten bytes.
pub record IsGzip (g : Gzip) : Type 0 where
  pub reads_back : (b z : Bytes) → g.gzip b ≡ ok z → g.gunzip z ≡ ok b
  pub has_header : (b z : Bytes) → g.gzip b ≡ ok z → z ≢ []

abbrev pub compression_none : ℕ
compression_none = 0

abbrev pub compression_gzip : ℕ
compression_gzip = 1

unfoldable pub compress : Gzip → Bytes → ℕ → Result Bytes
compress g bytes t =
    if t == compression_none
    then ok bytes
    else if t == compression_gzip
    then g.gzip bytes
    else err (unsupported_compression t)

unfoldable pub gunzip_body : Gzip → Bytes → Result Bytes
gunzip_body g [] = ok []
gunzip_body g (x ∷ bytes) = g.gunzip (x ∷ bytes)

unfoldable pub decompress : Gzip → Bytes → ℕ → Result Bytes
unfolding gunzip_body
decompress g bytes t =
    if t == compression_none
    then ok bytes
    else if t == compression_gzip
    then gunzip_body g bytes
    else err (unsupported_compression t)

gunzip_body-gzip :
    (g : Gzip) (bytes z : Bytes) → IsGzip g → g.gzip bytes ≡ ok z → gunzip_body g z ≡ ok bytes
unfolding gunzip_body
gunzip_body-gzip g bytes [] w h = absurd (w.has_header bytes [] h refl)
gunzip_body-gzip g bytes (x ∷ z) w h = w.reads_back bytes (x ∷ z) h

-- Decompress undoes Compress, by whatever type both are given.
pub decompress-compress :
    (g : Gzip) (bytes z : Bytes) (t : ℕ)
    → IsGzip g
    → compress g bytes t ≡ ok z
    → decompress g z t ≡ ok bytes
unfolding compress decompress
decompress-compress g bytes z t w h = ground (arith, gunzip_body-gzip g bytes z w)

-- A gzip that stores: for runs and for the witnesses.
abbrev pub storing : Gzip
storing = record {
  gzip = λ b. ok (0x1f ∷ b);
  gunzip = λ z. elim z [ [] ↦ err (unsupported_compression 1) | x ∷ b ↦ ok b ];
}

pub storing-IsGzip : IsGzip storing
storing-IsGzip = record { reads_back = λ b z h. ground arith; has_header = λ b z h e. ground arith }

-- The callers test for CompressionNone themselves: the call would do the same.
pub compress_skip :
    (g : Gzip) (b : Bytes) (t : ℕ)
    → (if t == compression_none then ok b else compress g b t) ≡ compress g b t
unfolding compress
compress_skip g b t = ground arith

pub decompress_skip :
    (g : Gzip) (b : Bytes) (t : ℕ)
    → (if t == compression_none then ok b else decompress g b t) ≡ decompress g b t
unfolding decompress
decompress_skip g b t = ground arith
