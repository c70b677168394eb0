-- ===== src/Protocol/HeaderJson/Scanning.antt =====
-- header_json.go: the scanners on what the encoder writes, strings without escapes and decimals.
use kama_rpc_go.Base.{
  ℕ, zero, suc, ◌+◌, ◌-◌, ◌*◌, ◌/◌, ◌%◌, ◌<◌, ◌^◌, ◌≡◌, refl, ◌≢◌, ap, arith, ltb, ◌==◌, ◌||◌, true,
  false, [], ◌∷◌, ◌++◌, Bytes, length, some, length-append, Bool-cases, inl, inr,
}
use kama_rpc_go.Protocol.HeaderJson.Encode.{safe_json_byte, string_needs_escape, decimal}
use kama_rpc_go.Protocol.HeaderJson.Scan.{
  skip_space, scan_raw, parse_raw_bytes, is_digit, span_digits, digits_value, leading_zero,
  not_integer, check_uint, parse_uint,
}

-- A string that needs no escape is read up to its closing quote.
pub scan_raw-append :
    (s rest : Bytes)
    → string_needs_escape s ≡ false
    → scan_raw (s ++ (b'"' ∷ rest)) ≡ some (s, rest)
unfolding scan_raw string_needs_escape safe_json_byte
scan_raw-append [] rest h = refl
scan_raw-append (c ∷ s) rest h = ground (arith, scan_raw-append s rest)

pub parse_raw_bytes-quoted :
    (s rest : Bytes)
    → string_needs_escape s ≡ false
    → parse_raw_bytes (b'"' ∷ (s ++ (b'"' ∷ rest))) ≡ some (s, rest)
unfolding parse_raw_bytes
parse_raw_bytes-quoted s rest h = scan_raw-append s rest h

abbrev Digits : Bytes → Type 0
Digits [] = Unit {0}
Digits (c ∷ s) = (is_digit c ≡ true) × Digits s

Digits-append : (s t : Bytes) → Digits s → Digits t → Digits (s ++ t)
Digits-append [] t hs ht = ht
Digits-append (c ∷ s) t hs ht = (hs.0, Digits-append s t hs.1 ht)

is_digit_last : (v : ℕ) → is_digit (b'0' + v % 10) ≡ true
is_digit_last v = ground arith

decimal-Digits : (k v : ℕ) → Digits (decimal k v)
unfolding decimal
decimal-Digits zero v = (is_digit_last v, tt)
decimal-Digits (suc k) v =
    let last : Digits ((b'0' + v % 10) ∷ []) = (is_digit_last v, tt) in
    let more =
      Digits-append (decimal k (v / 10)) ((b'0' + v % 10) ∷ []) (decimal-Digits k (v / 10)) last in
    ground (arith, more)

-- What stands behind a number: no digit, and nothing that makes it another kind of number.
pub record IsStop (c : ℕ) : Type 0 where
  pub no_digit : is_digit c ≡ false
  pub no_float : (c == b'.' || c == b'e' || c == b'E') ≡ false

span_digits-append :
    (s rest : Bytes) (c : ℕ)
    → Digits s
    → is_digit c ≡ false
    → span_digits (s ++ (c ∷ rest)) ≡ (s, c ∷ rest)
unfolding span_digits
span_digits-append [] rest c hs hc = rw hc
span_digits-append (d ∷ s) rest c hs hc = rw (hs.0, span_digits-append s rest c hs.1 hc)

digits_value-append :
    (s : Bytes) (acc c : ℕ)
    → digits_value acc (s ++ (c ∷ [])) ≡ digits_value acc s * 10 + (c - b'0')
unfolding digits_value
digits_value-append [] acc c = refl
digits_value-append (d ∷ s) acc c = digits_value-append s (acc * 10 + (d - b'0')) c

pub digits_value-decimal : (k v : ℕ) → v < 10 ^ suc k → digits_value 0 (decimal k v) ≡ v
unfolding decimal digits_value
digits_value-decimal zero v h = omega arith
digits_value-decimal (suc k) v h = ground (
  arith,
  digits_value-append (decimal k (v / 10)) 0 (b'0' + v % 10),
  digits_value-decimal k (v / 10) (omega arith),
)

abbrev Starts : Bytes → Type 0
Starts [] = ⊥
Starts (c ∷ s) = c ≢ b'0'

Starts-append : (s t : Bytes) → Starts s → Starts (s ++ t)
Starts-append [] t h = absurd h
Starts-append (c ∷ s) t h = h

decimal-Starts : (k v : ℕ) → 0 < v → v < 10 ^ suc k → Starts (decimal k v)
unfolding decimal
decimal-Starts zero v p h = λ e. omega arith
decimal-Starts (suc k) v p h = elim (Bool-cases (ltb v 10)) [
  | inl small ↦ rw small (λ e. omega arith)
  | inr large ↦ rw large (
      Starts-append (decimal k (v / 10)) _ (decimal-Starts k (v / 10) (ground arith) (omega arith)))
]

leading_zero-Starts : (s : Bytes) → Starts s → leading_zero s ≡ false
unfolding leading_zero
leading_zero-Starts [] h = absurd h
leading_zero-Starts (c ∷ []) h = refl
leading_zero-Starts (c ∷ d ∷ s) h = ground arith

leading_zero-decimal : (k v : ℕ) → v < 10 ^ suc k → leading_zero (decimal k v) ≡ false
leading_zero-decimal k zero h = zero_digit k
  where
    zero_digit : (k : ℕ) → leading_zero (decimal k 0) ≡ false
    zero_digit zero = unfold decimal leading_zero in refl
    zero_digit (suc k) = unfold decimal leading_zero in refl
leading_zero-decimal k (suc v) h =
    leading_zero-Starts (decimal k (suc v)) (decimal-Starts k (suc v) (omega arith) h)

check_uint_lem :
    (s rest : Bytes) (c v : ℕ)
    → s ≢ []
    → leading_zero s ≡ false
    → not_integer (c ∷ rest) ≡ false
    → digits_value 0 s ≡ v
    → v < 2 ^ 64
    → check_uint s (c ∷ rest) ≡ some (v, c ∷ rest)
unfolding check_uint
check_uint_lem [] rest c v ne z f e h = absurd (ne refl)
check_uint_lem (d ∷ s) rest c v ne z f e h = rw (z, f, e) (ground arith)

decimal-ne-nil : (k v : ℕ) → decimal k v ≢ []
unfolding decimal
decimal-ne-nil zero v e = cc
decimal-ne-nil (suc k) v e = ground (
  arith,
  ap (λ (t : Bytes). length t) e,
  length-append (decimal k (v / 10)) ((b'0' + v % 10) ∷ []),
)

-- A decimal that strconv.AppendUint wrote is read back, up to what stands behind it.
pub parse_uint-decimal :
    (v c : ℕ) (rest : Bytes)
    → v < 2 ^ 64
    → IsStop c
    → parse_uint (decimal 19 v ++ (c ∷ rest)) ≡ some (v, c ∷ rest)
unfolding parse_uint
parse_uint-decimal v c rest h stop =
    rw (span_digits-append (decimal 19 v) rest c (decimal-Digits 19 v) stop.no_digit) (
      check_uint_lem (decimal 19 v) rest c v (decimal-ne-nil 19 v)
        (leading_zero-decimal 19 v (omega arith)) (unfold not_integer in stop.no_float)
        (digits_value-decimal 19 v (omega arith)) h)

skip_space_digit : (s rest : Bytes) (c : ℕ) → Digits s → s ≢ [] → skip_space (s ++ rest) ≡ s ++ rest
unfolding skip_space
skip_space_digit [] rest c h ne = absurd (ne refl)
skip_space_digit (d ∷ s) rest c h ne = ground (arith, h.0)

pub skip_space-decimal :
    (v : ℕ) (rest : Bytes) → skip_space (decimal 19 v ++ rest) ≡ decimal 19 v ++ rest
skip_space-decimal v rest =
    skip_space_digit (decimal 19 v) rest 0 (decimal-Digits 19 v) (decimal-ne-nil 19 v)
