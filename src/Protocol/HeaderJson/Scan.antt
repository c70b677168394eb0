-- ===== src/Protocol/HeaderJson/Scan.antt =====
-- header_json.go, skipSpace, parseRawBytes and parseUint. An index `i` into the slice is the rest
-- of the slice from there, `data[i:]`.
use kama_rpc_go.Base.{
  ℕ, ◌+◌, ◌-◌, ◌*◌, ◌^◌, ltb, leb, ◌==◌, if◌then◌else◌, ◌&&◌, ◌||◌, Bool, false, [], ◌∷◌, Bytes,
  Option, none, some,
}

unfoldable pub skip_space : Bytes → Bytes
skip_space [] = []
skip_space (c ∷ rest) =
    let more = skip_space rest in
    if c == b' ' || c == 0x09 || c == 0x0d || c == 0x0a then more else c ∷ rest

abbrev pub cons_raw : ℕ → Option (Bytes × Bytes) → Option (Bytes × Bytes)
cons_raw c none = none
cons_raw c (some (s, rest)) = some (c ∷ s, rest)

-- From behind the opening quote.
unfoldable pub scan_raw : Bytes → Option (Bytes × Bytes)
scan_raw [] = none
scan_raw (c ∷ rest) =
    let more = cons_raw c (scan_raw rest) in
    if c == b'"'
    then some ([], rest)
    else if c == 0x5c || ltb c 0x20 || leb 0x80 c
    then none
    else more

unfoldable pub parse_raw_bytes : Bytes → Option (Bytes × Bytes)
parse_raw_bytes [] = none
parse_raw_bytes (c ∷ rest) = if c == b'"' then scan_raw rest else none

abbrev pub is_digit : ℕ → Bool
is_digit c = leb b'0' c && leb c b'9'

-- The digits from here on, and what follows them.
unfoldable pub span_digits : Bytes → Bytes × Bytes
span_digits [] = ([], [])
span_digits (c ∷ rest) =
    let more = span_digits rest in if is_digit c then (c ∷ more.0, more.1) else ([], c ∷ rest)

-- strconv.ParseUint's value of a string of digits, before the check of its range.
unfoldable pub digits_value : ℕ → Bytes → ℕ
digits_value acc [] = acc
digits_value acc (c ∷ s) = digits_value (acc * 10 + (c - b'0')) s

-- `i-start > 1 && data[start] == '0'`
unfoldable pub leading_zero : Bytes → Bool
leading_zero [] = false
leading_zero (c ∷ []) = false
leading_zero (c ∷ d ∷ s) = c == b'0'

unfoldable pub not_integer : Bytes → Bool
not_integer [] = false
not_integer (c ∷ rest) = c == b'.' || c == b'e' || c == b'E'

unfoldable pub check_uint : Bytes → Bytes → Option (ℕ × Bytes)
check_uint [] rest = none
check_uint (c ∷ s) rest =
    if leading_zero (c ∷ s)
    then none
    else if not_integer rest
    then none
    else if ltb (digits_value 0 (c ∷ s)) (2 ^ 64)
    then some (digits_value 0 (c ∷ s), rest)
    else none

unfoldable pub parse_uint : Bytes → Option (ℕ × Bytes)
parse_uint buf = let (s, rest) = span_digits buf in check_uint s rest
