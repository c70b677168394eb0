-- ===== src/Protocol/HeaderBinary/Safety.antt =====
-- header_binary.go on any bytes, well formed or not: what is accepted is a valid header, read from
-- inside the slice.
use kama_rpc_go.Base.{
  ℕ, suc, ◌+◌, ◌-◌, ◌≤◌, ◌<◌, ◌^◌, ◌≡◌, refl, arith, ltb, leb, ◌||◌, Bool, true, false, [], ◌∷◌,
  Bytes, IsByte, All, drop, zero, inl, inr, Bool-cases, ltb→le, length, length-take, length-drop,
  Result, Error, ok, err,
}
use kama_rpc_go.Protocol.Header.{IsHeader, max_header_string_len}
use kama_rpc_go.Protocol.Intern.{Cache, IsCache, Parse, and_then, intern_bytes-IsCache}
use kama_rpc_go.Protocol.Uvarint.{Uvarint, value, bad, uvarint, uvarint_bounds}
use kama_rpc_go.Protocol.HeaderBinary.{
  slice, to_string, read_string, read_length, read_len_prefixed, read_enums, read_strings,
  read_after_id, parse_from_id, parse_header_binary,
}

-- What a run promises: a property of the value if it succeeds, and a faithful cache in any case.
pub data Ensures {A : Type 0} (P : A → Type 0) : Result A × Cache → Type 0 where
  gives : (a : A) (c : Cache) → P a → IsCache c → Ensures P (ok a, c)
  refuses : (e : Error) (c : Cache) → IsCache c → Ensures P (err e, c)

and_then-Ensures :
    {A B : Type 0} (P : A → Type 0) (Q : B → Type 0) (r : Result A × Cache) (f : A → Parse B)
    → Ensures P r
    → ((a : A) (c : Cache) → P a → IsCache c → Ensures Q (f a c))
    → Ensures Q (and_then r f)
and_then-Ensures P Q r f (gives a c p w) next = next a c p w
and_then-Ensures P Q r f (refuses e c w) next = refuses e c w

to_string-Ensures :
    (b : Bool) (s : Bytes) (c : Cache) → IsCache c → Ensures (λ t. t ≡ s) (to_string b s c)
unfolding to_string
to_string-Ensures true s c w = let (e, w') = intern_bytes-IsCache s c w in gives _ _ e w'
to_string-Ensures false s c w = gives s c refl w

-- A string that was read is a part of the slice within the limit, and the next index is in range.
pub record IsRead (buf : Bytes) (i : ℕ) (r : Bytes × ℕ) : Type 0 where
  pub bounded : length r.0 ≤ max_header_string_len
  pub forward : i ≤ r.1
  pub inside : r.1 ≤ length buf
  pub part : r.0 ≡ slice buf (r.1 - length r.0) r.1

length-slice : (buf : Bytes) (i j : ℕ) → i ≤ j → j ≤ length buf → length (slice buf i j) ≡ j - i
length-slice buf i j h k = omega (arith, length-take (j - i) (drop i buf), length-drop i buf)

slice-IsRead :
    (buf : Bytes) (i n : ℕ)
    → n ≤ max_header_string_len
    → i + n ≤ length buf
    → IsRead buf i (slice buf i (i + n), i + n)
slice-IsRead buf i n small fits =
    let len : length (slice buf i (i + n)) ≡ n = omega (arith, length-slice buf i (i + n)) in
    let at : i + n - length (slice buf i (i + n)) ≡ i = omega arith in
    record { bounded = rw len small; forward = omega arith; inside = fits; part = rw at }

read_string-Ensures :
    (buf : Bytes) (i n : ℕ) (b : Bool) (c : Cache)
    → IsCache c
    → Ensures (IsRead buf i) (read_string buf i n b c)
unfolding read_string
read_string-Ensures buf i n b c w = elim (Bool-cases (ltb max_header_string_len n)) [
  | inl long ↦ rw long (refuses _ c w)
  | inr short ↦ rw short (elim (Bool-cases (ltb (length buf) (i + n) || ltb (i + n) i)) [
    | inl over ↦ rw over (refuses _ c w)
    | inr fits ↦ rw fits (
        and_then-Ensures _ _ _ _ (to_string-Ensures b (slice buf i (i + n)) c w) (λ t c' e w'.
          rw e (gives _ c' (slice-IsRead buf i n (ltb→le _ _ short) (ground arith)) w')))
  ])
]

IsRead-mono : (buf : Bytes) (i j : ℕ) (r : Bytes × ℕ) → i ≤ j → IsRead buf j r → IsRead buf i r
IsRead-mono buf i j r h v = record {
  bounded = v.bounded;
  forward = omega arith;
  inside = v.inside;
  part = v.part;
}

Ensures-mono :
    {A : Type 0} (P Q : A → Type 0) (r : Result A × Cache)
    → ((a : A) → P a → Q a)
    → Ensures P r
    → Ensures Q r
Ensures-mono P Q r f (gives a c p w) = gives a c (f a p) w
Ensures-mono P Q r f (refuses e c w) = refuses e c w

read_length-Ensures :
    (buf : Bytes) (i : ℕ) (b : Bool) (u : Uvarint) (c : Cache)
    → IsCache c
    → Ensures (IsRead buf i) (read_length buf i b u c)
unfolding read_length
read_length-Ensures buf i b bad c w = refuses _ c w
read_length-Ensures buf i b (value n read) c w =
    Ensures-mono (IsRead buf (i + read)) (IsRead buf i) _
      (λ r. IsRead-mono buf i (i + read) r (omega arith))
      (read_string-Ensures buf (i + read) n b c w)

-- readLenPrefixed never reads outside the slice, on any bytes: what it accepts is the part of the
-- slice that ends at the index it returns, and is within the limit.
pub read_len_prefixed-Ensures :
    (buf : Bytes) (i : ℕ) (b : Bool) (c : Cache)
    → IsCache c
    → Ensures (IsRead buf i) (read_len_prefixed buf i b c)
unfolding read_len_prefixed
read_len_prefixed-Ensures buf i b c w = elim (Bool-cases (leb (length buf) i)) [
  | inl out ↦ rw out (refuses _ c w)
  | inr within ↦ rw within (read_length-Ensures buf i b (uvarint (drop i buf)) c w)
]

read_strings-Ensures :
    (buf : Bytes) (i id codec comp : ℕ) (c : Cache)
    → id < 2 ^ 64
    → IsByte codec
    → IsByte comp
    → IsCache c
    → Ensures IsHeader (read_strings buf i id codec comp c)
unfolding read_strings
read_strings-Ensures buf i id codec comp c hid hc hm w =
    and_then-Ensures _ _ _ _ (read_len_prefixed-Ensures buf i true c w) (λ s c₁ v₁ w₁.
      and_then-Ensures _ _ _ _ (read_len_prefixed-Ensures buf s.1 true c₁ w₁) (λ m c₂ v₂ w₂.
        and_then-Ensures _ _ _ _ (read_len_prefixed-Ensures buf m.1 false c₂ w₂) (λ x c₃ v₃ w₃.
          gives _ c₃
            (record {
              id_fits = hid;
              codec_fits = hc;
              compression_fits = hm;
              service_fits = v₁.bounded;
              method_fits = v₂.bounded;
              error_fits = v₃.bounded;
            })
            w₃)))

All-drop : (n : ℕ) (xs : Bytes) → All IsByte xs → All IsByte (drop n xs)
All-drop zero xs h = h
All-drop (suc n) [] h = tt
All-drop (suc n) (x ∷ xs) h = All-drop n xs h.1

read_after_id-Ensures :
    (buf : Bytes) (id i : ℕ) (rest : Bytes) (c : Cache)
    → id < 2 ^ 64
    → All IsByte rest
    → IsCache c
    → Ensures IsHeader (read_after_id buf id i (read_enums rest) c)
unfolding read_after_id read_enums
read_after_id-Ensures buf id i [] c hid h w = refuses _ c w
read_after_id-Ensures buf id i (a ∷ []) c hid h w = refuses _ c w
read_after_id-Ensures buf id i (a ∷ b ∷ rest) c hid h w =
    read_strings-Ensures buf (i + 2) id a b c hid h.0 h.1.0 w

parse_from_id-Ensures :
    (buf : Bytes) (u : Uvarint) (c : Cache)
    → uvarint buf ≡ u
    → All IsByte buf
    → IsCache c
    → Ensures IsHeader (parse_from_id buf u c)
unfolding parse_from_id
parse_from_id-Ensures buf bad c e h w = refuses _ c w
parse_from_id-Ensures buf (value id n) c e h w =
    read_after_id-Ensures buf id n (drop n buf) c (uvarint_bounds buf id n e).0 (All-drop n buf h) w

-- On any bytes parseHeaderBinary either refuses or returns a header whose fields are in the range
-- of their types and whose strings are within the limit; the cache stays faithful and bounded
-- in both cases.
pub parse_header_binary-Ensures :
    (buf : Bytes) (c : Cache)
    → All IsByte buf
    → IsCache c
    → Ensures IsHeader (parse_header_binary buf c)
unfolding parse_header_binary
parse_header_binary-Ensures buf c h w = parse_from_id-Ensures buf (uvarint buf) c refl h w
