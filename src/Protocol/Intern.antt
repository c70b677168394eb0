-- ===== src/Protocol/Intern.antt =====
-- internal/core/protocol/intern.go: the cache of service and method names. The package variable
-- `interned` is a state that the header parsers pass along. The two locked sections of
-- internBytes are one step: what another goroutine inserts between them maps a string to itself.
use kama_rpc_go.Base.{
  ℕ, ◌≤◌, ◌≡◌, refl, arith, ltb, if◌then◌else◌, List, [], ◌∷◌, Bytes, length, Option, none, some,
  Result, Error, ok, err, lookup, insert, lookup-insert, length-insert, bytes_eq, bytes_beq_iff,
}

abbrev pub Cache : Type 0
Cache = List (Bytes × Bytes)

abbrev pub max_interned_strings : ℕ
max_interned_strings = 1024

remember : Bytes → Cache → Cache
remember s c = if ltb (length c) max_interned_strings then insert s s c else c

intern_lookup : Bytes → Cache → Option Bytes → Bytes × Cache
unfolding remember
intern_lookup b c (some s) = (s, c)
intern_lookup b c none = (b, remember b c)

unfoldable pub intern_bytes : Bytes → Cache → Bytes × Cache
unfolding intern_lookup remember
intern_bytes [] c = ([], c)
intern_bytes (x ∷ b) c = intern_lookup (x ∷ b) c (lookup (x ∷ b) c)

-- Every entry of the cache maps a string to itself, and the cache is bounded.
pub record IsCache (c : Cache) : Type 0 where
  pub faithful : (b s : Bytes) → lookup b c ≡ some s → s ≡ b
  pub bounded : length c ≤ max_interned_strings

pub empty-IsCache : IsCache []
empty-IsCache = record { faithful = λ b s h. unfold lookup in cc (h); bounded = omega arith }

remember-IsCache : (b : Bytes) (c : Cache) → IsCache c → IsCache (remember b c)
unfolding remember
remember-IsCache b c w = record {
  faithful = λ d s h. ground (arith, lookup-insert b d b c, bytes_beq_iff b d, w.faithful d s);
  bounded = ground (arith, length-insert b b c, w.bounded);
}

intern_lookup_lem :
    (b : Bytes) (c : Cache) (o : Option Bytes)
    → lookup b c ≡ o
    → IsCache c
    → ((intern_lookup b c o).0 ≡ b) × IsCache (intern_lookup b c o).1
unfolding intern_lookup
intern_lookup_lem b c (some s) h w = (w.faithful b s h, w)
intern_lookup_lem b c none h w = (refl, remember-IsCache b c w)

-- Interning returns a string with the same content, and keeps the cache faithful and bounded.
pub intern_bytes-IsCache :
    (b : Bytes) (c : Cache) → IsCache c → ((intern_bytes b c).0 ≡ b) × IsCache (intern_bytes b c).1
unfolding intern_bytes
intern_bytes-IsCache [] c w = (refl, w)
intern_bytes-IsCache (x ∷ b) c w = intern_lookup_lem (x ∷ b) c (lookup (x ∷ b) c) refl w

-- What reads a header: it may fail, and it passes the cache on in either case.
abbrev pub Parse : Type 0 → Type 0
Parse A = Cache → Result A × Cache

abbrev pub and_then : {A B : Type 0} → Result A × Cache → (A → Parse B) → Result B × Cache
and_then (ok a, c) f = f a c
and_then (err e, c) f = (err e, c)

infixl 5 ◌>>=◌
abbrev pub ◌>>=◌ : {A B : Type 0} → Parse A → (A → Parse B) → Parse B
◌>>=◌ m f c = and_then (m c) f

abbrev pub return : {A : Type 0} → A → Parse A
return a c = (ok a, c)

abbrev pub fail_with : {A : Type 0} → Error → Parse A
fail_with e c = (err e, c)

-- A parser's run that succeeds with a value and leaves a faithful cache.
abbrev pub Reads : {A : Type 0} → Result A × Cache → A → Type 0
Reads r a = (r.0 ≡ ok a) × IsCache r.1

pub and_then-Reads :
    {A B : Type 0} (r : Result A × Cache) (f : A → Parse B) {a : A} {b : B}
    → Reads r a
    → ((c' : Cache) → IsCache c' → Reads (f a c') b)
    → Reads (and_then r f) b
and_then-Reads (ok a', c') f {a} (e, w) next = let p : a' ≡ a = cc in rw p (next c' w)
and_then-Reads (err e', c') f (e, w) next = cc
