-- ===== src/Client/Keys.antt =====
-- internal/client/client.go, breakerKey and splitBreakerKey.
use kama_rpc_go.Base.{
  ℕ, suc, ◌+◌, ◌≡◌, refl, ap₂, arith, ◌==◌, ==_iff, if◌then◌else◌, false, [], ◌∷◌, ◌++◌, Bytes,
  length, take, drop, Option, none, some, All, take-append,
}

-- strings.LastIndex of one byte.
unfoldable pub last_index : ℕ → Bytes → Option ℕ
last_index c [] = none
last_index c (x ∷ xs) = elim (last_index c xs) [
  | some i ↦ some (suc i)
  | none ↦ if x == c then some 0 else none
]

-- The byte of "@".
abbrev pub at_sign : ℕ
at_sign = 64

unfoldable pub breaker_key : Bytes → Bytes → Bytes
breaker_key service addr = service ++ (at_sign ∷ addr)

unfoldable pub split_at : Bytes → Option ℕ → Bytes × Bytes
split_at key (some i) = (take i key, drop (i + 1) key)
split_at key none = (key, [])

unfoldable pub split_breaker_key : Bytes → Bytes × Bytes
unfolding split_at
split_breaker_key key = split_at key (last_index at_sign key)

last_index-none : (c : ℕ) (xs : Bytes) → All (λ b. (b == c) ≡ false) xs → last_index c xs ≡ none
unfolding last_index
last_index-none c [] h = refl
last_index-none c (x ∷ xs) (h, hs) = rw (last_index-none c xs hs, h) refl

last_index-append :
    (c : ℕ) (s a : Bytes)
    → All (λ b. (b == c) ≡ false) a
    → last_index c (s ++ (c ∷ a)) ≡ some (length s)
unfolding last_index
last_index-append c [] a h = rw (last_index-none c a h) (ground (arith, ==_iff c c))
last_index-append c (x ∷ s) a h = rw (last_index-append c s a h) refl

drop_behind : (c : ℕ) (s a : Bytes) → drop (length s + 1) (s ++ (c ∷ a)) ≡ a
drop_behind c [] a = refl
drop_behind c (x ∷ s) a =
    let one : suc (length s) + 1 ≡ suc (length s + 1) = omega arith in rw one (drop_behind c s a)

-- The key of a breaker is split again into the service and the address that it was made of, if the
-- address has no "@", even if the service has one.
pub split_breaker_key-breaker_key :
    (service addr : Bytes)
    → All (λ b. (b == at_sign) ≡ false) addr
    → split_breaker_key (breaker_key service addr) ≡ (service, addr)
unfolding split_breaker_key breaker_key split_at
split_breaker_key-breaker_key service addr h = rw (last_index-append at_sign service addr h) (
    ap₂ (λ s a. (s, a)) (take-append service (at_sign ∷ addr) (length service) refl)
      (drop_behind at_sign service addr))
