-- ===== src/Base/Errors.antt =====
-- Go's (value, error) pairs. An error is known by the place that makes it.
use mathlib.Core.Path.{◌≡◌, refl}
use mathlib.Core.Logic.{◌⊎◌, inl, inr}
use Prim.Native.Nat.{ℕ}
use mathlib.Core.List.{List}

pub data Error : Type 0 where
  -- internal/core/protocol
  nil_header data_too_short invalid_magic incomplete_packet : Error
  bad_request_id header_truncated bad_string_length : Error
  header_string_too_long : ℕ → Error
  -- internal/core/codec
  unsupported_compression unsupported_codec : ℕ → Error
  -- internal/core/transport
  conn_closed pool_closed : Error
  -- internal/client
  rate_limited breaker_open no_instance client_closed : Error
  registry_nil timeout_not_positive balancer_nil window_not_positive : Error
  threshold_out_of_range open_timeout_not_positive pool_size_not_positive name_empty : Error
  -- internal/server
  method_not_found : List ℕ → List ℕ → Error
  invalid_registration service_registered no_methods rate_not_positive : Error
  -- an error with a text of its own, and one that a library or the system returns
  remote : List ℕ → Error
  foreign : ℕ → Error

pub data Result {ℓ} (X : Type ℓ) : Type ℓ where
  err : Error → Result X
  ok : X → Result X

pub Result-cases {ℓ} :
    {X : Type ℓ} (r : Result X) → ((e : Error) × (r ≡ err e)) ⊎ ((x : X) × (r ≡ ok x))
Result-cases (err e) = inl (e, refl)
Result-cases (ok x) = inr (x, refl)

infixl 5 ◌>>=◌
abbrev pub ◌>>=◌ {ℓ κ} : {X : Type ℓ} {Y : Type κ} → Result X → (X → Result Y) → Result Y
err e >>= next = err e
ok x >>= next = next x

-- A chain that succeeds succeeds in both its parts.
pub >>=-eq-ok {ℓ κ} :
    {X : Type ℓ} {Y : Type κ} (r : Result X) (next : X → Result Y) {y : Y}
    → (r >>= next) ≡ ok y
    → (x : X) × (r ≡ ok x) × (next x ≡ ok y)
>>=-eq-ok (err e) next h = cc
>>=-eq-ok (ok x) next h = (x, refl, h)
