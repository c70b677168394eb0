-- ===== src/Transport/Pool/Runs.antt =====
-- Runs of the connection pool, and the theorems at inputs.
use kama_rpc_go.Base.{
  ℕ, ◌==◌, Bool, false, [], ◌∷◌, none, Result, ok, err, pool_closed, ◌≡◌, refl, arith,
}
use kama_rpc_go.Transport.Pool.{
  ConnectionPool, new_connection_pool, acquire_open, after_scan, scan, found, acquire, len,
  snapshot, close,
}
use kama_rpc_go.Transport.Pool.Acquiring.{IsPool, Acquired, acquire-Acquired}

-- A full pool, whose next connection is dead.
abbrev full : ConnectionPool
full = record { max_active = 3; conns = 4 ∷ 5 ∷ 6 ∷ []; closed = false; next = 1 }

abbrev five : ℕ → Bool
five n = n == 5

full-IsPool : IsPool full
full-IsPool = record { positive = omega arith; within = omega arith; emptied = λ e. cc }

skips :
    acquire none five (err pool_closed) full
    ≡ (ok 6, record { max_active = 3; conns = 4 ∷ 6 ∷ []; closed = false; next = 0 })
unfolding acquire acquire_open after_scan scan found
skips = refl

-- A closed pool hands out nothing.
after_close : (acquire none five (ok 9) (close full).1).0 ≡ err pool_closed
unfolding acquire close
after_close = refl

sizes : (len full ≡ 3) × (snapshot full ≡ (3, 3, false)) × ((close full).0 ≡ 4 ∷ 5 ∷ 6 ∷ [])
unfolding len snapshot close
sizes = (refl, refl, refl)

default_size : (new_connection_pool 0).max_active ≡ 1
unfolding new_connection_pool
default_size = refl

abbrev succeeds : ℕ → Result ℕ
succeeds x = ok x

dial_live : (x : ℕ) → succeeds 9 ≡ ok x → five x ≡ false
dial_live x e = let s : 9 ≡ x = cc in rw (← s) refl

acquire-Acquired_example : Acquired five full (acquire none five (ok 9) full)
acquire-Acquired_example = acquire-Acquired none five (ok 9) full full-IsPool dial_live
