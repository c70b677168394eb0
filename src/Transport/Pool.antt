-- ===== src/Transport/Pool.antt =====
-- internal/core/transport/tcp_connection_pool.go. The connections are known by numbers; `dead` is
-- what atomic.LoadInt32(&conn.closed) finds, and `dial` what newTCPClient returns. The lock makes
-- each method one step.
pub mod Acquiring
mod Runs
use kama_rpc_go.Base.{
  ℕ, zero, suc, ◌+◌, ◌%◌, ltb, ◌==◌, if◌then◌else◌, Bool, true, false, List, [], ◌∷◌, ◌++◌, length,
  take, drop, get_elem?, Option, none, some, Result, Error, ok, err, pool_closed,
}

pub record ConnectionPool : Type 0 where
  pub max_active : ℕ
  pub conns : List ℕ
  pub closed : Bool
  pub next : ℕ

unfoldable pub new_connection_pool : ℕ → ConnectionPool
new_connection_pool max_active = record {
  max_active = if max_active == 0 then 1 else max_active;
  conns = [];
  closed = false;
  next = 0;
}

-- append(p.conns[:idx], p.conns[idx+1:]...)
abbrev pub remove_at : ℕ → List ℕ → List ℕ
remove_at i xs = take i xs ++ drop (suc i) xs

-- newTCPClient, whose connection joins the pool.
unfoldable pub add_dialled : ConnectionPool → Result ℕ → Result ℕ × ConnectionPool
add_dialled p (ok conn) = (ok conn, record p { conns = p.conns ++ (conn ∷ []) })
add_dialled p (err e) = (err e, p)

-- What a round finds at `idx`: the loop returns with it, or drops it and goes on, or breaks.
found :
    (ℕ → Bool)
    → (ConnectionPool → Option ℕ × ConnectionPool)
    → ℕ
    → Option ℕ
    → ConnectionPool
    → Option ℕ × ConnectionPool
found dead again idx none p = (none, p)
found dead again idx (some conn) p = elim (dead conn) [
  | false ↦ (some conn, record p { next = (idx + 1) % length p.conns })
  | true ↦ again (record p { conns = remove_at idx p.conns })
]

-- The loop over `i`: `i--` and `i++` around a dropped connection leave `i` as it is, so that `i`
-- is 0 in each round. A round drops a connection or ends the loop, so as many rounds as there are
-- connections are enough; without one left the loop ends.
pub scan : (ℕ → Bool) → ℕ → ConnectionPool → Option ℕ × ConnectionPool
scan dead zero p = (none, p)
scan dead (suc rounds) p =
    let idx = (p.next + 0) % length p.conns in
    found dead (scan dead rounds) idx (get_elem? p.conns idx) p

pub after_scan : Result ℕ → Option ℕ × ConnectionPool → Result ℕ × ConnectionPool
after_scan dial (some conn, p) = (ok conn, p)
after_scan dial (none, p) = add_dialled p dial

unfoldable pub acquire_open : (ℕ → Bool) → Result ℕ → ConnectionPool → Result ℕ × ConnectionPool
acquire_open dead dial p =
    if ltb (length p.conns) p.max_active
    then add_dialled p dial
    else after_scan dial (scan dead (length p.conns) p)

-- Acquire, with ctx.Err().
unfoldable pub acquire :
    Option Error → (ℕ → Bool) → Result ℕ → ConnectionPool → Result ℕ × ConnectionPool
acquire (some e) dead dial p = (err e, p)
acquire none dead dial p = if p.closed then (err pool_closed, p) else acquire_open dead dial p

pub len : ConnectionPool → ℕ
len p = length p.conns

pub snapshot : ConnectionPool → ℕ × ℕ × Bool
snapshot p = (length p.conns, p.max_active, p.closed)

-- Close, with the connections that it closes.
pub close : ConnectionPool → List ℕ × ConnectionPool
close p = if p.closed then ([], p) else (p.conns, record p { closed = true; conns = [] })
