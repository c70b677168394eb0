-- ===== src/Client/LoadBalance.antt =====
-- internal/client/loadbalance: RoundRobin and Random. A balancer is given the addresses of the
-- instances; Instance{}, whose address is "", answers an empty list.
pub mod Rotation
pub mod Weighted
mod Runs
use kama_rpc_go.Base.{
  ℕ, zero, suc, ◌+◌, ◌%◌, ◌^◌, ltb, if◌then◌else◌, List, [], ◌∷◌, Bytes, length, get_elem?, Option,
  none, some,
}

-- registry.Instance
pub record Instance : Type 0 where
  pub addr : Bytes

unfoldable pub no_instance : Instance
no_instance = record { addr = [] }

-- list[i]; out of range Go panics, which `Rotation` excludes.
unfoldable pub instance_at : List Instance → ℕ → Instance
unfolding no_instance
instance_at instances i = elim (get_elem? instances i) [ some ins ↦ ins | none ↦ no_instance ]

-- The uint64 `idx` of RoundRobin.
pub record RoundRobin : Type 0 where
  pub idx : ℕ

pub new_rr : RoundRobin
new_rr = record { idx = 0 }

-- atomic.AddUint64(&r.idx, 1), which returns the new value.
next_idx : RoundRobin → ℕ
next_idx r = (r.idx + 1) % 2 ^ 64

pub select : RoundRobin → List Instance → Instance × RoundRobin
unfolding next_idx instance_at
select r [] = (no_instance, r)
select r (x ∷ xs) =
    let i = next_idx r in (instance_at (x ∷ xs) (i % length (x ∷ xs)), record { idx = i })

-- Random.Select: `draw n` is rand.Intn(n), a number below n.
pub select_random : (ℕ → ℕ) → List Instance → Instance
unfolding instance_at
select_random draw [] = no_instance
select_random draw (x ∷ xs) = instance_at (x ∷ xs) (draw (length (x ∷ xs)))
