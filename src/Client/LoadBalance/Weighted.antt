-- ===== src/Client/LoadBalance/Weighted.antt =====
-- internal/client/loadbalance/weighted_rr.go. NewWeightedRR raises negative weights to 0, so that the
-- weights are numbers; the current weights may be negative. The sums are taken to fit an int.
mod Choosing
mod Balance
pub mod Shares
mod Runs
use kama_rpc_go.Base.{
  ℕ, suc, ◌+◌, ◌==◌, if◌then◌else◌, Bool, true, false, List, [], ◌∷◌, map, length, replicate, set,
  Option, none, some,
}
use kama_rpc_go.Base.Int.{ℤ, pos, pos_part, ◌+ℤ◌, ◌-ℤ◌, ltb_ℤ}
use kama_rpc_go.Client.LoadBalance.{Instance, no_instance, instance_at}

pub record WeightedRr : Type 0 where
  pub weights : List ℕ
  pub current_weight : List ℤ
  pub total_weight : ℕ

unfoldable pub sum : List ℕ → ℕ
sum [] = 0
sum (w ∷ ws) = w + sum ws

-- `if wt < 0 { wt = 0 … }` is the positive part.
unfoldable pub new_weighted_rr : List ℤ → WeightedRr
new_weighted_rr ws = record {
  weights = map pos_part ws;
  current_weight = replicate (length ws) (pos 0);
  total_weight = sum (map pos_part ws);
}

-- maxIdx and currentWeight[maxIdx]; none is -1.
abbrev pub Best : Type 0
Best = Option (ℕ × ℤ)

unfoldable pub better : ℕ → ℤ → Best → Best
better i c none = some (i, c)
better i c (some (m, v)) = if ltb_ℤ v c then some (i, c) else some (m, v)

-- The loop, from index `i` on: the current weights after it, and the greatest.
unfoldable pub weigh : ℕ → Best → List ℤ → List ℕ → List ℤ × Best
unfolding better
weigh i best (c ∷ cs) (w ∷ ws) =
    let c' = c +ℤ pos w in
    let rest = weigh (i + 1) (better i c' best) cs ws in (c' ∷ rest.0, rest.1)
weigh i best cs ws = (cs, best)

-- The instance is chosen and its current weight goes down by the total; -1 cannot be left.
unfoldable pub choose : List Instance → List ℤ × Best → WeightedRr → Option ℕ × WeightedRr
choose list (cs, none) r = (none, record r { current_weight = cs })
choose list (cs, some (m, v)) r =
    (some m, record r { current_weight = set cs m (v -ℤ pos r.total_weight) })

-- Select, up to list[maxIdx]: the index chosen, or none where it answers Instance{}.
unfoldable pub select_index : WeightedRr → List Instance → Option ℕ × WeightedRr
unfolding choose weigh
select_index r [] = (none, r)
select_index r (x ∷ xs) =
    if length (x ∷ xs) == length r.weights
    then choose (x ∷ xs) (weigh 0 none r.current_weight r.weights) r
    else (none, r)

unfoldable pub selected : List Instance → Option ℕ → Instance
selected list none = no_instance
selected list (some m) = instance_at list m

unfoldable pub select : WeightedRr → List Instance → Instance × WeightedRr
unfolding selected select_index
select r list = let s = select_index r list in (selected list s.0, s.1)
