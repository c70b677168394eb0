-- ===== src/Client/LoadBalance/Weighted/Runs.antt =====
-- Runs of the weighted round robin, and its theorem at an input.
use kama_rpc_go.Base.{ℕ, ◌<◌, ◌≡◌, refl, arith, List, [], ◌∷◌, length, All, map}
use kama_rpc_go.Base.Int.{ℤ, pos, negsuc, pos_part, ◌+ℤ◌, ◌-ℤ◌}
use kama_rpc_go.Client.LoadBalance.{Instance, no_instance, instance_at}
use kama_rpc_go.Client.LoadBalance.Weighted.{
  sum, new_weighted_rr, better, weigh, choose, select_index, selected, select,
}
use kama_rpc_go.Client.LoadBalance.Weighted.Choosing.{weight_at}
use kama_rpc_go.Client.LoadBalance.Weighted.Shares.{picks, times, picks_share}

abbrev place : ℕ → Instance
place n = record { addr = n ∷ [] }

abbrev places : List Instance
places = place 0 ∷ place 1 ∷ place 2 ∷ []

abbrev weights : List ℤ
weights = pos 5 ∷ negsuc 3 ∷ pos 1 ∷ []

-- A:5 and C:1 go AAACAA, and the negative weight of B is none.
round_run : (picks 6 (new_weighted_rr weights) places).0 ≡ 0 ∷ 0 ∷ 0 ∷ 2 ∷ 0 ∷ 0 ∷ []
unfolding picks select_index choose weigh better new_weighted_rr sum ◌+ℤ◌ ◌-ℤ◌
round_run = refl

select_run : (select (new_weighted_rr weights) places).0 ≡ place 0
unfolding select selected select_index choose weigh better new_weighted_rr sum instance_at ◌+ℤ◌ ◌-ℤ◌
select_run = refl

-- A list of another length is refused.
mismatch_run : (select (new_weighted_rr weights) (place 0 ∷ [])).0 ≡ no_instance
unfolding select selected select_index new_weighted_rr no_instance
mismatch_run = refl

some_weight : 0 < sum (map pos_part weights)
unfolding sum
some_weight = omega arith

picks_share_example :
    let r = new_weighted_rr weights in
    let round = picks r.total_weight r places in
    ((i : ℕ) → times i round.0 ≡ weight_at (map pos_part weights) i)
    × All (λ m. m < length places) round.0
    × (round.1 ≡ r)
picks_share_example = picks_share weights places refl some_weight
