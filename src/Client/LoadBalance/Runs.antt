-- ===== src/Client/LoadBalance/Runs.antt =====
-- Runs of the load balancers, and the theorems at inputs.
use kama_rpc_go.Base.{
  ◌+◌, ◌%◌, ◌≡◌, ◌≢◌, refl, arith, List, [], ◌∷◌, ◌++◌, length, take, drop, codes,
}
use kama_rpc_go.Client.LoadBalance.{Instance, RoundRobin, new_rr, select, select_random}
use kama_rpc_go.Client.LoadBalance.Rotation.{answers, answers_round}

abbrev instance_a : Instance
instance_a = record { addr = codes "a" }

abbrev instance_b : Instance
instance_b = record { addr = codes "b" }

abbrev instance_c : Instance
instance_c = record { addr = codes "c" }

abbrev three : List Instance
three = instance_a ∷ instance_b ∷ instance_c ∷ []

abbrev fresh : RoundRobin
fresh = record { idx = 0 }

fresh_lem : new_rr ≡ fresh
unfolding new_rr
fresh_lem = refl

three_calls : answers 4 fresh three ≡ instance_b ∷ instance_c ∷ instance_a ∷ instance_b ∷ []
unfolding answers select
three_calls = refl

-- The counter wraps.
wraps : (select (record { idx = 18446744073709551615 }) three).1 ≡ fresh
unfolding select
wraps = refl

draws : select_random (λ n. 2) three ≡ instance_c
unfolding select_random
draws = refl

three-not_empty : three ≢ []
three-not_empty = λ e. cc

answers_round_example :
    let i = (0 + 1) % length three in
    answers (length three) fresh three ≡ drop i three ++ take i three
answers_round_example = answers_round fresh three three-not_empty (omega arith)
