-- ===== src/Cmd/Console/Runs.antt =====
-- Runs of the console, and its theorem at an input.
use kama_rpc_go.Base.{
  if◌then◌else◌, ◌==◌, ℕ, suc, zero, ◌<◌, ◌≡◌, refl, arith, true, List, [], ◌∷◌, map, Bytes, codes,
  length, err, ok, foreign, bytes_eq, Result,
}
use kama_rpc_go.Cmd.Console.{
  split_and_trim, split, add_to_first, trim_all, keep_nonempty, trim_space, trim_left, trim_right,
  keep_unless_blank, target_stats, scrape,
}
use kama_rpc_go.Cmd.Console.Scraping.{finishes, scrape-map}

split_run : split_and_trim (codes "a:1, b:2,, ") ≡ codes "a:1" ∷ codes "b:2" ∷ []
unfolding split_and_trim split add_to_first trim_all keep_nonempty trim_space trim_left trim_right
    keep_unless_blank
split_run = refl

-- Stats are the target's bytes, and the second target does not answer.
abbrev fetch : Bytes → Result Bytes
fetch t = if length t == 1 then ok t else err (foreign 0)

abbrev targets : List Bytes
targets = (1 ∷ []) ∷ (2 ∷ 2 ∷ []) ∷ []

all_finish : (j : ℕ) → j < 2 → finishes j (1 ∷ 0 ∷ []) ≡ true
unfolding finishes
all_finish zero h = refl
all_finish (suc zero) h = refl
all_finish (suc (suc j)) h = absurd (omega arith)

scrape-map_example : scrape fetch targets (1 ∷ 0 ∷ []) ≡ map (λ t. target_stats t (fetch t)) targets
scrape-map_example = scrape-map fetch targets (1 ∷ 0 ∷ []) all_finish
