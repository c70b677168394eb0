-- ===== src/Transport/Future/Runs.antt =====
-- Runs of a future, and the theorems at inputs.
use kama_rpc_go.Base.{
  ℕ, Bytes, Result, ok, true, false, List, [], ◌∷◌, none, some, ok, pool_closed, ◌≡◌, refl,
}
use kama_rpc_go.Transport.Future.{new_future, set_codec, on_complete, done, wait, get_result}
use kama_rpc_go.Transport.Future.Completion.{
  Event, completes, registers, decodes_by, step, run, first_completion_wins, CalledOnce,
  callback_once,
}

abbrev again : List Event
again = registers 7 ∷ completes [] (some pool_closed) ∷ []

abbrev later : List Event
later =
    decodes_by (some 2)
    ∷ registers 7
    ∷ completes (1 ∷ []) none
    ∷ completes [] (some pool_closed)
    ∷ []

later_done : (run new_future later).0.completed ≡ true
unfolding run new_future step done on_complete set_codec
later_done = refl

abbrev decoder : ℕ → Bytes → Result (ℕ × Bytes)
decoder c bytes = ok (c, bytes)

-- The bytes are decoded by the codec that was set.
later_result : get_result decoder (run new_future later).0 ≡ some (ok (2, 1 ∷ []))
unfolding run new_future step done on_complete set_codec get_result
later_result = refl

callback_once_example : CalledOnce 7 (run new_future later)
callback_once_example = callback_once later 7 refl later_done

new_future_open : new_future.completed ≡ false
unfolding new_future
new_future_open = refl

first_completion_wins_example :
    wait (run new_future (completes (5 ∷ []) none ∷ again)).0 ≡ some (5 ∷ [], none)
first_completion_wins_example = first_completion_wins new_future (5 ∷ []) none again new_future_open
