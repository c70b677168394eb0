-- ===== src/Transport/Future/Completion.antt =====
-- A future is completed once, and its callback is called once, in either order of the two.
use kama_rpc_go.Base.{
  ℕ, true, false, List, [], ◌∷◌, ◌++◌, Bytes, Option, none, some, Error, ◌≡◌, refl, sym, ap, ap₂,
  ◌∙◌, arith,
}
use kama_rpc_go.Transport.Future.{Future, Call, new_future, set_codec, on_complete, done, wait}

-- What may happen to a future, in the order in which its lock serves it.
pub data Event : Type 0 where
  completes : Bytes → Option Error → Event
  registers : ℕ → Event
  decodes_by : Option ℕ → Event

unfoldable pub step : Future → Event → Future × List Call
step f (completes res e) = done res e f
step f (registers fn) = on_complete (some fn) f
step f (decodes_by c) = (set_codec c f, [])

unfoldable pub run : Future → List Event → Future × List Call
run f [] = (f, [])
run f (ev ∷ evs) = let r = step f ev in let rest = run r.0 evs in (rest.0, r.1 ++ rest.1)

-- Completed is to have the channel closed.
pub record IsFuture (f : Future) : Type 0 where
  pub same : f.completed ≡ f.closed_chan

-- What a completed future keeps, whatever happens to it.
record Kept (f g : Future) : Type 0 where
  res_kept : g.res ≡ f.res
  err_kept : g.err_of ≡ f.err_of
  completed_kept : g.completed ≡ true
  closed_kept : g.closed_chan ≡ f.closed_chan

step-Kept : (f : Future) (ev : Event) → f.completed ≡ true → Kept f (step f ev).0
unfolding step done on_complete set_codec
step-Kept f (completes res e) h = ground arith
step-Kept f (registers fn) h = ground arith
step-Kept f (decodes_by none) h = ground arith
step-Kept f (decodes_by (some c)) h = ground arith

run-Kept : (f : Future) (evs : List Event) → f.completed ≡ true → Kept f (run f evs).0
unfolding run
run-Kept f [] h = ground arith
run-Kept f (ev ∷ evs) h =
    let k = step-Kept f ev h in
    let r = run-Kept (step f ev).0 evs k.completed_kept in
    record {
      res_kept = r.res_kept ∙ k.res_kept;
      err_kept = r.err_kept ∙ k.err_kept;
      completed_kept = r.completed_kept;
      closed_kept = r.closed_kept ∙ k.closed_kept;
    }

complete_lem :
    (f : Future) (res : Bytes) (e : Option Error)
    → f.completed ≡ false
    → let g = (step f (completes res e)).0 in
      (g.res ≡ res) × (g.err_of ≡ e) × (g.completed ≡ true) × (g.closed_chan ≡ true)
unfolding step done
complete_lem f res e h = ground arith

wait_lem : (f : Future) → f.closed_chan ≡ true → wait f ≡ some (f.res, f.err_of)
unfolding wait
wait_lem f h = rw (h, wait)

-- The first completion wins: what a waiter sees is its result and its error, whatever completions,
-- registrations and choices of a codec come after it.
pub first_completion_wins :
    (f : Future) (res : Bytes) (e : Option Error) (evs : List Event)
    → f.completed ≡ false
    → wait (run f (completes res e ∷ evs)).0 ≡ some (res, e)
unfolding run
first_completion_wins f res e evs h =
    let c = complete_lem f res e h in
    let k = run-Kept (step f (completes res e)).0 evs c.2 in
    wait_lem _ (k.closed_kept ∙ c.3)
    ∙ ap₂ (λ r x. some (r, x)) (k.res_kept ∙ c.0) (k.err_kept ∙ c.1)

-- The callbacks that the events register.
abbrev pub registrations : List Event → List ℕ
registrations [] = []
registrations (completes res e ∷ evs) = registrations evs
registrations (registers fn ∷ evs) = fn ∷ registrations evs
registrations (decodes_by c ∷ evs) = registrations evs

calls_completed :
    (f : Future) (evs : List Event)
    → f.completed ≡ true
    → registrations evs ≡ []
    → (run f evs).1 ≡ []
unfolding run step done on_complete set_codec
calls_completed f [] h n = refl
calls_completed f (completes res e ∷ evs) h n = ground (arith, calls_completed f evs h n)
calls_completed f (registers fn ∷ evs) h n = cc
calls_completed f (decodes_by none ∷ evs) h n = calls_completed f evs h n
calls_completed f (decodes_by (some c) ∷ evs) h n = calls_completed (record f { codec = c }) evs h n

-- What a future's callbacks were called with, once it is completed.
abbrev pub CalledOnce : ℕ → Future × List Call → Type 0
CalledOnce fn r = r.1 ≡ (fn, r.0.err_of) ∷ []

completion_calls :
    (f : Future) (res : Bytes) (e : Option Error) (evs : List Event) (fn : ℕ)
    → f.completed ≡ false
    → f.on_complete ≡ some fn
    → registrations evs ≡ []
    → CalledOnce fn (run f (completes res e ∷ evs))
unfolding run
completion_calls f res e evs fn h o n =
    let c = complete_lem f res e h in
    let k = run-Kept (step f (completes res e)).0 evs c.2 in
    rw (first_call f res e fn h o, calls_completed (step f (completes res e)).0 evs c.2 n)
      (ap (λ x. (fn, x) ∷ []) (sym (k.err_kept ∙ c.1)))
  where
    first_call :
        (f : Future) (res : Bytes) (e : Option Error) (fn : ℕ)
        → f.completed ≡ false
        → f.on_complete ≡ some fn
        → (step f (completes res e)).1 ≡ (fn, e) ∷ []
    first_call f res e fn h o = unfold step done in ground arith

-- A future with its callback registered, and not completed.
calls_waiting :
    (f : Future) (evs : List Event) (fn : ℕ)
    → f.completed ≡ false
    → f.on_complete ≡ some fn
    → registrations evs ≡ []
    → (run f evs).0.completed ≡ true
    → CalledOnce fn (run f evs)
unfolding run step set_codec
calls_waiting f [] fn h o n e = cc
calls_waiting f (completes res x ∷ evs) fn h o n e = completion_calls f res x evs fn h o n
calls_waiting f (registers g ∷ evs) fn h o n e = cc
calls_waiting f (decodes_by none ∷ evs) fn h o n e = calls_waiting f evs fn h o n e
calls_waiting f (decodes_by (some c) ∷ evs) fn h o n e =
    calls_waiting (record f { codec = c }) evs fn h o n e

-- A completed future to which the callback comes late.
calls_late :
    (f : Future) (evs : List Event) (fn : ℕ)
    → f.completed ≡ true
    → registrations evs ≡ fn ∷ []
    → CalledOnce fn (run f evs)
unfolding run step set_codec done on_complete
calls_late f [] fn h n = cc
calls_late f (completes res x ∷ evs) fn h n = ground (arith, calls_late f evs fn h n)
calls_late f (registers g ∷ evs) fn h n =
    let k = run-Kept f evs h in ground (arith, calls_completed f evs h, k.err_kept)
calls_late f (decodes_by none ∷ evs) fn h n = calls_late f evs fn h n
calls_late f (decodes_by (some c) ∷ evs) fn h n = calls_late (record f { codec = c }) evs fn h n

calls_fresh :
    (f : Future) (evs : List Event) (fn : ℕ)
    → f.completed ≡ false
    → f.on_complete ≡ none
    → registrations evs ≡ fn ∷ []
    → (run f evs).0.completed ≡ true
    → CalledOnce fn (run f evs)
unfolding run step set_codec done on_complete
calls_fresh f [] fn h o n e = cc
calls_fresh f (completes res x ∷ evs) fn h o n e = ground (
  arith,
  calls_late (record f { res = res; err_of = x; completed = true; closed_chan = true }) evs fn,
)
calls_fresh f (registers g ∷ evs) fn h o n e =
    ground (arith, calls_waiting (record f { on_complete = some g }) evs g)
calls_fresh f (decodes_by none ∷ evs) fn h o n e = calls_fresh f evs fn h o n e
calls_fresh f (decodes_by (some c) ∷ evs) fn h o n e =
    calls_fresh (record f { codec = c }) evs fn h o n e

-- A callback that is registered once on a new future is called exactly once, with the error that
-- the waiters see, whether it is registered before or after the completion and however many
-- completions are tried.
pub callback_once :
    (evs : List Event) (fn : ℕ)
    → registrations evs ≡ fn ∷ []
    → (run new_future evs).0.completed ≡ true
    → CalledOnce fn (run new_future evs)
unfolding new_future
callback_once evs fn n e = calls_fresh new_future evs fn refl refl n e
