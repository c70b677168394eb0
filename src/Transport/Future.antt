-- ===== src/Transport/Future.antt =====
-- internal/core/transport/future.go. A future is a state that Done and OnComplete change under
-- its lock. The callback is known by a number; the calls of callbacks are returned as a list
-- of (callback, error). `closed_chan` tells that `done` is closed, which wakes the waiters.
pub mod Completion
mod Runs
use kama_rpc_go.Base.{
  ℕ, Bool, true, false, List, [], ◌∷◌, Bytes, Option, none, some, Result, Error, ok, err, ◌>>=◌,
}

pub record Future : Type 0 where
  pub res : Bytes
  pub err_of : Option Error
  pub on_complete : Option ℕ
  pub completed : Bool
  pub closed_chan : Bool
  pub codec : ℕ

-- A callback and the error that it is called with.
abbrev pub Call : Type 0
Call = ℕ × Option Error

abbrev pub json_codec : ℕ
json_codec = 1

pub new_future : Future
new_future = record {
  res = [];
  err_of = none;
  on_complete = none;
  completed = false;
  closed_chan = false;
  codec = json_codec;
}

-- SetCodec; `none` is a nil codec.
pub set_codec : Option ℕ → Future → Future
set_codec none f = f
set_codec (some c) f = record f { codec = c }

notify : Option ℕ → Option Error → List Call
notify none e = []
notify (some fn) e = (fn, e) ∷ []

pub on_complete : Option ℕ → Future → Future × List Call
unfolding notify
on_complete fn f = elim f.completed [
  | true ↦ (f, notify fn f.err_of)
  | false ↦ (record f { on_complete = fn }, [])
]

pub done : Bytes → Option Error → Future → Future × List Call
unfolding notify
done res e f = elim f.completed [
  | true ↦ (f, [])
  | false ↦ (
    record f { res = res; err_of = e; completed = true; closed_chan = true },
    notify f.on_complete e,
  )
]

-- Wait and GetResult return once the channel is closed: `none` while they block.
pub wait : Future → Option (Bytes × Option Error)
wait f = elim f.closed_chan [ true ↦ some (f.res, f.err_of) | false ↦ none ]

pub get_result_of : {A : Type 0} → (ℕ → Bytes → Result A) → Future → Option Error → Result A
get_result_of unmarshal f (some e) = err e
get_result_of unmarshal f none = unmarshal f.codec f.res

pub get_result : {A : Type 0} → (ℕ → Bytes → Result A) → Future → Option (Result A)
unfolding get_result_of
get_result unmarshal f = elim f.closed_chan [
  | true ↦ some (get_result_of unmarshal f f.err_of)
  | false ↦ none
]
