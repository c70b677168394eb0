-- ===== src/Server/Loop/Runs.antt =====
-- Runs of the loop over a connection, and its theorem at an input.
use kama_rpc_go.Base.{
  ℕ, ◌≡◌, refl, [], ◌∷◌, true, false, List, Bytes, Result, ok, err, codes, lookup, conn_closed,
}
use kama_rpc_go.Codec.Registry.{no_codecs}
use kama_rpc_go.Server.Service.{ServiceEntry}
use kama_rpc_go.Server.Handler.{append_error_response}
use kama_rpc_go.Server.Handler.Runs.{echo, lib, service, call_of, handler}
use kama_rpc_go.Server.Loop.{
  Request, Round, Serving, write_if, refuse, spawn, serve_found, serve_looked_up, serve_request,
  serve_read, serve_round, serve,
}
use kama_rpc_go.Server.Loop.InOrder.{in_order, Follows}
use kama_rpc_go.Base.{◌++◌}
use kama_rpc_go.Server.Loop.Writing.{Begins, serve-Writes}

abbrev new_serving : Serving
new_serving = record {
  resp_buf = [];
  wire = [];
  spawned = [];
  observed = [];
  stored_cost = 0;
  returned = false;
}

-- A call that the limiter refuses, one that is answered, one that is slow, and the end.
abbrev request : Request
request = record { header = call_of (codes "M"); body = 42 ∷ [] }

abbrev round : Result Request → ℕ → Round
round read avg = record {
  buffered = true;
  read = read;
  allowed = true;
  avg_cost = avg;
  elapsed = 80;
  head_written = true;
  written = true;
}

abbrev refused : Round
refused = record (round (ok request) 0) { allowed = false }

abbrev rounds : List Round
rounds = refused ∷ round (ok request) 0 ∷ round (ok request) 60000 ∷ []

abbrev last : Round
last = record (round (err conn_closed) 0) { buffered = false }

abbrev services : List (Bytes × ServiceEntry)
services = (codes "S", service) ∷ []

refuses_run :
    (serve echo handler no_codecs lib services (refused ∷ []) new_serving).resp_buf
    ≡ append_error_response lib [] 7 (codes "rate limit exceeded")
unfolding serve serve_round serve_read serve_request refuse write_if
refuses_run = refl

slow_run :
    (serve echo handler no_codecs lib services (round (ok request) 60000 ∷ []) new_serving).spawned
    ≡ (0, request, service) ∷ []
unfolding serve serve_round serve_read serve_request serve_looked_up serve_found spawn write_if
    lookup
slow_run = refl

ends_run :
    (serve echo handler no_codecs lib services
      (round (ok request) 60000 ∷ round (err conn_closed) 0 ∷ [])
      new_serving).returned
    ≡ true
unfolding serve serve_round serve_read serve_request serve_looked_up serve_found spawn write_if
    lookup
ends_run = refl

serve-Writes_example :
    let all = in_order echo handler no_codecs lib services 0 rounds in
    Follows new_serving (serve echo handler no_codecs lib services rounds new_serving) all
    × Begins all.0 (serve echo handler no_codecs lib services (rounds ++ (last ∷ [])) new_serving)
serve-Writes_example =
    serve-Writes echo handler no_codecs lib services rounds last new_serving
      ((refl, refl), ((refl, refl), ((refl, refl), tt)))
      ((request, refl), ((request, refl), ((request, refl), tt))) refl refl refl
