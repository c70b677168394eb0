-- ===== src/Client/Batch/Runs.antt =====
-- Runs of InvokeAsyncBatch.
use kama_rpc_go.Base.{
  ℕ, ◌*◌, ◌+◌, ◌≡◌, refl, leb, length, false, List, [], ◌∷◌, none, ok, err, foreign, codes, lookup,
  rate_limited, bytes_eq,
}
use kama_rpc_go.Limiter.{allow as limiter_allow}
use kama_rpc_go.Transport.Pool.{acquire, acquire_open, add_dialled, new_connection_pool}
use kama_rpc_go.Client.Breaker.{allow, allow_in, new_circuit_breaker}
use kama_rpc_go.Client.Keys.{breaker_key}
use kama_rpc_go.Client.LoadBalance.{Instance}
use kama_rpc_go.Client.Invoke.{Client, select_addr, address_of, breaker_of, pool_of, stored_or}
use kama_rpc_go.Client.Batch.{
  BatchCall, World, take_tokens, with_body, messages, batch_sent, batch_marshalled, batch_acquired,
  batch_let, batch_at, batch_addressed, batch_limited, invoke_async_batch,
}

abbrev first : ℕ → List Instance → Instance × ℕ
first n [] = (record { addr = [] }, n)
first n (i ∷ is) = (i, n + 1)

abbrev client : Client ℕ
client = record {
  closed = false;
  limiter = record { tokens = 2; rate = 5 };
  lb = 0;
  codec_type = 0;
  breakers = [];
  pools = [];
  breaker_config = record { window_size = 2; reaches = λ f t. leb t (f * 2); open_timeout = 10 };
  pool_max_active = 1;
  timeout = 5000;
  name = codes "client";
  observed = [];
}

-- A future for each message.
abbrev world : World
world = record {
  discovered = ok (record { addr = codes "h:1" } ∷ []);
  now = 20;
  failed_at = 21;
  context = none;
  dead = λ n. false;
  dialled = ok 7;
  sent = λ conn msgs. ok (length msgs ∷ []);
}

abbrev call : BatchCall
call = record { method = codes "M"; body = ok (1 ∷ []) }

abbrev odd : BatchCall
odd = record { method = codes "M"; body = err (foreign 3) }

sends_run : (invoke_async_batch first world (codes "S") (call ∷ call ∷ []) client).0 ≡ ok (2 ∷ [])
unfolding invoke_async_batch batch_limited take_tokens limiter_allow select_addr address_of
    batch_addressed batch_at breaker_of stored_or lookup breaker_key allow allow_in
    new_circuit_breaker batch_let pool_of acquire acquire_open add_dialled new_connection_pool
    batch_acquired messages with_body batch_marshalled batch_sent
sends_run = refl

unencoded_run :
    (invoke_async_batch first world (codes "S") (call ∷ odd ∷ []) client).0 ≡ err (foreign 3)
unfolding invoke_async_batch batch_limited take_tokens limiter_allow select_addr address_of
    batch_addressed batch_at breaker_of stored_or lookup breaker_key allow allow_in
    new_circuit_breaker batch_let pool_of acquire acquire_open add_dialled new_connection_pool
    batch_acquired messages with_body batch_marshalled
unencoded_run = refl

limited_run :
    (invoke_async_batch first world (codes "S") (call ∷ call ∷ call ∷ []) client).0
    ≡ err rate_limited
unfolding invoke_async_batch batch_limited take_tokens limiter_allow
limited_run = refl
