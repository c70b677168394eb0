-- ===== src/Client/Invoke/Runs.antt =====
-- Runs of InvokeAsync, and its theorems at inputs.
use kama_rpc_go.Base.{
  ℕ, ◌*◌, ◌+◌, ◌≡◌, refl, ap, arith, leb, false, List, [], ◌∷◌, Bytes, some, none, ok, err, foreign,
  codes, lookup, breaker_open, bytes_eq,
}
use kama_rpc_go.Limiter.{allow as limiter_allow}
use kama_rpc_go.Transport.Pool.{acquire, acquire_open, add_dialled, new_connection_pool}
use kama_rpc_go.Client.Breaker.{CircuitBreaker, open_state, allow, allow_in, run}
use kama_rpc_go.Client.Breaker.Invariant.{IsBreaker}
use kama_rpc_go.Client.Breaker.Transitions.{asks_at}
use kama_rpc_go.Client.Keys.{breaker_key, split_breaker_key, split_breaker_key-breaker_key}
use kama_rpc_go.Client.LoadBalance.{Instance}
use kama_rpc_go.Client.Invoke.{
  Client, World, address_of, select_addr, breaker_of, pool_of, stored_or, invoke_sent,
  invoke_marshalled, invoke_acquired, invoke_let, invoke_at, invoke_addressed, invoke_limited,
  invoke_async,
}
use kama_rpc_go.Client.Invoke.Verdict.{chosen, verdict, Told, invoke_async-Answers}
use kama_rpc_go.Client.Invoke.Accounting.{Moved, call_events, invoke_async-Moved}
use kama_rpc_go.Client.Invoke.LostProbe.{lost_probe_blocks}
use kama_rpc_go.Client.Invoke.Waiting.{expired, invoke, expired_probe_blocks}

-- A balancer that takes the first instance.
abbrev first : ℕ → List Instance → Instance × ℕ
first n [] = (record { addr = [] }, n)
first n (i ∷ is) = (i, n + 1)

abbrev service : Bytes
service = codes "S"

abbrev method : Bytes
method = codes "M"

abbrev addr : Bytes
addr = codes "h:1"

abbrev opened : CircuitBreaker
opened = record {
  state = open_state;
  failure_count = 0;
  success_count = 0;
  last_state_change = 2;
  half_open_probe = false;
}

abbrev client : Client ℕ
client = record {
  closed = false;
  limiter = record { tokens = 5; rate = 5 };
  lb = 0;
  codec_type = 0;
  breakers = (codes "S@h:1", opened) ∷ [];
  pools = [];
  breaker_config = record { window_size = 2; reaches = λ f t. leb t (f * 2); open_timeout = 10 };
  pool_max_active = 1;
  timeout = 5000;
  name = codes "client";
  observed = [];
}

-- The arguments cannot be encoded.
abbrev world : World
world = record {
  discovered = ok (record { addr = addr } ∷ []);
  now = 20;
  failed_at = 21;
  context = none;
  dead = λ n. false;
  dialled = ok 7;
  body = err (foreign 3);
  sent = λ conn msg. ok 99;
  elapsed = 4;
}

abbrev encoded : World
encoded = record world { body = ok (1 ∷ []) }

sends_run : (invoke_async first encoded service method client).0 ≡ ok 99
unfolding invoke_async limiter_allow invoke_limited select_addr address_of invoke_addressed
    invoke_at breaker_of stored_or lookup breaker_key allow allow_in invoke_let pool_of acquire
    acquire_open add_dialled new_connection_pool invoke_acquired invoke_marshalled invoke_sent
sends_run = refl

refused_run :
    (invoke_async first (record encoded { now = 3 }) service method client).0 ≡ err breaker_open
unfolding invoke_async limiter_allow invoke_limited select_addr address_of invoke_addressed
    invoke_at breaker_of stored_or lookup breaker_key allow allow_in
refused_run = refl

split_breaker_key-breaker_key_example :
    split_breaker_key (breaker_key (codes "a@b") addr) ≡ (codes "a@b", addr)
split_breaker_key-breaker_key_example =
    split_breaker_key-breaker_key (codes "a@b") addr (refl, (refl, (refl, tt)))

invoke_async-Answers_example :
    ((invoke_async first world service method client).0 ≡ verdict world service method first client)
    × Told service method
        (verdict world service method first client)
        []
        (invoke_async first world service method client).1.observed
invoke_async-Answers_example = invoke_async-Answers world service method first client

picks : chosen first 0 world.discovered ≡ ok addr
unfolding chosen address_of
picks = refl

opened_found : breaker_of (breaker_key service addr) 20 client ≡ opened
unfolding breaker_of stored_or breaker_key lookup
opened_found = refl

acquires : (acquire none world.dead world.dialled (pool_of addr client)).0 ≡ ok 7
unfolding acquire acquire_open add_dialled new_connection_pool pool_of stored_or lookup
acquires = refl

opened-IsBreaker : IsBreaker client.breaker_config opened
opened-IsBreaker = ground arith

invoke_async-Moved_example :
    Moved client.breaker_config
      (breaker_key service addr)
      (breaker_of (breaker_key service addr) 20 client)
      (call_events world service method client addr)
      client.breakers
      (invoke_async first world service method client).1.breakers
invoke_async-Moved_example =
    invoke_async-Moved world service method first client addr refl (omega arith) picks

lost_probe_blocks_example :
    (cb : CircuitBreaker) × (lookup
        (breaker_key service addr)
        (invoke_async first world service method client).1.breakers
      ≡ some cb)
    × ((allow client.breaker_config 1000
          (run client.breaker_config cb (asks_at (500 ∷ 900 ∷ [])))).0
        ≡ false)
lost_probe_blocks_example =
    lost_probe_blocks world service method first client addr 7 (foreign 3) (500 ∷ 900 ∷ []) 1000
      refl (omega arith) picks (rw opened_found opened-IsBreaker) (ap (λ cb. cb.state) opened_found)
      (rw opened_found (omega arith)) acquires refl

-- The arguments are encoded and the request is sent, and nothing comes back in time.
abbrev silent : World
silent = record world { body = ok (1 ∷ []); sent = λ conn m. ok 9 }

expired_probe_blocks_example :
    let r =
      invoke {A = Bytes} first silent service method
        (λ c b. ok b)
        (λ f. expired (foreign 4))
        client in
    (r.0 ≡ err (foreign 4))
    × ((cb : CircuitBreaker) × (lookup (breaker_key service addr) r.1.breakers ≡ some cb)
        × ((allow client.breaker_config 1000
              (run client.breaker_config cb (asks_at (500 ∷ 900 ∷ [])))).0
            ≡ false))
expired_probe_blocks_example =
    expired_probe_blocks silent service method first (λ c b. ok b) (λ f. expired (foreign 4)) client
      addr (1 ∷ []) 7 9 (foreign 4) (500 ∷ 900 ∷ []) 1000 refl (omega arith) picks
      (rw opened_found opened-IsBreaker) (ap (λ cb. cb.state) opened_found)
      (rw opened_found (omega arith)) acquires refl refl refl
