-- ===== src/Client/Options.antt =====
-- internal/client/client.go, NewClient and Close, and internal/client/options.go. A threshold, which is a
-- float, is whether it is in (0, 1] and the test that it makes. A codec's own type is `type_of`.
mod Runs
use kama_rpc_go.Base.{
  ◌++◌, ℕ, ◌*◌, ◌<◌, ◌≤◌, ◌≡◌, refl, arith, ltb, ◌==◌, if◌then◌else◌, Bool, true, false, List, [],
  ◌∷◌, Bytes, length, Option, none, some, Error, Result, ok, err, ◌>>=◌, >>=-eq-ok, codes,
  registry_nil, timeout_not_positive, balancer_nil, window_not_positive, threshold_out_of_range,
  open_timeout_not_positive, pool_size_not_positive, name_empty, rate_not_positive,
}
use kama_rpc_go.Base.Int.{ℤ, pos, pos_part, leb_ℤ}
use kama_rpc_go.Codec.Registry.{Registry, new_codec}
use kama_rpc_go.Limiter.{new_token_bucket}
use kama_rpc_go.Transport.Pool.{ConnectionPool, close as close_pool}
use kama_rpc_go.Client.Breaker.{Config}
use kama_rpc_go.Client.Invoke.{Client}

abbrev pub default_pool_size : ℕ
default_pool_size = 1

-- The functions that the With… functions return. Numbers and times may be negative; what a client
-- keeps of them is not.
pub data ClientOption (L : Type 0) : Type 0 where
  with_codec : ℕ → ClientOption L
  with_timeout : ℤ → ClientOption L
  with_load_balancer : Option L → ClientOption L
  with_rate_limit : ℤ → ClientOption L
  with_breaker : ℤ → Bool → (ℕ → ℕ → Bool) → ℤ → ClientOption L
  with_pool_size : ℤ → ClientOption L
  with_name : Bytes → ClientOption L

module _ {L : Type 0} (type_of : ℕ → ℕ) (codecs : Registry) where
  unfoldable pub set_codec : Result ℕ → Client L → Result (Client L)
  set_codec (err e) c = err e
  set_codec (ok cc) c = ok (record c { codec_type = type_of cc })

  unfoldable pub apply_option : ClientOption L → Client L → Result (Client L)
  unfolding set_codec
  apply_option (with_codec t) c = set_codec (new_codec t codecs) c
  apply_option (with_timeout d) c =
      if leb_ℤ d (pos 0) then err timeout_not_positive else ok (record c { timeout = pos_part d })
  apply_option (with_load_balancer none) c = err balancer_nil
  apply_option (with_load_balancer (some lb)) c = ok (record c { lb = lb })
  apply_option (with_rate_limit rate) c =
      if leb_ℤ rate (pos 0)
      then err rate_not_positive
      else ok (record c { limiter = new_token_bucket (pos_part rate) })
  apply_option (with_breaker window in_range reaches open_timeout) c =
      if leb_ℤ window (pos 0)
      then err window_not_positive
      else if in_range
      then (if leb_ℤ open_timeout (pos 0)
          then err open_timeout_not_positive
          else ok (record c {
            breaker_config = record {
              window_size = pos_part window;
              reaches = reaches;
              open_timeout = pos_part open_timeout;
            };
          }))
      else err threshold_out_of_range
  apply_option (with_pool_size n) c =
      if leb_ℤ n (pos 0)
      then err pool_size_not_positive
      else ok (record c { pool_max_active = pos_part n })
  apply_option (with_name name) c =
      if length name == 0 then err name_empty else ok (record c { name = name })

  -- The loop over the options: the first that is refused ends it.
  unfoldable pub apply_options : List (ClientOption L) → Client L → Result (Client L)
  unfolding apply_option
  apply_options [] c = ok c
  apply_options (o ∷ os) c = do c' ← apply_option o c; apply_options os c'

  -- The defaults, with a balancer, the codec's type and the test of the threshold 0.6; times are in
  -- nanoseconds.
  abbrev pub default_client : L → ℕ → (ℕ → ℕ → Bool) → Client L
  default_client lb codec_type reaches = record {
    closed = false;
    limiter = new_token_bucket 10000;
    lb = lb;
    codec_type = codec_type;
    breakers = [];
    pools = [];
    breaker_config = record { window_size = 20; reaches = reaches; open_timeout = 5 * 1000000000 };
    pool_max_active = default_pool_size;
    timeout = 5 * 1000000000;
    name = codes "client";
    observed = [];
  }

  -- NewClient, with whether there is a registry; the type of JSON is 1.
  unfoldable pub new_client : Bool → L → (ℕ → ℕ → Bool) → List (ClientOption L) → Result (Client L)
  unfolding apply_options
  new_client has_registry lb reaches os =
      if has_registry
      then (do cc ← new_codec 1 codecs; apply_options os (default_client lb (type_of cc) reaches))
      else err registry_nil

-- What the rest of the client relies on.
pub record IsClient {L : Type 0} (c : Client L) : Type 0 where
  pub times_out : 0 < c.timeout
  pub lets_some : 0 < c.limiter.rate
  pub within_rate : c.limiter.tokens ≤ c.limiter.rate
  pub window : 0 < c.breaker_config.window_size
  pub reopens : 0 < c.breaker_config.open_timeout
  pub dials : 0 < c.pool_max_active
  pub named : 0 < length c.name

ok_lem {ℓ} : {A : Type ℓ} {x y : A} → (h : ok x ≡ ok y) → y ≡ x
ok_lem h = cc

module _ {L : Type 0} (type_of : ℕ → ℕ) (codecs : Registry) where
  set_codec-IsClient :
      (r : Result ℕ) (c d : Client L)
      → IsClient c
      → set_codec type_of codecs r c ≡ ok d
      → IsClient d
  unfolding set_codec
  set_codec-IsClient (err e) c d v h = cc
  set_codec-IsClient (ok cc) c d v h = ground arith

  apply_option-IsClient :
      (o : ClientOption L) (c d : Client L)
      → IsClient c
      → apply_option type_of codecs o c ≡ ok d
      → IsClient d
  unfolding apply_option new_token_bucket
  apply_option-IsClient (with_codec t) c d v h = set_codec-IsClient (new_codec t codecs) c d v h
  apply_option-IsClient (with_timeout n) c d v h = ground arith
  apply_option-IsClient (with_load_balancer none) c d v h = cc
  apply_option-IsClient (with_load_balancer (some lb)) c d v h = ground arith
  apply_option-IsClient (with_rate_limit rate) c d v h = ground arith
  apply_option-IsClient (with_breaker window in_range reaches open_timeout) c d v h = ground arith
  apply_option-IsClient (with_pool_size n) c d v h = ground arith
  apply_option-IsClient (with_name name) c d v h = ground arith

  default_client-IsClient :
      (lb : L) (codec_type : ℕ) (reaches : ℕ → ℕ → Bool)
      → IsClient (default_client type_of codecs lb codec_type reaches)
  unfolding new_token_bucket
  default_client-IsClient lb codec_type reaches = ground arith

  apply_options-IsClient :
      (os : List (ClientOption L)) (c d : Client L)
      → IsClient c
      → apply_options type_of codecs os c ≡ ok d
      → IsClient d
  unfolding apply_options
  apply_options-IsClient [] c d v h = rw (ok_lem h) v
  apply_options-IsClient (o ∷ os) c d v h =
      let (c', first, rest) =
        >>=-eq-ok (apply_option type_of codecs o c) (apply_options type_of codecs os) h in
      apply_options-IsClient os c' d (apply_option-IsClient o c c' v first) rest

  -- A client that NewClient returns, with whatever options, has positive limits, so that calls time
  -- out, some are let through, each pool may dial and an open breaker tries again; it
  -- has a name, and no more tokens than its rate.
  pub new_client-IsClient :
      (has_registry : Bool) (lb : L) (reaches : ℕ → ℕ → Bool) (os : List (ClientOption L))
      (d : Client L)
      → new_client type_of codecs has_registry lb reaches os ≡ ok d
      → IsClient d
  unfolding new_client
  new_client-IsClient false lb reaches os d h = cc
  new_client-IsClient true lb reaches os d h =
      let (cc', made, rest) =
        >>=-eq-ok (new_codec 1 codecs)
          (λ k.
            apply_options type_of codecs os (default_client type_of codecs lb (type_of k) reaches))
          h in
      apply_options-IsClient os (default_client type_of codecs lb (type_of cc') reaches) d
        (default_client-IsClient lb (type_of cc') reaches) rest

-- The loop of Close over the pools, with the connections that are closed.
unfoldable pub close_pools : List (Bytes × ConnectionPool) → List ℕ
close_pools [] = []
close_pools ((addr, p) ∷ pools) = (close_pool p).0 ++ close_pools pools

-- Close: every pool is closed and leaves the map.
unfoldable pub close : {L : Type 0} → Client L → List ℕ × Client L
unfolding close_pools
close c =
    if c.closed then ([], c) else (close_pools c.pools, record c { closed = true; pools = [] })
