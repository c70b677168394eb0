-- ===== src/Client/Options/Runs.antt =====
-- Runs of NewClient, and its theorem at an input.
use kama_rpc_go.Base.{
  false, codes, ℕ, ◌*◌, ◌≡◌, refl, leb, Bool, true, List, [], ◌∷◌, none, some, ok, err, lookup,
  insert, pool_size_not_positive,
}
use kama_rpc_go.Base.Int.{pos, negsuc}
use kama_rpc_go.Codec.Registry.{
  Registry, no_codecs, register, get, get_cached, new_codec, new_codec_of,
}
use kama_rpc_go.Client.Invoke.{Client}
use kama_rpc_go.Client.Options.{
  ClientOption, with_timeout, with_load_balancer, with_pool_size, close, close_pools,
  default_client, set_codec, apply_option, apply_options, new_client, IsClient, new_client-IsClient,
}

abbrev codecs : Registry
codecs = register 1 1 no_codecs

abbrev reaches : ℕ → ℕ → Bool
reaches f t = leb (6 * t) (f * 10)

abbrev options : List (ClientOption ℕ)
options = with_timeout (pos 9) ∷ with_pool_size (pos 2) ∷ with_load_balancer (some 4) ∷ []

abbrev made : Client ℕ
made = record (default_client (λ n. n) codecs 4 1 reaches) { timeout = 9; pool_max_active = 2 }

makes_run : new_client (λ n. n) codecs true 0 reaches options ≡ ok made
unfolding new_client apply_options apply_option set_codec new_codec new_codec_of get get_cached
    register no_codecs insert lookup
makes_run = refl

refuses_run :
    new_client {L = ℕ}
      (λ n. n)
      codecs
      true
      0
      reaches
      (with_timeout (pos 9) ∷ with_pool_size (negsuc 0) ∷ with_load_balancer none ∷ [])
    ≡ err pool_size_not_positive
unfolding new_client apply_options apply_option set_codec new_codec new_codec_of get get_cached
    register no_codecs insert lookup
refuses_run = refl

new_client-IsClient_example : IsClient made
new_client-IsClient_example =
    new_client-IsClient (λ n. n) codecs true 0 reaches options made makes_run

-- A second Close closes nothing.
closes_run :
    (close
      (close (record made {
        pools =
            (codes "h:1", record { max_active = 2; conns = 3 ∷ 4 ∷ []; closed = false; next = 0 })
            ∷ [];
      })).1).0
    ≡ []
unfolding close close_pools
closes_run = refl
