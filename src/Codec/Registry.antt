-- ===== src/Codec/Registry.antt =====
-- internal/core/codec/codec.go: the registered codecs. A codec is known by a number; a
-- constructor is the codec that it returns, since codecs have no state. The lock and the order
-- of init functions make each call one step.
pub mod Agreement
use kama_rpc_go.Base.{
  ℕ, ltb, ◌==◌, if◌then◌else◌, List, [], ◌∷◌, Option, none, some, Result, ok, err,
  unsupported_codec, nat_eq, lookup, insert,
}

abbrev pub max_cached_type : ℕ
max_cached_type = 16

-- The package variables `codecs` and `cached`; a nil entry of the array is `none`.
pub record Registry : Type 0 where
  pub codecs : List (ℕ × ℕ)
  pub cached : ℕ → Option ℕ

unfoldable pub no_codecs : Registry
no_codecs = record { codecs = []; cached = λ t. none }

unfoldable pub register : ℕ → ℕ → Registry → Registry
register t c r = record {
  codecs = insert t c r.codecs;
  cached = if ltb t max_cached_type then (λ j. if t == j then some c else r.cached j) else r.cached;
}

unfoldable pub get_cached : Option ℕ → ℕ → Registry → Option ℕ
get_cached (some c) t r = some c
get_cached none t r = lookup t r.codecs

unfoldable pub get : ℕ → Registry → Option ℕ
unfolding get_cached
get t r = get_cached (if ltb t max_cached_type then r.cached t else none) t r

unfoldable pub new_codec_of : Option ℕ → ℕ → Result ℕ
new_codec_of (some c) t = ok c
new_codec_of none t = err (unsupported_codec t)

unfoldable pub new_codec : ℕ → Registry → Result ℕ
unfolding new_codec_of
new_codec t r = new_codec_of (lookup t r.codecs) t
