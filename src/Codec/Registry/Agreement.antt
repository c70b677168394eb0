-- ===== src/Codec/Registry/Agreement.antt =====
-- The array of shared codecs and the map agree.
use kama_rpc_go.Base.{
  ℕ, ◌<◌, ◌≡◌, refl, ap, arith, ltb, ◌==◌, ==_iff, if◌then◌else◌, Bool-cases, inl, inr, List, [],
  ◌∷◌, Option, none, some, nat_eq, lookup, lookup-insert,
}
use kama_rpc_go.Codec.Registry.{
  Registry, max_cached_type, no_codecs, register, get_cached, get, new_codec_of, new_codec,
}

-- The registry after these registrations, each a type with its codec, the last one first.
unfoldable pub registered : List (ℕ × ℕ) → Registry
registered [] = no_codecs
registered ((t, c) ∷ rs) = register t c (registered rs)

-- The codec of a type's last registration.
unfoldable pub last_of : ℕ → List (ℕ × ℕ) → Option ℕ
last_of t [] = none
last_of t ((j, c) ∷ rs) = if j == t then some c else last_of t rs

codecs-registered : (t : ℕ) (rs : List (ℕ × ℕ)) → lookup t (registered rs).codecs ≡ last_of t rs
unfolding registered last_of register no_codecs lookup
codecs-registered t [] = refl
codecs-registered t ((j, c) ∷ rs) =
    ground (arith, lookup-insert j t c (registered rs).codecs, codecs-registered t rs)

cached-registered :
    (t : ℕ) (rs : List (ℕ × ℕ)) → t < max_cached_type → (registered rs).cached t ≡ last_of t rs
unfolding registered last_of register no_codecs
cached-registered t [] h = refl
cached-registered t ((j, c) ∷ rs) h = elim (Bool-cases (ltb j max_cached_type)) [
  | inl low ↦ rw low (ground (arith, cached-registered t rs h))
  | inr high ↦ rw high (ground (arith, ==_iff j t, cached-registered t rs h))
]

get_cached-same :
    (o : Option ℕ) (t : ℕ) (r : Registry) → lookup t r.codecs ≡ o → get_cached o t r ≡ o
unfolding get_cached
get_cached-same (some c) t r e = refl
get_cached-same none t r e = e

-- After any registrations, Get answers with the codec that was registered last for the type,
-- whether the array holds it or only the map, and New returns that codec or the error that there
-- is none.
pub get-registered :
    (t : ℕ) (rs : List (ℕ × ℕ))
    → (get t (registered rs) ≡ last_of t rs)
      × (new_codec t (registered rs) ≡ new_codec_of (last_of t rs) t)
unfolding get new_codec
get-registered t rs = (answer, ap (λ o. new_codec_of o t) (codecs-registered t rs))
  where
    answer : get t (registered rs) ≡ last_of t rs
    answer = elim (Bool-cases (ltb t max_cached_type)) [
      | inl low ↦
          unfold get in
          rw (low, cached-registered t rs (ground arith))
            (get_cached-same (last_of t rs) t (registered rs) (codecs-registered t rs))
      | inr high ↦ unfold get get_cached in rw high (codecs-registered t rs)
    ]
