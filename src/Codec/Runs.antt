-- ===== src/Codec/Runs.antt =====
-- Runs of the compression and of the registry, and the theorems at inputs.
use kama_rpc_go.Base.{◌≡◌, refl, [], ◌∷◌, ok, err, unsupported_compression}
use kama_rpc_go.Base.{ℕ, List, some, lookup, insert}
use kama_rpc_go.Codec.Registry.{no_codecs, register, get, new_codec, new_codec_of}
use kama_rpc_go.Codec.Registry.Agreement.{registered, last_of, get-registered}
use kama_rpc_go.Codec.Compress.{compress, decompress, gunzip_body, storing}

stored : compress storing (1 ∷ 2 ∷ []) 1 ≡ ok (0x1f ∷ 1 ∷ 2 ∷ [])
unfolding compress
stored = refl

unstored : decompress storing (0x1f ∷ 1 ∷ 2 ∷ []) 1 ≡ ok (1 ∷ 2 ∷ [])
unfolding decompress gunzip_body
unstored = refl

unknown_type : decompress storing (1 ∷ []) 7 ≡ err (unsupported_compression 7)
unfolding decompress
unknown_type = refl

nothing_to_decompress : decompress storing [] 1 ≡ ok []
unfolding decompress
nothing_to_decompress = refl

-- JSON, Protobuf, and a type that the array does not hold, which is registered twice.
abbrev registrations : List (ℕ × ℕ)
registrations = (40, 8) ∷ (40, 7) ∷ (2, 6) ∷ (1, 5) ∷ []

third_party : get 40 (registered registrations) ≡ some 8
unfolding get registered register no_codecs lookup insert
third_party = refl

get-registered_example :
    (get 2 (registered registrations) ≡ last_of 2 registrations)
    × (new_codec 2 (registered registrations) ≡ new_codec_of (last_of 2 registrations) 2)
get-registered_example = get-registered 2 registrations
