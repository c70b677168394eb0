-- ===== src/Registry/Prefixes.antt =====
-- Which keys have the prefix of a service.
use kama_rpc_go.Base.{
  ◌≡◌, refl, arith, ◌==◌, ==_iff, if◌then◌else◌, false, [], ◌∷◌, ◌++◌, All, Bytes, bytes_beq, none,
  some,
}
use kama_rpc_go.Registry.{slash, instance_key, service_key, strip}

-- A name without "/".
abbrev pub IsName : Bytes → Type 0
IsName = All (λ b. (b == slash) ≡ false)

strip_common : (p s t : Bytes) → strip (p ++ s) (p ++ t) ≡ strip s t
unfolding strip
strip_common [] s t = refl
strip_common (x ∷ p) s t = ground (arith, ==_iff x x, strip_common p s t)

strip_service :
    (service other addr : Bytes)
    → IsName service
    → IsName other
    → strip (service ++ (slash ∷ [])) (other ++ (slash ∷ addr))
      ≡ (if bytes_beq other service then some addr else none)
unfolding strip
strip_service [] [] addr v u = refl
strip_service [] (y ∷ other) addr v (y_ok, u) = ground (arith, ==_iff slash y)
strip_service (x ∷ service) [] addr (x_ok, v) u = ground arith
strip_service (x ∷ service) (y ∷ other) addr (x_ok, v) (y_ok, u) =
    ground (arith, ==_iff x y, strip_service service other addr v u)

-- The key of an instance has the prefix of a service exactly if it is an instance of that service,
-- and then its address is what is left.
pub strip-instance_key :
    (prefix service other addr : Bytes)
    → IsName service
    → IsName other
    → strip (service_key prefix service) (instance_key prefix other addr)
      ≡ (if bytes_beq other service then some addr else none)
unfolding service_key instance_key
strip-instance_key prefix service other addr v u =
    rw (strip_common prefix (service ++ (slash ∷ [])) (other ++ (slash ∷ addr)))
      (strip_service service other addr v u)
