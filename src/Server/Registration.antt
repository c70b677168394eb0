-- ===== src/Server/Registration.antt =====
-- internal/server/server.go: NewServer, Register, lookup, the connections that Start accepts and
-- Stop closes, and internal/server/options.go. A connection is known by a number, and reflect's
-- view of an instance is its methods.
mod Runs
use kama_rpc_go.Base.{
  ℕ, ◌≡◌, ◌≢◌, refl, ◌∙◌, ap, arith, ◌==◌, ==_iff, if◌then◌else◌, Bool, true, false, List, [], ◌∷◌,
  Bytes, length, map, Option, none, some, Error, Result, ok, err, ◌>>=◌, bytes_eq, bytes_beq,
  bytes_beq_iff, nat_eq, lookup, insert, erase, lookup-insert, invalid_registration,
  service_registered, rate_not_positive, Bool-cases, Result-cases, inl, inr,
}
use kama_rpc_go.Base.{◌<◌, ◌⊎◌}
use kama_rpc_go.Base.Int.{ℤ, pos, pos_part, leb_ℤ}
use kama_rpc_go.Codec.Registry.{Registry, new_codec}
use kama_rpc_go.Limiter.{TokenBucket, new_token_bucket}
use kama_rpc_go.Server.Service.{GoType, GoMethod, ServiceEntry, new_service_entry}

-- `conns` is a set; `listening` is whether there is a listener.
pub record Server : Type 0 where
  pub services : List (Bytes × ServiceEntry)
  pub limiter : TokenBucket
  pub codec : ℕ
  pub conns : List (ℕ × Unit {0})
  pub listening : Bool
  pub closed : Bool

pub data ServerOption : Type 0 where
  with_codec : ℕ → ServerOption
  with_rate_limit : ℤ → ServerOption

unfoldable pub set_codec : Result ℕ → Server → Result Server
set_codec (err e) s = err e
set_codec (ok cc) s = ok (record s { codec = cc })

unfoldable pub apply_option : Registry → ServerOption → Server → Result Server
unfolding set_codec
apply_option codecs (with_codec t) s = set_codec (new_codec t codecs) s
apply_option codecs (with_rate_limit rate) s =
    if leb_ℤ rate (pos 0)
    then err rate_not_positive
    else ok (record s { limiter = new_token_bucket (pos_part rate) })

unfoldable pub apply_options : Registry → List ServerOption → Server → Result Server
unfolding apply_option
apply_options codecs [] s = ok s
apply_options codecs (o ∷ os) s = do s' ← apply_option codecs o s; apply_options codecs os s'

abbrev pub default_server : ℕ → Server
default_server codec = record {
  services = [];
  limiter = new_token_bucket 100000;
  codec = codec;
  conns = [];
  listening = false;
  closed = false;
}

-- NewServer; the type of JSON is 1.
unfoldable pub new_server : Registry → List ServerOption → Result Server
unfolding apply_options
new_server codecs os = do cc ← new_codec 1 codecs; apply_options codecs os (default_server cc)

-- Under the lock.
unfoldable pub add_service :
    Bytes → ServiceEntry → Option ServiceEntry → Server → Result (Unit {0}) × Server
add_service name entry (some e) s = (err service_registered, s)
add_service name entry none s = (ok tt, record s { services = insert name entry s.services })

unfoldable pub register_entry : Bytes → Result ServiceEntry → Server → Result (Unit {0}) × Server
unfolding add_service
register_entry name (err e) s = (err e, s)
register_entry name (ok entry) s = add_service name entry (lookup name s.services) s

unfoldable pub register_instance :
    (GoType → Bool) → Bytes → Option (List GoMethod) → Server → Result (Unit {0}) × Server
unfolding register_entry
register_instance implements name none s = (err invalid_registration, s)
register_instance implements name (some ms) s =
    register_entry name (new_service_entry implements name ms) s

-- Register; an instance that is nil is `none`.
unfoldable pub register :
    (GoType → Bool) → Bytes → Option (List GoMethod) → Server → Result (Unit {0}) × Server
unfolding register_instance
register implements name service s =
    if length name == 0
    then (err invalid_registration, s)
    else register_instance implements name service s

-- A connection that Start accepts, and one whose Handle returned.
unfoldable pub accept : ℕ → Server → Server
accept conn s = record s { conns = insert conn tt s.conns }

unfoldable pub finished : ℕ → Server → Server
finished conn s = record s { conns = erase conn s.conns }

-- Stop: whether it closes the listener, and the connections that it closes.
unfoldable pub stop : Server → (Bool × List ℕ) × Server
stop s =
    if s.closed
    then ((false, []), s)
    else ((s.listening, map (λ c. c.0) s.conns), record s { closed = true })

-- What a Register of `wanted` did: an error is the one wanted, or that the
-- name is taken, and leaves the server as it was; without one the name was free
-- and now has the entry, and every other name is as it was.
abbrev pub Registers : Bytes → Result ServiceEntry → Server → Result (Unit {0}) × Server → Type 0
Registers name wanted s (err e, t) =
    (t ≡ s) × ((wanted ≡ err e) ⊎ ((lookup name s.services ≢ none) × (e ≡ service_registered)))
Registers name wanted s (ok u, t) =
    (entry : ServiceEntry) × (wanted ≡ ok entry)
    × (lookup name s.services ≡ none)
    × ((k : Bytes)
        → lookup k t.services ≡ (if bytes_beq name k then some entry else lookup k s.services))

add_service-Registers :
    (name : Bytes) (entry : ServiceEntry) (o : Option ServiceEntry) (s : Server)
    → lookup name s.services ≡ o
    → Registers name (ok entry) s (add_service name entry o s)
unfolding add_service
add_service-Registers name entry (some e) s h = (refl, inr (λ none_there. cc, refl))
add_service-Registers name entry none s h =
    (entry, refl, h, λ k. lookup-insert name k entry s.services)

register_entry-Registers :
    (name : Bytes) (wanted : Result ServiceEntry) (s : Server)
    → Registers name wanted s (register_entry name wanted s)
unfolding register_entry
register_entry-Registers name (err e) s = (refl, inl refl)
register_entry-Registers name (ok entry) s =
    add_service-Registers name entry (lookup name s.services) s refl

-- What Register is to enter: the methods of the instance that have the right signature, if there is
-- a name and an instance.
abbrev pub wanted : (GoType → Bool) → Bytes → Option (List GoMethod) → Result ServiceEntry
wanted implements [] service = err invalid_registration
wanted implements (x ∷ name) none = err invalid_registration
wanted implements (x ∷ name) (some ms) = new_service_entry implements (x ∷ name) ms

register_instance-Registers :
    (implements : GoType → Bool) (name : Bytes) (service : Option (List GoMethod)) (s : Server)
    → 0 < length name
    → Registers name
        (wanted implements name service)
        s
        (register_instance implements name service s)
unfolding register_instance
register_instance-Registers implements [] service s h = absurd (ground arith)
register_instance-Registers implements (x ∷ name) none s h = (refl, inl refl)
register_instance-Registers implements (x ∷ name) (some ms) s h =
    register_entry-Registers (x ∷ name) (new_service_entry implements (x ∷ name) ms) s

-- Register enters the instance's methods under a free name, or is an error and changes nothing. The
-- error is for an empty name, no instance, or no method with the right signature, or else for a
-- name that is taken, so that a service that is registered is never replaced.
pub register-Registers :
    (implements : GoType → Bool) (name : Bytes) (service : Option (List GoMethod)) (s : Server)
    → Registers name (wanted implements name service) s (register implements name service s)
unfolding register
register-Registers implements [] service s = (refl, inl refl)
register-Registers implements (x ∷ name) service s =
    let named : (length (x ∷ name) == 0) ≡ false = ground arith in
    rw named (register_instance-Registers implements (x ∷ name) service s (omega arith))
