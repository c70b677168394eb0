-- ===== src/Registry/Changes.antt =====
-- What servers do to etcd, what a watch is told of it, and which addresses are registered after it.
use kama_rpc_go.Base.{
  if◌then◌else◌, Bool, true, false, ◌&&◌, List, [], ◌∷◌, ◌++◌, Bytes, bytes_beq, Option, none, some,
  bytes_eq,
}
use kama_rpc_go.Registry.{instance_key, service_key, WatchEvent, put, deleted, strip}

-- What servers do to etcd: Register, and Deregister or a lease that runs out, of a service and an
-- address.
pub data Change : Type 0 where
  registered removed : Bytes → Bytes → Change

abbrev pub service_of : Change → Bytes
service_of (registered service addr) = service
service_of (removed service addr) = service

-- The key that the change is about, and the event of a watch.
abbrev pub key_of : Bytes → Change → Bytes
key_of prefix (registered service addr) = instance_key prefix service addr
key_of prefix (removed service addr) = instance_key prefix service addr

abbrev pub event_of : Bytes → Change → WatchEvent
event_of prefix (registered service addr) =
    put (record { key = instance_key prefix service addr; value = addr })
event_of prefix (removed service addr) = deleted (instance_key prefix service addr)

-- The watch of a service is told of the keys that have its prefix.
abbrev pub keep : Option Bytes → WatchEvent → List WatchEvent
keep none e = []
keep (some rest) e = e ∷ []

abbrev pub watched_one : Bytes → Bytes → Change → List WatchEvent
watched_one prefix service c =
    keep (strip (service_key prefix service) (key_of prefix c)) (event_of prefix c)

abbrev pub watched : Bytes → Bytes → List Change → List WatchEvent
watched prefix service [] = []
watched prefix service (c ∷ cs) = watched_one prefix service c ++ watched prefix service cs

-- Whether the address is registered for the service after the changes, if it was so before.
abbrev pub live_one : Bytes → Bytes → Bool → Change → Bool
live_one service addr now (registered s a) =
    if bytes_beq s service && bytes_beq a addr then true else now
live_one service addr now (removed s a) =
    if bytes_beq s service && bytes_beq a addr then false else now

abbrev pub live : Bytes → Bytes → Bool → List Change → Bool
live service addr now [] = now
live service addr now (c ∷ cs) = live service addr (live_one service addr now c) cs
