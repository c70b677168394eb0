-- ===== src/Registry.antt =====
-- internal/core/registry/registry.go: the cache of instances. What etcd answers to Get, and the
-- events that it sends to a watch, are given; leases and keep-alives are left out. The order in
-- which Go goes through a map is that of the association list here.
pub mod Prefixes
pub mod Changes
pub mod Registering
pub mod Cache
mod Runs
use kama_rpc_go.Base.{
  ℕ, ◌==◌, if◌then◌else◌, Bool, true, false, List, [], ◌∷◌, ◌++◌, Bytes, Option, none, some, Error,
  Result, ok, err, map, bytes_eq, lookup, insert, erase, codes,
}
use kama_rpc_go.Client.LoadBalance.{Instance}

abbrev pub default_prefix : Bytes
default_prefix = codes "/kamaRPC/services/"

-- "/"
abbrev pub slash : ℕ
slash = 47

pub record Registry : Type 0 where
  pub prefix : Bytes
  pub services : List (Bytes × List (Bytes × Instance))

-- fmt.Sprintf("%s%s/%s", …) and fmt.Sprintf("%s%s/", …)
unfoldable pub instance_key : Bytes → Bytes → Bytes → Bytes
instance_key prefix service addr = prefix ++ (service ++ (slash ∷ addr))

unfoldable pub service_key : Bytes → Bytes → Bytes
service_key prefix service = prefix ++ (service ++ (slash ∷ []))

-- A key-value pair of etcd, and an event of a watch.
pub record KeyValue : Type 0 where
  pub key : Bytes
  pub value : Bytes

pub data WatchEvent : Type 0 where
  put : KeyValue → WatchEvent
  deleted : Bytes → WatchEvent

-- What is left of a string behind a prefix, if it has it.
unfoldable pub strip : Bytes → Bytes → Option Bytes
strip [] s = some s
strip (x ∷ p) [] = none
strip (x ∷ p) (y ∷ s) = let rest = strip p s in if x == y then rest else none

-- strings.TrimPrefix
unfoldable pub trimmed : Bytes → Option Bytes → Bytes
trimmed s (some rest) = rest
trimmed s none = s

unfoldable pub trim_prefix : Bytes → Bytes → Bytes
unfolding trimmed
trim_prefix p s = trimmed s (strip p s)

abbrev pub instance : Bytes → Instance
instance addr = record { addr = addr }

-- The loop over resp.Kvs.
unfoldable pub load : List KeyValue → List (Bytes × Instance) → List (Bytes × Instance)
load [] m = m
load (kv ∷ kvs) m = load kvs (insert kv.value (instance kv.value) m)

abbrev pub set_service : Bytes → List (Bytes × Instance) → Registry → Registry
set_service service m r = record r { services = insert service m r.services }

-- r.services[service]; a map that is nil is empty.
unfoldable pub table_or : Option (List (Bytes × Instance)) → List (Bytes × Instance)
table_or (some m) = m
table_or none = []

unfoldable pub table_of : Bytes → Registry → List (Bytes × Instance)
unfolding table_or
table_of service r = table_or (lookup service r.services)

unfoldable pub copy_instances : Bytes → Registry → List Instance
copy_instances service r = map (λ p. p.1) (table_of service r)

-- initService where the service is not cached, with the answer of Get.
unfoldable pub init_from : Bytes → Result (List KeyValue) → Registry → Result (Unit {0}) × Registry
init_from service (err e) r = (err e, r)
init_from service (ok kvs) r = (ok tt, set_service service (load kvs []) r)

unfoldable pub init_found :
    Bytes
    → Result (List KeyValue)
    → Option (List (Bytes × Instance))
    → Registry
    → Result (Unit {0}) × Registry
unfolding init_from
init_found service got (some m) r = (ok tt, r)
init_found service got none r = init_from service got r

unfoldable pub init_service :
    Bytes → Result (List KeyValue) → Registry → Result (Unit {0}) × Registry
unfolding init_found
init_service service got r = init_found service got (lookup service r.services) r

unfoldable pub copied : Bytes → Result (Unit {0}) × Registry → Result (List Instance) × Registry
unfolding copy_instances
copied service (err e, r) = (err e, r)
copied service (ok u, r) = (ok (copy_instances service r), r)

unfoldable pub discover_found :
    Bytes
    → Result (List KeyValue)
    → Option (List (Bytes × Instance))
    → Registry
    → Result (List Instance) × Registry
unfolding copied init_service
discover_found service got (some m) r = (ok (copy_instances service r), r)
discover_found service got none r = copied service (init_service service got r)

unfoldable pub discover :
    Bytes → Result (List KeyValue) → Registry → Result (List Instance) × Registry
unfolding discover_found
discover service got r = discover_found service got (lookup service r.services) r

-- What etcd answers to Grant, with the lease's number, Put and KeepAlive.
pub record Etcd : Type 0 where
  pub granted : Result ℕ
  pub written : Option Error
  pub kept_alive : Option Error

-- A key that is put with a lease.
pub record Leased : Type 0 where
  pub key : Bytes
  pub value : Bytes
  pub lease : ℕ

unfoldable pub keep_alive : Option Error → Result (Unit {0})
keep_alive (some e) = err e
keep_alive none = ok tt

unfoldable pub put_leased :
    Bytes → Bytes → Etcd → ℕ → Option Error → Result (Unit {0}) × List Leased
unfolding keep_alive
put_leased key addr etcd lease (some e) = (err e, [])
put_leased key addr etcd lease none =
    (keep_alive etcd.kept_alive, record { key = key; value = addr; lease = lease } ∷ [])

unfoldable pub register_granted : Bytes → Bytes → Etcd → Result ℕ → Result (Unit {0}) × List Leased
unfolding put_leased
register_granted key addr etcd (err e) = (err e, [])
register_granted key addr etcd (ok lease) = put_leased key addr etcd lease etcd.written

-- Register, and the keys that it puts. The goroutine that drains the keep-alives does nothing else.
unfoldable pub register : Bytes → Instance → Etcd → Registry → Result (Unit {0}) × List Leased
unfolding register_granted
register service ins etcd r =
    register_granted (instance_key r.prefix service ins.addr) ins.addr etcd etcd.granted

-- Deregister: the key that it deletes.
unfoldable pub deregister : Bytes → Instance → Registry → Bytes
deregister service ins r = instance_key r.prefix service ins.addr

-- NewRegistry, where etcd can be reached.
unfoldable pub new_registry : Registry
new_registry = record { prefix = default_prefix; services = [] }

-- An event that the watch of a service receives; the map is there, since the watch starts behind
-- initService.
unfoldable pub apply_event : Bytes → WatchEvent → Registry → Registry
apply_event service (put kv) r =
    set_service service (insert kv.value (instance kv.value) (table_of service r)) r
apply_event service (deleted key) r =
    set_service service
      (erase (trim_prefix (service_key r.prefix service) key) (table_of service r)) r

unfoldable pub apply_events : Bytes → List WatchEvent → Registry → Registry
unfolding apply_event
apply_events service [] r = r
apply_events service (e ∷ es) r = apply_events service es (apply_event service e r)
