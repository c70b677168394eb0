-- ===== src/Registry/Registering.antt =====
-- registry.go, Register: what it leaves in etcd, on every branch.
use kama_rpc_go.Base.{
  ◌≡◌, refl, List, [], ◌∷◌, Bytes, Option, none, some, Error, Result, ok, err, map, ◌⊎◌, inl, inr,
}
use kama_rpc_go.Client.LoadBalance.{Instance}
use kama_rpc_go.Registry.{
  Registry, WatchEvent, put, deleted, Etcd, Leased, keep_alive, put_leased, register_granted,
  register, deregister,
}
use kama_rpc_go.Registry.Changes.{registered, removed, event_of}

-- What a watch is told of a key that is put.
abbrev pub event_of_leased : Leased → WatchEvent
event_of_leased l = put (record { key = l.key; value = l.value })

-- A success has put the key, and an error has put nothing, or has come of the keep-alive.
abbrev pub Leaves : Etcd → WatchEvent → Result (Unit {0}) → List WatchEvent → Type 0
Leaves etcd e (ok u) events = events ≡ e ∷ []
Leaves etcd e (err x) events = (events ≡ []) ⊎ ((events ≡ e ∷ []) × (etcd.kept_alive ≡ some x))

keep_alive-Leaves :
    (etcd : Etcd) (e : WatchEvent) (o : Option Error)
    → etcd.kept_alive ≡ o
    → Leaves etcd e (keep_alive o) (e ∷ [])
unfolding keep_alive
keep_alive-Leaves etcd e none h = refl
keep_alive-Leaves etcd e (some x) h = inr (refl, h)

put_leased-Leaves :
    (key addr : Bytes) (etcd : Etcd) (lease : _) (o : Option Error)
    → (let r = put_leased key addr etcd lease o in
        Leaves etcd (put (record { key = key; value = addr })) r.0 (map event_of_leased r.1))
unfolding put_leased
put_leased-Leaves key addr etcd lease (some x) = inl refl
put_leased-Leaves key addr etcd lease none = keep_alive-Leaves etcd _ etcd.kept_alive refl

register_granted-Leaves :
    (key addr : Bytes) (etcd : Etcd) (o : Result _)
    → (let r = register_granted key addr etcd o in
        Leaves etcd (put (record { key = key; value = addr })) r.0 (map event_of_leased r.1))
unfolding register_granted
register_granted-Leaves key addr etcd (err x) = inl refl
register_granted-Leaves key addr etcd (ok lease) =
    put_leased-Leaves key addr etcd lease etcd.written

-- Register without an error is the change that the watches are told of, and with an error nothing is
-- changed, unless the keep-alive failed: then the instance is registered all the same.
pub register-Leaves :
    (service : Bytes) (ins : Instance) (etcd : Etcd) (r : Registry)
    → (let out = register service ins etcd r in
        Leaves etcd
          (event_of r.prefix (registered service ins.addr))
          out.0
          (map event_of_leased out.1))
unfolding register
register-Leaves service ins etcd r = register_granted-Leaves _ ins.addr etcd etcd.granted

-- Deregister deletes the key that Register put.
pub deregister-event :
    (service : Bytes) (ins : Instance) (r : Registry)
    → deleted (deregister service ins r) ≡ event_of r.prefix (removed service ins.addr)
unfolding deregister
deregister-event service ins r = refl
