-- ===== src/Registry/Cache.antt =====
-- The cache of a service follows the instances that are registered.
use kama_rpc_go.Base.{
  ◌≡◌, refl, sym, ap, ◌∙◌, arith, if◌then◌else◌, Bool, true, false, List, [], ◌∷◌, ◌++◌, All, Bytes,
  bytes_beq, bytes_beq_iff, none, some, Result, ok, bytes_eq, lookup, insert, erase, lookup-insert,
  lookup-erase, lookup-insert_self, if_true, if_false, Bool-cases, inl, inr,
}
use kama_rpc_go.Client.LoadBalance.{Instance}
use kama_rpc_go.Registry.{
  Registry, instance_key, service_key, KeyValue, WatchEvent, put, deleted, strip, trimmed,
  trim_prefix, instance, load, set_service, table_or, table_of, copy_instances, init_from,
  init_found, init_service, copied, discover_found, discover, apply_event, apply_events,
}
use kama_rpc_go.Registry.Prefixes.{IsName, strip-instance_key}
use kama_rpc_go.Registry.Changes.{
  Change, registered, removed, service_of, event_of, keep, watched_one, watched, live_one, live,
}

-- The cache has the address, with its instance, or has it not.
abbrev pub Holds : Bytes → Bool → List (Bytes × Instance) → Type 0
Holds addr b m = lookup addr m ≡ (if b then some (instance addr) else none)

insert-Holds :
    (a addr : Bytes) (now : Bool) (m : List (Bytes × Instance))
    → Holds addr now m
    → Holds addr (if bytes_beq a addr then true else now) (insert a (instance a) m)
insert-Holds a addr now m h =
    rw (lookup-insert a addr (instance a) m) (ground (arith, bytes_beq_iff a addr))

erase-Holds :
    (a addr : Bytes) (now : Bool) (m : List (Bytes × Instance))
    → Holds addr now m
    → Holds addr (if bytes_beq a addr then false else now) (erase a m)
erase-Holds a addr now m h = rw (lookup-erase a addr m) (ground (arith, bytes_beq_iff a addr))

table_of-set_service :
    (service : Bytes) (m : List (Bytes × Instance)) (r : Registry)
    → table_of service (set_service service m r) ≡ m
unfolding table_of table_or
table_of-set_service service m r = ap table_or (lookup-insert_self service m r.services)

strip_own :
    (prefix service other addr : Bytes)
    → IsName service
    → IsName other
    → bytes_beq other service ≡ true
    → strip (service_key prefix service) (instance_key prefix other addr) ≡ some addr
strip_own prefix service other addr v u same =
    strip-instance_key prefix service other addr v u ∙ if_true _ _ same

trim_key :
    (prefix service other addr : Bytes)
    → IsName service
    → IsName other
    → bytes_beq other service ≡ true
    → trim_prefix (service_key prefix service) (instance_key prefix other addr) ≡ addr
unfolding trim_prefix trimmed
trim_key prefix service other addr v u same =
    ap (trimmed (instance_key prefix other addr)) (strip_own prefix service other addr v u same)

-- A change of the service itself.
apply_event-Holds :
    (service addr : Bytes) (now : Bool) (c : Change) (r : Registry)
    → IsName service
    → IsName (service_of c)
    → bytes_beq (service_of c) service ≡ true
    → Holds addr now (table_of service r)
    → Holds addr
        (live_one service addr now c)
        (table_of service (apply_event service (event_of r.prefix c) r))
unfolding apply_event
apply_event-Holds service addr now (registered s a) r v u same h =
    rw (table_of-set_service service (insert a (instance a) (table_of service r)) r, same)
      (insert-Holds a addr now (table_of service r) h)
apply_event-Holds service addr now (removed s a) r v u same h =
    let trim = trim_key r.prefix service s a v u same in
    rw (table_of-set_service service _ r, trim, same)
      (erase-Holds a addr now (table_of service r) h)

watched_own :
    (prefix service : Bytes) (c : Change)
    → IsName service
    → IsName (service_of c)
    → bytes_beq (service_of c) service ≡ true
    → watched_one prefix service c ≡ event_of prefix c ∷ []
watched_own prefix service (registered s a) v u same =
    ap (λ o. keep o (event_of prefix (registered s a))) (strip_own prefix service s a v u same)
watched_own prefix service (removed s a) v u same =
    ap (λ o. keep o (event_of prefix (removed s a))) (strip_own prefix service s a v u same)

strip_other :
    (prefix service other addr : Bytes)
    → IsName service
    → IsName other
    → bytes_beq other service ≡ false
    → strip (service_key prefix service) (instance_key prefix other addr) ≡ none
strip_other prefix service other addr v u differs =
    strip-instance_key prefix service other addr v u ∙ if_false _ _ differs

watched_other :
    (prefix service : Bytes) (c : Change)
    → IsName service
    → IsName (service_of c)
    → bytes_beq (service_of c) service ≡ false
    → watched_one prefix service c ≡ []
watched_other prefix service (registered s a) v u differs =
    ap (λ o. keep o (event_of prefix (registered s a))) (strip_other prefix service s a v u differs)
watched_other prefix service (removed s a) v u differs =
    ap (λ o. keep o (event_of prefix (removed s a))) (strip_other prefix service s a v u differs)

live_one-other :
    (service addr : Bytes) (now : Bool) (c : Change)
    → bytes_beq (service_of c) service ≡ false
    → live_one service addr now c ≡ now
live_one-other service addr now (registered s a) differs = rw differs refl
live_one-other service addr now (removed s a) differs = rw differs refl

-- One change, whichever service it is about.
watched_one-Holds :
    (service addr : Bytes) (now : Bool) (c : Change) (r : Registry)
    → IsName service
    → IsName (service_of c)
    → Holds addr now (table_of service r)
    → Holds addr
        (live_one service addr now c)
        (table_of service (apply_events service (watched_one r.prefix service c) r))
unfolding apply_events
watched_one-Holds service addr now c r v u h =
    elim (Bool-cases (bytes_beq (service_of c) service)) [
      | inl same ↦
          rw (watched_own r.prefix service c v u same, apply_events)
            (apply_event-Holds service addr now c r v u same h)
      | inr differs ↦
          rw
            (
              watched_other r.prefix service c v u differs,
              live_one-other service addr now c differs,
              apply_events,
            )
            h
    ]

apply_events-append :
    (service : Bytes) (es fs : List WatchEvent) (r : Registry)
    → apply_events service (es ++ fs) r ≡ apply_events service fs (apply_events service es r)
unfolding apply_events
apply_events-append service [] fs r = refl
apply_events-append service (e ∷ es) fs r =
    apply_events-append service es fs (apply_event service e r)

prefix-apply_event :
    (service : Bytes) (e : WatchEvent) (r : Registry) → (apply_event service e r).prefix ≡ r.prefix
unfolding apply_event
prefix-apply_event service (put kv) r = refl
prefix-apply_event service (deleted key) r = refl

prefix-apply_events :
    (service : Bytes) (es : List WatchEvent) (r : Registry)
    → (apply_events service es r).prefix ≡ r.prefix
unfolding apply_events
prefix-apply_events service [] r = refl
prefix-apply_events service (e ∷ es) r =
    prefix-apply_events service es (apply_event service e r) ∙ prefix-apply_event service e r

-- All the changes, as the watch delivers them.
watched-Holds :
    (prefix service addr : Bytes) (now : Bool) (cs : List Change) (r : Registry)
    → r.prefix ≡ prefix
    → IsName service
    → All (λ c. IsName (service_of c)) cs
    → Holds addr now (table_of service r)
    → Holds addr
        (live service addr now cs)
        (table_of service (apply_events service (watched prefix service cs) r))
watched-Holds prefix service addr now [] r e v us h = unfold apply_events in h
watched-Holds prefix service addr now (c ∷ cs) r e v (u, us) h =
    let s = apply_events service (watched_one prefix service c) r in
    let one : Holds addr (live_one service addr now c) (table_of service s) =
      ap (λ p. lookup addr (table_of service (apply_events service (watched_one p service c) r)))
        (sym e)
      ∙ watched_one-Holds service addr now c r v u h in
    rw (apply_events-append service (watched_one prefix service c) (watched prefix service cs) r) (
      watched-Holds prefix service addr (live_one service addr now c) cs s
        (prefix-apply_events service (watched_one prefix service c) r ∙ e) v us one)

-- Whether Get listed the address.
abbrev pub listed : Bytes → List KeyValue → Bool → Bool
listed addr [] now = now
listed addr (kv ∷ kvs) now = listed addr kvs (if bytes_beq kv.value addr then true else now)

load-Holds :
    (addr : Bytes) (kvs : List KeyValue) (now : Bool) (m : List (Bytes × Instance))
    → Holds addr now m
    → Holds addr (listed addr kvs now) (load kvs m)
unfolding load
load-Holds addr [] now m h = h
load-Holds addr (kv ∷ kvs) now m h =
    load-Holds addr kvs (if bytes_beq kv.value addr then true else now)
      (insert kv.value (instance kv.value) m) (insert-Holds kv.value addr now m h)

-- The service has a table.
abbrev pub Cached : Bytes → Registry → Type 0
Cached service r = (m : List (Bytes × Instance)) × (lookup service r.services ≡ some m)

apply_event-Cached :
    (service : Bytes) (e : WatchEvent) (r : Registry) → Cached service (apply_event service e r)
unfolding apply_event
apply_event-Cached service (put kv) r = (_, lookup-insert_self service _ r.services)
apply_event-Cached service (deleted key) r = (_, lookup-insert_self service _ r.services)

apply_events-Cached :
    (service : Bytes) (es : List WatchEvent) (r : Registry)
    → Cached service r
    → Cached service (apply_events service es r)
unfolding apply_events
apply_events-Cached service [] r h = h
apply_events-Cached service (e ∷ es) r h =
    apply_events-Cached service es (apply_event service e r) (apply_event-Cached service e r)

discover-Cached :
    (service : Bytes) (got : Result (List KeyValue)) (r : Registry)
    → Cached service r
    → discover service got r ≡ (ok (copy_instances service r), r)
unfolding discover discover_found
discover-Cached service got r (m, h) = ap (λ o. discover_found service got o r) h

discover_first :
    (service : Bytes) (kvs : List KeyValue) (r : Registry)
    → lookup service r.services ≡ none
    → (discover service (ok kvs) r).1 ≡ set_service service (load kvs []) r
unfolding discover discover_found copied init_service init_found init_from
discover_first service kvs r h =
    ap (λ o. (discover_found service (ok kvs) o r).1) h
    ∙ ap (λ o. (copied service (init_found service (ok kvs) o r)).1) h

-- The first Discover of a service, whose Get succeeds, and then the watch: after any changes that
-- servers make to any services, delivered in order by a watch that begins where Get ended, the
-- cache has an address exactly if it is registered for the service, and further Discovers answer
-- with the cache, whatever etcd would answer. Names of services have no "/".
pub discover-live :
    (service addr : Bytes) (kvs : List KeyValue) (cs : List Change) (r : Registry)
    → IsName service
    → All (λ c. IsName (service_of c)) cs
    → lookup service r.services ≡ none
    → (let t = apply_events service (watched r.prefix service cs) (discover service (ok kvs) r).1 in
        (lookup addr (table_of service t)
          ≡ (if live service addr (listed addr kvs false) cs then some (instance addr) else none))
        × ((got : Result (List KeyValue))
            → discover service got t ≡ (ok (copy_instances service t), t)))
discover-live service addr kvs cs r v us h =
    let s = set_service service (load kvs []) r in
    let es = watched r.prefix service cs in
    let begins : Holds addr (listed addr kvs false) (table_of service s) =
      rw (table_of-set_service service (load kvs []) r)
        (load-Holds addr kvs false [] (unfold lookup in refl)) in
    rw (discover_first service kvs r h) (
      watched-Holds r.prefix service addr (listed addr kvs false) cs s refl v us begins,
      λ got. discover-Cached service got (apply_events service es s) (
          apply_events-Cached service es s
            (load kvs [], lookup-insert_self service (load kvs []) r.services)),
    )
