-- ===== src/Registry/Runs.antt =====
-- Runs of the registry's cache, and its theorem at an input.
use kama_rpc_go.Base.{
  ◌≡◌, refl, if◌then◌else◌, false, List, [], ◌∷◌, none, some, Result, ok, codes, bytes_eq, lookup,
  insert, erase, false,
}
use kama_rpc_go.Registry.{
  Registry, default_prefix, KeyValue, instance, instance_key, service_key, strip, trimmed,
  trim_prefix, load, table_or, table_of, copy_instances, discover, discover_found, copied,
  init_service, init_found, init_from, apply_event, apply_events,
}
use kama_rpc_go.Registry.Changes.{Change, registered, removed, watched, live}
use kama_rpc_go.Registry.Cache.{listed, discover-live}

abbrev fresh : Registry
fresh = record { prefix = default_prefix; services = [] }

abbrev got : List KeyValue
got = (record { key = codes "/kamaRPC/services/A/h:1"; value = codes "h:1" }) ∷ []

-- A second instance, one of another service, and the end of the first.
abbrev changes : List Change
changes =
    registered (codes "A") (codes "h:2")
    ∷ registered (codes "AB") (codes "h:3")
    ∷ removed (codes "A") (codes "h:1")
    ∷ []

follows_run :
    copy_instances (codes "A") (
      apply_events
        (codes "A")
        (watched default_prefix (codes "A") changes)
        (discover (codes "A") (ok got) fresh).1)
    ≡ instance (codes "h:2") ∷ []
unfolding copy_instances apply_events apply_event strip trimmed trim_prefix instance_key service_key
    load table_or table_of discover discover_found copied init_service init_found init_from lookup
    insert erase
follows_run = refl

discover-live_example :
    let t =
      apply_events
        (codes "A")
        (watched default_prefix (codes "A") changes)
        (discover (codes "A") (ok got) fresh).1 in
    (lookup (codes "h:2") (table_of (codes "A") t) ≡ (
      if live (codes "A") (codes "h:2") (listed (codes "h:2") got false) changes
      then some (instance (codes "h:2"))
      else none))
    × ((more : Result (List KeyValue))
        → discover (codes "A") more t ≡ (ok (copy_instances (codes "A") t), t))
discover-live_example =
    discover-live (codes "A") (codes "h:2") got changes fresh (refl, tt)
      ((refl, tt), ((refl, (refl, tt)), ((refl, tt), tt))) (unfold lookup in refl)
