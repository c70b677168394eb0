-- ===== src/Cmd/Console.antt =====
-- cmd/console/main.go: the lists of names that it is given, the topology, and the scraping of many
-- targets at once. Text is ASCII, where strings.TrimSpace removes blanks, tabs and line ends. What
-- fetchStats returns for a target is given.
pub mod Splitting
pub mod Scraping
mod Runs
use kama_rpc_go.Base.{
  ℕ, ltb, leb, ◌==◌, if◌then◌else◌, ◌&&◌, ◌||◌, Bool, true, false, List, [], ◌∷◌, map, Bytes,
  length, get_elem?, set, replicate, Option, none, some, Error, Result, ok, err,
}
use kama_rpc_go.Client.LoadBalance.{Instance}
use kama_rpc_go.Registry.{Registry, KeyValue, discover}

abbrev pub comma : ℕ
comma = 44

abbrev pub is_space : ℕ → Bool
is_space c = c == 32 || (leb 9 c && leb c 13)

-- strings.Split(s, ","), one part at least.
unfoldable pub add_to_first : ℕ → List Bytes → List Bytes
add_to_first c [] = (c ∷ []) ∷ []
add_to_first c (p ∷ ps) = (c ∷ p) ∷ ps

unfoldable pub split : Bytes → List Bytes
unfolding add_to_first
split [] = [] ∷ []
split (c ∷ s) = let rest = split s in if c == comma then [] ∷ rest else add_to_first c rest

-- strings.TrimSpace
unfoldable pub trim_left : Bytes → Bytes
trim_left [] = []
trim_left (c ∷ s) = let rest = trim_left s in if is_space c then rest else c ∷ s

unfoldable pub keep_unless_blank : ℕ → Bytes → Bytes
keep_unless_blank c [] = if is_space c then [] else c ∷ []
keep_unless_blank c (x ∷ s) = c ∷ x ∷ s

unfoldable pub trim_right : Bytes → Bytes
unfolding keep_unless_blank
trim_right [] = []
trim_right (c ∷ s) = keep_unless_blank c (trim_right s)

unfoldable pub trim_space : Bytes → Bytes
unfolding trim_left trim_right
trim_space s = trim_right (trim_left s)

unfoldable pub keep_nonempty : Bytes → List Bytes → List Bytes
keep_nonempty [] out = out
keep_nonempty (x ∷ p) out = (x ∷ p) ∷ out

-- The loop over the parts.
unfoldable pub trim_all : List Bytes → List Bytes
unfolding keep_nonempty trim_space
trim_all [] = []
trim_all (p ∷ ps) = keep_nonempty (trim_space p) (trim_all ps)

unfoldable pub split_and_trim : Bytes → List Bytes
unfolding split trim_all
split_and_trim s = trim_all (split s)

pub record ServiceTopology : Type 0 where
  pub service : Bytes
  pub instances : List Bytes
  pub error : Option Error

unfoldable pub topology_item : Bytes → Result (List Instance) → ServiceTopology
topology_item name (err e) = record { service = name; instances = []; error = some e }
topology_item name (ok instances) = record {
  service = name;
  instances = map (λ (ins : Instance). ins.addr) instances;
  error = none;
}

-- topology, by what etcd answers to Get for each service.
unfoldable pub topology :
    (Bytes → Result (List KeyValue)) → List Bytes → Registry → List ServiceTopology × Registry
unfolding topology_item
topology got [] r = ([], r)
topology got (name ∷ names) r =
    let d = discover name (got name) r in
    let rest = topology got names d.1 in (topology_item name d.0 ∷ rest.0, rest.1)

-- TargetStats and ClientTargetStats, over what the stats are.
pub record TargetStats (S : Type 0) : Type 0 where
  pub target : Bytes
  pub up : Bool
  pub error : Option Error
  pub stats : Option S

module _ {S : Type 0} where
  unfoldable pub empty_stats : TargetStats S
  empty_stats = record { target = []; up = false; error = none; stats = none }

  unfoldable pub target_stats : Bytes → Result S → TargetStats S
  target_stats t (err e) = record { target = t; up = false; error = some e; stats = none }
  target_stats t (ok s) = record { target = t; up = true; error = none; stats = some s }

  -- The goroutine of index `i` is done.
  unfoldable pub scraped :
      (Bytes → Result S) → ℕ → Option Bytes → List (TargetStats S) → List (TargetStats S)
  unfolding target_stats
  scraped fetch i none out = out
  scraped fetch i (some t) out = set out i (target_stats t (fetch t))

  -- scrapeServers and scrapeClients: the goroutines finish in the order of `order`.
  unfoldable pub scrape_from :
      (Bytes → Result S) → List Bytes → List ℕ → List (TargetStats S) → List (TargetStats S)
  unfolding scraped
  scrape_from fetch targets [] out = out
  scrape_from fetch targets (i ∷ order) out =
      scrape_from fetch targets order (scraped fetch i (get_elem? targets i) out)

  unfoldable pub scrape : (Bytes → Result S) → List Bytes → List ℕ → List (TargetStats S)
  unfolding scrape_from empty_stats
  scrape fetch targets order =
      scrape_from fetch targets order (replicate (length targets) empty_stats)
