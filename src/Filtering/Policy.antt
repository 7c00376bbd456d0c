-- ===== src/Filtering/Policy.antt =====
-- internal/filtering/policy.go: whitelist before blacklist. The result of fetching and parsing a
-- remote list is an argument, `none` for an error; logs and the refresh timer are left out, so that
-- loads and refreshes are calls of their own, which the engine's goroutines make.
pub mod Rules
pub mod Counters
use hydra_dns.Base.{
  ℕ, ◌+◌, ◌%◌, [], ◌∷◌, List, Bool, true, false, not, ◌&&◌, if◌then◌else◌, Option, none, some,
  Bytes, bytes_eq, map,
}
use hydra_dns.Base.Int.{ℤ, pos, ltb_ℤ}
use hydra_dns.Filtering.Trie.{DomainTrie, new_domain_trie, add, remove, merge, contains}

pub data Action : Type 0 where
  allow : Action
  block : Action
  log : Action

pub record PolicyResult : Type 0 where
  pub action : Action
  pub rule : Bytes
  pub list_name : Bytes

-- The names of the two lists, as results carry them.
abbrev pub whitelist_name : Bytes
whitelist_name = 119 ∷ 104 ∷ 105 ∷ 116 ∷ 101 ∷ 108 ∷ 105 ∷ 115 ∷ 116 ∷ []

abbrev pub blacklist_name : Bytes
blacklist_name = 98 ∷ 108 ∷ 97 ∷ 99 ∷ 107 ∷ 108 ∷ 105 ∷ 115 ∷ 116 ∷ []

-- A remote list; its format is a number.
pub record BlocklistUrl : Type 0 where
  pub name : Bytes
  pub url : Bytes
  pub format : ℕ

pub record ListSource : Type 0 where
  pub name : Bytes
  pub url : Bytes
  pub format : ℕ
  pub last_update : ℕ
  pub failed : Bool
  pub domain_count : ℕ

pub record PolicyEngine : Type 0 where
  pub whitelist : DomainTrie
  pub blacklist : DomainTrie
  pub queries_total : ℕ
  pub queries_blocked : ℕ
  pub queries_allowed : ℕ
  pub list_sources : List (Bytes × ListSource)
  pub enabled : Bool
  pub block_action : Action

pub record PolicyEngineConfig : Type 0 where
  pub enabled : Bool
  pub block_action : Action
  pub whitelist_domains : List Bytes
  pub blacklist_domains : List Bytes
  pub blocklist_urls : List BlocklistUrl
  pub refresh_interval : ℤ

-- The goroutines that NewPolicyEngine starts: one that loads the remote lists, and one that
-- refreshes them.
unfoldable pub starts_load : PolicyEngineConfig → Bool
starts_load cfg = elim cfg.blocklist_urls [ [] ↦ false | bl ∷ rest ↦ true ]

unfoldable pub starts_refresh : PolicyEngineConfig → Bool
unfolding starts_load
starts_refresh cfg = ltb_ℤ (pos 0) cfg.refresh_interval && starts_load cfg

-- The loops of NewPolicyEngine.
unfoldable pub add_all : List Bytes → DomainTrie → DomainTrie
add_all [] t = t
add_all (d ∷ ds) t = add_all ds (add d true t)

unfoldable pub new_policy_engine : PolicyEngineConfig → PolicyEngine
new_policy_engine cfg = record {
  whitelist = add_all cfg.whitelist_domains new_domain_trie;
  blacklist = add_all cfg.blacklist_domains new_domain_trie;
  queries_total = 0;
  queries_blocked = 0;
  queries_allowed = 0;
  list_sources = [];
  enabled = cfg.enabled;
  block_action = cfg.block_action;
}

unfoldable pub set_source :
    Bytes → ListSource → List (Bytes × ListSource) → List (Bytes × ListSource)
set_source name source [] = (name, source) ∷ []
set_source name source ((n, s) ∷ rest) =
    let later = (n, s) ∷ set_source name source rest in
    if bytes_eq n name then (n, source) ∷ rest else later

unfoldable pub source_of : ℕ → BlocklistUrl → Bool → ℕ → ListSource
source_of now bl failed count = record {
  name = bl.name;
  url = bl.url;
  format = bl.format;
  last_update = now;
  failed = failed;
  domain_count = count;
}

-- One remote list, at a time, with what ParseURL gave.
unfoldable pub load_blocklist : ℕ → BlocklistUrl → Option DomainTrie → PolicyEngine → PolicyEngine
load_blocklist now bl fetched pe = elim fetched [
  | none ↦ record pe { list_sources = set_source bl.name (source_of now bl true 0) pe.list_sources }
  | some trie ↦ record pe {
    blacklist = merge pe.blacklist trie;
    list_sources = set_source bl.name (source_of now bl false trie.size) pe.list_sources;
  }
]

unfoldable pub load_blocklists :
    ℕ → List (BlocklistUrl × Option DomainTrie) → PolicyEngine → PolicyEngine
load_blocklists now [] pe = pe
load_blocklists now ((bl, fetched) ∷ rest) pe =
    load_blocklists now rest (load_blocklist now bl fetched pe)

-- The list that a tick of the refresh timer builds.
unfoldable pub merge_fetched : List (Option DomainTrie) → DomainTrie → DomainTrie
merge_fetched [] t = t
merge_fetched (none ∷ rest) t = merge_fetched rest t
merge_fetched (some trie ∷ rest) t = merge_fetched rest (merge t trie)

unfoldable pub refresh : List (Option DomainTrie) → PolicyEngine → PolicyEngine
refresh fetched pe = record pe { blacklist = merge_fetched fetched new_domain_trie }

-- `Add(1)` on an atomic.Uint64.
abbrev pub plus_one : ℕ → ℕ
plus_one n = (n + 1) % 18446744073709551616

unfoldable pub evaluate : Bytes → PolicyEngine → PolicyResult × PolicyEngine
evaluate domain pe =
    let counted : PolicyEngine = record pe { queries_total = plus_one pe.queries_total } in
    let allowed : PolicyEngine = record counted {
      queries_allowed = plus_one counted.queries_allowed;
    } in
    let blocked : PolicyEngine = record counted {
      queries_blocked = plus_one counted.queries_blocked;
    } in
    if not pe.enabled
    then (record { action = allow; rule = []; list_name = [] }, allowed)
    else if contains domain pe.whitelist
    then (record { action = allow; rule = domain; list_name = whitelist_name }, allowed)
    else if contains domain pe.blacklist
    then (record { action = pe.block_action; rule = domain; list_name = blacklist_name }, blocked)
    else (record { action = allow; rule = []; list_name = [] }, allowed)

-- `none` where the context is done.
unfoldable pub evaluate_with_context :
    Bool → Bytes → PolicyEngine → Option PolicyResult × PolicyEngine
evaluate_with_context done domain pe =
    let (result, pe') = evaluate domain pe in if done then (none, pe) else (some result, pe')

unfoldable pub add_to_whitelist : Bytes → PolicyEngine → PolicyEngine
add_to_whitelist domain pe = record pe { whitelist = add domain true pe.whitelist }

unfoldable pub add_to_blacklist : Bytes → PolicyEngine → PolicyEngine
add_to_blacklist domain pe = record pe { blacklist = add domain true pe.blacklist }

unfoldable pub remove_from_whitelist : Bytes → PolicyEngine → PolicyEngine
remove_from_whitelist domain pe = record pe { whitelist = (remove domain pe.whitelist).1 }

unfoldable pub remove_from_blacklist : Bytes → PolicyEngine → PolicyEngine
remove_from_blacklist domain pe = record pe { blacklist = (remove domain pe.blacklist).1 }

unfoldable pub set_enabled : Bool → PolicyEngine → PolicyEngine
set_enabled enabled pe = record pe { enabled = enabled }

pub record PolicyStats : Type 0 where
  pub queries_total : ℕ
  pub queries_blocked : ℕ
  pub queries_allowed : ℕ
  pub whitelist_size : ℕ
  pub blacklist_size : ℕ
  pub enabled : Bool

unfoldable pub stats : PolicyEngine → PolicyStats
stats pe = record {
  queries_total = pe.queries_total;
  queries_blocked = pe.queries_blocked;
  queries_allowed = pe.queries_allowed;
  whitelist_size = pe.whitelist.size;
  blacklist_size = pe.blacklist.size;
  enabled = pe.enabled;
}

unfoldable pub list_info : PolicyEngine → List ListSource
list_info pe = map (λ e. e.1) pe.list_sources
