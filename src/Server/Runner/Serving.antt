-- ===== src/Server/Runner/Serving.antt =====
-- The policy of a running server: built from the configuration, asked, and given remote lists.
use hydra_dns.Config.{FilteringConfig}
use hydra_dns.Base.{
  ℕ, ◌≡◌, arith, List, Bool, not, ◌&&◌, ◌||◌, if◌then◌else◌, Option, none, some, Bytes, [], ◌∷◌,
}
use hydra_dns.Base.Int.{ℤ}
use hydra_dns.Filtering.Trie.{DomainTrie, new_domain_trie, contains}
use hydra_dns.Filtering.Trie.Domains.{contains-merge}
use hydra_dns.Filtering.Policy.{
  PolicyEngine, BlocklistUrl, new_policy_engine, load_blocklist, refresh, evaluate, allow, block,
}
use hydra_dns.Filtering.Policy.Rules.{
  any_covers, any_contains, AreTrees, contains_new, contains-add_all, contains-merge_fetched,
}
use hydra_dns.Server.Runner.{build_policy_engine}

-- What queries, loads and refreshes make of the engine that BuildPolicyEngine gives.
pub data PolicyServes (parse_duration : Bytes → Option ℤ) (cfg : FilteringConfig)
    : PolicyEngine → Type 0 where
  built :
      (pe : PolicyEngine)
      → build_policy_engine parse_duration (some cfg) ≡ some pe
      → PolicyServes parse_duration cfg pe
  asked :
      (pe : PolicyEngine) (d : Bytes)
      → PolicyServes parse_duration cfg pe
      → PolicyServes parse_duration cfg (evaluate d pe).1
  loaded :
      (pe : PolicyEngine) (now : ℕ) (bl : BlocklistUrl) (fetched : Option DomainTrie)
      → PolicyServes parse_duration cfg pe
      → AreTrees (fetched ∷ [])
      → PolicyServes parse_duration cfg (load_blocklist now bl fetched pe)
  refreshed :
      (pe : PolicyEngine) (fetched : List (Option DomainTrie))
      → PolicyServes parse_duration cfg pe
      → AreTrees fetched
      → PolicyServes parse_duration cfg (refresh fetched pe)

-- The engine's blacklist, by its history: a rule of the configuration covers the domain, or a list
-- that was loaded contains it; after a refresh, only the lists of the refresh and later ones count.
unfoldable pub blacklisted_by :
    {parse_duration : Bytes → Option ℤ} {cfg : FilteringConfig} {pe : PolicyEngine}
    → PolicyServes parse_duration cfg pe
    → Bytes
    → Bool
blacklisted_by {cfg} (built pe e) d = any_covers cfg.blacklist_domains d
blacklisted_by (asked pe d' r) d = blacklisted_by r d
blacklisted_by (loaded pe now bl fetched r t) d =
    blacklisted_by r d || any_contains (fetched ∷ []) d
blacklisted_by (refreshed pe fetched r t) d = any_contains fetched d

-- The configuration and the history block the domain.
unfoldable pub blocked_by :
    {parse_duration : Bytes → Option ℤ} {cfg : FilteringConfig} {pe : PolicyEngine}
    → PolicyServes parse_duration cfg pe
    → Bytes
    → Bool
blocked_by {cfg} r d =
    cfg.enabled && (not (any_covers cfg.whitelist_domains d) && blacklisted_by r d)

-- The engine is what its configuration and its history say.
record Follows (cfg : FilteringConfig) (pe : PolicyEngine) (d : Bytes) (listed : Bool)
    : Type 0 where
  enabled : pe.enabled ≡ cfg.enabled
  blocks : pe.block_action ≡ block
  white : contains d pe.whitelist ≡ any_covers cfg.whitelist_domains d
  black : contains d pe.blacklist ≡ listed

evaluate-Follows :
    (cfg : FilteringConfig) (pe : PolicyEngine) (d d' : Bytes) (listed : Bool)
    → Follows cfg pe d listed
    → Follows cfg (evaluate d' pe).1 d listed
unfolding evaluate
evaluate-Follows cfg pe d d' listed h = ground (arith, h)

load_blocklist-Follows :
    (cfg : FilteringConfig) (pe : PolicyEngine) (now : ℕ) (bl : BlocklistUrl)
    (fetched : Option DomainTrie) (d : Bytes) (listed : Bool)
    → AreTrees (fetched ∷ [])
    → Follows cfg pe d listed
    → Follows cfg (load_blocklist now bl fetched pe) d (listed || any_contains (fetched ∷ []) d)
unfolding load_blocklist any_contains
load_blocklist-Follows cfg pe now bl none d listed t h = ground (arith, h)
load_blocklist-Follows cfg pe now bl (some trie) d listed t h =
    ground (arith, h, contains-merge d pe.blacklist trie t.0)

PolicyServes-Follows :
    {parse_duration : Bytes → Option ℤ} {cfg : FilteringConfig} {pe : PolicyEngine}
    (r : PolicyServes parse_duration cfg pe) (d : Bytes)
    → Follows cfg pe d (blacklisted_by r d)
unfolding blacklisted_by build_policy_engine new_policy_engine refresh
PolicyServes-Follows {parse_duration} {cfg} {pe} (built pe' e) d = ground (
  arith,
  e,
  contains-add_all d cfg.whitelist_domains new_domain_trie,
  contains-add_all d cfg.blacklist_domains new_domain_trie,
  contains_new d,
)
PolicyServes-Follows {parse_duration} {cfg} {pe} (asked before d' r) d =
    evaluate-Follows cfg before d d' (blacklisted_by r d) (PolicyServes-Follows r d)
PolicyServes-Follows {parse_duration} {cfg} {pe} (loaded before now bl fetched r t) d =
    load_blocklist-Follows cfg before now bl fetched d (blacklisted_by r d) t
      (PolicyServes-Follows r d)
PolicyServes-Follows {parse_duration} {cfg} {pe} (refreshed before fetched r t) d = ground (
  arith,
  PolicyServes-Follows r d,
  contains-merge_fetched d fetched new_domain_trie t,
  contains_new d,
)

-- While it serves, the engine takes the block action exactly on the domains that the configuration
-- and the history block.
pub evaluate-PolicyServes :
    {parse_duration : Bytes → Option ℤ} {cfg : FilteringConfig} {pe : PolicyEngine}
    (r : PolicyServes parse_duration cfg pe) (d : Bytes)
    → (evaluate d pe).0.action ≡ (if blocked_by r d then block else allow)
unfolding evaluate blocked_by
evaluate-PolicyServes r d = ground (arith, PolicyServes-Follows r d)
