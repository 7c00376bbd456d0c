-- ===== src/Filtering/Policy/Rules.antt =====
-- What a policy blocks, by the rules it was made with.
use hydra_dns.Base.{
  ◌≡◌, refl, arith, [], ◌∷◌, List, Bool, true, false, not, ◌&&◌, ◌||◌, if◌then◌else◌, Option, none,
  some, Bytes, List-cases, inl, inr,
}
use hydra_dns.Filtering.Trie.{
  DomainTrie, new_domain_trie, add, contains, merge, normalize_domain, contains_labels,
  new_trie_node, get_child, reversed_labels,
}
use hydra_dns.Filtering.Trie.Marks.{IsTree}
use hydra_dns.Filtering.Trie.Domains.{covers, contains-add, contains-merge}
use hydra_dns.Filtering.Policy.{
  allow, PolicyEngine, PolicyEngineConfig, new_policy_engine, add_all, evaluate, merge_fetched,
  refresh,
}

-- Some rule, with its subdomains, covers the domain.
unfoldable pub any_covers : List Bytes → Bytes → Bool
any_covers [] d = false
any_covers (r ∷ rs) d = covers r true d || any_covers rs d

contains_labels_new : (ls : List Bytes) → contains_labels ls new_trie_node ≡ false
unfolding contains_labels get_child
contains_labels_new [] = refl
contains_labels_new (l ∷ ls) = refl

pub contains_new : (d : Bytes) → contains d new_domain_trie ≡ false
unfolding contains
contains_new d = elim (List-cases (normalize_domain d)) [
  | inl e ↦ rw (contains, e) refl
  | inr (c, cs, e) ↦ rw (contains, e) (contains_labels_new (reversed_labels (c ∷ cs)))
]

pub contains-add_all :
    (d : Bytes) (rules : List Bytes) (t : DomainTrie)
    → contains d (add_all rules t) ≡ (contains d t || any_covers rules d)
unfolding add_all any_covers
contains-add_all d [] t = ground arith
contains-add_all d (r ∷ rs) t =
    rw (contains-add_all d rs (add r true t), contains-add d r true t) (ground arith)

-- A new policy engine takes the block action exactly on the domains that a blacklist rule covers
-- and no whitelist rule does, while it is enabled, and allows every other domain.
pub evaluate-new_policy_engine :
    (cfg : PolicyEngineConfig) (d : Bytes)
    → (evaluate d (new_policy_engine cfg)).0.action ≡ (
        if cfg.enabled
          && (not (any_covers cfg.whitelist_domains d) && any_covers cfg.blacklist_domains d)
        then cfg.block_action
        else allow)
unfolding evaluate new_policy_engine
evaluate-new_policy_engine cfg d = ground (
  arith,
  contains-add_all d cfg.whitelist_domains new_domain_trie,
  contains-add_all d cfg.blacklist_domains new_domain_trie,
  contains_new d,
)

-- Some list that was fetched contains the domain.
unfoldable pub any_contains : List (Option DomainTrie) → Bytes → Bool
any_contains [] d = false
any_contains (none ∷ rest) d = any_contains rest d
any_contains (some t ∷ rest) d = contains d t || any_contains rest d

abbrev pub AreTrees : List (Option DomainTrie) → Type 0
AreTrees [] = Unit {0}
AreTrees (none ∷ rest) = AreTrees rest
AreTrees (some t ∷ rest) = IsTree t.root.children × AreTrees rest

pub contains-merge_fetched :
    (d : Bytes) (fetched : List (Option DomainTrie)) (t : DomainTrie)
    → AreTrees fetched
    → contains d (merge_fetched fetched t) ≡ (contains d t || any_contains fetched d)
unfolding merge_fetched any_contains
contains-merge_fetched d [] t h = ground arith
contains-merge_fetched d (none ∷ rest) t h = contains-merge_fetched d rest t h
contains-merge_fetched d (some other ∷ rest) t h =
    rw (contains-merge_fetched d rest (merge t other) h.1, contains-merge d t other h.0)
      (ground arith)

-- After a refresh from well-formed lists, an engine that is enabled takes the block action exactly
-- on the domains that its whitelist does not contain and some list that was fetched does: what the
-- blacklist held before, its static rules included, is gone.
pub evaluate-refresh :
    (fetched : List (Option DomainTrie)) (d : Bytes) (pe : PolicyEngine)
    → AreTrees fetched
    → (evaluate d (refresh fetched pe)).0.action ≡ (
        if pe.enabled && (not (contains d pe.whitelist) && any_contains fetched d)
        then pe.block_action
        else allow)
unfolding evaluate refresh
evaluate-refresh fetched d pe h =
    ground (arith, contains-merge_fetched d fetched new_domain_trie h, contains_new d)
