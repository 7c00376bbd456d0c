-- ===== src/Examples/Filters.antt =====
-- Domains added, merged and removed, and a policy with one rule on each side.
use hydra_dns.Base.{
  ℕ, ◌≡◌, refl, [], ◌∷◌, List, Bool, true, false, not, ◌&&◌, ◌||◌, if◌then◌else◌, Option, none,
  some, Bytes,
}
use hydra_dns.Base.Int.{pos}
use hydra_dns.Filtering.Trie.{DomainTrie, new_domain_trie, add, contains, remove, merge}
use hydra_dns.Filtering.Trie.Marks.{no_marks}
use hydra_dns.Filtering.Trie.Domains.{covers, contains-add, contains-merge}
use hydra_dns.Filtering.Trie.Sized.{
  IsValid, fresh, added, removed, TrieReachable-IsValid, domain_marks, domain_marks-remove,
}
use hydra_dns.Filtering.Policy.{
  PolicyEngine, PolicyEngineConfig, allow, block, new_policy_engine, evaluate, refresh,
  add_to_blacklist,
}
use hydra_dns.Filtering.Policy.Rules.{any_covers, evaluate-new_policy_engine}
use hydra_dns.Filtering.Policy.Counters.{
  PolicyReachable, made, after, evaluated, blacklisted, asked, covered, IsCounted,
  PolicyReachable-IsCounted,
}
use hydra_dns.Examples.Messages.{a_dot_b}

-- `b`
abbrev rule : Bytes
rule = 98 ∷ []

abbrev one_rule : DomainTrie
one_rule = add rule true new_domain_trie

abbrev one_domain : DomainTrie
one_domain = add a_dot_b false new_domain_trie

one_rule-IsValid : IsValid one_rule
one_rule-IsValid = TrieReachable-IsValid one_rule (added rule true new_domain_trie fresh)

covered_by_rule : contains a_dot_b one_rule ≡ true
unfolding contains add hydra_dns.Filtering.Trie.normalize_domain hydra_dns.Dns.Name.trim_suffix_dot
    hydra_dns.Dns.Name.to_lower hydra_dns.Base.Text.trim_space
    hydra_dns.Filtering.Trie.contains_labels hydra_dns.Filtering.Trie.reversed_labels
    hydra_dns.Base.Text.split hydra_dns.Filtering.Trie.get_child hydra_dns.Filtering.Trie.add_labels
    hydra_dns.Filtering.Trie.put_child hydra_dns.Base.bytes_eq hydra_dns.Filtering.Trie.child_or_new
covered_by_rule = refl

not_above : contains rule one_domain ≡ false
unfolding contains add hydra_dns.Filtering.Trie.normalize_domain hydra_dns.Dns.Name.trim_suffix_dot
    hydra_dns.Dns.Name.to_lower hydra_dns.Base.Text.trim_space
    hydra_dns.Filtering.Trie.contains_labels hydra_dns.Filtering.Trie.reversed_labels
    hydra_dns.Base.Text.split hydra_dns.Filtering.Trie.get_child hydra_dns.Filtering.Trie.add_labels
    hydra_dns.Filtering.Trie.put_child hydra_dns.Base.bytes_eq hydra_dns.Filtering.Trie.child_or_new
not_above = refl

removed_again : (remove a_dot_b one_domain).1 ≡ new_domain_trie
unfolding remove add hydra_dns.Filtering.Trie.normalize_domain hydra_dns.Dns.Name.trim_suffix_dot
    hydra_dns.Dns.Name.to_lower hydra_dns.Base.Text.trim_space
    hydra_dns.Filtering.Trie.remove_labels hydra_dns.Filtering.Trie.reversed_labels
    hydra_dns.Base.Text.split hydra_dns.Filtering.Trie.get_child hydra_dns.Filtering.Trie.add_labels
    hydra_dns.Filtering.Trie.put_child hydra_dns.Base.bytes_eq hydra_dns.Filtering.Trie.child_or_new
    hydra_dns.Filtering.Trie.is_orphan hydra_dns.Filtering.Trie.delete_child
removed_again = refl

contains-add_example :
    contains a_dot_b (add rule true one_domain)
    ≡ (contains a_dot_b one_domain || covers rule true a_dot_b)
contains-add_example = contains-add a_dot_b rule true one_domain

contains-merge_example :
    contains a_dot_b (merge one_domain one_rule)
    ≡ (contains a_dot_b one_domain || contains a_dot_b one_rule)
contains-merge_example = contains-merge a_dot_b one_domain one_rule one_rule-IsValid.tree

TrieReachable-IsValid_example : IsValid (remove rule one_rule).1
TrieReachable-IsValid_example =
    TrieReachable-IsValid (remove rule one_rule).1
      (removed rule one_rule (added rule true new_domain_trie fresh))

domain_marks-remove_example :
    ((remove rule one_rule).0 ≡ (domain_marks rule one_rule).0)
    × (domain_marks a_dot_b (remove rule one_rule).1 ≡ (
        if (remove rule one_rule).0 && covers rule false a_dot_b
        then no_marks
        else domain_marks a_dot_b one_rule))
domain_marks-remove_example = domain_marks-remove rule a_dot_b one_rule one_rule-IsValid.tree

-- Subdomains of `b` are blocked, but for those of `a.b`.
abbrev rules : PolicyEngineConfig
rules = record {
  enabled = true;
  block_action = block;
  whitelist_domains = a_dot_b ∷ [];
  blacklist_domains = rule ∷ [];
  blocklist_urls = [];
  refresh_interval = pos 0;
}

blocks_rule : (evaluate rule (new_policy_engine rules)).0.action ≡ block
unfolding evaluate new_policy_engine contains hydra_dns.Filtering.Trie.normalize_domain
    hydra_dns.Dns.Name.trim_suffix_dot hydra_dns.Dns.Name.to_lower hydra_dns.Base.Text.trim_space
    hydra_dns.Filtering.Trie.contains_labels hydra_dns.Filtering.Trie.reversed_labels
    hydra_dns.Base.Text.split hydra_dns.Filtering.Trie.get_child hydra_dns.Filtering.Policy.add_all
    add hydra_dns.Filtering.Trie.add_labels hydra_dns.Filtering.Trie.put_child
    hydra_dns.Base.bytes_eq hydra_dns.Filtering.Trie.child_or_new
blocks_rule = refl

evaluate-new_policy_engine_example : (evaluate a_dot_b (new_policy_engine rules)).0.action ≡ (
    if true && (not (any_covers (a_dot_b ∷ []) a_dot_b) && any_covers (rule ∷ []) a_dot_b)
    then block
    else allow)
evaluate-new_policy_engine_example = evaluate-new_policy_engine rules a_dot_b

abbrev engine : PolicyEngine
engine = new_policy_engine rules

-- A domain is blacklisted and then asked for.
abbrev one_query : PolicyReachable rules (evaluate a_dot_b (add_to_blacklist a_dot_b engine)).1
one_query =
    after (add_to_blacklist a_dot_b engine) (evaluate a_dot_b (add_to_blacklist a_dot_b engine)).1
      (after engine (add_to_blacklist a_dot_b engine) made (blacklisted a_dot_b))
      (evaluated a_dot_b)

PolicyReachable-IsCounted_example :
    IsCounted
      (evaluate a_dot_b (add_to_blacklist a_dot_b engine)).1
      (asked one_query)
      (covered one_query)
PolicyReachable-IsCounted_example =
    PolicyReachable-IsCounted rules (evaluate a_dot_b (add_to_blacklist a_dot_b engine)).1 one_query
