-- ===== src/Filtering/Policy/Counters.antt =====
-- The counters of a policy.
use hydra_dns.Base.{
  ℕ, ◌+◌, ◌-◌, ◌%◌, ◌≤◌, ◌≡◌, arith, List, Bool, true, false, not, ◌&&◌, if◌then◌else◌, Option,
  Bytes, none, some,
}
use hydra_dns.Filtering.Trie.{DomainTrie, contains}
use hydra_dns.Filtering.Policy.{
  PolicyEngine, PolicyEngineConfig, BlocklistUrl, new_policy_engine, load_blocklist, refresh,
  evaluate, evaluate_with_context, add_to_whitelist, add_to_blacklist, remove_from_whitelist,
  remove_from_blacklist, set_enabled,
}

-- The calls on an engine, in any order.
pub data PolicyStep (pe : PolicyEngine) : PolicyEngine → Type 0 where
  evaluated : (d : Bytes) → PolicyStep pe (evaluate d pe).1
  evaluated_in : (done : Bool) (d : Bytes) → PolicyStep pe (evaluate_with_context done d pe).1
  loaded :
      (now : ℕ) (bl : BlocklistUrl) (fetched : Option DomainTrie)
      → PolicyStep pe (load_blocklist now bl fetched pe)
  refreshed : (fetched : List (Option DomainTrie)) → PolicyStep pe (refresh fetched pe)
  whitelisted : (d : Bytes) → PolicyStep pe (add_to_whitelist d pe)
  blacklisted : (d : Bytes) → PolicyStep pe (add_to_blacklist d pe)
  unwhitelisted : (d : Bytes) → PolicyStep pe (remove_from_whitelist d pe)
  unblacklisted : (d : Bytes) → PolicyStep pe (remove_from_blacklist d pe)
  switched : (enabled : Bool) → PolicyStep pe (set_enabled enabled pe)

pub data PolicyReachable (cfg : PolicyEngineConfig) : PolicyEngine → Type 0 where
  made : PolicyReachable cfg (new_policy_engine cfg)
  after :
      (pe pe' : PolicyEngine) → PolicyReachable cfg pe → PolicyStep pe pe' → PolicyReachable cfg pe'

-- What the rules say of a domain.
abbrev pub is_covered : Bytes → PolicyEngine → Bool
is_covered d pe = pe.enabled && (not (contains d pe.whitelist) && contains d pe.blacklist)

-- How many queries a call makes, and how many of them the rules cover.
unfoldable pub asked_in : {pe pe' : PolicyEngine} → PolicyStep pe pe' → ℕ
asked_in (evaluated d) = 1
asked_in (evaluated_in done d) = if done then 0 else 1
asked_in other = 0

unfoldable pub covered_in : {pe pe' : PolicyEngine} → PolicyStep pe pe' → ℕ
covered_in {pe} (evaluated d) = if is_covered d pe then 1 else 0
covered_in {pe} (evaluated_in done d) = if done then 0 else if is_covered d pe then 1 else 0
covered_in other = 0

-- How many queries were made in all, how many the rules covered when they were made, and how many
-- they did not.
unfoldable pub asked : {cfg : PolicyEngineConfig} {pe : PolicyEngine} → PolicyReachable cfg pe → ℕ
unfolding asked_in
asked made = 0
asked (after pe pe' r s) = asked r + asked_in s

unfoldable pub covered : {cfg : PolicyEngineConfig} {pe : PolicyEngine} → PolicyReachable cfg pe → ℕ
unfolding covered_in
covered made = 0
covered (after pe pe' r s) = covered r + covered_in s

-- The three counters after so many queries, of which so many were covered; a uint64 wraps.
pub record IsCounted (pe : PolicyEngine) (queries covered_ones : ℕ) : Type 0 where
  pub total : pe.queries_total ≡ queries % 18446744073709551616
  pub blocked : pe.queries_blocked ≡ covered_ones % 18446744073709551616
  pub allowed : pe.queries_allowed ≡ (queries - covered_ones) % 18446744073709551616
  pub within : covered_ones ≤ queries

module _ (pe : PolicyEngine) (n m : ℕ) (h : IsCounted pe n m) where
  evaluate-IsCounted :
      (d : Bytes) → IsCounted (evaluate d pe).1 (n + 1) (m + (if is_covered d pe then 1 else 0))
  unfolding evaluate
  evaluate-IsCounted d = ground (arith, h)

  kept-IsCounted : IsCounted pe (n + 0) (m + 0)
  kept-IsCounted = omega (arith, h)

  evaluate_in-IsCounted :
      (done : Bool) (d : Bytes)
      → IsCounted
          (evaluate_with_context done d pe).1
          (n + (if done then 0 else 1))
          (m + (if done then 0 else if is_covered d pe then 1 else 0))
  unfolding evaluate_with_context
  evaluate_in-IsCounted true d = kept-IsCounted
  evaluate_in-IsCounted false d = evaluate-IsCounted d

  load-IsCounted :
      (now : ℕ) (bl : BlocklistUrl) (fetched : Option DomainTrie)
      → IsCounted (load_blocklist now bl fetched pe) (n + 0) (m + 0)
  unfolding load_blocklist
  load-IsCounted now bl none = omega (arith, h)
  load-IsCounted now bl (some t) = omega (arith, h)

  PolicyStep-IsCounted :
      (pe' : PolicyEngine) (s : PolicyStep pe pe')
      → IsCounted pe' (n + asked_in s) (m + covered_in s)
  unfolding asked_in covered_in refresh add_to_whitelist add_to_blacklist remove_from_whitelist
      remove_from_blacklist set_enabled
  PolicyStep-IsCounted _ (evaluated d) = evaluate-IsCounted d
  PolicyStep-IsCounted _ (evaluated_in done d) = evaluate_in-IsCounted done d
  PolicyStep-IsCounted _ (loaded now bl fetched) = load-IsCounted now bl fetched
  PolicyStep-IsCounted _ (refreshed fetched) = omega (arith, h)
  PolicyStep-IsCounted _ (whitelisted d) = omega (arith, h)
  PolicyStep-IsCounted _ (blacklisted d) = omega (arith, h)
  PolicyStep-IsCounted _ (unwhitelisted d) = omega (arith, h)
  PolicyStep-IsCounted _ (unblacklisted d) = omega (arith, h)
  PolicyStep-IsCounted _ (switched enabled) = omega (arith, h)

-- Whatever is called on a policy engine, in any order: its counters are, in 64 bits, the number of
-- queries that were evaluated, the number of those that were made while the engine was enabled for
-- a domain that its blacklist contained and its whitelist did not, and the number of the others. An
-- evaluation whose context is done is not a query.
pub PolicyReachable-IsCounted :
    (cfg : PolicyEngineConfig) (pe : PolicyEngine) (r : PolicyReachable cfg pe)
    → IsCounted pe (asked r) (covered r)
unfolding new_policy_engine asked covered
PolicyReachable-IsCounted cfg _ made = omega arith
PolicyReachable-IsCounted cfg _ (after pe pe' r s) =
    PolicyStep-IsCounted pe (asked r) (covered r) (PolicyReachable-IsCounted cfg pe r) pe' s
