-- ===== src/Filtering.antt =====
-- internal/filtering: the domains that are blocked or allowed, and the policy over them.
pub mod Trie
pub mod Parser
pub mod DomainSet
pub mod Policy
