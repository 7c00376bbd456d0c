-- ===== src/Resolvers.antt =====
-- internal/resolvers: the resolvers and their chain, the response cache, and what is decided from a
-- response.
pub mod Message
pub mod Cache
pub mod Decision
pub mod Upstreams
pub mod Answer
pub mod Filtered
pub mod Custom
pub mod Reloadable
pub mod Ageing
pub mod Forwarding
pub mod Chained
pub mod Exchange
