-- ===== src/Examples.antt =====
-- Runs of the definitions on concrete messages, and the theorems applied to them.
mod Messages
mod Codec
mod Records
mod Serving
mod Caching
mod Filters
mod Resolving
mod Connecting
mod Lists
mod Limits
mod Settings
mod Clusters
mod Exchanges
