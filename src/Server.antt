-- ===== src/Server.antt =====
-- internal/server: what the servers do with a datagram once it has been read.
pub mod Truncate
pub mod Handler
pub mod RateLimit
pub mod Runner
pub mod Tcp
pub mod Udp
pub mod Stats
