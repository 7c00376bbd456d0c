-- ===== src/Dns.antt =====
-- internal/dns: the wire format of DNS messages.
pub mod Enums
pub mod Header
pub mod Name
pub mod Question
pub mod Record
pub mod Packet
pub mod Request
pub mod Edns
