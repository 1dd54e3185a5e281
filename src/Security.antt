-- ===== src/Security.antt =====
-- Where the server may send a request: src/security/outbound-url.js.
pub mod Ipv4
pub mod Ipv6
pub mod Address
pub mod Target
pub mod Request
