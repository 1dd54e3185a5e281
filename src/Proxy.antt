-- ===== src/Proxy.antt =====
-- The proxy pool (src/proxy-pool.js): the state of a pool in the process, how a session's exit is
-- chosen, bound, consumed and given back, and when a session may stay without a proxy.
pub mod Pool
pub mod Resolve
