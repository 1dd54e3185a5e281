-- ===== src/Account.antt =====
-- Account safety (src/accounts/safety.js): the row of an account, the verdict whether it may run,
-- the updates that a run makes to the row, and the retry policy.
pub mod State
pub mod Clock
pub mod Classify
pub mod Ops
pub mod Retry
pub mod Life
pub mod Lease
