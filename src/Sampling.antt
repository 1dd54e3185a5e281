-- ===== src/Sampling.antt =====
-- Drawing a sample of prompts (src/sampling): the seeded generator and its shuffle, the quotas of a
-- stratified draw, the draw itself and the assignment of accounts.
pub mod Random
pub mod Quota
pub mod Select
pub mod Assign
