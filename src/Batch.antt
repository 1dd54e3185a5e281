-- ===== src/Batch.antt =====
-- Batches of prompts (src/queue): how a batch's counters decide its status, what happens to a job
-- whose account cannot run, and the life of the batch's row.
pub mod Outcome
pub mod Plan
pub mod Row
