-- ===== src/Analysis.antt =====
-- The analysis of answers (src/analysis).
pub mod Slice
