-- ===== src/Worker.antt =====
-- src/worker.js: slots, the submission gate and browser sessions.
pub mod Slots
pub mod Gate
pub mod Identity
pub mod Capacity
pub mod Job
pub mod Window
pub mod Sessions
