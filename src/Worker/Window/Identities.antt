-- ===== src/Worker/Window/Identities.antt =====
-- How many prompts share a browser's identity, and how many a window (src/worker.js).
use one_gl.Prelude.{ℕ, zero, suc, ◌%◌, ◌≤◌}
use one_gl.Worker.Window.{WindowConfig, limit_of, SlotState}

-- The place of the last prompt that was served in its group.
abbrev pub place : ℕ → ℕ → ℕ
place every zero = 0
place every (suc n) = suc (n % every)

pub record IsPaced (c : WindowConfig) (s : SlotState) : Type 0 where
  grouped : s.new_runs ≤ place c.window_reset_every s.served
  windowed : s.context_prompts ≤ limit_of c

-- What holds before a prompt is sent: there is place for a run of it in the group, and for it in the window.
record HasRoom (c : WindowConfig) (s : SlotState) : Type 0 where
  in_group : suc s.new_runs ≤ suc (s.served % c.window_reset_every)
  kept_in_group : s.new_runs ≤ place c.window_reset_every s.served
  in_window : suc s.context_prompts ≤ limit_of c
