-- ===== src/Worker/Capacity.antt =====
-- The ceiling of browsers (src/worker.js): `ensureBrowserCapacity`. A session is kept under its key, and a
-- missing count or time is 0.
pub mod Eviction
use one_gl.Prelude.{
  Text, ℕ, zero, suc, ◌+◌, ◌≤◌, Bool, true, false, Option, none, some, List, [], ◌∷◌, if◌then◌else◌,
  ltb, leb, ◌==◌, length, sort_by, larger,
}

pub record BrowserSession : Type 0 where
  pub key : Text
  pub in_use : ℕ
  pub last_used_at : ℕ

-- What a round of the loop finds: the sessions, and how many are being made, its own among them once the
-- caller has entered it.
pub record Found : Type 0 where
  pub sessions : List BrowserSession
  pub creating : ℕ

unfoldable pub idle_sessions : List BrowserSession → List BrowserSession
idle_sessions [] = []
idle_sessions (s ∷ ss) = if s.in_use == 0 then s ∷ idle_sessions ss else idle_sessions ss

unfoldable pub idle_by_age : List BrowserSession → List BrowserSession
unfolding idle_sessions sort_by
idle_by_age ss = sort_by (larger (λ s. s.last_used_at)) (idle_sessions ss)

abbrev pub is_full : ℕ → Found → Bool
is_full max_browsers f = leb max_browsers (length f.sessions + f.creating)

-- `pending` where the rounds that are given come to no end.
pub data Capacity : Type 0 where
  admitted timed_out pending : Capacity

abbrev pub close_one : Text → List Text × Capacity → List Text × Capacity
close_one key (closed, c) = (key ∷ closed, c)

-- A round of the loop: leave, sleep a second, time out, or close the session that was idle longest. Other
-- tasks run while it sleeps or closes, so each round finds what it finds.
unfoldable pub ensure_browser_capacity : ℕ → ℕ → List Found → List Text × Capacity
unfolding idle_by_age
ensure_browser_capacity max_browsers waited [] = ([], pending)
ensure_browser_capacity max_browsers waited (f ∷ fs) =
    let slept = ensure_browser_capacity max_browsers (waited + 1000) fs in
    let closed =
      λ (s : BrowserSession). close_one s.key (ensure_browser_capacity max_browsers waited fs) in
    if is_full max_browsers f
    then elim (idle_by_age f.sessions) [
      | [] ↦ if ltb 300000 (waited + 1000) then ([], timed_out) else slept
      | s ∷ ss ↦ closed s
    ]
    else ([], admitted)
