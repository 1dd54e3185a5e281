-- ===== src/Worker/Gate.antt =====
-- `waitForSubmitSlot` of src/worker.js: the gate of one account. The gate's promise chain runs the calls
-- one after the other; `nows` are the times at which they are run.
use one_gl.Prelude.{ℕ, ◌+◌, ◌-◌, List, [], ◌∷◌, if◌then◌else◌, ◌==◌}

-- How long a call waits, with `last_submit_at`; 0 is a gate that no call has passed.
unfoldable pub submit_wait : ℕ → ℕ → ℕ → ℕ
submit_wait interval last now = if last == 0 then 0 else last + interval - now

-- The time at which a call submits, which is the gate's next `last_submit_at`. With no interval the gate
-- is not touched.
unfoldable pub pass_gate : ℕ → ℕ → ℕ → ℕ × ℕ
unfolding submit_wait
pass_gate interval last now =
    if interval == 0
    then (now, last)
    else (now + submit_wait interval last now, now + submit_wait interval last now)

unfoldable pub submit_times : ℕ → ℕ → List ℕ → List ℕ
unfolding pass_gate
submit_times interval last [] = []
submit_times interval last (now ∷ nows) =
    let (time, last') = pass_gate interval last now in time ∷ submit_times interval last' nows
