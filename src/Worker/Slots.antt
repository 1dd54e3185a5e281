-- ===== src/Worker/Slots.antt =====
-- `createSemaphore` of src/worker.js, and the tasks of `handleJob` that take its slots and give them
-- back. A task is named by a number; the promise of a waiting task is its name in the queue.
pub mod Exclusive
use one_gl.Prelude.{
  ℕ, zero, suc, ◌+◌, Bool, true, false, ◌&&◌, ◌||◌, not, Option, none, some, List, [], ◌∷◌, ◌++◌,
  if◌then◌else◌, ltb, ◌==◌, max, sort_by, length, map,
}

pub record Semaphore : Type 0 where
  pub total : ℕ
  pub free : List ℕ
  pub waiting : List ℕ

-- `from, from + 1, ...`, as many as `n`.
unfoldable pub indices : ℕ → ℕ → List ℕ
indices from zero = []
indices from (suc n) = from ∷ indices (suc from) n

unfoldable pub create_semaphore : ℕ → Semaphore
unfolding indices
create_semaphore permits = record {
  total = max 1 permits;
  free = indices 0 (max 1 permits);
  waiting = [];
}

-- `none` where the task has to wait.
abbrev pub shift_slot : ℕ → ℕ → List ℕ → List ℕ → Option ℕ × Semaphore
shift_slot task total [] waiting =
    (none, record { total = total; free = []; waiting = waiting ++ task ∷ [] })
shift_slot task total (slot ∷ free) waiting =
    (some slot, record { total = total; free = free; waiting = waiting })

unfoldable pub acquire : ℕ → Semaphore → Option ℕ × Semaphore
acquire task s = shift_slot task s.total s.free s.waiting

unfoldable pub is_among : ℕ → List ℕ → Bool
is_among k [] = false
is_among k (j ∷ js) = j == k || is_among k js

abbrev pub after : ℕ → ℕ → Bool
after a b = ltb b a

-- The slot goes to the first waiting task, or back among the free ones, in order.
abbrev pub hand_back : ℕ → ℕ → List ℕ → List ℕ → Option ℕ × Semaphore
hand_back slot total free (task ∷ waiting) =
    (some task, record { total = total; free = free; waiting = waiting })
hand_back slot total free [] = (
  none,
  record {
    total = total;
    free =
        if ltb slot total && not (is_among slot free)
        then sort_by after (free ++ slot ∷ [])
        else free;
    waiting = [];
  },
)

unfoldable pub release : ℕ → Semaphore → Option ℕ × Semaphore
unfolding is_among
release slot s = hand_back slot s.total s.free s.waiting

-- The pool with the tasks that run in its slots, a pair of a task and its slot each.
pub record SlotPool : Type 0 where
  pub semaphore : Semaphore
  pub running : List (ℕ × ℕ)

pub data SlotEvent : Type 0 where
  starts ends : ℕ → SlotEvent

abbrev pub among : ℕ × ℕ → Option (ℕ × List (ℕ × ℕ)) → Option (ℕ × List (ℕ × ℕ))
among r none = none
among r (some (slot, rs)) = some (slot, r ∷ rs)

-- The slot of a task that runs, and the others that run.
unfoldable pub take_running : ℕ → List (ℕ × ℕ) → Option (ℕ × List (ℕ × ℕ))
take_running task [] = none
take_running task ((t, slot) ∷ rs) =
    if t == task then some (slot, rs) else among (t, slot) (take_running task rs)

abbrev pub start_running : ℕ → List (ℕ × ℕ) → Option ℕ × Semaphore → SlotPool
start_running task rs (none, s) = record { semaphore = s; running = rs }
start_running task rs (some slot, s) = record { semaphore = s; running = (task, slot) ∷ rs }

abbrev pub pass_slot : ℕ → List (ℕ × ℕ) → Option ℕ × Semaphore → SlotPool
pass_slot slot rs (none, s) = record { semaphore = s; running = rs }
pass_slot slot rs (some task, s) = record { semaphore = s; running = (task, slot) ∷ rs }

abbrev pub end_running : SlotPool → Option (ℕ × List (ℕ × ℕ)) → SlotPool
end_running w none = w
end_running w (some (slot, rs)) = pass_slot slot rs (release slot w.semaphore)

-- A task takes a slot or waits; a task that runs gives its slot back, once.
unfoldable pub slot_step : SlotPool → SlotEvent → SlotPool
unfolding acquire release take_running
slot_step w (starts task) = start_running task w.running (acquire task w.semaphore)
slot_step w (ends task) = end_running w (take_running task w.running)

unfoldable pub slot_run : SlotPool → List SlotEvent → SlotPool
unfolding slot_step
slot_run w [] = w
slot_run w (e ∷ es) = slot_run (slot_step w e) es

unfoldable pub new_pool : ℕ → SlotPool
unfolding create_semaphore
new_pool permits = record { semaphore = create_semaphore permits; running = [] }
