-- ===== src/Worker/Slots/Exclusive.antt =====
-- What the slots of src/worker.js exclude.
use one_gl.Prelude.{
  ℕ, zero, suc, ◌+◌, ◌<◌, ◌≡◌, refl, true, false, ◌&&◌, not, Option, none, some, List, [], ◌∷◌,
  ◌++◌, if◌then◌else◌, ltb, ◌==◌, max, sort_by, length, sum_by, sum_by-sort_by, arith, if-both,
}
use one_gl.Worker.Slots.{
  indices, shift_slot, is_among, after, hand_back, release, SlotPool, SlotEvent, starts, ends,
  take_running, among, start_running, pass_slot, end_running, slot_step, slot_run, new_pool,
}

-- How often a slot is among some, and how many tasks run in it.
abbrev pub uses : ℕ → List ℕ → ℕ
uses k = sum_by (λ j. if j == k then 1 else 0)

abbrev pub runs_in : ℕ → List (ℕ × ℕ) → ℕ
runs_in k = sum_by (λ r. if r.1 == k then 1 else 0)

-- Every slot of the pool is either free, or one task runs in it; and no task waits while a slot is free.
pub record IsExclusive (w : SlotPool) : Type 0 where
  pub once :
      (k : ℕ)
      → uses k w.semaphore.free + runs_in k w.running ≡ (if ltb k w.semaphore.total then 1 else 0)
  busy : 0 < length w.semaphore.waiting → w.semaphore.free ≡ []

uses-indices :
    (k from n : ℕ)
    → uses k (indices from n) ≡ (if ltb k from then 0 else if ltb k (from + n) then 1 else 0)
unfolding indices
uses-indices k from zero = ground arith
uses-indices k from (suc n) = ground (arith, uses-indices k (suc from) n)

is_among-uses : (k : ℕ) (js : List ℕ) → uses k js ≡ 0 → is_among k js ≡ false
unfolding is_among
is_among-uses k [] h = refl
is_among-uses k (j ∷ js) h = ground (arith, is_among-uses k js)

uses-append :
    (k j : ℕ) (js : List ℕ) → uses k (js ++ j ∷ []) ≡ uses k js + (if j == k then 1 else 0)
uses-append k j [] = omega arith
uses-append k j (i ∷ js) = omega (arith, uses-append k j js)

-- What a task that was found leaves.
abbrev Leaves : List (ℕ × ℕ) → Option (ℕ × List (ℕ × ℕ)) → Type 0
Leaves rs none = Unit {0}
Leaves rs (some (slot, others)) =
    (k : ℕ) → runs_in k rs ≡ (if slot == k then 1 else 0) + runs_in k others

among-Leaves :
    (r : ℕ × ℕ) (rs : List (ℕ × ℕ)) (o : Option (ℕ × List (ℕ × ℕ)))
    → Leaves rs o
    → Leaves (r ∷ rs) (among r o)
among-Leaves r rs none h = tt
among-Leaves r rs (some (slot, others)) h = λ k. omega (arith, h k)

take_running-Leaves : (task : ℕ) (rs : List (ℕ × ℕ)) → Leaves rs (take_running task rs)
unfolding take_running
take_running-Leaves task [] = tt
take_running-Leaves task ((t, slot) ∷ rs) =
    if-both (Leaves ((t, slot) ∷ rs)) (t == task) (λ k. refl)
      (among-Leaves (t, slot) rs (take_running task rs) (take_running-Leaves task rs))

-- A slot that no free place and no running task has goes back among the free ones.
give_back-uses :
    (slot total : ℕ) (free : List ℕ) (rs : List (ℕ × ℕ))
    → ((k : ℕ)
        → uses k free + ((if slot == k then 1 else 0) + runs_in k rs)
          ≡ (if ltb k total then 1 else 0))
    → (k : ℕ)
    → uses k (
          if ltb slot total && not (is_among slot free)
          then sort_by after (free ++ slot ∷ [])
          else free)
        + runs_in k rs
      ≡ (if ltb k total then 1 else 0)
give_back-uses slot total free rs once k =
    let at : uses slot free ≡ 0 = ground (arith, once slot) in
    let low : ltb slot total ≡ true = ground (arith, once slot) in
    rw (low, is_among-uses slot free at)
      (omega (
        arith,
        once k,
        sum_by-sort_by (λ j. if j == k then 1 else 0) after (free ++ slot ∷ []),
        uses-append k slot free,
      ))

pass_slot-IsExclusive :
    (slot total : ℕ) (free waiting : List ℕ) (rs : List (ℕ × ℕ))
    → ((k : ℕ)
        → uses k free + ((if slot == k then 1 else 0) + runs_in k rs)
          ≡ (if ltb k total then 1 else 0))
    → (0 < length waiting → free ≡ [])
    → IsExclusive (pass_slot slot rs (hand_back slot total free waiting))
pass_slot-IsExclusive slot total free (task ∷ waiting) rs once busy = record {
  once = once;
  busy = λ h. busy (omega arith);
}
pass_slot-IsExclusive slot total free [] rs once busy = record {
  once = give_back-uses slot total free rs once;
  busy = λ h. elim h [ ];
}

start_running-IsExclusive :
    (task total : ℕ) (free waiting : List ℕ) (rs : List (ℕ × ℕ))
    → ((k : ℕ) → uses k free + runs_in k rs ≡ (if ltb k total then 1 else 0))
    → (0 < length waiting → free ≡ [])
    → IsExclusive (start_running task rs (shift_slot task total free waiting))
start_running-IsExclusive task total [] waiting rs once busy = record {
  once = once;
  busy = λ h. refl;
}
start_running-IsExclusive task total (slot ∷ free) waiting rs once busy = record {
  once = λ k. omega (arith, once k);
  busy = λ h. cc (busy h);
}

end_running-IsExclusive :
    (w : SlotPool) (o : Option (ℕ × List (ℕ × ℕ)))
    → IsExclusive w
    → Leaves w.running o
    → IsExclusive (end_running w o)
unfolding release
end_running-IsExclusive w none v h = v
end_running-IsExclusive w (some (slot, others)) v h =
    pass_slot-IsExclusive slot w.semaphore.total w.semaphore.free w.semaphore.waiting others
      (λ k. omega (arith, v.once k, h k)) v.busy

slot_step-IsExclusive : (w : SlotPool) (e : SlotEvent) → IsExclusive w → IsExclusive (slot_step w e)
unfolding slot_step
slot_step-IsExclusive w (starts task) v =
    start_running-IsExclusive task w.semaphore.total w.semaphore.free w.semaphore.waiting w.running
      v.once v.busy
slot_step-IsExclusive w (ends task) v =
    end_running-IsExclusive w (take_running task w.running) v (take_running-Leaves task w.running)

slot_run-IsExclusive :
    (w : SlotPool) (es : List SlotEvent) → IsExclusive w → IsExclusive (slot_run w es)
unfolding slot_run
slot_run-IsExclusive w [] v = v
slot_run-IsExclusive w (e ∷ es) v =
    slot_run-IsExclusive (slot_step w e) es (slot_step-IsExclusive w e v)

new_pool-IsExclusive : (permits : ℕ) → IsExclusive (new_pool permits)
unfolding new_pool
new_pool-IsExclusive permits = record {
  once = λ k. ground (arith, uses-indices k 0 (max 1 permits));
  busy = λ h. elim h [ ];
}

-- Whatever tasks start and end, in any order: at any time each slot of the pool either is free, or
-- exactly one task runs in it, no other slot is in use, and no task waits while a slot is free.
pub slot_run-new_pool-IsExclusive :
    (permits : ℕ) (es : List SlotEvent) → IsExclusive (slot_run (new_pool permits) es)
slot_run-new_pool-IsExclusive permits es =
    slot_run-IsExclusive (new_pool permits) es (new_pool-IsExclusive permits)
