-- ===== src/Worker/Window.antt =====
-- When a prompt gets a new window or a new identity (`prepareWindow` of src/worker.js and its helpers of
-- src/accounts/safety.js). `served` is the count of the runs that the database has for a batch, an account, a
-- platform and a slot, and no other browser adds to it; a value that is no whole number is `none` or 0.
pub mod Identities
use one_gl.Prelude.{
  Text, ℕ, suc, ◌+◌, ◌-◌, ◌%◌, Bool, true, false, ◌&&◌, not, Option, none, some, List, [], ◌∷◌,
  if◌then◌else◌, ltb, leb, ◌==◌,
}

unfoldable pub window_prompt_limit : Option ℕ → ℕ → ℕ
window_prompt_limit none fallback = fallback
window_prompt_limit (some n) fallback = if ltb 0 n then n else fallback

unfoldable pub should_rotate_context : ℕ → ℕ → Bool
should_rotate_context prompts limit = ltb 0 limit && leb limit prompts

abbrev pub identity_prompts_after_relaunch : ℕ → ℕ → ℕ
identity_prompts_after_relaunch prompts every = prompts % every

pub record WindowConfig : Type 0 where
  pub window_reset_every : ℕ
  pub anonymous : Bool
  pub profile_limit : Option ℕ
  pub round_prompt_limit : ℕ

pub data Preparation : Type 0 where
  relaunched rotated kept : Preparation

abbrev pub limit_of : WindowConfig → ℕ
limit_of c = window_prompt_limit c.profile_limit c.round_prompt_limit

unfoldable pub prepare_window : WindowConfig → (served context_prompts : ℕ) → Preparation
unfolding window_prompt_limit should_rotate_context
prepare_window c served context_prompts =
    if ltb 0 c.window_reset_every
      && c.anonymous
      && ltb 0 served
      && (identity_prompts_after_relaunch served c.window_reset_every == 0)
    then relaunched
    else if should_rotate_context context_prompts (limit_of c)
    then rotated
    else kept

-- A slot: the runs that are stored of the batch, those of them that the present browser added, and the
-- prompts that came back in the present window.
pub record SlotState : Type 0 where
  pub served : ℕ
  pub new_runs : ℕ
  pub context_prompts : ℕ

abbrev pub prepared : Preparation → SlotState → SlotState
prepared relaunched s = record s { new_runs = 0; context_prompts = 0 }
prepared rotated s = record s { context_prompts = 0 }
prepared kept s = s

-- The run of a prompt is a new row of the batch, or it overwrites the row of an earlier attempt, or it is not
-- stored.
abbrev pub stored : Bool → SlotState → SlotState
stored true s = record s { served = suc s.served; new_runs = suc s.new_runs }
stored false s = s

-- `contextPrompts` grows when `runOnePrompt` comes back, and not when it rejects.
abbrev pub returned : Bool → SlotState → SlotState
returned true s = record s { context_prompts = suc s.context_prompts }
returned false s = s

-- A prompt, whether its run is a new row and whether it came back; the browser is lost, by a restart of the
-- worker or by the idle reaper; or the slot goes over to another batch, with the runs that this one has.
pub data WindowEvent : Type 0 where
  prompts : Bool → Bool → WindowEvent
  loses : WindowEvent
  enters : ℕ → WindowEvent

unfoldable pub window_step : WindowConfig → WindowEvent → SlotState → SlotState
unfolding prepare_window
window_step c (prompts is_new comes_back) s =
    returned comes_back (stored is_new (prepared (prepare_window c s.served s.context_prompts) s))
window_step c loses s = record s { new_runs = 0; context_prompts = 0 }
window_step c (enters n) s = record s { served = n; new_runs = 0 }

unfoldable pub window_states : WindowConfig → List WindowEvent → SlotState → SlotState
unfolding window_step
window_states c [] s = s
window_states c (e ∷ es) s = window_states c es (window_step c e s)

abbrev pub new_slot : SlotState
new_slot = record { served = 0; new_runs = 0; context_prompts = 0 }
