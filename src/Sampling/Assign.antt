-- ===== src/Sampling/Assign.antt =====
-- assignAccounts of src/sampling/sample.js.
pub mod Spread
use one_gl.Prelude.{
  ℕ, zero, suc, ◌+◌, ◌*◌, ◌-◌, ◌/◌, ◌%◌, ◌<◌, ◌≤◌, ◌≡◌, ◌≢◌, refl, List, [], ◌∷◌, ◌++◌, Option,
  none, some, length, get_elem?, get_or, arith, ap, ◌∙◌,
}
use one_gl.Sampling.Random.{create_seeded_random, shuffle}

pub record Assignment {ℓ} (P : Type ℓ) (K : Type ℓ) : Type ℓ where
  pub prompt : P
  pub account_key : Option K
  pub selection_index : ℕ

module _ {ℓ} {P K : Type ℓ} where
  -- The inner loop: the repeats of one prompt, from `repeat` on, with `left` to come.
  unfoldable pub assign_repeats : List K → P → ℕ → ℕ → ℕ → ℕ → List (Assignment P K)
  assign_repeats ordered p prompt_index repeat zero selected = []
  assign_repeats ordered p prompt_index repeat (suc left) selected =
      record {
        prompt = p;
        account_key = get_elem? ordered ((prompt_index + repeat) % length ordered);
        selection_index = selected + 1;
      }
      ∷ assign_repeats ordered p prompt_index (suc repeat) left (selected + 1)

  unfoldable pub assign_all : List K → ℕ → List P → ℕ → ℕ → List (Assignment P K)
  unfolding assign_repeats
  assign_all ordered repeats [] prompt_index selected = []
  assign_all ordered repeats (p ∷ ps) prompt_index selected =
      assign_repeats ordered p prompt_index 0 repeats selected
      ++ assign_all ordered repeats ps (suc prompt_index) (selected + repeats)

  -- `none` is the exception where there is no account.
  unfoldable pub assign_accounts :
      (ℕ → List ℕ) → List P → List K → ℕ → Option (List (Assignment P K))
  unfolding assign_all shuffle create_seeded_random
  assign_accounts digest prompts [] repeats = none
  assign_accounts digest prompts (k ∷ ks) repeats =
      some (assign_all (shuffle digest (k ∷ ks) create_seeded_random).0 repeats prompts 0 0)
