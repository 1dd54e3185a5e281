-- ===== src/Risk/Summary.antt =====
-- What the summary of src/operation-risk.js says of the accounts.
use one_gl.Prelude.{ℕ, ◌≡◌, refl, ◌∙◌, Bool, true, false, ◌||◌, List, [], ◌∷◌, ltb, arith, ap}
use one_gl.Risk.{
  Risk, low, medium, high, severity_score, highest_risk, App, Cadence, count_level, levels_of,
  summarize_operation_risk, audit_operation_risk,
}
use one_gl.Risk.Level.{is_high, any_high, highest_risk-is_high}
use one_gl.Providers.{Registry}
use one_gl.Account.State.{AccountState, SafetyConfig}

any_high-count_level : (ls : List Risk) → any_high ls ≡ ltb 0 (count_level high ls)
unfolding any_high count_level severity_score
any_high-count_level [] = refl
any_high-count_level (low ∷ ls) = any_high-count_level ls ∙ ap (λ n. ltb 0 n) (omega arith)
any_high-count_level (medium ∷ ls) = any_high-count_level ls ∙ ap (λ n. ltb 0 n) (omega arith)
any_high-count_level (high ∷ ls) = ground arith

or_false : (a b : Bool) → (a || (b || false)) ≡ (a || b)
or_false true b = refl
or_false false true = refl
or_false false false = refl

-- The summary is at high exactly where the audit of the configuration is, or where it counts an
-- account at high.
summarize_operation_risk-is_high :
    (r : Registry) (wall : ℕ → ℕ) (c : SafetyConfig) (now : ℕ) (app : App) (k : Cadence)
    → (accounts : List AccountState)
    → let summary = summarize_operation_risk r wall c now app k accounts in
      is_high summary.risk ≡ (is_high summary.config_risk || ltb 0 summary.high_risk_accounts)
unfolding summarize_operation_risk any_high
summarize_operation_risk-is_high r wall c now app k accounts =
    highest_risk-is_high (config_risk ∷ highest_risk levels low ∷ []) low
    ∙ or_false (is_high config_risk) (is_high (highest_risk levels low))
    ∙ ap (λ b. is_high config_risk || b)
        (highest_risk-is_high levels low ∙ any_high-count_level levels)
  where
    config_risk : Risk
    config_risk = (audit_operation_risk app k c).0

    levels : List Risk
    levels = levels_of r wall c now accounts
