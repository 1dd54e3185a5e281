-- ===== src/Tests/Risk.antt =====
-- The risk of one account and of a configuration.
use one_gl.Tests.Account.{registry, wall, config, account}
use one_gl.Prelude.{◌≡◌, some, false, true, ◌&&◌, ◌||◌, ltb, leb}
use one_gl.Account.State.{AccountState, rate_limited}
use one_gl.Risk.{low, App, Cadence, assess_account_risk}
use one_gl.Risk.Level.{is_high, platform_objects, assess_account_risk-is_high}

abbrev app : App
app = record { browser = "camoufox"; headless = false; network_evidence_enabled = true }

abbrev cadence_settings : Cadence
cadence_settings = record { min_delay_ms = 30000; account_parallelism = 1 }

abbrev limited_account : AccountState
limited_account = record account { status = rate_limited }

assess_account_risk-is_high_example :
    (is_high (assess_account_risk registry wall config 2000000 (some limited_account)).level
      ≡ (true && (platform_objects rate_limited || leb 3 0 || (ltb 0 10 && leb 10 2))))
    × (limited_account.enabled ≡ false
        → (assess_account_risk registry wall config 2000000 (some limited_account)).level ≡ low)
assess_account_risk-is_high_example =
    assess_account_risk-is_high registry wall config 2000000 limited_account
