-- ===== src/Tests/Worker.antt =====
-- Slots, gates, names and the ceiling of the worker.
use one_gl.Prelude.{ℕ, ◌≡◌, some, List, [], ◌∷◌, arith, Text, codes}
use one_gl.Worker.Slots.{SlotEvent, starts, ends, slot_run, new_pool}
use one_gl.Worker.Slots.Exclusive.{IsExclusive, slot_run-new_pool-IsExclusive}
use one_gl.Worker.Identity.{colon, account_identity, parse_account_identity}
use one_gl.Worker.Identity.Keys.{Lacks, parse_account_identity-account_identity}

abbrev slot_events : List SlotEvent
slot_events = starts 7 ∷ starts 8 ∷ starts 9 ∷ ends 7 ∷ ends 8 ∷ []

slot_run-new_pool-IsExclusive_example : IsExclusive (slot_run (new_pool 2) slot_events)
slot_run-new_pool-IsExclusive_example = slot_run-new_pool-IsExclusive 2 slot_events

abbrev account_text : Text
account_text = codes "a:1"

abbrev provider_text : Text
provider_text = codes "doubao"

provider_text-Lacks : Lacks colon provider_text
provider_text-Lacks =
    (omega arith, (omega arith, (omega arith, (omega arith, (omega arith, (omega arith, tt))))))

parse_account_identity-account_identity_example :
    parse_account_identity (account_identity account_text provider_text)
    ≡ some (provider_text, account_text)
parse_account_identity-account_identity_example =
    parse_account_identity-account_identity account_text provider_text (omega arith) (omega arith)
      provider_text-Lacks

abbrev slot : ℕ
slot = 2
