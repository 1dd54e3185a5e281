-- ===== src/Alerts.antt =====
-- The states of the operational alerts (src/system/alerts.js) and a tick of their worker (src/alert-worker.js).
-- A row is found by its key, the primary key of the table. The details of an alert are left out, and a text of
-- an error is a flag.
pub mod States
pub mod Reconciled
pub mod Notified
use one_gl.Prelude.{
  Text, ℕ, ◌+◌, ◌*◌, Bool, true, false, ◌&&◌, ◌||◌, not, Option, none, some, List, [], ◌∷◌, ◌++◌,
  if◌then◌else◌, leb, select,
}
use one_gl.Prelude.Keyed.{same_text, find_by, replace_by}

pub data AlertState : Type 0 where
  firing resolved : AlertState

pub data Severity : Type 0 where
  critical warning : Severity

pub record AlertItem : Type 0 where
  pub item_key : Text
  pub item_severity : Severity
  pub item_summary : Text

pub record AlertRow : Type 0 where
  pub alert_key : Text
  severity : Severity
  pub state : AlertState
  pub summary : Text
  first_fired_at : ℕ
  last_observed_at : ℕ
  resolved_at : Option ℕ
  pub notified_state : Option AlertState
  pub last_notified_at : Option ℕ
  pub has_notification_error : Bool

abbrev pub key_of : AlertRow → Text
key_of r = r.alert_key

abbrev pub item_key_of : AlertItem → Text
item_key_of x = x.item_key

abbrev pub set_found : AlertItem → List AlertItem → Option AlertItem → List AlertItem
set_found x m none = m ++ x ∷ []
set_found x m (some y) = replace_by item_key_of x.item_key (λ _. x) m

-- `new Map(...)`: a later item replaces the value of an earlier one under its key.
unfoldable pub to_map : List AlertItem → List AlertItem → List AlertItem
to_map m [] = m
to_map m (x ∷ xs) = to_map (set_found x m (find_by item_key_of x.item_key m)) xs

abbrev pub new_row : ℕ → AlertItem → AlertRow
new_row now x = record {
  alert_key = x.item_key;
  severity = x.item_severity;
  state = firing;
  summary = x.item_summary;
  first_fired_at = now;
  last_observed_at = now;
  resolved_at = none;
  notified_state = none;
  last_notified_at = none;
  has_notification_error = false;
}

abbrev pub observe : ℕ → AlertItem → AlertRow → AlertRow
observe now x r = record r {
  severity = x.item_severity;
  summary = x.item_summary;
  last_observed_at = now;
}

abbrev pub fire_again : ℕ → AlertItem → AlertRow → AlertRow
fire_again now x r = record r {
  severity = x.item_severity;
  state = firing;
  summary = x.item_summary;
  first_fired_at = now;
  last_observed_at = now;
  resolved_at = none;
  has_notification_error = false;
}

abbrev pub resolve : ℕ → AlertRow → AlertRow
resolve now r = record r {
  state = resolved;
  last_observed_at = now;
  resolved_at = some now;
  has_notification_error = false;
}

abbrev pub is_firing : AlertState → Bool
is_firing firing = true
is_firing resolved = false

-- What is written for an item depends on its row as it was read at the start.
unfoldable pub reconcile_item : ℕ → AlertItem → Option AlertRow → List AlertRow → List AlertRow
reconcile_item now x none rows = rows ++ new_row now x ∷ []
reconcile_item now x (some r) rows =
    replace_by key_of x.item_key (if is_firing r.state then observe now x else fire_again now x)
      rows

unfoldable pub reconcile_items : ℕ → List AlertRow → List AlertItem → List AlertRow → List AlertRow
unfolding reconcile_item
reconcile_items now existing [] rows = rows
reconcile_items now existing (x ∷ xs) rows =
    reconcile_items now existing xs (reconcile_item now x (find_by key_of x.item_key existing) rows)

unfoldable pub has_key : Text → List AlertItem → Bool
unfolding same_text
has_key k [] = false
has_key k (x ∷ xs) = same_text x.item_key k || has_key k xs

unfoldable pub resolve_absent : ℕ → List AlertItem → List AlertRow → List AlertRow → List AlertRow
unfolding has_key
resolve_absent now current [] rows = rows
resolve_absent now current (r ∷ rs) rows = resolve_absent now current rs (
    if is_firing r.state && not (has_key r.alert_key current)
    then replace_by key_of r.alert_key (resolve now) rows
    else rows)

unfoldable pub reconcile_alert_states : ℕ → List AlertItem → List AlertRow → List AlertRow
unfolding to_map reconcile_items resolve_absent
reconcile_alert_states now firing_alerts existing =
    let current = to_map [] firing_alerts in
    resolve_absent now current existing (reconcile_items now existing current existing)

abbrev pub is_same_state : AlertState → AlertState → Bool
is_same_state firing firing = true
is_same_state resolved resolved = true
is_same_state firing resolved = false
is_same_state resolved firing = false

abbrev pub is_due : ℕ → ℕ → Option ℕ → Bool
is_due repeat_ms now none = true
is_due repeat_ms now (some t) = leb (t + repeat_ms) now

-- Where the notified state is the state, only a firing alert is repeated.
unfoldable pub is_pending : ℕ → ℕ → AlertRow → Bool
is_pending repeat_ms now r = elim r.notified_state [
  | none ↦ true
  | some n ↦
      not (is_same_state n r.state)
      || (is_firing r.state && is_due repeat_ms now r.last_notified_at)
]

-- The rows that are pending, in the order of the table; the query sorts them by severity and key.
unfoldable pub pending_alert_notifications : ℕ → ℕ → List AlertRow → List AlertRow
unfolding select is_pending
pending_alert_notifications repeat_ms now rows = select (is_pending repeat_ms now) rows

-- `WHERE alert_key = $1 AND state = $2`
abbrev pub notify_row : ℕ → AlertState → AlertRow → AlertRow
notify_row now st r =
    if is_same_state r.state st
    then record r {
      notified_state = some st;
      last_notified_at = some now;
      has_notification_error = false;
    }
    else r

abbrev pub mark_alert_notification_success : ℕ → Text → AlertState → List AlertRow → List AlertRow
mark_alert_notification_success now k st rows = replace_by key_of k (notify_row now st) rows

abbrev pub mark_alert_notification_failure : Text → List AlertRow → List AlertRow
mark_alert_notification_failure k rows =
    replace_by key_of k (λ r. record r { has_notification_error = true }) rows

-- The loop over the pending rows, each delivered or not.
unfoldable pub notify_all : ℕ → (AlertRow → Bool) → List AlertRow → List AlertRow → List AlertRow
notify_all now delivers [] rows = rows
notify_all now delivers (r ∷ rs) rows = notify_all now delivers rs (
    if delivers r
    then mark_alert_notification_success now r.alert_key r.state rows
    else mark_alert_notification_failure r.alert_key rows)

-- A tick of the worker; the notifications fall into the time of the reconciliation.
unfoldable pub tick : ℕ → ℕ → (AlertRow → Bool) → List AlertItem → List AlertRow → List AlertRow
unfolding reconcile_alert_states pending_alert_notifications notify_all
tick repeat_ms now delivers firing_alerts existing =
    let rows = reconcile_alert_states now firing_alerts existing in
    notify_all now delivers (pending_alert_notifications repeat_ms now rows) rows
