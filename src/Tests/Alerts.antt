-- ===== src/Tests/Alerts.antt =====
-- Alerts.
use one_gl.Prelude.{◌≡◌, refl, true, false, some, List, [], ◌∷◌, codes, arith, if◌then◌else◌}
use one_gl.Prelude.Keyed.{find_by}
use one_gl.Alerts.{
  firing, resolved, warning, AlertItem, AlertRow, key_of, new_row, has_key, reconcile_alert_states,
  notify_all, pending_alert_notifications, is_pending,
}
use one_gl.Alerts.States.{state_at, forced}
use one_gl.Alerts.Reconciled.{reconcile_alert_states-state_at}
use one_gl.Alerts.Notified.{notify_all-none_pending}

abbrev queue_alert : AlertItem
queue_alert = record {
  item_key = codes "queue";
  item_severity = warning;
  item_summary = codes "long";
}

abbrev disk_alert : AlertItem
disk_alert = record {
  item_key = codes "disk";
  item_severity = warning;
  item_summary = codes "full";
}

abbrev alert_rows : List AlertRow
alert_rows = new_row 5 disk_alert ∷ []

reconcile_alert_states-state_at_example :
    state_at (codes "disk") (reconcile_alert_states 10 (queue_alert ∷ []) alert_rows) ≡ (
      if has_key (codes "disk") (queue_alert ∷ [])
      then some firing
      else forced resolved (state_at (codes "disk") alert_rows))
reconcile_alert_states-state_at_example =
    reconcile_alert_states-state_at 10 (queue_alert ∷ []) alert_rows (codes "disk")

notify_all-none_pending_example :
    (r : AlertRow) × (find_by key_of
        (codes "disk")
        (notify_all 20 (λ _. true) (pending_alert_notifications 3600 20 alert_rows) alert_rows)
      ≡ some r)
    × (is_pending 3600 20 r ≡ false)
unfolding find_by
notify_all-none_pending_example =
    notify_all-none_pending 3600 20 (omega arith) (codes "disk") alert_rows (new_row 5 disk_alert)
      refl
