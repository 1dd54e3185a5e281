-- ===== src/Alerts/Notified.antt =====
-- The notifications of the alerts (src/system/alerts.js, src/alert-worker.js).
use mathlib.Core.Bool.{true≢false}
use mathlib.Core.Option.{some-injective}
use one_gl.Prelude.{
  Text, ℕ, ◌+◌, ◌<◌, ◌≡◌, ◌⊎◌, inl, inr, refl, sym, ap, subst, ◌∙◌, Bool, true, false, ◌&&◌, some,
  List, [], ◌∷◌, if◌then◌else◌, leb, arith, Bool-cases, if-both, if-cases, select,
}
use one_gl.Prelude.Keyed.{same_text, find_by, find_by-replaced}
use one_gl.Alerts.{
  AlertState, firing, resolved, AlertRow, key_of, is_firing, is_same_state, is_pending,
  pending_alert_notifications, notify_row, notify_all, mark_alert_notification_success,
}

-- What the notifications make of one row.
marks : ℕ → Text → List AlertRow → AlertRow → AlertRow
marks now k [] r = r
marks now k (x ∷ rs) r =
    marks now k rs (if same_text x.alert_key k then notify_row now x.state r else r)

same_state_refl : (st : AlertState) → is_same_state st st ≡ true
same_state_refl firing = refl
same_state_refl resolved = refl

same_state_sound : (a b : AlertState) → is_same_state a b ≡ true → a ≡ b
same_state_sound firing firing h = refl
same_state_sound resolved resolved h = refl
same_state_sound firing resolved h = absurd (true≢false (sym h))
same_state_sound resolved firing h = absurd (true≢false (sym h))

notify_row-keeps :
    (now : ℕ) (st : AlertState) (r : AlertRow) → (notify_row now st r).alert_key ≡ r.alert_key
notify_row-keeps now st r =
    if-both {A = AlertRow} (λ x. x.alert_key ≡ r.alert_key) (is_same_state r.state st) refl refl

notify_row-state :
    (now : ℕ) (st : AlertState) (r : AlertRow) → (notify_row now st r).state ≡ r.state
notify_row-state now st r =
    if-both {A = AlertRow} (λ x. x.state ≡ r.state) (is_same_state r.state st) refl refl

notify_all-marks :
    (now : ℕ) (k : Text) (rs rows : List AlertRow) (r : AlertRow)
    → find_by key_of k rows ≡ some r
    → find_by key_of k (notify_all now (λ _. true) rs rows) ≡ some (marks now k rs r)
unfolding notify_all marks
notify_all-marks now k [] rows r h = h
notify_all-marks now k (x ∷ rs) rows r h =
    notify_all-marks now k rs (mark_alert_notification_success now x.alert_key x.state rows)
      (if same_text x.alert_key k then notify_row now x.state r else r)
      (find_by-replaced key_of k x.alert_key (notify_row now x.state) rows r
        (notify_row-keeps now x.state) h)

module _ (repeat_ms now : ℕ) (repeats : 0 < repeat_ms) where
  notified-not_pending :
      (r : AlertRow)
      → is_pending repeat_ms now
          (record r { notified_state = some r.state; last_notified_at = some now })
        ≡ false
  unfolding is_pending
  notified-not_pending r = rw (same_state_refl r.state) (late (is_firing r.state))
    where
      late : (b : Bool) → b && leb (now + repeat_ms) now ≡ false
      late true = ground arith
      late false = refl

  -- A notification leaves nothing pending that was not, and the one of its state leaves it notified.
  notify_row-quiet :
      (st : AlertState) (r : AlertRow)
      → is_pending repeat_ms now r ≡ false
      → is_pending repeat_ms now (notify_row now st r) ≡ false
  notify_row-quiet st r h =
      if-cases (λ x. is_pending repeat_ms now x ≡ false) (is_same_state r.state st)
        (λ e.
          subst
            (λ s.
              is_pending repeat_ms now (record r {
                notified_state = some s;
                last_notified_at = some now;
                has_notification_error = false;
              })
              ≡ false)
            (same_state_sound r.state st e)
            (notified-not_pending (record r { has_notification_error = false })))
        (λ _. h)

  notify_row-own : (r : AlertRow) → is_pending repeat_ms now (notify_row now r.state r) ≡ false
  notify_row-own r =
      rw (same_state_refl r.state)
        (notified-not_pending (record r { has_notification_error = false }))

  marks-quiet :
      (k : Text) (rs : List AlertRow) (r : AlertRow)
      → is_pending repeat_ms now r ≡ false
      → is_pending repeat_ms now (marks now k rs r) ≡ false
  unfolding marks
  marks-quiet k [] r h = h
  marks-quiet k (x ∷ rs) r h =
      if-both (λ y. is_pending repeat_ms now (marks now k rs y) ≡ false) (same_text x.alert_key k)
        (marks-quiet k rs (notify_row now x.state r) (notify_row-quiet x.state r h))
        (marks-quiet k rs r h)

  -- The first row under a key is among the pending ones if it is pending.
  marks-pending :
      (k : Text) (rows : List AlertRow) (r : AlertRow)
      → find_by key_of k rows ≡ some r
      → is_pending repeat_ms now r ≡ true
      → is_pending repeat_ms now (marks now k (select (is_pending repeat_ms now) rows) r) ≡ false
  unfolding marks find_by select
  marks-pending k [] r h p = cc
  marks-pending k (y ∷ ys) r h p = cases (same_text y.alert_key k) refl h (marks-pending k ys r)
    where
      cases :
          (b : Bool)
          → same_text y.alert_key k ≡ b
          → (if b then some y else find_by key_of k ys) ≡ some r
          → (find_by key_of k ys ≡ some r
              → is_pending repeat_ms now r ≡ true
              → is_pending repeat_ms now (marks now k (select (is_pending repeat_ms now) ys) r)
                ≡ false)
          → is_pending repeat_ms now (
              marks now k
                (if is_pending repeat_ms now y
                  then y ∷ select (is_pending repeat_ms now) ys
                  else select (is_pending repeat_ms now) ys)
                r)
            ≡ false
      cases true e f ih =
          chosen (is_pending repeat_ms now y)
            (ap (is_pending repeat_ms now) (some-injective y r f) ∙ p)
        where
          own : is_pending repeat_ms now (notify_row now y.state r) ≡ false
          own =
              subst (λ st. is_pending repeat_ms now (notify_row now st r) ≡ false)
                (ap (λ x. x.state) (sym (some-injective y r f))) (notify_row-own r)

          chosen :
              (q : Bool)
              → q ≡ true
              → is_pending repeat_ms now (
                  marks now k
                    (if q
                      then y ∷ select (is_pending repeat_ms now) ys
                      else select (is_pending repeat_ms now) ys)
                    r)
                ≡ false
          chosen true z =
              subst
                (λ (c : Bool).
                  is_pending repeat_ms now (
                    marks now k (select (is_pending repeat_ms now) ys)
                      (if c then notify_row now y.state r else r))
                  ≡ false)
                (sym e)
                (marks-quiet k (select (is_pending repeat_ms now) ys) (notify_row now y.state r)
                  own)
          chosen false z = absurd (true≢false (sym z))
      cases false e f ih = other (is_pending repeat_ms now y)
        where
          other :
              (q : Bool)
              → is_pending repeat_ms now (
                  marks now k
                    (if q
                      then y ∷ select (is_pending repeat_ms now) ys
                      else select (is_pending repeat_ms now) ys)
                    r)
                ≡ false
          other true =
              subst
                (λ (c : Bool).
                  is_pending repeat_ms now (
                    marks now k (select (is_pending repeat_ms now) ys)
                      (if c then notify_row now y.state r else r))
                  ≡ false)
                (sym e) (ih f p)
          other false = ih f p

  -- When every pending notification is delivered, and the interval of repetition is not 0, no
  -- alert has a notification pending at that time.
  pub notify_all-none_pending :
      (k : Text) (rows : List AlertRow) (r : AlertRow)
      → find_by key_of k rows ≡ some r
      → (r' : AlertRow) × (find_by key_of k
            (notify_all now (λ _. true) (pending_alert_notifications repeat_ms now rows) rows)
          ≡ some r')
        × (is_pending repeat_ms now r' ≡ false)
  unfolding pending_alert_notifications
  notify_all-none_pending k rows r h =
      let rs = select (is_pending repeat_ms now) rows in
      (
        marks now k rs r,
        notify_all-marks now k rs rows r h,
        quiet (Bool-cases (is_pending repeat_ms now r)),
      )
    where
      quiet :
          (is_pending repeat_ms now r ≡ true) ⊎ (is_pending repeat_ms now r ≡ false)
          → is_pending repeat_ms now (marks now k (select (is_pending repeat_ms now) rows) r)
            ≡ false
      quiet (inl p) = marks-pending k rows r h p
      quiet (inr q) = marks-quiet k (select (is_pending repeat_ms now) rows) r q
