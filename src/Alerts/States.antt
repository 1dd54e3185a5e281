-- ===== src/Alerts/States.antt =====
-- What the reconciliation leaves of each alert (src/system/alerts.js).
use one_gl.Prelude.{
  Text, ℕ, ◌≡◌, refl, sym, ap, ◌∙◌, Bool, true, false, ◌||◌, Option, none, some, List, [], ◌∷◌,
  ◌++◌, if◌then◌else◌, if-both,
}
use mathlib.Core.Bool.{true≢false}
use one_gl.Prelude.Keyed.{same_text, same_text_sound, same_text_refl, find_by, replace_by}
use one_gl.Alerts.{
  AlertState, firing, resolved, AlertItem, AlertRow, key_of, new_row, observe, fire_again,
  is_firing, reconcile_item,
}

abbrev pub state_of : Option AlertRow → Option AlertState
state_of none = none
state_of (some r) = some r.state

abbrev pub state_at : Text → List AlertRow → Option AlertState
state_at k rows = state_of (find_by key_of k rows)

abbrev pub forced : AlertState → Option AlertState → Option AlertState
forced st none = none
forced st (some _) = some st

same_text_trans : (a b c : Text) → same_text a b ≡ true → same_text a c ≡ same_text b c
same_text_trans a b c h = ap (λ x. same_text x c) (same_text_sound a b h)

written :
    (st : AlertState) (b : Bool) (r r' : AlertRow) (o : Option AlertRow)
    → r'.state ≡ st
    → state_of (if b then some r' else o) ≡ (
        if b
        then forced st (state_of (if b then some r else o))
        else state_of (if b then some r else o))
written st true r r' o h = ap some h
written st false r r' o h = refl

written_at :
    (st : AlertState) (asked here' here : Bool) (r r' : AlertRow) (o : Option AlertRow)
    → here' ≡ asked
    → here ≡ asked
    → r'.state ≡ st
    → state_of (if here' then some r' else o) ≡ (
        if asked
        then forced st (state_of (if here then some r else o))
        else state_of (if here then some r else o))
written_at st asked here' here r r' o p q h = rw (p, q) (written st asked r r' o h)

unwritten :
    (st : AlertState) (here asked : Bool) (r : AlertRow) (o o' : Option AlertRow)
    → state_of o' ≡ (if asked then forced st (state_of o) else state_of o)
    → (here ≡ true → asked ≡ true → ⊥)
    → state_of (if here then some r else o') ≡ (
        if asked
        then forced st (state_of (if here then some r else o))
        else state_of (if here then some r else o))
unwritten st true true r o o' ih h = absurd (h refl refl)
unwritten st true false r o o' ih h = refl
unwritten st false asked r o o' ih h = ih

differs : (k j i : Text) → same_text i j ≡ false → same_text i k ≡ true → same_text j k ≡ true → ⊥
differs k j i e f h = true≢false (
    sym (same_text_refl i)
    ∙ ap (same_text i) (same_text_sound i k f ∙ sym (same_text_sound j k h))
    ∙ e)

-- A write of one state to the row under a key.
pub state_at-replace_by :
    (k j : Text) (g : AlertRow → AlertRow) (st : AlertState) (rows : List AlertRow)
    → ((r : AlertRow) → (g r).alert_key ≡ r.alert_key)
    → ((r : AlertRow) → (g r).state ≡ st)
    → state_at k (replace_by key_of j g rows)
      ≡ (if same_text j k then forced st (state_at k rows) else state_at k rows)
unfolding find_by replace_by
state_at-replace_by k j g st [] keeps sets =
    if-both {A = Option AlertState} (λ o. none ≡ o) (same_text j k) refl refl
state_at-replace_by k j g st (r ∷ rows) keeps sets =
    cases (same_text r.alert_key j) refl (state_at-replace_by k j g st rows keeps sets)
  where
    cases :
        (b : Bool)
        → same_text r.alert_key j ≡ b
        → state_at k (replace_by key_of j g rows)
          ≡ (if same_text j k then forced st (state_at k rows) else state_at k rows)
        → state_of (find_by key_of k (if b then g r ∷ rows else r ∷ replace_by key_of j g rows)) ≡ (
            if same_text j k
            then forced st
                (state_of (if same_text r.alert_key k then some r else find_by key_of k rows))
            else state_of (if same_text r.alert_key k then some r else find_by key_of k rows))
    cases true e ih =
        written_at st (same_text j k) (same_text (g r).alert_key k) (same_text r.alert_key k) r
          (g r) (find_by key_of k rows)
          (ap (λ x. same_text x k) (keeps r) ∙ same_text_trans r.alert_key j k e)
          (same_text_trans r.alert_key j k e) (sets r)
    cases false e ih =
        unwritten st (same_text r.alert_key k) (same_text j k) r _ _ ih
          (λ f h. differs k j r.alert_key e f h)

-- The state of the first row under a key, or of a row that comes after.
abbrev or_last : Bool → AlertState → Option AlertState → Option AlertState
or_last b st (some first) = some first
or_last true st none = some st
or_last false st none = none

state_at-append :
    (k : Text) (rows : List AlertRow) (r : AlertRow)
    → state_at k (rows ++ r ∷ []) ≡ or_last (same_text r.alert_key k) r.state (state_at k rows)
unfolding find_by
state_at-append k [] r = alone (same_text r.alert_key k)
  where
    alone : (b : Bool) → state_of (if b then some r else none) ≡ or_last b r.state none
    alone true = refl
    alone false = refl
state_at-append k (x ∷ rows) r = cases (same_text x.alert_key k) (state_at-append k rows r)
  where
    cases :
        (b : Bool)
        → state_at k (rows ++ r ∷ []) ≡ or_last (same_text r.alert_key k) r.state (state_at k rows)
        → state_of (if b then some x else find_by key_of k (rows ++ r ∷ []))
          ≡ or_last
              (same_text r.alert_key k)
              r.state
              (state_of (if b then some x else find_by key_of k rows))
    cases true ih = refl
    cases false ih = ih

-- What the items that are done leave of the state under a key.
abbrev pub after_items : Bool → Option AlertState → Option AlertState
after_items true o = some firing
after_items false o = o

-- A write that leaves the states and the keys.
state_at-keeps :
    (k j : Text) (g : AlertRow → AlertRow) (rows : List AlertRow)
    → ((r : AlertRow) → (g r).alert_key ≡ r.alert_key)
    → ((r : AlertRow) → (g r).state ≡ r.state)
    → state_at k (replace_by key_of j g rows) ≡ state_at k rows
unfolding find_by replace_by
state_at-keeps k j g [] keeps same = refl
state_at-keeps k j g (r ∷ rows) keeps same =
    cases (same_text r.alert_key j) (state_at-keeps k j g rows keeps same)
  where
    chosen :
        (b : Bool) (o : Option AlertRow)
        → state_of (if b then some (g r) else o) ≡ state_of (if b then some r else o)
    chosen true o = ap some (same r)
    chosen false o = refl

    later :
        (b : Bool) (o o' : Option AlertRow)
        → state_of o ≡ state_of o'
        → state_of (if b then some r else o) ≡ state_of (if b then some r else o')
    later true o o' h = refl
    later false o o' h = h

    cases :
        (b : Bool)
        → state_at k (replace_by key_of j g rows) ≡ state_at k rows
        → state_of (find_by key_of k (if b then g r ∷ rows else r ∷ replace_by key_of j g rows))
          ≡ state_of (if same_text r.alert_key k then some r else find_by key_of k rows)
    cases true ih =
        ap (λ t. state_of (if same_text t k then some (g r) else find_by key_of k rows)) (keeps r)
        ∙ chosen (same_text r.alert_key k) (find_by key_of k rows)
    cases false ih = later (same_text r.alert_key k) _ (find_by key_of k rows) ih

-- One item: the rows agree with those of the start but for the items that are done.
pub reconcile_item-state_at :
    (now : ℕ) (x : AlertItem) (existing rows : List AlertRow) (k : Text) (done : Bool)
    → state_at k rows ≡ after_items done (state_at k existing)
    → state_at k (reconcile_item now x (find_by key_of x.item_key existing) rows)
      ≡ after_items (same_text x.item_key k || done) (state_at k existing)
unfolding reconcile_item
reconcile_item-state_at now x existing rows k done agree =
    cases (find_by key_of x.item_key existing) refl
  where
    cases :
        (o : Option AlertRow)
        → find_by key_of x.item_key existing ≡ o
        → state_at k (reconcile_item now x o rows)
          ≡ after_items (same_text x.item_key k || done) (state_at k existing)
    cases none e =
        state_at-append k rows (new_row now x)
        ∙ appended (same_text x.item_key k) done (state_at k rows) (state_at k existing) agree (λ h.
          ap state_of
            (ap (λ j. find_by key_of j existing) (sym (same_text_sound x.item_key k h)) ∙ e))
      where
        appended :
            (b d : Bool) (o o' : Option AlertState)
            → o ≡ after_items d o'
            → (b ≡ true → o' ≡ none)
            → or_last b firing o ≡ after_items (b || d) o'
        appended true true o o' h a = rw h refl
        appended true false o o' h a = rw (h, a refl) refl
        appended false true o o' h a = rw h refl
        appended false false none o' h a = h
        appended false false (some st) o' h a = h
    cases (some r) e = written r.state refl
      where
        found : same_text x.item_key k ≡ true → state_at k existing ≡ some r.state
        found h =
            ap state_of
              (ap (λ j. find_by key_of j existing) (sym (same_text_sound x.item_key k h)) ∙ e)

        again :
            (b d : Bool) (o o' : Option AlertState)
            → o ≡ after_items d o'
            → (b ≡ true → o' ≡ some r.state)
            → (if b then forced firing o else o) ≡ after_items (b || d) o'
        again true true o o' h a = rw h refl
        again true false o o' h a = rw (h, a refl) refl
        again false d o o' h a = h

        still :
            (b d : Bool) (o o' : Option AlertState)
            → o ≡ after_items d o'
            → (b ≡ true → o' ≡ some firing)
            → o ≡ after_items (b || d) o'
        still true true o o' h a = h
        still true false o o' h a = h ∙ a refl
        still false d o o' h a = h

        -- A row that fires keeps its state; one that was resolved fires again.
        written :
            (st : AlertState)
            → r.state ≡ st
            → state_at k (
                replace_by key_of x.item_key
                  (if is_firing r.state then observe now x else fire_again now x)
                  rows)
              ≡ after_items (same_text x.item_key k || done) (state_at k existing)
        written firing f =
            ap
              (λ st. state_at k (
                replace_by key_of x.item_key
                  (if is_firing st then observe now x else fire_again now x) rows))
              f
            ∙ state_at-keeps k x.item_key (observe now x) rows (λ _. refl) (λ _. refl)
            ∙ still (same_text x.item_key k) done (state_at k rows) (state_at k existing) agree
                (λ h. found h ∙ ap some f)
        written resolved f =
            ap
              (λ st. state_at k (
                replace_by key_of x.item_key
                  (if is_firing st then observe now x else fire_again now x) rows))
              f
            ∙ state_at-replace_by k x.item_key (fire_again now x) firing rows (λ _. refl)
                (λ _. refl)
            ∙ again (same_text x.item_key k) done (state_at k rows) (state_at k existing) agree
                found
