-- ===== src/Alerts/Reconciled.antt =====
-- After a reconciliation the firing alerts are those that were given (src/system/alerts.js).
use one_gl.Prelude.{
  Text, ℕ, ◌≡◌, refl, sym, ap, ◌∙◌, Bool, true, false, ◌&&◌, ◌||◌, not, Option, none, some, List,
  [], ◌∷◌, ◌++◌, if◌then◌else◌,
}
use mathlib.Core.Bool.{true≢false}
use mathlib.Core.Option.{some-injective}
use one_gl.Prelude.Keyed.{same_text, same_text_sound, find_by, replace_by}
use one_gl.Alerts.{
  AlertState, firing, resolved, AlertItem, AlertRow, key_of, item_key_of, set_found, to_map,
  resolve, is_firing, reconcile_item, reconcile_items, has_key, resolve_absent,
  reconcile_alert_states,
}
use one_gl.Alerts.States.{
  state_of, state_at, forced, after_items, reconcile_item-state_at, state_at-replace_by,
}

or_shuffle : (a b c : Bool) → b || (a || c) ≡ (a || b) || c
or_shuffle true true c = refl
or_shuffle true false c = refl
or_shuffle false true c = refl
or_shuffle false false c = refl

reconcile_items-state_at :
    (now : ℕ) (existing : List AlertRow) (xs : List AlertItem) (rows : List AlertRow) (k : Text)
    (done : Bool)
    → state_at k rows ≡ after_items done (state_at k existing)
    → state_at k (reconcile_items now existing xs rows)
      ≡ after_items (has_key k xs || done) (state_at k existing)
unfolding reconcile_items has_key
reconcile_items-state_at now existing [] rows k done h = h
reconcile_items-state_at now existing (x ∷ xs) rows k done h =
    reconcile_items-state_at now existing xs
      (reconcile_item now x (find_by key_of x.item_key existing) rows) k
      (same_text x.item_key k || done) (reconcile_item-state_at now x existing rows k done h)
    ∙ ap (λ b. after_items b (state_at k existing))
        (or_shuffle (same_text x.item_key k) (has_key k xs) done)

has_key-append :
    (k : Text) (m : List AlertItem) (x : AlertItem)
    → has_key k (m ++ x ∷ []) ≡ (has_key k m || same_text x.item_key k)
unfolding has_key
has_key-append k [] x = or_false (same_text x.item_key k)
  where
    or_false : (b : Bool) → b || false ≡ b
    or_false true = refl
    or_false false = refl
has_key-append k (y ∷ m) x = assoc (same_text y.item_key k) (has_key-append k m x)
  where
    assoc :
        (b : Bool)
        → has_key k (m ++ x ∷ []) ≡ (has_key k m || same_text x.item_key k)
        → b || has_key k (m ++ x ∷ []) ≡ ((b || has_key k m) || same_text x.item_key k)
    assoc true ih = refl
    assoc false ih = ih

has_key-replace_by :
    (k : Text) (x : AlertItem) (m : List AlertItem) (y : AlertItem)
    → find_by item_key_of x.item_key m ≡ some y
    → has_key k (replace_by item_key_of x.item_key (λ _. x) m)
      ≡ (has_key k m || same_text x.item_key k)
unfolding has_key find_by replace_by
has_key-replace_by k x [] y h = cc
has_key-replace_by k x (z ∷ m) y h =
    cases (same_text z.item_key x.item_key) refl h (has_key-replace_by k x m y)
  where
    same_head : (a b c : Bool) → a ≡ c → c || b ≡ ((a || b) || c)
    same_head true b true e = refl
    same_head true b false e = absurd (true≢false e)
    same_head false b true e = absurd (true≢false (sym e))
    same_head false true false e = refl
    same_head false false false e = refl

    later : (a b c d : Bool) → b ≡ (c || d) → a || b ≡ ((a || c) || d)
    later true b c d e = refl
    later false b c d e = e

    cases :
        (b : Bool)
        → same_text z.item_key x.item_key ≡ b
        → (if b then some z else find_by item_key_of x.item_key m) ≡ some y
        → (find_by item_key_of x.item_key m ≡ some y
            → has_key k (replace_by item_key_of x.item_key (λ _. x) m)
              ≡ (has_key k m || same_text x.item_key k))
        → has_key k (if b then x ∷ m else z ∷ replace_by item_key_of x.item_key (λ _. x) m)
          ≡ ((same_text z.item_key k || has_key k m) || same_text x.item_key k)
    cases true e f ih =
        same_head (same_text z.item_key k) (has_key k m) (same_text x.item_key k)
          (ap (λ j. same_text j k) (same_text_sound z.item_key x.item_key e))
    cases false e f ih =
        later (same_text z.item_key k) _ (has_key k m) (same_text x.item_key k) (ih f)

has_key-to_map :
    (k : Text) (m xs : List AlertItem) → has_key k (to_map m xs) ≡ (has_key k m || has_key k xs)
unfolding to_map has_key
has_key-to_map k m [] = or_false (has_key k m)
  where
    or_false : (b : Bool) → b ≡ (b || false)
    or_false true = refl
    or_false false = refl
has_key-to_map k m (x ∷ xs) =
    has_key-to_map k (set_found x m (find_by item_key_of x.item_key m)) xs
    ∙ ap (λ b. b || has_key k xs) (set (find_by item_key_of x.item_key m) refl)
    ∙ assoc (has_key k m) (same_text x.item_key k) (has_key k xs)
  where
    assoc : (a b c : Bool) → (a || b) || c ≡ (a || (b || c))
    assoc true b c = refl
    assoc false b c = refl

    set :
        (o : Option AlertItem)
        → find_by item_key_of x.item_key m ≡ o
        → has_key k (set_found x m o) ≡ (has_key k m || same_text x.item_key k)
    set none e = has_key-append k m x
    set (some y) e = has_key-replace_by k x m y e

-- Whether a row under a key is resolved.
unfoldable is_resolving : Text → List AlertItem → List AlertRow → Bool
unfolding has_key
is_resolving k current [] = false
is_resolving k current (r ∷ rs) =
    (same_text r.alert_key k && (is_firing r.state && not (has_key r.alert_key current)))
    || is_resolving k current rs

resolve_absent-state_at :
    (now : ℕ) (current : List AlertItem) (rs rows : List AlertRow) (k : Text)
    → state_at k (resolve_absent now current rs rows)
      ≡ (if is_resolving k current rs then forced resolved (state_at k rows) else state_at k rows)
unfolding resolve_absent is_resolving
resolve_absent-state_at now current [] rows k = refl
resolve_absent-state_at now current (r ∷ rs) rows k =
    let test = is_firing r.state && not (has_key r.alert_key current) in
    resolve_absent-state_at now current rs
      (if test then replace_by key_of r.alert_key (resolve now) rows else rows) k
    ∙ one test (same_text r.alert_key k) (is_resolving k current rs) (state_at k rows)
        (state_at k (if test then replace_by key_of r.alert_key (resolve now) rows else rows))
        (written test)
  where
    written :
        (test : Bool)
        → state_at k (if test then replace_by key_of r.alert_key (resolve now) rows else rows) ≡ (
            if same_text r.alert_key k && test
            then forced resolved (state_at k rows)
            else state_at k rows)
    written true =
        state_at-replace_by k r.alert_key (resolve now) resolved rows (λ _. refl) (λ _. refl)
        ∙ ap (λ b. if b then forced resolved (state_at k rows) else state_at k rows)
            (and_true (same_text r.alert_key k))
      where
        and_true : (b : Bool) → b ≡ (b && true)
        and_true true = refl
        and_true false = refl
    written false =
        ap (λ b. if b then forced resolved (state_at k rows) else state_at k rows)
          (and_false (same_text r.alert_key k))
      where
        and_false : (b : Bool) → false ≡ (b && false)
        and_false true = refl
        and_false false = refl

    one :
        (test here rest : Bool) (o o' : Option AlertState)
        → o' ≡ (if here && test then forced resolved o else o)
        → (if rest then forced resolved o' else o')
          ≡ (if (here && test) || rest then forced resolved o else o)
    one true true true none o' h = rw h refl
    one true true true (some st) o' h = rw h refl
    one true true false o o' h = h
    one true false rest o o' h = rw h refl
    one false true rest o o' h = rw h refl
    one false false rest o o' h = rw h refl

-- A key that is given is not resolved.
is_resolving-given :
    (k : Text) (current : List AlertItem) (rs : List AlertRow)
    → has_key k current ≡ true
    → is_resolving k current rs ≡ false
unfolding is_resolving
is_resolving-given k current [] h = refl
is_resolving-given k current (r ∷ rs) h =
    cases (same_text r.alert_key k) refl (is_firing r.state) (is_resolving-given k current rs h)
  where
    cases :
        (b : Bool)
        → same_text r.alert_key k ≡ b
        → (f : Bool) → is_resolving k current rs ≡ false
        → (b && (f && not (has_key r.alert_key current))) || is_resolving k current rs ≡ false
    cases true e true ih = rw (same_text_sound r.alert_key k e, h) ih
    cases true e false ih = ih
    cases false e f ih = ih

-- A firing key that is not given is resolved.
is_resolving-firing :
    (k : Text) (current : List AlertItem) (rs : List AlertRow)
    → has_key k current ≡ false
    → state_at k rs ≡ some firing
    → is_resolving k current rs ≡ true
unfolding is_resolving find_by
is_resolving-firing k current [] h e = cc
is_resolving-firing k current (r ∷ rs) h e =
    cases (same_text r.alert_key k) refl e (is_resolving-firing k current rs h)
  where
    cases :
        (b : Bool)
        → same_text r.alert_key k ≡ b
        → state_of (if b then some r else find_by key_of k rs) ≡ some firing
        → (state_at k rs ≡ some firing → is_resolving k current rs ≡ true)
        → (b && (is_firing r.state && not (has_key r.alert_key current)))
            || is_resolving k current rs
          ≡ true
    cases true f e ih =
        let state : r.state ≡ firing = some-injective r.state firing e in
        rw (same_text_sound r.alert_key k f, h, state) refl
    cases false f e ih = ih e

-- After a reconciliation an alert fires if it was given; one that was not given is resolved if it
-- has a row, and has none otherwise.
pub reconcile_alert_states-state_at :
    (now : ℕ) (items : List AlertItem) (rows : List AlertRow) (k : Text)
    → state_at k (reconcile_alert_states now items rows)
      ≡ (if has_key k items then some firing else forced resolved (state_at k rows))
unfolding reconcile_alert_states has_key
reconcile_alert_states-state_at now items rows k =
    resolve_absent-state_at now (to_map [] items) rows
      (reconcile_items now rows (to_map [] items) rows) k
    ∙ settled (has_key k items) (is_resolving k (to_map [] items) rows) (state_at k rows)
        (state_at k (reconcile_items now rows (to_map [] items) rows))
        (reconcile_items-state_at now rows (to_map [] items) rows k false refl
          ∙ ap (λ b. after_items b (state_at k rows))
              (or_false (has_key k (to_map [] items)) ∙ given))
        (λ h. is_resolving-given k (to_map [] items) rows (given ∙ h))
        (λ h. is_resolving-firing k (to_map [] items) rows (given ∙ h))
  where
    given : has_key k (to_map [] items) ≡ has_key k items
    given = has_key-to_map k [] items

    or_false : (b : Bool) → (b || false) ≡ b
    or_false true = refl
    or_false false = refl

    settled :
        (has resolving : Bool) (o o' : Option AlertState)
        → o' ≡ after_items has o
        → (has ≡ true → resolving ≡ false)
        → (has ≡ false → o ≡ some firing → resolving ≡ true)
        → (if resolving then forced resolved o' else o')
          ≡ (if has then some firing else forced resolved o)
    settled true resolving o o' e given_stays firing_goes = rw (given_stays refl, e) refl
    settled false true o o' e given_stays firing_goes = rw e refl
    settled false false none o' e given_stays firing_goes = e
    settled false false (some resolved) o' e given_stays firing_goes = e
    settled false false (some firing) o' e given_stays firing_goes =
        absurd (true≢false (sym (firing_goes refl refl)))
