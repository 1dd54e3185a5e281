-- ===== src/Worker/Sessions/Phases.antt =====
-- What the events of a creation leave of the sessions (src/worker.js).
use one_gl.Prelude.{
  Text, ℕ, ◌+◌, ◌≤◌, ◌≡◌, refl, sym, ap, ◌∙◌, false, Option, none, some, [], ◌∷◌, ◌++◌,
  if◌then◌else◌, length, sum_by, arith, length-append,
}
use one_gl.Worker.Capacity.{BrowserSession}
use one_gl.Worker.Sessions.{
  Phase, opening, Making, Sessions, session_of, making_of, to_phase, set_phase, drop_making,
  set_session,
}
use one_gl.Prelude.Keyed.{
  same_text, is_under, find_by-remove_by, find_by-replace_by, find_by-key, replace_by-keeps,
  sum_by-append,
}
use one_gl.Worker.Sessions.Tracked.{
  session_key_of, making_key_of, inside_in, opening_in, is_inside, is_opening, IsTracked,
  is_under-found, le-remove_by, session-not_made,
}
use mathlib.Core.Option.{none-ne-some}

pub making-no_session :
    (max_browsers : ℕ) (s : Sessions) (k : Text) (m : Making)
    → IsTracked max_browsers s
    → making_of k s.creating ≡ some m
    → session_of k s.sessions ≡ none
making-no_session max_browsers s k m t h = cases (session_of k s.sessions) refl
  where
    cases : (o : Option BrowserSession) → session_of k s.sessions ≡ o → o ≡ none
    cases none e = refl
    cases (some b) e =
        let found = is_under-found session_key_of k s.sessions b e in
        let less = find_by-remove_by session_key_of (is_under session_key_of k) k s.sessions b e in
        let none_made = session-not_made max_browsers s k t (omega (arith, found, less)) in
        absurd (none-ne-some m (sym none_made ∙ h))

-- A creation that goes on from one phase to another.
pub set_phase-IsTracked :
    (max_browsers : ℕ) (s : Sessions) (k : Text) (p : Phase) (m : Making) (running : ℕ)
    → IsTracked max_browsers s
    → making_of k s.creating ≡ some m
    → running + opening_in m.phase ≡ s.running + opening_in p
    → length s.sessions + sum_by is_inside s.creating + inside_in p
      ≤ max_browsers + inside_in m.phase
    → IsTracked max_browsers (record (set_phase false k p s) { running = running })
set_phase-IsTracked max_browsers s k p m running t made counted room = record {
  attached = t.attached;
  once = λ j. omega (
    arith,
    t.once j,
    replace_by-keeps making_key_of (is_under making_key_of j) k (to_phase p) s.creating (λ x. refl),
  );
  counted = omega (
    arith,
    t.counted,
    counted,
    find_by-replace_by making_key_of is_opening k (to_phase p) s.creating m made,
  );
  room =
      omega
        (arith, room, find_by-replace_by making_key_of is_inside k (to_phase p) s.creating m made);
}

-- A creation that ends without a session.
pub drop_making-IsTracked :
    (max_browsers : ℕ) (s : Sessions) (k : Text) (m : Making) (ending : ℕ)
    → IsTracked max_browsers s
    → making_of k s.creating ≡ some m
    → ending ≡ s.ending + opening_in m.phase
    → IsTracked max_browsers (record (drop_making false k s) { ending = ending })
drop_making-IsTracked max_browsers s k m ending t made counted = record {
  attached = t.attached;
  once = λ j.
      omega (
        arith,
        t.once j,
        le-remove_by making_key_of (is_under making_key_of j) k s.creating m made,
      );
  counted =
      omega
        (arith, t.counted, counted, find_by-remove_by making_key_of is_opening k s.creating m made);
  room = omega (arith, t.room, le-remove_by making_key_of is_inside k s.creating m made);
}

-- A creation that ends with its session.
pub set_session-IsTracked :
    (max_browsers : ℕ) (s : Sessions) (k : Text) (now : ℕ) (m : Making)
    → IsTracked max_browsers s
    → making_of k s.creating ≡ some m
    → m.phase ≡ opening
    → IsTracked max_browsers (set_session k now (drop_making false k s))
set_session-IsTracked max_browsers s k now m t made e =
    rw (making-no_session max_browsers s k m t made) (record {
      attached = t.attached;
      once = λ j. omega (
        arith,
        t.once j,
        sum_by-append (is_under session_key_of j) s.sessions (b ∷ []),
        find_by-remove_by making_key_of (is_under making_key_of j) k s.creating m made,
        same j,
      );
      counted = omega (
        arith,
        t.counted,
        ap opening_in e,
        longer,
        find_by-remove_by making_key_of is_opening k s.creating m made,
      );
      room = omega (
        arith,
        t.room,
        ap inside_in e,
        longer,
        find_by-remove_by making_key_of is_inside k s.creating m made,
      );
    })
  where
    b : BrowserSession
    b = record { key = k; in_use = 0; last_used_at = now }

    same : (j : Text) → is_under making_key_of j m ≡ is_under session_key_of j b
    same j =
        ap (λ x. if same_text x j then 1 else 0) (find_by-key making_key_of k s.creating m made)

    longer : length (s.sessions ++ b ∷ []) ≡ length s.sessions + 1
    longer = length-append s.sessions (b ∷ [])
