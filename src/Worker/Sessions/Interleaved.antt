-- ===== src/Worker/Sessions/Interleaved.antt =====
-- However the events of the sessions interleave, every browser is tracked (src/worker.js).
use one_gl.Prelude.{
  zero, Text, ℕ, suc, ◌+◌, ◌≤◌, ◌≡◌, refl, sym, ap, subst, true, false, Option, none, some, List,
  [], ◌∷◌, leb, length, sum_by, arith, if-cases, if-both, All,
}
use one_gl.Worker.Capacity.{BrowserSession, is_full}
use one_gl.Worker.Sessions.{
  Phase, held_back, launching, opening, Making, Sessions, no_sessions, making_of, close_session,
  found_in, drop_making, retry_round, give_up, SessionEvent, gets, retries, launches, fails, opens,
  closes, joins, ends, end_one, reaps, uses, making_step, with_found, with_making, reap, set_use,
  step, run,
}
use one_gl.Prelude.Keyed.{
  find_by-absent, find_by, replace_by, is_under, replace_by-keeps, sum_by-one, sum_by-le,
}
use one_gl.Worker.Sessions.Tracked.{
  session_key_of, inside_in, opening_in, is_inside, is_opening, IsTracked, IsCalm, AllCalm,
  sessions-not_made, close_session-IsTracked, close_session-IsClosing, evict-IsTracked,
}
use one_gl.Worker.Sessions.Bounds.{
  join_or_create-IsTracked, get_session-IsTracked, inside-le-length,
}
use one_gl.Worker.Sessions.Phases.{
  set_phase-IsTracked, drop_making-IsTracked, set_session-IsTracked,
}

retry_round-IsTracked :
    (max_browsers : ℕ) (s : Sessions) (k : Text) (m : Making)
    → IsTracked max_browsers s
    → making_of k s.creating ≡ some m
    → m.phase ≡ held_back
    → IsTracked max_browsers (retry_round max_browsers false k s)
unfolding retry_round
retry_round-IsTracked max_browsers s k m t made e =
    if-cases (IsTracked max_browsers) (is_full max_browsers (found_in s))
      (λ _. (evict-IsTracked max_browsers s t).0)
      (λ free.
        set_phase-IsTracked max_browsers s k launching m s.running t made
          (omega (arith, ap opening_in e))
          (omega (arith, ap inside_in e, space free (inside-le-length s.creating))))
  where
    space :
        is_full max_browsers (found_in s) ≡ false
        → sum_by is_inside s.creating ≤ length s.creating
        → length s.sessions + sum_by is_inside s.creating + 1 ≤ max_browsers
    space free le = ground arith

-- The end of a creation in any phase.
fails-IsTracked :
    (max_browsers : ℕ) (s : Sessions) (k : Text) (m : Making) (p : Phase)
    → IsTracked max_browsers s
    → making_of k s.creating ≡ some m
    → m.phase ≡ p
    → IsTracked max_browsers (give_up p (drop_making false k s))
fails-IsTracked max_browsers s k m held_back t made e =
    drop_making-IsTracked max_browsers s k m s.ending t made (omega (arith, ap opening_in e))
fails-IsTracked max_browsers s k m launching t made e =
    drop_making-IsTracked max_browsers s k m s.ending t made (omega (arith, ap opening_in e))
fails-IsTracked max_browsers s k m opening t made e =
    drop_making-IsTracked max_browsers s k m (suc s.ending) t made (omega (arith, ap opening_in e))

reap-IsTracked :
    (max_browsers idle_ms now : ℕ) (bs : List BrowserSession) (s : Sessions)
    → IsTracked max_browsers s
    → All (λ b. making_of b.key s.creating ≡ none) bs
    → IsTracked max_browsers (reap idle_ms now bs s)
unfolding reap
reap-IsTracked max_browsers idle_ms now [] s t h = t
reap-IsTracked max_browsers idle_ms now (b ∷ bs) s t h =
    let c = close_session-IsClosing s b.key h.0 in
    if-both (λ s'. IsTracked max_browsers (reap idle_ms now bs s'))
      (leb (b.last_used_at + idle_ms) now)
      (reap-IsTracked max_browsers idle_ms now bs (close_session b.key s)
        (close_session-IsTracked max_browsers s b.key h.0 t)
        (subst (λ ms. All (λ x. making_of x.key ms ≡ none) bs) (sym c.creations) h.1))
      (reap-IsTracked max_browsers idle_ms now bs s t h.1)

uses-IsTracked :
    (max_browsers n now : ℕ) (k : Text) (s : Sessions)
    → IsTracked max_browsers s
    → IsTracked max_browsers
        (record s { sessions = replace_by session_key_of k (set_use n now) s.sessions })
uses-IsTracked max_browsers n now k s t =
    let same = replace_by-keeps session_key_of (λ _. 1) k (set_use n now) s.sessions (λ _. refl) in
    let long = sum_by-one s.sessions in
    let long' = sum_by-one (replace_by session_key_of k (set_use n now) s.sessions) in
    record {
      attached = t.attached;
      once = λ j. omega (
        arith,
        t.once j,
        replace_by-keeps session_key_of (is_under session_key_of j) k (set_use n now) s.sessions
            (λ _. refl),
      );
      counted = omega (arith, t.counted, same, long, long');
      room = omega (arith, t.room, same, long, long');
    }

module _ (max_browsers : ℕ) (s : Sessions) (t : IsTracked max_browsers s) where
  -- Without a creation that lost its entry, the events of such a one find nothing.
  detached-IsTracked :
      (e : SessionEvent) (k : Text) → IsTracked max_browsers (with_making max_browsers e true k s)
  unfolding with_found find_by
  detached-IsTracked e k =
      subst (λ ms. IsTracked max_browsers (with_found max_browsers e s (making_of k ms)))
        (sym t.attached) t

  attached-IsTracked :
      (e : SessionEvent) (k : Text)
      → ((m : Making)
          → making_of k s.creating ≡ some m
          → IsTracked max_browsers (making_step max_browsers e m.phase s))
      → IsTracked max_browsers (with_making max_browsers e false k s)
  unfolding with_found
  attached-IsTracked e k h = cases (making_of k s.creating) refl
    where
      cases :
          (o : Option Making)
          → making_of k s.creating ≡ o
          → IsTracked max_browsers (with_found max_browsers e s o)
      cases none f = t
      cases (some m) f = h m f

end_one-IsTracked :
    (max_browsers n : ℕ) (s : Sessions)
    → IsTracked max_browsers s
    → s.ending ≡ n
    → IsTracked max_browsers (end_one n s)
end_one-IsTracked max_browsers zero s t e = t
end_one-IsTracked max_browsers (suc n) s t e = record {
  attached = t.attached;
  once = t.once;
  counted = omega (arith, t.counted, e);
  room = t.room;
}

-- One step keeps every browser tracked, if it closes nothing that is being made.
pub step-IsTracked :
    (max_browsers idle_ms : ℕ) (e : SessionEvent) (s : Sessions)
    → IsTracked max_browsers s
    → IsCalm e s
    → IsTracked max_browsers (step max_browsers idle_ms e s)
unfolding step making_step
step-IsTracked max_browsers idle_ms (gets k healthy) s t c =
    get_session-IsTracked max_browsers s k healthy t
step-IsTracked max_browsers idle_ms (retries true k) s t c =
    detached-IsTracked max_browsers s t (retries true k) k
step-IsTracked max_browsers idle_ms (launches true k) s t c =
    detached-IsTracked max_browsers s t (launches true k) k
step-IsTracked max_browsers idle_ms (fails true k) s t c =
    detached-IsTracked max_browsers s t (fails true k) k
step-IsTracked max_browsers idle_ms (opens true k now) s t c =
    detached-IsTracked max_browsers s t (opens true k now) k
step-IsTracked max_browsers idle_ms (retries false k) s t c =
    attached-IsTracked max_browsers s t (retries false k) k (λ m made. phase m made m.phase refl)
  where
    phase :
        (m : Making)
        → making_of k s.creating ≡ some m
        → (p : Phase) → m.phase ≡ p
        → IsTracked max_browsers (making_step max_browsers (retries false k) p s)
    phase m made held_back e = retry_round-IsTracked max_browsers s k m t made e
    phase m made launching e = t
    phase m made opening e = t
step-IsTracked max_browsers idle_ms (launches false k) s t c =
    attached-IsTracked max_browsers s t (launches false k) k (λ m made. phase m made m.phase refl)
  where
    phase :
        (m : Making)
        → making_of k s.creating ≡ some m
        → (p : Phase) → m.phase ≡ p
        → IsTracked max_browsers (making_step max_browsers (launches false k) p s)
    phase m made held_back e = t
    phase m made launching e =
        set_phase-IsTracked max_browsers s k opening m (suc s.running) t made
          (omega (arith, ap opening_in e)) (omega (arith, t.room, ap inside_in e))
    phase m made opening e = t
step-IsTracked max_browsers idle_ms (fails false k) s t c =
    attached-IsTracked max_browsers s t (fails false k) k
      (λ m made. fails-IsTracked max_browsers s k m m.phase t made refl)
step-IsTracked max_browsers idle_ms (opens false k now) s t c =
    attached-IsTracked max_browsers s t (opens false k now) k (λ m made. phase m made m.phase refl)
  where
    phase :
        (m : Making)
        → making_of k s.creating ≡ some m
        → (p : Phase) → m.phase ≡ p
        → IsTracked max_browsers (making_step max_browsers (opens false k now) p s)
    phase m made held_back e = t
    phase m made launching e = t
    phase m made opening e = set_session-IsTracked max_browsers s k now m t made e
step-IsTracked max_browsers idle_ms (closes k) s t c = close_session-IsTracked max_browsers s k c t
step-IsTracked max_browsers idle_ms (joins k) s t c =
    join_or_create-IsTracked max_browsers s k t (find_by-absent session_key_of k s.sessions c)
step-IsTracked max_browsers idle_ms ends s t c = end_one-IsTracked max_browsers s.ending s t refl
step-IsTracked max_browsers idle_ms (reaps now) s t c =
    reap-IsTracked max_browsers idle_ms now s.sessions s t (sessions-not_made max_browsers s t)
step-IsTracked max_browsers idle_ms (uses k n now) s t c = uses-IsTracked max_browsers n now k s t

run-IsTracked :
    (max_browsers idle_ms : ℕ) (es : List SessionEvent) (s : Sessions)
    → IsTracked max_browsers s
    → AllCalm max_browsers idle_ms es s
    → IsTracked max_browsers (run max_browsers idle_ms es s)
unfolding run
run-IsTracked max_browsers idle_ms [] s t c = t
run-IsTracked max_browsers idle_ms (e ∷ es) s t c =
    run-IsTracked max_browsers idle_ms es (step max_browsers idle_ms e s)
      (step-IsTracked max_browsers idle_ms e s t c.0) c.1

no_sessions-IsTracked : (max_browsers : ℕ) → IsTracked max_browsers no_sessions
no_sessions-IsTracked max_browsers = record {
  attached = refl;
  once = λ k. omega arith;
  counted = refl;
  room = omega arith;
}

opening-le-inside : (ms : List Making) → sum_by is_opening ms ≤ sum_by is_inside ms
opening-le-inside ms = sum_by-le is_opening is_inside ms (λ m. at_most m.phase)
  where
    at_most : (p : Phase) → opening_in p ≤ inside_in p
    at_most held_back = omega arith
    at_most launching = omega arith
    at_most opening = omega arith

-- From the start, whatever happens in whatever order and however long it takes: if nothing is closed
-- while it is being made, and under no key a session was made while an unhealthy one was being closed, then
-- each browser that runs is that of a session in the map, or of a creation in the map of creations, or its
-- close was called and has not succeeded yet, or never does; a key has one session or one creation at most;
-- the sessions and the creations that have passed the ceiling are together no more than the ceiling; and so
-- no more browsers run than the ceiling and those whose close has not succeeded.
pub run-no_sessions-IsTracked :
    (max_browsers idle_ms : ℕ) (es : List SessionEvent)
    → AllCalm max_browsers idle_ms es no_sessions
    → IsTracked max_browsers (run max_browsers idle_ms es no_sessions)
      × ((run max_browsers idle_ms es no_sessions).running
          ≤ max_browsers + (run max_browsers idle_ms es no_sessions).ending)
run-no_sessions-IsTracked max_browsers idle_ms es c =
    let s = run max_browsers idle_ms es no_sessions in
    let t =
      run-IsTracked max_browsers idle_ms es no_sessions (no_sessions-IsTracked max_browsers) c in
    (t, omega (arith, t.counted, t.room, opening-le-inside s.creating))
