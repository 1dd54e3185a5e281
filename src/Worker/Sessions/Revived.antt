-- ===== src/Worker/Sessions/Revived.antt =====
-- A close while a session is being made (src/worker.js).
use one_gl.Prelude.{Text, ℕ, ◌≡◌, refl, ◌∙◌, true, none, some, List, [], ◌∷◌, ◌++◌}
use one_gl.Worker.Capacity.{BrowserSession}
use one_gl.Worker.Sessions.{
  opening, Making, Sessions, session_of, making_of, detach, close_session, opens, closes,
  making_step, with_found, step, run,
}
use one_gl.Prelude.Keyed.{find_by-key, find_by-append, find_by-single}
use one_gl.Worker.Sessions.Tracked.{session_key_of, making_key_of, IsTracked}
use one_gl.Worker.Sessions.Phases.{making-no_session}

find_by-found :
    (k : Text) (b : BrowserSession) (ss : List BrowserSession)
    → session_of k ss ≡ none
    → b.key ≡ k
    → session_of k (ss ++ b ∷ []) ≡ some b
find_by-found k b ss h e =
    find_by-append session_key_of k ss (b ∷ []) h ∙ find_by-single session_key_of k b e

-- Where every browser is tracked, the close of a key whose page is being opened does not hold:
-- when the page is open, the creation that lost its entry puts its session into the map, and its
-- browser runs on.
pub close_session-revives :
    (max_browsers idle_ms now : ℕ) (s : Sessions) (k : Text) (m : Making)
    → IsTracked max_browsers s
    → making_of k s.creating ≡ some m
    → m.phase ≡ opening
    → (session_of k (run max_browsers idle_ms (closes k ∷ opens true k now ∷ []) s).sessions
        ≡ some (record { key = k; in_use = 0; last_used_at = now }))
      × ((run max_browsers idle_ms (closes k ∷ opens true k now ∷ []) s).running ≡ s.running)
unfolding run step close_session with_found making_step
close_session-revives max_browsers idle_ms now s k m t made e =
    let absent = making-no_session max_browsers s k m t made in
    let single = find_by-single making_key_of k m (find_by-key making_key_of k s.creating m made) in
    let b : BrowserSession = record { key = k; in_use = 0; last_used_at = now } in
    rw (detach, made, t.attached, absent, single, e, absent)
      (find_by-found k b s.sessions absent refl, refl)
