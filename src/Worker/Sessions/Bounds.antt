-- ===== src/Worker/Sessions/Bounds.antt =====
-- The steps of the browser sessions (src/worker.js) keep every browser tracked, and no more than the ceiling.
use one_gl.Prelude.{
  Text, ℕ, ◌+◌, ◌≤◌, ◌≡◌, refl, ap, subst, Bool, false, Option, none, some, List, [], ◌∷◌, length,
  sum_by, arith, if-cases, if-both, Bool-cases, inl, inr,
}
use one_gl.Worker.Capacity.{BrowserSession, is_full}
use one_gl.Worker.Sessions.{
  Phase, held_back, launching, opening, Making, Sessions, session_of, making_of, detach,
  close_session, found_in, evict, enter, create, join_found, join_or_create, get_found, get_session,
}
use one_gl.Prelude.Keyed.{
  same_text, same_text_sound, is_under, find_by-remove_by, find_by-absent, sum_by-append,
  sum_by-one, sum_by-le,
}
use one_gl.Worker.Sessions.Tracked.{
  session_key_of, making_key_of, inside_in, is_inside, is_opening, under, IsTracked, is_under-found,
  session-not_made, close_session-IsTracked, evict-IsTracked,
}

-- The entry of a creation under a key that has none yet and no session.
enter-IsTracked :
    (max_browsers : ℕ) (s : Sessions) (k : Text) (p : Phase)
    → IsTracked max_browsers s
    → under k s ≡ 0
    → is_opening (record { making_key = k; phase = p }) ≡ 0
    → length s.sessions
        + sum_by is_inside s.creating
        + is_inside (record { making_key = k; phase = p })
      ≤ max_browsers
    → IsTracked max_browsers (enter k p s)
enter-IsTracked max_browsers s k p t fresh unopened room = record {
  attached = t.attached;
  once = alone;
  counted = omega (arith, t.counted, unopened, sum_by-append is_opening s.creating (m ∷ []));
  room = omega (arith, room, sum_by-append is_inside s.creating (m ∷ []));
}
  where
    m : Making
    m = record { making_key = k; phase = p }

    alone : (j : Text) → under j (enter k p s) ≤ 1
    alone j =
        let more = sum_by-append (is_under making_key_of j) s.creating (m ∷ []) in
        elim (Bool-cases (same_text k j)) [
          | inl e ↦
              let one : is_under making_key_of j m ≡ 1 = rw e refl in
              omega (arith, more, one, subst (λ i. under i s ≡ 0) (same_text_sound k j e) fresh)
          | inr e ↦
              let none_of_it : is_under making_key_of j m ≡ 0 = rw e refl in
              omega (arith, more, none_of_it, t.once j)
        ]

pub inside-le-length : (ms : List Making) → sum_by is_inside ms ≤ length ms
inside-le-length ms =
    omega (arith, sum_by-one ms, sum_by-le is_inside (λ _. 1) ms (λ m. at_most m.phase))
  where
    at_most : (p : Phase) → inside_in p ≤ 1
    at_most held_back = omega arith
    at_most launching = omega arith
    at_most opening = omega arith

create-IsTracked :
    (max_browsers : ℕ) (s : Sessions) (k : Text)
    → IsTracked max_browsers s
    → under k s ≡ 0
    → IsTracked max_browsers (create max_browsers k s)
unfolding create
create-IsTracked max_browsers s k t fresh =
    let (e, c) = evict-IsTracked max_browsers s t in
    if-cases (IsTracked max_browsers) (is_full max_browsers (found_in s))
      (λ full.
        enter-IsTracked max_browsers (evict s) k held_back e
          (omega (arith, fresh, c.fewer k, ap (sum_by (is_under making_key_of k)) c.creations)) refl
          (omega (arith, e.room)))
      (λ free.
        enter-IsTracked max_browsers s k launching t fresh refl
          (space free (inside-le-length s.creating)))
  where
    space :
        is_full max_browsers (found_in s) ≡ false
        → sum_by is_inside s.creating ≤ length s.creating
        → length s.sessions + sum_by is_inside s.creating + 1 ≤ max_browsers
    space free le = ground arith

pub join_or_create-IsTracked :
    (max_browsers : ℕ) (s : Sessions) (k : Text)
    → IsTracked max_browsers s
    → sum_by (is_under session_key_of k) s.sessions ≡ 0
    → IsTracked max_browsers (join_or_create max_browsers k s)
unfolding join_found
join_or_create-IsTracked max_browsers s k t fresh = cases (making_of k s.creating) refl
  where
    cases :
        (o : Option Making)
        → making_of k s.creating ≡ o
        → IsTracked max_browsers (join_found max_browsers k s o)
    cases none e =
        create-IsTracked max_browsers s k t
          (omega (arith, fresh, find_by-absent making_key_of k s.creating e))
    cases (some m) e = t

pub get_session-IsTracked :
    (max_browsers : ℕ) (s : Sessions) (k : Text) (healthy : Bool)
    → IsTracked max_browsers s
    → IsTracked max_browsers (get_session max_browsers k healthy s)
unfolding get_found close_session
get_session-IsTracked max_browsers s k healthy t = cases (session_of k s.sessions) refl
  where
    closed :
        (b : BrowserSession)
        → session_of k s.sessions ≡ some b
        → (making_of k s.creating ≡ none)
          × (sum_by (is_under session_key_of k) (close_session k s).sessions ≡ 0)
    closed b e =
        let found = is_under-found session_key_of k s.sessions b e in
        let less = find_by-remove_by session_key_of (is_under session_key_of k) k s.sessions b e in
        let none_made = session-not_made max_browsers s k t (omega (arith, found, less)) in
        (none_made, rw (none_made, detach, e) (omega (arith, found, less, t.once k)))

    cases :
        (o : Option BrowserSession)
        → session_of k s.sessions ≡ o
        → IsTracked max_browsers (get_found max_browsers k healthy s o)
    cases none e =
        join_or_create-IsTracked max_browsers s k t (find_by-absent session_key_of k s.sessions e)
    cases (some b) e = if-both (IsTracked max_browsers) healthy t (
        join_or_create-IsTracked max_browsers (close_session k s) k
          (close_session-IsTracked max_browsers s k (closed b e).0 t) (closed b e).1)
