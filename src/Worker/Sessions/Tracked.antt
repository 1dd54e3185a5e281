-- ===== src/Worker/Sessions/Tracked.antt =====
-- Every browser of the worker is one of a session or of a creation, and there are no more than the ceiling
-- (src/worker.js).
use one_gl.Prelude.{
  All-weaken, Text, ℕ, suc, ◌+◌, ◌≤◌, ◌≡◌, refl, sym, ap, subst, ◌∙◌, Option, none, some, List, [],
  ◌∷◌, if◌then◌else◌, ◌==◌, length, sum_by, arith, if-both, All, All-sort_by, larger,
}
use one_gl.Worker.Capacity.{BrowserSession, idle_sessions, idle_by_age}
use one_gl.Worker.Sessions.{
  Phase, held_back, launching, opening, Making, Sessions, session_of, making_of, detach, drop_found,
  drop_session, close_session, evict_first, evict, SessionEvent, closes, joins, step,
}
use one_gl.Prelude.Keyed.{
  same_text, same_text_refl, find_by, remove_by, is_under, find_by-remove_by, find_by-key,
  sum_by-one,
}

abbrev pub session_key_of : BrowserSession → Text
session_key_of b = b.key

abbrev pub making_key_of : Making → Text
making_key_of m = m.making_key

abbrev pub inside_in : Phase → ℕ
inside_in held_back = 0
inside_in launching = 1
inside_in opening = 1

abbrev pub opening_in : Phase → ℕ
opening_in held_back = 0
opening_in launching = 0
opening_in opening = 1

-- A creation that has passed the ceiling.
abbrev pub is_inside : Making → ℕ
is_inside m = inside_in m.phase

-- A creation whose browser runs.
abbrev pub is_opening : Making → ℕ
is_opening m = opening_in m.phase

-- The sessions and the creations under a key.
abbrev pub under : Text → Sessions → ℕ
under k s =
    sum_by (is_under session_key_of k) s.sessions + sum_by (is_under making_key_of k) s.creating

pub record IsTracked (max_browsers : ℕ) (s : Sessions) : Type 0 where
  pub attached : s.detached ≡ []
  pub once : (k : Text) → under k s ≤ 1
  pub counted : s.running ≡ (length s.sessions + sum_by is_opening s.creating) + s.ending
  pub room : length s.sessions + sum_by is_inside s.creating ≤ max_browsers

-- A close of a key under which nothing is being made; and no other session that was made under a key while an
-- unhealthy one was being closed.
abbrev pub IsCalm : SessionEvent → Sessions → Type 0
IsCalm (closes k) s = making_of k s.creating ≡ none
IsCalm (joins k) s = session_of k s.sessions ≡ none
IsCalm _ s = Unit

abbrev pub AllCalm : ℕ → ℕ → List SessionEvent → Sessions → Type 0
AllCalm max_browsers idle_ms [] s = Unit
AllCalm max_browsers idle_ms (e ∷ es) s =
    IsCalm e s × AllCalm max_browsers idle_ms es (step max_browsers idle_ms e s)

length-remove_by :
    {A : Type 0} (key_of : A → Text) (k : Text) (xs : List A) (x : A)
    → find_by key_of k xs ≡ some x
    → suc (length (remove_by key_of k xs)) ≡ length xs
length-remove_by key_of k xs x h = omega (
  arith,
  find_by-remove_by key_of (λ _. 1) k xs x h,
  sum_by-one xs,
  sum_by-one (remove_by key_of k xs),
)

is_under_self : {A : Type 0} (key_of : A → Text) (x : A) → is_under key_of (key_of x) x ≡ 1
is_under_self key_of x = rw (same_text_refl (key_of x)) refl

pub is_under-found :
    {A : Type 0} (key_of : A → Text) (k : Text) (xs : List A) (x : A)
    → find_by key_of k xs ≡ some x
    → is_under key_of k x ≡ 1
is_under-found key_of k xs x h =
    ap (λ b. if b then 1 else 0)
      (ap (λ t. same_text t k) (find_by-key key_of k xs x h) ∙ same_text_refl k)

pub le-remove_by :
    {A : Type 0} (key_of : A → Text) (f : A → ℕ) (k : Text) (xs : List A) (x : A)
    → find_by key_of k xs ≡ some x
    → sum_by f (remove_by key_of k xs) ≤ sum_by f xs
le-remove_by key_of f k xs x h = omega (arith, find_by-remove_by key_of f k xs x h)

-- Where a key has a session, nothing is being made under it.
pub session-not_made :
    (max_browsers : ℕ) (s : Sessions) (k : Text)
    → IsTracked max_browsers s
    → 1 ≤ sum_by (is_under session_key_of k) s.sessions
    → making_of k s.creating ≡ none
session-not_made max_browsers s k t h = cases (making_of k s.creating) refl
  where
    cases : (o : Option Making) → making_of k s.creating ≡ o → o ≡ none
    cases none e = refl
    cases (some m) e = absurd (
        omega (
          arith,
          h,
          t.once k,
          find_by-remove_by making_key_of (is_under making_key_of k) k s.creating m e,
          is_under-found making_key_of k s.creating m e,
        ))

sessions-known :
    (ss : List BrowserSession) → All (λ b. 1 ≤ sum_by (is_under session_key_of b.key) ss) ss
sessions-known [] = tt
sessions-known (b ∷ ss) = (
  omega (arith, is_under_self session_key_of b),
  All-weaken ss (λ x h. omega (arith, h)) (sessions-known ss),
)

pub sessions-not_made :
    (max_browsers : ℕ) (s : Sessions)
    → IsTracked max_browsers s
    → All (λ b. making_of b.key s.creating ≡ none) s.sessions
sessions-not_made max_browsers s t =
    All-weaken s.sessions (λ b h. session-not_made max_browsers s b.key t h)
      (sessions-known s.sessions)

drop_session-IsTracked :
    (max_browsers : ℕ) (s : Sessions) (k : Text)
    → IsTracked max_browsers s
    → IsTracked max_browsers (drop_session k s)
drop_session-IsTracked max_browsers s k t = cases (session_of k s.sessions) refl
  where
    cases :
        (o : Option BrowserSession)
        → session_of k s.sessions ≡ o
        → IsTracked max_browsers (drop_found k s o)
    cases none e = t
    cases (some b) e =
        let fewer = length-remove_by session_key_of k s.sessions b e in
        record {
          attached = t.attached;
          once = λ j. omega (
            arith,
            t.once j,
            le-remove_by session_key_of (is_under session_key_of j) k s.sessions b e,
          );
          counted = omega (arith, t.counted, fewer);
          room = omega (arith, t.room, fewer);
        }

pub close_session-IsTracked :
    (max_browsers : ℕ) (s : Sessions) (k : Text)
    → making_of k s.creating ≡ none
    → IsTracked max_browsers s
    → IsTracked max_browsers (close_session k s)
unfolding close_session
close_session-IsTracked max_browsers s k none_made t =
    subst (λ s'. IsTracked max_browsers (drop_session k s')) (sym same)
      (drop_session-IsTracked max_browsers s k t)
  where
    same : detach k s ≡ s
    same = rw (none_made, detach) refl

-- The creations are kept, and there are no more sessions under any key.
pub record IsClosing (s t : Sessions) : Type 0 where
  pub creations : t.creating ≡ s.creating
  pub fewer :
      (j : Text)
      → sum_by (is_under session_key_of j) t.sessions
        ≤ sum_by (is_under session_key_of j) s.sessions

pub close_session-IsClosing :
    (s : Sessions) (k : Text) → making_of k s.creating ≡ none → IsClosing s (close_session k s)
unfolding close_session
close_session-IsClosing s k none_made = rw (none_made, detach) (kept (session_of k s.sessions) refl)
  where
    kept :
        (o : Option BrowserSession) → session_of k s.sessions ≡ o → IsClosing s (drop_found k s o)
    kept none e = record { creations = refl; fewer = λ j. omega arith }
    kept (some b) e = record {
      creations = refl;
      fewer = λ j. le-remove_by session_key_of (is_under session_key_of j) k s.sessions b e;
    }

All-idle_sessions :
    (P : BrowserSession → Type 0) (ss : List BrowserSession) → All P ss → All P (idle_sessions ss)
unfolding idle_sessions
All-idle_sessions P [] h = tt
All-idle_sessions P (b ∷ ss) h =
    if-both (All P) (b.in_use == 0) (h.0, All-idle_sessions P ss h.1) (All-idle_sessions P ss h.1)

-- An eviction keeps the invariant and the creations.
pub evict-IsTracked :
    (max_browsers : ℕ) (s : Sessions)
    → IsTracked max_browsers s
    → IsTracked max_browsers (evict s) × IsClosing s (evict s)
unfolding evict_first idle_by_age
evict-IsTracked max_browsers s t = cases (idle_by_age s.sessions) (
    All-sort_by (λ b. making_of b.key s.creating ≡ none) (larger (λ b. b.last_used_at))
      (idle_sessions s.sessions)
      (All-idle_sessions (λ b. making_of b.key s.creating ≡ none) s.sessions
        (sessions-not_made max_browsers s t)))
  where
    cases :
        (bs : List BrowserSession)
        → All (λ b. making_of b.key s.creating ≡ none) bs
        → IsTracked max_browsers (evict_first s bs) × IsClosing s (evict_first s bs)
    cases [] h = (t, record { creations = refl; fewer = λ j. omega arith })
    cases (b ∷ rest) h =
        (close_session-IsTracked max_browsers s b.key h.0 t, close_session-IsClosing s b.key h.0)
