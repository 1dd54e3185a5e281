-- ===== src/Worker/Sessions.antt =====
-- The browser sessions of the worker and the ones being made (src/worker.js): `getSession`, `closeSession`,
-- the rounds of `ensureBrowserCapacity` and the reaper, as the steps between two awaits. A key is the session
-- key. What is awaited may take any time. A session that dropped
-- out of the map is not followed further.
pub mod Tracked
pub mod Bounds
pub mod Phases
pub mod Interleaved
pub mod Starved
pub mod Revived
use one_gl.Prelude.{
  Text, ℕ, zero, suc, ◌+◌, ◌-◌, Bool, true, false, Option, none, some, List, [], ◌∷◌, ◌++◌,
  if◌then◌else◌, leb, length, map,
}
use one_gl.Worker.Capacity.{BrowserSession, Found, is_full, idle_by_age}
use one_gl.Prelude.Keyed.{find_by, remove_by, replace_by}

-- A caller of `getSession` that makes a browser: it waits in `ensureBrowserCapacity`, launches, or opens the
-- page of its browser.
pub data Phase : Type 0 where
  held_back launching opening : Phase

pub record Making : Type 0 where
  pub making_key : Text
  pub phase : Phase

-- `creating` is the map `sessionCreating`. A creation whose entry there is gone runs on, in `detached`.
-- `running` counts the browsers that run, and `ending` those of them whose close was called: each ends later,
-- or never, where the close fails, which the source ignores.
pub record Sessions : Type 0 where
  pub sessions : List BrowserSession
  pub creating : List Making
  pub detached : List Making
  pub running : ℕ
  pub ending : ℕ

abbrev pub no_sessions : Sessions
no_sessions = record { sessions = []; creating = []; detached = []; running = 0; ending = 0 }

abbrev pub session_of : Text → List BrowserSession → Option BrowserSession
session_of = find_by (λ (b : BrowserSession). b.key)

abbrev pub making_of : Text → List Making → Option Making
making_of = find_by (λ (m : Making). m.making_key)

abbrev pub detach_found : Text → Sessions → Option Making → Sessions
detach_found k s none = s
detach_found k s (some m) = record s {
  creating = remove_by (λ (m : Making). m.making_key) k s.creating;
  detached = s.detached ++ m ∷ [];
}

abbrev pub detach : Text → Sessions → Sessions
detach k s = detach_found k s (making_of k s.creating)

abbrev pub drop_found : Text → Sessions → Option BrowserSession → Sessions
drop_found k s none = s
drop_found k s (some b) = record s {
  sessions = remove_by (λ (b : BrowserSession). b.key) k s.sessions;
  ending = suc s.ending;
}

abbrev pub drop_session : Text → Sessions → Sessions
drop_session k s = drop_found k s (session_of k s.sessions)

unfoldable pub close_session : Text → Sessions → Sessions
close_session k s = drop_session k (detach k s)

abbrev pub found_in : Sessions → Found
found_in s = record { sessions = s.sessions; creating = length s.creating }

-- A full round closes the session that was idle longest, or sleeps.
unfoldable pub evict_first : Sessions → List BrowserSession → Sessions
unfolding close_session
evict_first s [] = s
evict_first s (b ∷ bs) = close_session b.key s

abbrev pub evict : Sessions → Sessions
evict s = evict_first s (idle_by_age s.sessions)

abbrev pub enter : Text → Phase → Sessions → Sessions
enter k p s = record s { creating = s.creating ++ record { making_key = k; phase = p } ∷ [] }

-- The first round is made before the caller enters the map.
unfoldable pub create : ℕ → Text → Sessions → Sessions
unfolding evict_first
create max_browsers k s =
    if is_full max_browsers (found_in s) then enter k held_back (evict s) else enter k launching s

-- Who finds a creation under its key waits for that one.
unfoldable pub join_found : ℕ → Text → Sessions → Option Making → Sessions
unfolding create
join_found max_browsers k s none = create max_browsers k s
join_found max_browsers k s (some m) = s

abbrev pub join_or_create : ℕ → Text → Sessions → Sessions
join_or_create max_browsers k s = join_found max_browsers k s (making_of k s.creating)

-- A session that is not healthy is closed and made again. Here nobody comes between the two; where others do,
-- the events are `closes` and `joins`.
unfoldable pub get_found : ℕ → Text → Bool → Sessions → Option BrowserSession → Sessions
unfolding join_found close_session
get_found max_browsers k healthy s none = join_or_create max_browsers k s
get_found max_browsers k healthy s (some b) =
    if healthy then s else join_or_create max_browsers k (close_session k s)

abbrev pub get_session : ℕ → Text → Bool → Sessions → Sessions
get_session max_browsers k healthy s = get_found max_browsers k healthy s (session_of k s.sessions)

-- The creations with an entry in the map, or those without one.
abbrev pub part : Bool → Sessions → List Making
part true s = s.detached
part false s = s.creating

abbrev pub with_part : Bool → List Making → Sessions → Sessions
with_part true ms s = record s { detached = ms }
with_part false ms s = record s { creating = ms }

abbrev pub to_phase : Phase → Making → Making
to_phase p m = record m { phase = p }

abbrev pub set_phase : Bool → Text → Phase → Sessions → Sessions
set_phase d k p s =
    with_part d (replace_by (λ (m : Making). m.making_key) k (to_phase p) (part d s)) s

abbrev pub drop_making : Bool → Text → Sessions → Sessions
drop_making d k s = with_part d (remove_by (λ (m : Making). m.making_key) k (part d s)) s

-- A later round of a caller that waits; it finds its own entry in the map.
unfoldable pub retry_round : ℕ → Bool → Text → Sessions → Sessions
unfolding evict_first
retry_round max_browsers d k s =
    if is_full max_browsers (found_in s) then evict s else set_phase d k launching s

abbrev pub launch : Bool → Text → Sessions → Sessions
launch d k s = record (set_phase d k opening s) { running = suc s.running }

abbrev pub used_at : ℕ → BrowserSession → BrowserSession
used_at now b = record b { in_use = 0; last_used_at = now }

-- `sessions.set`: an entry under the key is overwritten, and its browser is not closed.
abbrev pub set_found : Text → ℕ → Sessions → Option BrowserSession → Sessions
set_found k now s none = record s {
  sessions = s.sessions ++ record { key = k; in_use = 0; last_used_at = now } ∷ [];
}
set_found k now s (some b) = record s {
  sessions = replace_by (λ (b : BrowserSession). b.key) k (used_at now) s.sessions;
}

abbrev pub set_session : Text → ℕ → Sessions → Sessions
set_session k now s = set_found k now s (session_of k s.sessions)

-- The launch fails, the page does not open, or the wait for the ceiling times out: the browser, if there is
-- one, is closed.
abbrev pub give_up : Phase → Sessions → Sessions
give_up held_back s = s
give_up launching s = s
give_up opening s = record s { ending = suc s.ending }

pub data SessionEvent : Type 0 where
  gets : Text → Bool → SessionEvent
  retries launches fails : Bool → Text → SessionEvent
  opens : Bool → Text → ℕ → SessionEvent
  closes : Text → SessionEvent
  -- Who closed an unhealthy session goes on.
  joins : Text → SessionEvent
  -- The close of a browser succeeds.
  ends : SessionEvent
  reaps : ℕ → SessionEvent
  -- `inUse` and `lastUsedAt` of the session under a key, as `handleJob` writes them.
  uses : Text → ℕ → ℕ → SessionEvent

-- An event of a creation happens in the phase it belongs to.
unfoldable pub making_step : ℕ → SessionEvent → Phase → Sessions → Sessions
unfolding retry_round
making_step max_browsers (retries d k) held_back s = retry_round max_browsers d k s
making_step max_browsers (launches d k) launching s = launch d k s
making_step max_browsers (opens d k now) opening s = set_session k now (drop_making d k s)
making_step max_browsers (fails d k) p s = give_up p (drop_making d k s)
making_step max_browsers _ _ s = s

unfoldable pub with_found : ℕ → SessionEvent → Sessions → Option Making → Sessions
unfolding making_step
with_found max_browsers e s none = s
with_found max_browsers e s (some m) = making_step max_browsers e m.phase s

abbrev pub with_making : ℕ → SessionEvent → Bool → Text → Sessions → Sessions
with_making max_browsers e d k s = with_found max_browsers e s (making_of k (part d s))

-- One tick of the reaper: it looks at the time of the last use, and not at whether the session is in use.
unfoldable pub reap : ℕ → ℕ → List BrowserSession → Sessions → Sessions
unfolding close_session
reap idle_ms now [] s = s
reap idle_ms now (b ∷ bs) s =
    reap idle_ms now bs (if leb (b.last_used_at + idle_ms) now then close_session b.key s else s)

abbrev pub set_use : ℕ → ℕ → BrowserSession → BrowserSession
set_use n now b = record b { in_use = n; last_used_at = now }

abbrev pub end_one : ℕ → Sessions → Sessions
end_one zero s = s
end_one (suc n) s = record s { running = s.running - 1; ending = n }

unfoldable pub step : ℕ → ℕ → SessionEvent → Sessions → Sessions
unfolding get_found join_found with_found close_session reap
step max_browsers idle_ms (gets k healthy) s = get_session max_browsers k healthy s
step max_browsers idle_ms (retries d k) s = with_making max_browsers (retries d k) d k s
step max_browsers idle_ms (launches d k) s = with_making max_browsers (launches d k) d k s
step max_browsers idle_ms (fails d k) s = with_making max_browsers (fails d k) d k s
step max_browsers idle_ms (opens d k now) s = with_making max_browsers (opens d k now) d k s
step max_browsers idle_ms (closes k) s = close_session k s
step max_browsers idle_ms (joins k) s = join_or_create max_browsers k s
step max_browsers idle_ms ends s = end_one s.ending s
step max_browsers idle_ms (reaps now) s = reap idle_ms now s.sessions s
step max_browsers idle_ms (uses k n now) s = record s {
  sessions = replace_by (λ (b : BrowserSession). b.key) k (set_use n now) s.sessions;
}

unfoldable pub run : ℕ → ℕ → List SessionEvent → Sessions → Sessions
unfolding step
run max_browsers idle_ms [] s = s
run max_browsers idle_ms (e ∷ es) s = run max_browsers idle_ms es (step max_browsers idle_ms e s)
