-- ===== src/Tests/Browsers.antt =====
-- Browser sessions of the worker.
use one_gl.Prelude.{
  ◌+◌, ◌≡◌, ◌≤◌, refl, true, false, none, some, List, [], ◌∷◌, codes, Text, arith, length,
}
use one_gl.Prelude.Keyed.{find_by, remove_by, replace_by}
use one_gl.Worker.Capacity.{idle_by_age}
use one_gl.Worker.Sessions.{
  opening, Sessions, no_sessions, session_of, SessionEvent, gets, retries, launches, opens, closes,
  reaps, uses, run,
}
use one_gl.Worker.Sessions.Tracked.{IsTracked}
use one_gl.Worker.Sessions.Interleaved.{run-no_sessions-IsTracked}
use one_gl.Worker.Sessions.Starved.{IsStarved, run-IsStarved}
use one_gl.Worker.Sessions.Revived.{close_session-revives}
use one_gl.Worker.Window.{WindowConfig, WindowEvent, prompts, loses, enters}

abbrev a : Text
a = codes "a"

abbrev b : Text
b = codes "b"

-- One account has its session, and a second one makes its own; the first is reaped.
abbrev mixed : List SessionEvent
mixed =
    gets a true
    ∷ launches false a
    ∷ opens false a 10
    ∷ uses a 1 20
    ∷ uses a 0 90
    ∷ gets b true
    ∷ launches false b
    ∷ reaps 1000
    ∷ opens false b 1001
    ∷ closes b
    ∷ []

run-no_sessions-IsTracked_example :
    IsTracked 2 (run 2 500 mixed no_sessions)
    × ((run 2 500 mixed no_sessions).running ≤ 2 + (run 2 500 mixed no_sessions).ending)
unfolding run idle_by_age find_by remove_by replace_by
run-no_sessions-IsTracked_example =
    run-no_sessions-IsTracked 2 500 mixed
      (tt, (tt, (tt, (tt, (tt, (tt, (tt, (tt, (tt, (refl, tt))))))))))

-- With a ceiling of one browser, the second account closes the session of the first and then waits for itself.
abbrev filled : List SessionEvent
filled = gets a true ∷ launches false a ∷ opens false a 10 ∷ gets b true ∷ []

filled-IsStarved : IsStarved 1 (run 1 500 filled no_sessions)
unfolding run idle_by_age find_by remove_by replace_by
filled-IsStarved = record {
  tracked = (run-no_sessions-IsTracked 1 500 filled (tt, (tt, (tt, (tt, tt))))).0;
  many = omega (arith, one);
  waiting = refl;
}
  where
    one : length (run 1 500 filled no_sessions).creating ≡ 1
    one = refl

run-IsStarved_example : IsStarved 1 (
    run 1 500 (retries false b ∷ gets a true ∷ retries false b ∷ []) (run 1 500 filled no_sessions))
run-IsStarved_example =
    run-IsStarved 1 500 (retries false b ∷ gets a true ∷ retries false b ∷ [])
      (run 1 500 filled no_sessions) filled-IsStarved (tt, (tt, (tt, tt)))

abbrev opened : List SessionEvent
opened = gets a true ∷ launches false a ∷ []

abbrev half_open : Sessions
half_open = record {
  sessions = [];
  creating = record { making_key = a; phase = opening } ∷ [];
  detached = [];
  running = 1;
  ending = 0;
}

half_open-IsTracked : IsTracked 2 half_open
unfolding run idle_by_age find_by remove_by replace_by
half_open-IsTracked = (run-no_sessions-IsTracked 2 500 opened (tt, (tt, tt))).0

close_session-revives_example :
    (session_of a (run 2 500 (closes a ∷ opens true a 30 ∷ []) half_open).sessions
      ≡ some (record { key = a; in_use = 0; last_used_at = 30 }))
    × ((run 2 500 (closes a ∷ opens true a 30 ∷ []) half_open).running ≡ half_open.running)
unfolding find_by
close_session-revives_example =
    close_session-revives 2 500 30 half_open a (record { making_key = a; phase = opening })
      half_open-IsTracked refl refl

abbrev anonymous_window : WindowConfig
anonymous_window = record {
  window_reset_every = 2;
  anonymous = true;
  profile_limit = none;
  round_prompt_limit = 1;
}

abbrev slot_history : List WindowEvent
slot_history =
    prompts true true
    ∷ loses
    ∷ prompts true true
    ∷ prompts false true
    ∷ prompts true false
    ∷ enters 4
    ∷ prompts true true
    ∷ []
