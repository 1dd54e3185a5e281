-- ===== src/Worker/Sessions/Starved.antt =====
-- Callers that wait for the ceiling of the browsers (src/worker.js) can wait for each other.
use one_gl.Prelude.{
  zero, suc, Text, ℕ, ◌+◌, ◌≤◌, ◌⊎◌, ◌≡◌, refl, sym, ap, subst, ◌∙◌, Bool, true, false, Option,
  none, some, List, [], ◌∷◌, ◌++◌, leb, length, sum_by, arith, if-cases, if-both, inl, inr,
  length-append, All,
}
use one_gl.Worker.Capacity.{BrowserSession, is_full}
use one_gl.Worker.Sessions.{
  Phase, held_back, launching, opening, Making, Sessions, session_of, making_of, close_session,
  found_in, create, join_found, join_or_create, get_found, get_session, retry_round, SessionEvent,
  gets, retries, launches, fails, opens, closes, joins, ends, end_one, reaps, uses, making_step,
  with_found, with_making, reap, step, run,
}
use one_gl.Prelude.Keyed.{find_by, is_under, find_by-remove_by, sum_by-append}
use one_gl.Worker.Sessions.Tracked.{
  session_key_of, making_key_of, inside_in, is_inside, IsTracked, IsCalm, is_under-found,
  session-not_made, sessions-not_made, close_session-IsTracked, close_session-IsClosing,
  evict-IsTracked,
}
use mathlib.Core.Bool.{true≢false}
use one_gl.Worker.Sessions.Interleaved.{step-IsTracked}

-- As many creations wait as there may be browsers, and none is inside.
pub record IsStarved (max_browsers : ℕ) (s : Sessions) : Type 0 where
  pub tracked : IsTracked max_browsers s
  pub many : max_browsers ≤ length s.creating
  pub waiting : sum_by is_inside s.creating ≡ 0

-- Every event but the end of a wait, a close, and what follows a close.
abbrev pub IsPatient : SessionEvent → Type 0
IsPatient (fails d k) = ⊥
IsPatient (closes k) = ⊥
IsPatient (joins k) = ⊥
IsPatient _ = Unit

-- No creation goes in or out; one may come to wait.
abbrev Grown : Sessions → Sessions → Type 0
Grown s t =
    (t.creating ≡ s.creating)
    ⊎ ((k : Text) × (t.creating ≡ s.creating ++ record { making_key = k; phase = held_back } ∷ []))

module _ (max_browsers : ℕ) where
  starved-full :
      (s : Sessions) → max_browsers ≤ length s.creating → is_full max_browsers (found_in s) ≡ true
  starved-full s h = ground arith

  create-Grown :
      (s : Sessions) (k : Text)
      → IsTracked max_browsers s
      → max_browsers ≤ length s.creating
      → Grown s (create max_browsers k s)
  unfolding create
  create-Grown s k t many = rw (starved-full s many) (
      inr (
        k,
        ap (λ ms. ms ++ record { making_key = k; phase = held_back } ∷ [])
            (evict-IsTracked max_browsers s t).1.creations,
      ))

  join_or_create-Grown :
      (s : Sessions) (k : Text)
      → IsTracked max_browsers s
      → max_browsers ≤ length s.creating
      → Grown s (join_or_create max_browsers k s)
  unfolding join_found
  join_or_create-Grown s k t many = cases (making_of k s.creating)
    where
      cases : (o : Option Making) → Grown s (join_found max_browsers k s o)
      cases none = create-Grown s k t many
      cases (some m) = inl refl

  Grown-after : (s t u : Sessions) → t.creating ≡ s.creating → Grown t u → Grown s u
  Grown-after s t u e (inl f) = inl (f ∙ e)
  Grown-after s t u e (inr (k, f)) =
      inr (k, f ∙ ap (λ ms. ms ++ record { making_key = k; phase = held_back } ∷ []) e)

  get_session-Grown :
      (s : Sessions) (k : Text) (healthy : Bool)
      → IsTracked max_browsers s
      → max_browsers ≤ length s.creating
      → Grown s (get_session max_browsers k healthy s)
  unfolding get_found
  get_session-Grown s k healthy t many = cases (session_of k s.sessions) refl
    where
      none_made :
          (b : BrowserSession) → session_of k s.sessions ≡ some b → making_of k s.creating ≡ none
      none_made b e = session-not_made max_browsers s k t (
          omega (
            arith,
            is_under-found session_key_of k s.sessions b e,
            find_by-remove_by session_key_of (is_under session_key_of k) k s.sessions b e,
          ))

      cases :
          (o : Option BrowserSession)
          → session_of k s.sessions ≡ o
          → Grown s (get_found max_browsers k healthy s o)
      cases none e = join_or_create-Grown s k t many
      cases (some b) e =
          let free = none_made b e in
          let c = (close_session-IsClosing s k free).creations in
          if-both (Grown s) healthy (inl refl) (
            Grown-after s (close_session k s) (join_or_create max_browsers k (close_session k s)) c
              (join_or_create-Grown (close_session k s) k
                (close_session-IsTracked max_browsers s k free t)
                (subst (λ ms. max_browsers ≤ length ms) (sym c) many)))

  reap-creating :
      (idle_ms now : ℕ) (bs : List BrowserSession) (s : Sessions)
      → All (λ b. making_of b.key s.creating ≡ none) bs
      → (reap idle_ms now bs s).creating ≡ s.creating
  unfolding reap
  reap-creating idle_ms now [] s h = refl
  reap-creating idle_ms now (b ∷ bs) s h =
      let c = (close_session-IsClosing s b.key h.0).creations in
      if-both (λ s'. (reap idle_ms now bs s').creating ≡ s.creating)
        (leb (b.last_used_at + idle_ms) now)
        (reap-creating idle_ms now bs (close_session b.key s)
            (subst (λ ms. All (λ x. making_of x.key ms ≡ none) bs) (sym c) h.1)
          ∙ c)
        (reap-creating idle_ms now bs s h.1)

  -- A creation that is found waits.
  found-waits :
      (s : Sessions) (k : Text) (m : Making)
      → IsStarved max_browsers s
      → making_of k s.creating ≡ some m
      → m.phase ≡ held_back
  found-waits s k m h made = phase m.phase refl
    where
      phase : (p : Phase) → m.phase ≡ p → p ≡ held_back
      phase held_back e = refl
      phase launching e = absurd (
          omega (
            arith,
            h.waiting,
            ap inside_in e,
            find_by-remove_by making_key_of is_inside k s.creating m made,
          ))
      phase opening e = absurd (
          omega (
            arith,
            h.waiting,
            ap inside_in e,
            find_by-remove_by making_key_of is_inside k s.creating m made,
          ))

  with_making-Grown :
      (s : Sessions) (e : SessionEvent) (k : Text)
      → IsStarved max_browsers s
      → Grown s (making_step max_browsers e held_back s)
      → (d : Bool) → Grown s (with_making max_browsers e d k s)
  unfolding with_found find_by
  with_making-Grown s e k h g true =
      subst (λ ms. Grown s (with_found max_browsers e s (making_of k ms))) (sym h.tracked.attached)
        (inl refl)
  with_making-Grown s e k h g false = cases (making_of k s.creating) refl
    where
      cases :
          (o : Option Making) → making_of k s.creating ≡ o → Grown s (with_found max_browsers e s o)
      cases none f = inl refl
      cases (some m) f =
          subst (λ p. Grown s (making_step max_browsers e p s)) (sym (found-waits s k m h f)) g

  end_one-Grown : (n : ℕ) (s : Sessions) → Grown s (end_one n s)
  end_one-Grown zero s = inl refl
  end_one-Grown (suc n) s = inl refl

  step-Grown :
      (idle_ms : ℕ) (e : SessionEvent) (s : Sessions)
      → IsStarved max_browsers s
      → IsPatient e
      → Grown s (step max_browsers idle_ms e s)
  unfolding step making_step retry_round
  step-Grown idle_ms (gets k healthy) s h p = get_session-Grown s k healthy h.tracked h.many
  step-Grown idle_ms (retries d k) s h p =
      with_making-Grown s (retries d k) k h
        (if-cases (Grown s) (is_full max_browsers (found_in s))
          (λ _. inl (evict-IsTracked max_browsers s h.tracked).1.creations)
          (λ free. absurd (true≢false (sym (starved-full s h.many) ∙ free))))
        d
  step-Grown idle_ms (launches d k) s h p = with_making-Grown s (launches d k) k h (inl refl) d
  step-Grown idle_ms (opens d k now) s h p = with_making-Grown s (opens d k now) k h (inl refl) d
  step-Grown idle_ms (reaps now) s h p =
      inl (reap-creating idle_ms now s.sessions s (sessions-not_made max_browsers s h.tracked))
  step-Grown idle_ms (uses k n now) s h p = inl refl
  step-Grown idle_ms (fails d k) s h p = elim p [ ]
  step-Grown idle_ms (closes k) s h p = elim p [ ]
  step-Grown idle_ms (joins k) s h p = elim p [ ]
  step-Grown idle_ms ends s h p = end_one-Grown s.ending s

  step-IsStarved :
      (idle_ms : ℕ) (e : SessionEvent) (s : Sessions)
      → IsStarved max_browsers s
      → IsPatient e
      → IsStarved max_browsers (step max_browsers idle_ms e s)
  step-IsStarved idle_ms e s h p =
      let t = step-IsTracked max_browsers idle_ms e s h.tracked (calm e p) in
      elim (step-Grown idle_ms e s h p) [
        | inl c ↦ record {
          tracked = t;
          many = subst (λ ms. max_browsers ≤ length ms) (sym c) h.many;
          waiting = ap (sum_by is_inside) c ∙ h.waiting;
        }
        | inr (k, c) ↦
            let m : Making = record { making_key = k; phase = held_back } in
            record {
              tracked = t;
              many = omega (arith, h.many, ap length c, length-append s.creating (m ∷ []));
              waiting = omega (
                arith,
                h.waiting,
                ap (sum_by is_inside) c,
                sum_by-append is_inside s.creating (m ∷ []),
              );
            }
      ]
    where
      calm : (f : SessionEvent) → IsPatient f → IsCalm f s
      calm (gets k healthy) q = tt
      calm (retries d k) q = tt
      calm (launches d k) q = tt
      calm (opens d k now) q = tt
      calm (reaps now) q = tt
      calm (uses k n now) q = tt
      calm (fails d k) q = elim q [ ]
      calm (closes k) q = elim q [ ]
      calm (joins k) q = elim q [ ]
      calm ends q = tt

  -- If at some time as many callers wait as there may be browsers and none is inside, none of them
  -- is let in by any events but the end of a wait, a close or what follows a close, though every
  -- session may be idle or gone by then: each caller counts the others and itself.
  pub run-IsStarved :
      (idle_ms : ℕ) (es : List SessionEvent) (s : Sessions)
      → IsStarved max_browsers s
      → All IsPatient es
      → IsStarved max_browsers (run max_browsers idle_ms es s)
  unfolding run
  run-IsStarved idle_ms [] s h p = h
  run-IsStarved idle_ms (e ∷ es) s h p =
      run-IsStarved idle_ms es (step max_browsers idle_ms e s) (step-IsStarved idle_ms e s h p.0)
        p.1
