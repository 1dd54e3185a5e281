-- ===== src/Worker/Capacity/Eviction.antt =====
-- Which sessions the ceiling closes, and when it lets a caller in (src/worker.js).
use one_gl.Prelude.{
  ℕ, ◌+◌, ◌*◌, ◌≤◌, ◌<◌, ◌≡◌, refl, sym, Bool, true, false, List, [], ◌∷◌, if◌then◌else◌, ltb, ◌==◌,
  length, larger, HeadLeast, sort_by-HeadLeast, All-sort_by, All-of-sort_by, All, arith, Bool-cases,
  inl, inr, subst,
}
use one_gl.Worker.Capacity.{
  BrowserSession, Found, idle_sessions, idle_by_age, is_full, timed_out, ensure_browser_capacity,
}

-- No idle session was used before this one.
abbrev pub IsOldest : BrowserSession → BrowserSession → Type 0
IsOldest s t = t.in_use ≡ 0 → s.last_used_at ≤ t.last_used_at

idle_sessions-All : (ss : List BrowserSession) → All (λ s. s.in_use ≡ 0) (idle_sessions ss)
unfolding idle_sessions
idle_sessions-All [] = tt
idle_sessions-All (s ∷ ss) = elim (Bool-cases (s.in_use == 0)) [
  | inl e ↦ rw e (ground arith, idle_sessions-All ss)
  | inr e ↦ rw e (idle_sessions-All ss)
]

idle_sessions-cover :
    (n : ℕ) (ss : List BrowserSession)
    → All (λ t. n ≤ t.last_used_at) (idle_sessions ss)
    → All (λ t. t.in_use ≡ 0 → n ≤ t.last_used_at) ss
unfolding idle_sessions
idle_sessions-cover n [] h = tt
idle_sessions-cover n (s ∷ ss) h = cover (s.in_use == 0) refl (idle_sessions-cover n ss) h
  where
    cover :
        (b : Bool)
        → (s.in_use == 0) ≡ b
        → (All (λ t. n ≤ t.last_used_at) (idle_sessions ss)
            → All (λ t. t.in_use ≡ 0 → n ≤ t.last_used_at) ss)
        → All (λ t. n ≤ t.last_used_at) (if b then s ∷ idle_sessions ss else idle_sessions ss)
        → All (λ t. t.in_use ≡ 0 → n ≤ t.last_used_at) (s ∷ ss)
    cover true e ih k = (λ _. k.0, ih k.1)
    cover false e ih k = (λ z. ground arith, ih k)

-- What a full round closes is idle, and no idle session was used before it.
idle_by_age-IsOldest :
    (ss rest : List BrowserSession) (s : BrowserSession)
    → idle_by_age ss ≡ s ∷ rest
    → (s.in_use ≡ 0) × All (IsOldest s) ss
unfolding idle_by_age
idle_by_age-IsOldest ss rest s e =
    let by : BrowserSession → BrowserSession → Bool = larger (λ t. t.last_used_at) in
    let idle = All-sort_by (λ t. t.in_use ≡ 0) by (idle_sessions ss) (idle_sessions-All ss) in
    let least = sort_by-HeadLeast (λ t. t.last_used_at) (idle_sessions ss) in
    let first : All (λ t. s.last_used_at ≤ t.last_used_at) (idle_by_age ss) =
      subst (All (λ t. s.last_used_at ≤ t.last_used_at)) (sym e)
        (omega arith, subst (HeadLeast (λ t. t.last_used_at)) e least) in
    (
      (subst (All (λ t. t.in_use ≡ 0)) e idle).0,
      idle_sessions-cover s.last_used_at ss
          (All-of-sort_by (λ t. s.last_used_at ≤ t.last_used_at) by (idle_sessions ss) first),
    )

-- A caller that finds every session in use waits no longer than 300 seconds.
ensure_browser_capacity-times_out :
    (max_browsers waited : ℕ) (fs : List Found)
    → All (λ f. (is_full max_browsers f ≡ true) × (idle_by_age f.sessions ≡ [])) fs
    → waited ≤ 300000
    → 300000 < waited + length fs * 1000
    → ensure_browser_capacity max_browsers waited fs ≡ ([], timed_out)
unfolding ensure_browser_capacity
ensure_browser_capacity-times_out max_browsers waited [] all low h = absurd (omega arith)
ensure_browser_capacity-times_out max_browsers waited (f ∷ fs) all low h =
    rw (all.0.0, all.0.1)
      (elim (Bool-cases (ltb 300000 (waited + 1000))) [
        | inl e ↦ rw e
        | inr e ↦ rw e (
            ensure_browser_capacity-times_out max_browsers (waited + 1000) fs all.1 (ground arith)
              (omega arith))
      ])
