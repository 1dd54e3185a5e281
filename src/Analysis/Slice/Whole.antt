-- ===== src/Analysis/Slice/Whole.antt =====
-- A safe slice has no surrogate without its partner (src/analysis/text-slice.js).
use mathlib.Core.Bool.{true≢false}
use one_gl.Prelude.{
  Text, ℕ, ◌≡◌, ◌⊎◌, inl, inr, refl, sym, ap, ◌∙◌, Bool, true, false, ◌&&◌, ◌||◌, not, [], ◌∷◌,
  if◌then◌else◌, arith, Bool-cases,
}
use one_gl.Analysis.Slice.{
  is_high, is_low, is_control, slice, starts_low, drop_lone_high, drop_lone_low, drop_controls,
  safe_slice, has_lone_high, has_lone_low, has_lone_surrogate,
}

high-not_low : (c : ℕ) → is_high c ≡ true → is_low c ≡ false
unfolding is_high is_low
high-not_low c h = ground arith

low-not_high : (c : ℕ) → is_low c ≡ true → is_high c ≡ false
unfolding is_high is_low
low-not_high c h = ground arith

high-not_control : (c : ℕ) → is_high c ≡ true → is_control c ≡ false
unfolding is_high is_control
high-not_control c h = ground arith

low-not_control : (c : ℕ) → is_low c ≡ true → is_control c ≡ false
unfolding is_low is_control
low-not_control c h = ground arith

-- A low surrogate at the start stays there.
drop_lone_high-low : (t : Text) → starts_low t ≡ true → starts_low (drop_lone_high t) ≡ true
unfolding starts_low drop_lone_high
drop_lone_high-low [] h = h
drop_lone_high-low (c ∷ t) h = rw (low-not_high c h) h

drop_lone_low-low : (t : Text) → starts_low t ≡ true → starts_low (drop_lone_low true t) ≡ true
unfolding starts_low drop_lone_low
drop_lone_low-low [] h = h
drop_lone_low-low (c ∷ t) h = rw h h

drop_controls-low : (t : Text) → starts_low t ≡ true → starts_low (drop_controls t) ≡ true
unfolding starts_low drop_controls
drop_controls-low [] h = h
drop_controls-low (c ∷ t) h = rw (low-not_control c h) h

pub or-none : (a b : Bool) → a || b ≡ false → (a ≡ false) × (b ≡ false)
or-none true b h = absurd (true≢false h)
or-none false b h = (refl, h)

and_not-none : (a b : Bool) → a && not b ≡ false → a ≡ true → b ≡ true
and_not-none true true h e = refl
and_not-none true false h e = absurd (true≢false h)
and_not-none false b h e = absurd (true≢false (sym e))

-- A unit before a text without lone high surrogates.
cons-no_lone_high :
    (c : ℕ) (t : Text)
    → (is_high c ≡ true → starts_low t ≡ true)
    → has_lone_high t ≡ false
    → has_lone_high (c ∷ t) ≡ false
unfolding has_lone_high
cons-no_lone_high c t h e = elim (Bool-cases (is_high c)) [
  | inl high ↦ rw (high, h high) e
  | inr other ↦ rw other e
]

drop_lone_high-none : (t : Text) → has_lone_high (drop_lone_high t) ≡ false
unfolding drop_lone_high has_lone_high
drop_lone_high-none [] = refl
drop_lone_high-none (c ∷ t) = elim (Bool-cases (is_high c && not (starts_low t))) [
  | inl lone ↦ rw lone (drop_lone_high-none t)
  | inr kept ↦ rw kept (
      cons-no_lone_high c (drop_lone_high t)
        (λ high. drop_lone_high-low t (and_not-none (is_high c) (starts_low t) kept high))
        (drop_lone_high-none t))
]

drop_lone_low-keeps :
    (p : Bool) (t : Text) → has_lone_high t ≡ false → has_lone_high (drop_lone_low p t) ≡ false
unfolding drop_lone_low has_lone_high
drop_lone_low-keeps p [] h = h
drop_lone_low-keeps p (c ∷ t) h =
    let (first, later) = or-none (is_high c && not (starts_low t)) (has_lone_high t) h in
    let ih = drop_lone_low-keeps (is_high c) t later in
    elim (Bool-cases (is_low c && not p)) [
      | inl lone ↦ rw lone ih
      | inr kept ↦ rw kept (
          cons-no_lone_high c (drop_lone_low (is_high c) t)
            (λ high.
              rw high (drop_lone_low-low t (and_not-none (is_high c) (starts_low t) first high)))
            ih)
    ]

drop_lone_low-none : (p : Bool) (t : Text) → has_lone_low p (drop_lone_low p t) ≡ false
unfolding drop_lone_low has_lone_low
drop_lone_low-none p [] = refl
drop_lone_low-none p (c ∷ t) = cases (is_low c) p refl (drop_lone_low-none (is_high c) t)
  where
    cases :
        (l q : Bool)
        → is_low c ≡ l
        → has_lone_low (is_high c) (drop_lone_low (is_high c) t) ≡ false
        → has_lone_low q
            (if l && not q then drop_lone_low (is_high c) t else c ∷ drop_lone_low (is_high c) t)
          ≡ false
    cases true true e ih = rw e ih
    cases true false e ih =
        ap (λ b. has_lone_low b (drop_lone_low (is_high c) t)) (sym (low-not_high c e)) ∙ ih
    cases false q e ih = rw e ih

-- After a high surrogate there are no more lone ones than elsewhere.
has_lone_low-weaken :
    (p : Bool) (t : Text) → has_lone_low false t ≡ false → has_lone_low p t ≡ false
unfolding has_lone_low
has_lone_low-weaken false t h = h
has_lone_low-weaken true [] h = h
has_lone_low-weaken true (c ∷ t) h = cases (is_low c) h
  where
    cases :
        (l : Bool)
        → (l && true) || has_lone_low (is_high c) t ≡ false
        → (l && false) || has_lone_low (is_high c) t ≡ false
    cases true e = absurd (true≢false e)
    cases false e = e

drop_controls-no_high :
    (t : Text) → has_lone_high t ≡ false → has_lone_high (drop_controls t) ≡ false
unfolding drop_controls has_lone_high
drop_controls-no_high [] h = h
drop_controls-no_high (c ∷ t) h =
    let (first, later) = or-none (is_high c && not (starts_low t)) (has_lone_high t) h in
    let ih = drop_controls-no_high t later in
    elim (Bool-cases (is_control c)) [
      | inl control ↦ rw control ih
      | inr kept ↦ rw kept (
          cons-no_lone_high c (drop_controls t)
            (λ high. drop_controls-low t (and_not-none (is_high c) (starts_low t) first high)) ih)
    ]

drop_controls-no_low :
    (p : Bool) (t : Text) → has_lone_low p t ≡ false → has_lone_low p (drop_controls t) ≡ false
unfolding drop_controls has_lone_low
drop_controls-no_low p [] h = h
drop_controls-no_low p (c ∷ t) h =
    let (first, later) = or-none (is_low c && not p) (has_lone_low (is_high c) t) h in
    let ih = drop_controls-no_low (is_high c) t later in
    elim (Bool-cases (is_control c)) [
      | inl control ↦ rw control (
          has_lone_low-weaken p (drop_controls t)
            (ap (λ b. has_lone_low b (drop_controls t)) (sym (control-not_high control)) ∙ ih))
      | inr kept ↦ rw (kept, first) ih
    ]
  where
    control-not_high : is_control c ≡ true → is_high c ≡ false
    control-not_high e = high (Bool-cases (is_high c))
      where
        high : (is_high c ≡ true) ⊎ (is_high c ≡ false) → is_high c ≡ false
        high (inl f) = absurd (true≢false (sym e ∙ high-not_control c f))
        high (inr f) = f

-- No slice, wherever it cuts the text, has a surrogate without its partner.
pub safe_slice-no_lone_surrogate :
    (t : Text) (start end : ℕ) → has_lone_surrogate (safe_slice t start end) ≡ false
unfolding safe_slice has_lone_surrogate
safe_slice-no_lone_surrogate t start end =
    let high = drop_lone_high-none (slice t start end) in
    let low = drop_lone_low-none false (drop_lone_high (slice t start end)) in
    rw
      (
        drop_controls-no_high (drop_lone_low false (drop_lone_high (slice t start end)))
            (drop_lone_low-keeps false (drop_lone_high (slice t start end)) high),
        drop_controls-no_low false (drop_lone_low false (drop_lone_high (slice t start end))) low,
      )
      refl
