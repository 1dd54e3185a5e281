-- ===== src/Analysis/Slice/Kept.antt =====
-- What a safe slice leaves as it is (src/analysis/text-slice.js).
use one_gl.Prelude.{Text, ℕ, ◌≡◌, refl, ap, ◌∙◌, Bool, false, ◌&&◌, ◌||◌, not, [], ◌∷◌}
use one_gl.Analysis.Slice.{
  is_high, is_low, is_control, slice, starts_low, drop_lone_high, drop_lone_low, drop_controls,
  safe_slice, has_lone_high, has_lone_low, has_lone_surrogate,
}
use one_gl.Analysis.Slice.Whole.{or-none}

unfoldable pub has_control : Text → Bool
unfolding is_control
has_control [] = false
has_control (c ∷ t) = is_control c || has_control t

drop_lone_high-kept : (t : Text) → has_lone_high t ≡ false → drop_lone_high t ≡ t
unfolding has_lone_high drop_lone_high
drop_lone_high-kept [] h = refl
drop_lone_high-kept (c ∷ t) h =
    let (first, later) = or-none (is_high c && not (starts_low t)) (has_lone_high t) h in
    rw first (ap (λ r. c ∷ r) (drop_lone_high-kept t later))

drop_lone_low-kept : (p : Bool) (t : Text) → has_lone_low p t ≡ false → drop_lone_low p t ≡ t
unfolding has_lone_low drop_lone_low
drop_lone_low-kept p [] h = refl
drop_lone_low-kept p (c ∷ t) h =
    let (first, later) = or-none (is_low c && not p) (has_lone_low (is_high c) t) h in
    rw first (ap (λ r. c ∷ r) (drop_lone_low-kept (is_high c) t later))

drop_controls-kept : (t : Text) → has_control t ≡ false → drop_controls t ≡ t
unfolding has_control drop_controls
drop_controls-kept [] h = refl
drop_controls-kept (c ∷ t) h =
    let (first, later) = or-none (is_control c) (has_control t) h in
    rw first (ap (λ r. c ∷ r) (drop_controls-kept t later))

-- A slice without lone surrogates and without control characters is kept as it is.
safe_slice-kept :
    (t : Text) (start end : ℕ)
    → has_lone_surrogate (slice t start end) ≡ false
    → has_control (slice t start end) ≡ false
    → safe_slice t start end ≡ slice t start end
unfolding safe_slice has_lone_surrogate
safe_slice-kept t start end whole plain =
    let cut = slice t start end in
    let (high, low) = or-none (has_lone_high cut) (has_lone_low false cut) whole in
    ap (λ r. drop_controls (drop_lone_low false r)) (drop_lone_high-kept cut high)
    ∙ ap drop_controls (drop_lone_low-kept false cut low)
    ∙ drop_controls-kept cut plain
