-- ===== src/Analysis/Slice.antt =====
-- Safe slices of a text (src/analysis/text-slice.js), on its UTF-16 code units. A slice starts and ends at
-- a natural number.
pub mod Whole
pub mod Kept
use one_gl.Prelude.{
  Text, ℕ, ◌+◌, ◌-◌, min, Bool, true, false, ◌&&◌, ◌||◌, not, [], ◌∷◌, if◌then◌else◌, leb, ltb,
  ◌==◌, take, drop, length,
}

unfoldable pub is_high : ℕ → Bool
is_high c = leb 55296 c && leb c 56319

unfoldable pub is_low : ℕ → Bool
is_low c = leb 56320 c && leb c 57343

-- All control characters but the tab, the line feed and the carriage return.
unfoldable pub is_control : ℕ → Bool
is_control c = leb c 8 || (c == 11 || (c == 12 || (leb 14 c && leb c 31)))

abbrev pub slice : Text → ℕ → ℕ → Text
slice t start end = take (end - start) (drop start t)

unfoldable pub starts_low : Text → Bool
unfolding is_low
starts_low [] = false
starts_low (c ∷ t) = is_low c

unfoldable pub drop_lone_high : Text → Text
unfolding is_high starts_low
drop_lone_high [] = []
drop_lone_high (c ∷ t) =
    let rest = drop_lone_high t in if is_high c && not (starts_low t) then rest else c ∷ rest

-- `after_high` tells that the unit before the text is a high surrogate.
unfoldable pub drop_lone_low : Bool → Text → Text
unfolding is_high is_low
drop_lone_low after_high [] = []
drop_lone_low after_high (c ∷ t) =
    let rest = drop_lone_low (is_high c) t in if is_low c && not after_high then rest else c ∷ rest

unfoldable pub drop_controls : Text → Text
unfolding is_control
drop_controls [] = []
drop_controls (c ∷ t) = let rest = drop_controls t in if is_control c then rest else c ∷ rest

unfoldable pub safe_slice : Text → ℕ → ℕ → Text
unfolding drop_lone_high drop_lone_low drop_controls
safe_slice t start end = drop_controls (drop_lone_low false (drop_lone_high (slice t start end)))

unfoldable pub safe_context : Text → ℕ → ℕ → ℕ → Text
unfolding safe_slice
safe_context t position len radius =
    safe_slice t (position - radius) (min (length t) (position + len + radius))

unfoldable pub has_lone_high : Text → Bool
unfolding is_high starts_low
has_lone_high [] = false
has_lone_high (c ∷ t) = (is_high c && not (starts_low t)) || has_lone_high t

unfoldable pub has_lone_low : Bool → Text → Bool
unfolding is_high is_low
has_lone_low after_high [] = false
has_lone_low after_high (c ∷ t) = (is_low c && not after_high) || has_lone_low (is_high c) t

unfoldable pub has_lone_surrogate : Text → Bool
unfolding has_lone_high has_lone_low
has_lone_surrogate t = has_lone_high t || has_lone_low false t
