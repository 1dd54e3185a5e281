-- ===== src/Tests/Rotation.antt =====
-- Launches that break, repeat an identity or fail their checks, among some that succeed.
use one_gl.Prelude.{ℕ, true, false, none, some, List, [], ◌∷◌, codes}
use one_gl.Rotation.{RotationState, Launch, breaks, shows}

abbrev rotation_state : RotationState
rotation_state = record {
  cursor = 3;
  offset = some 100;
  last_digest = some (codes "d0");
  history = [];
}

abbrev launches : List (ℕ × Launch)
launches =
    (5, shows (some (codes "d1")) true)
    ∷ (6, breaks)
    ∷ (7, shows (some (codes "d1")) true)
    ∷ (8, shows (some (codes "d2")) false)
    ∷ (9, shows none true)
    ∷ []
