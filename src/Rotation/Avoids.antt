-- ===== src/Rotation/Avoids.antt =====
-- Which identities the rotation of src/fingerprint-rotation.js keeps apart.
use one_gl.Prelude.{ℕ, ◌+◌, ◌<◌, ◌≡◌, ◌≢◌, Option, none, some, List, [], ◌∷◌, length, Text}
use one_gl.Rotation.{Commit}

-- A known digest is another one than the digest before.
abbrev pub IsNew : Option Text → Option Text → Type 0
IsNew none previous = Unit
IsNew (some d) none = Unit
IsNew (some d) (some q) = 0 < length d → d ≢ q

-- One preset after the other, and no identity twice in a row.
abbrev pub IsRotating : ℕ → Option Text → List Commit → Type 0
IsRotating n previous [] = Unit
IsRotating n previous (c ∷ cs) =
    (c.preset ≡ n) × (IsNew c.digest previous × IsRotating (n + 1) c.digest cs)
