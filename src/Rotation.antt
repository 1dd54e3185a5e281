-- ===== src/Rotation.antt =====
-- The rotation of browser identities (src/fingerprint-rotation.js): `readRotationState`, `planRotation` and
-- `commitRotation`, and what `launchBrowser` of src/browser.js does with a plan. The state file is a
-- parameter of a plan: `none` where it is missing or damaged. Presets and times, which are only kept, are
-- left out.
pub mod Avoids
use one_gl.Prelude.Keyed.{same_text}
use one_gl.Prelude.{
  ◌&&◌, ℕ, zero, suc, ◌+◌, ◌-◌, Bool, true, false, not, Option, none, some, List, [], ◌∷◌, ◌++◌,
  if◌then◌else◌, ltb, ◌==◌, length, drop, map, select, Text,
}

pub record HistoryEntry : Type 0 where
  pub cursor : ℕ
  pub digest : Option Text

pub record RotationState : Type 0 where
  pub cursor : ℕ
  pub offset : Option ℕ
  pub last_digest : Option Text
  pub history : List HistoryEntry

abbrev pub read_rotation_state : Option RotationState → RotationState
read_rotation_state none = record { cursor = 0; offset = none; last_digest = none; history = [] }
read_rotation_state (some s) = s

pub record RotationPlan : Type 0 where
  pub cursor : ℕ
  pub offset : ℕ
  pub preset_offset : ℕ
  pub previous_digest : Option Text
  pub history : List HistoryEntry
  pub avoid_digests : List Text

abbrev pub avoid_window : ℕ
avoid_window = 60

abbrev pub history_limit : ℕ
history_limit = 20

-- `list.slice(-n)` for a positive `n`
abbrev pub slice_last {ℓ} : {A : Type ℓ} → ℕ → List A → List A
slice_last n xs = drop (length xs - n) xs

abbrev pub offset_or : Option ℕ → ℕ → ℕ
offset_or none salt = salt
offset_or (some offset) salt = offset

-- `typeof digest === "string" && digest.length > 0`
abbrev pub known_digests : List (Option Text) → List Text
known_digests [] = []
known_digests (none ∷ ds) = known_digests ds
known_digests (some d ∷ ds) =
    let rest = known_digests ds in if ltb 0 (length d) then d ∷ rest else rest

-- `salt` is the random number that a first plan takes.
unfoldable pub plan_rotation : Option RotationState → ℕ → RotationPlan
plan_rotation file salt =
    let state = read_rotation_state file in
    record {
      cursor = state.cursor + 1;
      offset = offset_or state.offset salt;
      preset_offset = state.cursor + 1 + offset_or state.offset salt;
      previous_digest = state.last_digest;
      history = state.history;
      avoid_digests =
          known_digests
            (map (λ (e : HistoryEntry). e.digest) (slice_last avoid_window state.history));
    }

unfoldable pub commit_rotation : RotationPlan → Option Text → RotationState
commit_rotation plan digest = record {
  cursor = plan.cursor;
  offset = some plan.offset;
  last_digest = digest;
  history =
      slice_last history_limit
        (plan.history ++ record { cursor = plan.cursor; digest = digest } ∷ []);
}

-- How far the launch of a browser comes: it breaks before the page is there, or the identity has this
-- digest, and the checks of the fingerprint, the exit and the page then pass or not.
pub data Launch : Type 0 where
  breaks : Launch
  shows : Option Text → Bool → Launch

-- `digest && digest === previousDigest`
unfoldable pub is_repeated : Option Text → Option Text → Bool
unfolding same_text
is_repeated none previous = false
is_repeated (some d) none = false
is_repeated (some d) (some q) = ltb 0 (length d) && same_text d q

pub record Start : Type 0 where
  -- the digest, where the plan was committed
  pub committed : Option (Option Text)
  pub is_started : Bool
  pub file : Option RotationState

-- What the end of a launch makes of its plan and of the file as it is then.
unfoldable pub end_launch : RotationPlan → Launch → Option RotationState → Start
unfolding is_repeated commit_rotation
end_launch plan breaks file = record { committed = none; is_started = false; file = file }
end_launch plan (shows digest passes) file =
    if is_repeated digest plan.previous_digest
    then record { committed = none; is_started = false; file = file }
    else record {
      committed = some digest;
      is_started = passes;
      file = some (commit_rotation plan digest);
    }

-- A launch that nothing else is launched beside.
unfoldable pub start_browser : Option RotationState → ℕ → Launch → Start
unfolding plan_rotation end_launch
start_browser file salt launch = end_launch (plan_rotation file salt) launch file

-- A preset that was used up, and the digest of its identity.
pub record Commit : Type 0 where
  pub preset : ℕ
  pub digest : Option Text

abbrev pub note_commit : ℕ → Option (Option Text) → List Commit → List Commit
note_commit preset none cs = cs
note_commit preset (some digest) cs = record { preset = preset; digest = digest } ∷ cs

-- The launches one after the other: what was committed, in its order.
unfoldable pub commits : Option RotationState → List (ℕ × Launch) → List Commit
unfolding start_browser plan_rotation
commits file [] = []
commits file ((salt, launch) ∷ ls) =
    let start = start_browser file salt launch in
    note_commit (plan_rotation file salt).preset_offset start.committed (commits start.file ls)
