-- ===== src/Proxy/Pool/Handout.antt =====
-- How a session gets an exit from the pool and gives it back: acquireFromApi and releaseSessionProxy of
-- src/proxy-pool.js.
use one_gl.Prelude.{
  ℕ, Bool, true, false, not, Option, none, some, List, [], ◌∷◌, ◌++◌, if◌then◌else◌, String,
}
use text.Mathlib.Text.{◌==◌ as str_eq}
use one_gl.Proxy.Pool.{
  Exit, PoolState, is_expired, has, get_exit, delete_exit, lookup, assign, unassign, keep_bound,
  pick_usable, refresh_inventory,
}

pub data Mode : Type 0 where
  pooled per_session : Mode

abbrev pub is_per_session : Mode → Bool
is_per_session pooled = false
is_per_session per_session = true

abbrev pub prefer : Mode → String → Option String
prefer pooled key = some key
prefer per_session key = none

-- What the code does with the exit that it hands out.
unfoldable pub take_exit : Mode → String → Exit → PoolState → PoolState
unfolding has assign
take_exit per_session key x s = record s {
  consumed = if has x.id s.consumed then s.consumed else s.consumed ++ x.id ∷ [];
}
take_exit pooled key x s = record s { assignment = assign key x.id s.assignment }

-- The exit that the key is bound to, if it still has time left.
unfoldable pub bound_exit : String → ℕ → ℕ → PoolState → Option Exit
unfolding lookup get_exit is_expired
bound_exit key now min_remaining s = elim (lookup key s.assignment) [
  | none ↦ none
  | some id ↦ elim (get_exit id s.exits) [
    | none ↦ none
    | some x ↦ if is_expired x now min_remaining then none else some x
  ]
]

abbrev pub hand_out : Mode → String → Option Exit → PoolState → Option Exit × PoolState
hand_out mode key none s = (none, s)
hand_out mode key (some x) s = (some x, take_exit mode key x s)

-- The second pick. Where the extraction failed, its exception passes through.
unfoldable pub pick_again :
    (String → ℕ) → Mode → String → ℕ → ℕ → Option (List Exit) → PoolState → Option Exit × PoolState
unfolding pick_usable take_exit
pick_again hash mode key min_remaining later none s = (none, s)
pick_again hash mode key min_remaining later (some new) s =
    hand_out mode key
      (pick_usable hash s later min_remaining (is_per_session mode) (prefer mode key)) s

-- A pick, with one refresh where it finds nothing.
unfoldable pub pick_or_refresh :
    (String → ℕ)
    → Mode
    → String
    → ℕ
    → ℕ
    → ℕ
    → ℕ
    → Option (List Exit)
    → PoolState
    → Option Exit × PoolState
unfolding pick_usable refresh_inventory take_exit pick_again
pick_or_refresh hash mode key min_remaining max_pool_size now later extracted s =
    elim (pick_usable hash s now min_remaining (is_per_session mode) (prefer mode key)) [
      | some x ↦ (some x, take_exit mode key x s)
      | none ↦
          pick_again hash mode key min_remaining later extracted
            (refresh_inventory max_pool_size later extracted s)
    ]

-- acquireFromApi: `now` before the refresh and `later` after it, and what the extraction gives. `none`
-- is the exception that no exit is usable.
unfoldable pub acquire_from_api :
    (String → ℕ)
    → Mode
    → String
    → ℕ
    → ℕ
    → ℕ
    → ℕ
    → Option (List Exit)
    → PoolState
    → Option Exit × PoolState
unfolding bound_exit pick_or_refresh unassign
acquire_from_api hash per_session key min_remaining max_pool_size now later extracted s =
    pick_or_refresh hash per_session key min_remaining max_pool_size now later extracted s
acquire_from_api hash pooled key min_remaining max_pool_size now later extracted s =
    elim (bound_exit key now min_remaining s) [
      | some x ↦ (some x, s)
      | none ↦
          pick_or_refresh hash pooled key min_remaining max_pool_size now later extracted
            (record s { assignment = unassign key s.assignment })
    ]

-- releaseSessionProxy: a bad exit and its bindings go.
unfoldable pub release_session_proxy : Exit → Bool → PoolState → PoolState
unfolding delete_exit keep_bound
release_session_proxy x ok s = if ok then s else record s {
  exits = delete_exit x.id s.exits;
  assignment = keep_bound (λ id. not (str_eq id x.id)) s.assignment;
}
