-- ===== src/Proxy/Pool/Acquire.antt =====
-- What a session gets from the pool (src/proxy-pool.js).
use one_gl.Prelude.{
  ℕ, ◌≡◌, ◌≢◌, refl, true, false, Option, none, some, List, [], ◌∷◌, ◌++◌, String, arith,
  Bool-cases, Option-cases, inl, inr, ◌⊎◌, sym, ◌∙◌, ap,
}
use mathlib.Core.Option.{some-injective}
use text.Mathlib.TextPositions.{eq_refl}
use one_gl.Proxy.Pool.{
  Exit, PoolState, is_expired, has, get_exit, lookup, assign, unassign, pick_usable,
  refresh_inventory,
}
use one_gl.Proxy.Pool.Handout.{
  Mode, pooled, per_session, is_per_session, prefer, take_exit, bound_exit, hand_out, pick_again,
  pick_or_refresh, acquire_from_api,
}
use one_gl.Proxy.Pool.Bindings.{pick_usable-IsUsable}

-- An exit that was picked at a time, and taken.
abbrev pub PickedAt : (String → ℕ) → Mode → String → ℕ → ℕ → Exit → PoolState → Type 0
PickedAt hash mode key m t x s' =
    (s : PoolState) × (pick_usable hash s t m (is_per_session mode) (prefer mode key) ≡ some x)
    × (s' ≡ take_exit mode key x s)

module _ (hash : String → ℕ) (mode : Mode) (key : String) (m : ℕ) where
  hand_out-PickedAt :
      (t : ℕ) (s : PoolState) (o : Option Exit) (x : Exit) (s' : PoolState)
      → pick_usable hash s t m (is_per_session mode) (prefer mode key) ≡ o
      → hand_out mode key o s ≡ (some x, s')
      → PickedAt hash mode key m t x s'
  hand_out-PickedAt t s none x s' p e = cc
  hand_out-PickedAt t s (some y) x s' p e =
      let same : y ≡ x = some-injective y x (ap (λ r. r.0) e) in
      (s, p ∙ ap some same, sym (ap (λ r. r.1) e) ∙ ap (λ z. take_exit mode key z s) same)

  pick_or_refresh-PickedAt :
      (max_pool_size now later : ℕ) (extracted : Option (List Exit)) (s : PoolState)
      → (x : Exit) (s' : PoolState)
      → pick_or_refresh hash mode key m max_pool_size now later extracted s ≡ (some x, s')
      → PickedAt hash mode key m now x s' ⊎ PickedAt hash mode key m later x s'
  unfolding pick_or_refresh
  pick_or_refresh-PickedAt max_pool_size now later extracted s x s' e =
      elim (Option-cases (pick_usable hash s now m (is_per_session mode) (prefer mode key))) [
        | inr (y, p) ↦ inl (hand_out-PickedAt now s (some y) x s' p (rw (p, pick_or_refresh) at e))
        | inl p ↦ inr (again extracted (rw (p, pick_or_refresh) at e))
      ]
    where
      again :
          (ex : Option (List Exit))
          → pick_again hash mode key m later ex (refresh_inventory max_pool_size later extracted s)
            ≡ (some x, s')
          → PickedAt hash mode key m later x s'
      again none f = cc
      again (some new) f =
          hand_out-PickedAt later (refresh_inventory max_pool_size later extracted s) _ x s' refl f

has-append : (k : String) (ks : List String) → has k (ks ++ k ∷ []) ≡ true
unfolding has
has-append k [] = ground (arith, eq_refl k)
has-append k (j ∷ js) = ground (arith, has-append k js)

has-take_exit :
    (key : String) (x : Exit) (s : PoolState)
    → has x.id (take_exit per_session key x s).consumed ≡ true
unfolding take_exit
has-take_exit key x s = elim (Bool-cases (has x.id s.consumed)) [
  | inl e ↦ rw e e
  | inr e ↦ rw e (has-append x.id s.consumed)
]

lookup-assign : (k v : String) (m : List (String × String)) → lookup k (assign k v m) ≡ some v
unfolding lookup assign
lookup-assign k v [] = ground (arith, eq_refl k)
lookup-assign k v ((j, w) ∷ m) = ground (arith, eq_refl k, lookup-assign k v m)

-- The pick that gave an exit to a session of its own: the one at the start of the call, or, where that found
-- nothing, the one after the refresh, in the state and at the time after it. The exit had enough of its time
-- left at the time of that pick.
abbrev pub IsPicked : (String → ℕ) → ℕ → ℕ → ℕ → ℕ → Option (List Exit) → PoolState → Exit → Type 0
IsPicked hash m max_pool_size now later extracted s x =
    ((pick_usable hash s now m true none ≡ some x) × (is_expired x now m ≡ false))
    ⊎ ((pick_usable hash s now m true none ≡ none)
        × ((pick_usable hash (refresh_inventory max_pool_size later extracted s) later m true none
              ≡ some x)
            × (is_expired x later m ≡ false)))

per_session-IsPicked :
    (hash : String → ℕ) (key : String) (m max_pool_size now later : ℕ)
    → (extracted : Option (List Exit)) (s : PoolState) (x : Exit) (s' : PoolState)
    → pick_or_refresh hash per_session key m max_pool_size now later extracted s ≡ (some x, s')
    → IsPicked hash m max_pool_size now later extracted s x
unfolding pick_or_refresh
per_session-IsPicked hash key m max_pool_size now later extracted s x s' e =
    elim (Option-cases (pick_usable hash s now m true none)) [
      | inr (y, p) ↦
          let got : (some y, take_exit per_session key y s) ≡ (some x, s') =
            rw (p, pick_or_refresh) at e in
          let found = p ∙ ap (λ r. r.0) got in
          inl (found, (pick_usable-IsUsable hash s now m true none x found).1)
      | inl p ↦ inr (p, again extracted (rw (p, pick_or_refresh) at e))
    ]
  where
    later_state : Option (List Exit) → PoolState
    later_state ex = refresh_inventory max_pool_size later extracted s

    picked :
        (o : Option Exit)
        → pick_usable hash (later_state extracted) later m true none ≡ o
        → hand_out per_session key o (later_state extracted) ≡ (some x, s')
        → (pick_usable hash (later_state extracted) later m true none ≡ some x)
          × (is_expired x later m ≡ false)
    picked none p f = cc
    picked (some y) p f =
        let found = p ∙ ap (λ r. r.0) f in
        (found, (pick_usable-IsUsable hash (later_state extracted) later m true none x found).1)

    again :
        (ex : Option (List Exit))
        → pick_again hash per_session key m later ex
            (refresh_inventory max_pool_size later extracted s)
          ≡ (some x, s')
        → (pick_usable hash (refresh_inventory max_pool_size later extracted s) later m true none
            ≡ some x)
          × (is_expired x later m ≡ false)
    again none f = cc
    again (some new) f = picked _ refl f

-- Where every session has an exit of its own: an exit that a session got is the one of the pick at the start of
-- the call, or, where that pick found nothing, of the pick after the refresh; it had enough of its time left at
-- the time of the pick that gave it; it is marked as consumed, and as long as it is marked no later pick, at
-- any time, gives an exit with its id.
pub acquire_from_api-once :
    (hash : String → ℕ) (key : String) (m max_pool_size now later : ℕ)
    → (extracted : Option (List Exit)) (s : PoolState) (x : Exit) (s' : PoolState)
    → acquire_from_api hash per_session key m max_pool_size now later extracted s ≡ (some x, s')
    → IsPicked hash m max_pool_size now later extracted s x
      × (has x.id s'.consumed ≡ true)
      × ((t u : ℕ) (r : PoolState) (y : Exit)
          → has x.id r.consumed ≡ true
          → pick_usable hash r t u true none ≡ some y
          → y.id ≢ x.id)
unfolding acquire_from_api
acquire_from_api-once hash key m max_pool_size now later extracted s x s' e = (
  per_session-IsPicked hash key m max_pool_size now later extracted s x s' e,
  elim picked [
    | inl (r, p, q) ↦ rw q (has-take_exit key x r)
    | inr (r, p, q) ↦ rw q (has-take_exit key x r)
  ],
  λ t u r y marked p same. cc (
      sym marked
      ∙ ap (λ k. has k r.consumed) (sym same)
      ∙ (pick_usable-IsUsable hash r t u true none y p).0 refl),
)
  where
    picked : PickedAt hash per_session key m now x s' ⊎ PickedAt hash per_session key m later x s'
    picked =
        pick_or_refresh-PickedAt hash per_session key m max_pool_size now later extracted s x s' e

bound_exit-found :
    (key : String) (t m : ℕ) (s : PoolState) (x : Exit)
    → lookup key s.assignment ≡ some x.id
    → get_exit x.id s.exits ≡ some x
    → is_expired x t m ≡ false
    → bound_exit key t m s ≡ some x
unfolding bound_exit
bound_exit-found key t m s x bound held fresh = rw (bound_exit, bound, held, fresh) refl

acquire_from_api-bound :
    (hash : String → ℕ) (key : String) (m max_pool_size now later : ℕ)
    → (extracted : Option (List Exit)) (s : PoolState) (x : Exit) → bound_exit key now m s ≡ some x
    → acquire_from_api hash pooled key m max_pool_size now later extracted s ≡ (some x, s)
unfolding acquire_from_api
acquire_from_api-bound hash key m max_pool_size now later extracted s x bound =
    rw (acquire_from_api, bound) refl

-- Where exits are bound to keys: the exit that a key got that had no usable one is bound to it, and as long as the pool holds
-- the exit with enough of its time left, the key gets the same exit again and the state stays as it is.
acquire_from_api-sticks :
    (hash : String → ℕ) (key : String) (m max_pool_size now later : ℕ)
    → (extracted : Option (List Exit)) (s : PoolState) (x : Exit) (s' : PoolState)
    → bound_exit key now m s ≡ none
    → acquire_from_api hash pooled key m max_pool_size now later extracted s ≡ (some x, s')
    → (lookup key s'.assignment ≡ some x.id)
      × ((t u : ℕ) (new : Option (List Exit))
          → get_exit x.id s'.exits ≡ some x
          → is_expired x t m ≡ false
          → acquire_from_api hash pooled key m max_pool_size t u new s' ≡ (some x, s'))
unfolding acquire_from_api
acquire_from_api-sticks hash key m max_pool_size now later extracted s x s' unbound e = (
  bound,
  λ t u new held fresh.
      acquire_from_api-bound hash key m max_pool_size t u new s' x
        (bound_exit-found key t m s' x bound held fresh),
)
  where
    picked : PickedAt hash pooled key m now x s' ⊎ PickedAt hash pooled key m later x s'
    picked =
        pick_or_refresh-PickedAt hash pooled key m max_pool_size now later extracted
          (record s { assignment = unassign key s.assignment }) x s'
          (rw (unbound, acquire_from_api) at e)

    bound : lookup key s'.assignment ≡ some x.id
    bound = elim picked [
      | inl (r, p, q) ↦ rw q (unfold take_exit in lookup-assign key x.id r.assignment)
      | inr (r, p, q) ↦ rw q (unfold take_exit in lookup-assign key x.id r.assignment)
    ]
