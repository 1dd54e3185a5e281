-- ===== src/Proxy/Pool.antt =====
-- The run-time state of a pool (src/proxy-pool.js). Maps and sets are lists in the order of insertion,
-- as JavaScript keeps them. `hash` stands for the FNV-1a hash of an assignment key.
pub mod Handout
pub mod Bindings
pub mod Acquire
use one_gl.Prelude.{
  ℕ, zero, suc, ◌+◌, ◌-◌, ◌/◌, ◌%◌, Bool, true, false, ◌&&◌, ◌||◌, not, Option, none, some, List,
  [], ◌∷◌, ◌++◌, map, if◌then◌else◌, ltb, leb, ◌==◌, length, get_elem?, String, max,
}
use text.Mathlib.Text.{◌==◌ as str_eq}

pub record Exit : Type 0 where
  pub id : String
  pub expires_at : Option ℕ

-- A key of the assignment is the text of platform, account and slot, which the caller gives.
pub record PoolState : Type 0 where
  pub exits : List Exit
  pub consumed : List String
  pub assignment : List (String × String)

-- Less than `min_remaining` is left of the exit's time.
unfoldable pub is_expired : Exit → ℕ → ℕ → Bool
is_expired x now min_remaining = elim x.expires_at [
  | none ↦ false
  | some t ↦ ltb t (now + min_remaining)
]

unfoldable pub has : String → List String → Bool
has k [] = false
has k (j ∷ js) = str_eq j k || has k js

unfoldable pub get_exit : String → List Exit → Option Exit
get_exit k [] = none
get_exit k (x ∷ xs) = if str_eq x.id k then some x else get_exit k xs

-- Map.set and Map.delete on the exits, by id.
unfoldable pub set_exit : Exit → List Exit → List Exit
set_exit x [] = x ∷ []
set_exit x (y ∷ ys) = if str_eq y.id x.id then x ∷ ys else y ∷ set_exit x ys

unfoldable pub delete_exit : String → List Exit → List Exit
delete_exit k [] = []
delete_exit k (x ∷ xs) = if str_eq x.id k then delete_exit k xs else x ∷ delete_exit k xs

unfoldable pub delete_id : String → List String → List String
delete_id k [] = []
delete_id k (j ∷ js) = if str_eq j k then delete_id k js else j ∷ delete_id k js

unfoldable pub lookup : String → List (String × String) → Option String
lookup k [] = none
lookup k ((j, v) ∷ m) = if str_eq j k then some v else lookup k m

unfoldable pub assign : String → String → List (String × String) → List (String × String)
assign k v [] = (k, v) ∷ []
assign k v ((j, w) ∷ m) = if str_eq j k then (k, v) ∷ m else (j, w) ∷ assign k v m

unfoldable pub unassign : String → List (String × String) → List (String × String)
unassign k [] = []
unassign k ((j, w) ∷ m) = if str_eq j k then unassign k m else (j, w) ∷ unassign k m

-- The entries whose exit passes a test.
unfoldable pub keep_bound : (String → Bool) → List (String × String) → List (String × String)
keep_bound p [] = []
keep_bound p ((k, v) ∷ m) = if p v then (k, v) ∷ keep_bound p m else keep_bound p m

abbrev pub is_some_exit : Option Exit → Bool
is_some_exit none = false
is_some_exit (some x) = true

abbrev pub ended : ℕ → Option ℕ → Bool
ended now none = false
ended now (some t) = leb t now

-- The first loop of pruneState: exits whose time has come go, and their marks with them.
unfoldable pub drop_ended : ℕ → List Exit → List Exit × List String → List Exit × List String
unfolding delete_exit delete_id
drop_ended now [] s = s
drop_ended now (x ∷ xs) (es, cs) =
    drop_ended now xs
      (if ended now x.expires_at then (delete_exit x.id es, delete_id x.id cs) else (es, cs))

-- The second loop: while there are more than `limit`, the oldest goes.
unfoldable pub drop_oldest : ℕ → List Exit → List String → List Exit × List String
unfolding delete_id
drop_oldest limit [] cs = ([], cs)
drop_oldest limit (x ∷ xs) cs =
    let rest = drop_oldest limit xs (delete_id x.id cs) in
    if ltb limit (length (x ∷ xs)) then rest else (x ∷ xs, cs)

abbrev pub consumed_history_limit : ℕ
consumed_history_limit = 5000

-- The third loop: marks of exits that are gone, until half the limit is reached.
unfoldable pub forget : List Exit → List String → List String → List String
unfolding get_exit delete_id
forget es [] cs = cs
forget es (c ∷ todo) cs =
    let cs' = if is_some_exit (get_exit c es) then cs else delete_id c cs in
    let rest = forget es todo cs' in
    if leb (length cs') (consumed_history_limit / 2) then cs' else rest

unfoldable pub prune_state : ℕ → ℕ → PoolState → PoolState
unfolding drop_ended drop_oldest forget keep_bound
prune_state max_pool_size now s =
    let live = drop_ended now s.exits (s.exits, s.consumed) in
    let cut = drop_oldest max_pool_size live.0 live.1 in
    record {
      exits = cut.0;
      consumed =
          if ltb consumed_history_limit (length cut.1) then forget cut.0 cut.1 cut.1 else cut.1;
      assignment = keep_bound (λ id. is_some_exit (get_exit id cut.0)) s.assignment;
    }

-- pickUsable: the candidates, those of them that no key is bound to, and the choice.
unfoldable pub candidates : PoolState → ℕ → ℕ → Bool → List Exit → List Exit
unfolding has is_expired
candidates s now min_remaining exclude_consumed [] = []
candidates s now min_remaining exclude_consumed (x ∷ xs) =
    let rest = candidates s now min_remaining exclude_consumed xs in
    if (exclude_consumed && has x.id s.consumed) || is_expired x now min_remaining
    then rest
    else x ∷ rest

abbrev pub bound_ids : List (String × String) → List String
bound_ids m = map (λ e. e.1) m

unfoldable pub untaken : List String → List Exit → List Exit
unfolding has
untaken taken [] = []
untaken taken (x ∷ xs) = if has x.id taken then untaken taken xs else x ∷ untaken taken xs

abbrev pub nonempty_or : List Exit → List Exit → List Exit
nonempty_or [] ys = ys
nonempty_or (x ∷ xs) ys = x ∷ xs

abbrev pub choose : (String → ℕ) → Option String → List (String × String) → List Exit → Option Exit
choose hash none m [] = none
choose hash none m (c ∷ cs) = some c
choose hash (some k) m [] = none
choose hash (some k) m (c ∷ cs) =
    let from = nonempty_or (untaken (bound_ids m) (c ∷ cs)) (c ∷ cs) in
    get_elem? from (hash k % length from)

unfoldable pub pick_usable : (String → ℕ) → PoolState → ℕ → ℕ → Bool → Option String → Option Exit
unfolding candidates untaken
pick_usable hash s now min_remaining exclude_consumed prefer_key =
    choose hash prefer_key s.assignment (candidates s now min_remaining exclude_consumed s.exits)

-- What refreshInventory puts into the state: the new exits, then the pruning. Where the extraction
-- fails the state is pruned all the same.
unfoldable pub add_exits : List Exit → List Exit → List Exit
unfolding set_exit
add_exits [] es = es
add_exits (x ∷ xs) es = add_exits xs (set_exit x es)

unfoldable pub refresh_inventory : ℕ → ℕ → Option (List Exit) → PoolState → PoolState
unfolding add_exits prune_state
refresh_inventory max_pool_size now none s = prune_state max_pool_size now s
refresh_inventory max_pool_size now (some new) s =
    prune_state max_pool_size now (record s { exits = add_exits new s.exits })
