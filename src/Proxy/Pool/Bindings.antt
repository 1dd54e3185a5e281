-- ===== src/Proxy/Pool/Bindings.antt =====
-- What the pool of src/proxy-pool.js keeps true of its bindings, its marks and its size.
use one_gl.Prelude.{
  ℕ, zero, suc, ◌≤◌, ◌≡◌, refl, Bool, true, false, ◌&&◌, ◌||◌, not, Option, none, some, List, [],
  ◌∷◌, length, get_elem?, String, arith, All, Bool-cases, inl, inr, subst, if-both,
}
use one_gl.Proxy.Pool.{
  Exit, PoolState, is_expired, has, get_exit, delete_exit, delete_id, keep_bound, is_some_exit,
  drop_oldest, prune_state, candidates, untaken, nonempty_or, choose, pick_usable, bound_ids,
}
use one_gl.Proxy.Pool.Handout.{release_session_proxy}
use mathlib.Core.Option.{some-injective}
use text.Mathlib.Text.{◌==◌ as str_eq}

drop_oldest-length :
    (limit : ℕ) (xs : List Exit) (cs : List String) → length (drop_oldest limit xs cs).0 ≤ limit
unfolding drop_oldest
drop_oldest-length limit [] cs = omega arith
drop_oldest-length limit (x ∷ xs) cs =
    ground (arith, drop_oldest-length limit xs (delete_id x.id cs))

-- Every binding passes the test that it was kept for.
keep_bound-All :
    (p : String → Bool) (m : List (String × String)) → All (λ e. p e.1 ≡ true) (keep_bound p m)
unfolding keep_bound
keep_bound-All p [] = tt
keep_bound-All p ((k, v) ∷ m) = elim (Bool-cases (p v)) [
  | inl e ↦ rw e (e, keep_bound-All p m)
  | inr e ↦ rw e (keep_bound-All p m)
]

-- A pruned pool holds no more exits than its limit, and binds keys only to exits that it holds.
prune_state-bounds :
    (max_pool_size now : ℕ) (s : PoolState)
    → let s' = prune_state max_pool_size now s in
      (length s'.exits ≤ max_pool_size)
      × All (λ e. is_some_exit (get_exit e.1 s'.exits) ≡ true) s'.assignment
unfolding prune_state
prune_state-bounds max_pool_size now s =
    (drop_oldest-length max_pool_size _ _, keep_bound-All _ s.assignment)

get_exit-delete_exit : (k : String) (xs : List Exit) → get_exit k (delete_exit k xs) ≡ none
unfolding get_exit delete_exit
get_exit-delete_exit k [] = refl
get_exit-delete_exit k (x ∷ xs) = ground (arith, get_exit-delete_exit k xs)

-- An exit that is given back as bad is neither held nor bound any more; one that is given back as good
-- changes nothing.
release_session_proxy-drops :
    (x : Exit) (s : PoolState)
    → let s' = release_session_proxy x false s in
      (get_exit x.id s'.exits ≡ none)
      × All (λ e. not (str_eq e.1 x.id) ≡ true) s'.assignment
      × (release_session_proxy x true s ≡ s)
unfolding release_session_proxy
release_session_proxy-drops x s =
    (get_exit-delete_exit x.id s.exits, keep_bound-All _ s.assignment, refl)

-- What a choice from the candidates may be.
abbrev pub IsUsable : PoolState → ℕ → ℕ → Bool → Exit → Type 0
IsUsable s now min_remaining exclude x =
    ((exclude ≡ true) → has x.id s.consumed ≡ false) × (is_expired x now min_remaining ≡ false)

candidates-All :
    (s : PoolState) (now min_remaining : ℕ) (exclude : Bool) (xs : List Exit)
    → All (IsUsable s now min_remaining exclude) (candidates s now min_remaining exclude xs)
unfolding candidates
candidates-All s now m exclude [] = tt
candidates-All s now m exclude (x ∷ xs) =
    elim (Bool-cases ((exclude && has x.id s.consumed) || is_expired x now m)) [
      | inl e ↦ rw e (candidates-All s now m exclude xs)
      | inr e ↦ rw e ((λ f. ground arith, ground arith), candidates-All s now m exclude xs)
    ]

module _ (P : Exit → Type 0) where
  untaken-All : (ids : List String) (xs : List Exit) → All P xs → All P (untaken ids xs)
  unfolding untaken
  untaken-All ids [] h = tt
  untaken-All ids (x ∷ xs) h =
      if-both (All P) (has x.id ids) (untaken-All ids xs h.1) (h.0, untaken-All ids xs h.1)

  nonempty_or-All : (xs ys : List Exit) → All P xs → All P ys → All P (nonempty_or xs ys)
  nonempty_or-All [] ys h k = k
  nonempty_or-All (x ∷ xs) ys h k = h

  get_elem?-All : (xs : List Exit) (i : ℕ) (x : Exit) → All P xs → get_elem? xs i ≡ some x → P x
  get_elem?-All [] i x h e = cc
  get_elem?-All (y ∷ ys) zero x h e = subst P (some-injective y x e) h.0
  get_elem?-All (y ∷ ys) (suc i) x h e = get_elem?-All ys i x h.1 e

  choose-All :
      (hash : String → ℕ) (k : Option String) (m : List (String × String)) (xs : List Exit)
      (x : Exit)
      → All P xs
      → choose hash k m xs ≡ some x
      → P x
  choose-All hash none m [] x h e = cc
  choose-All hash none m (c ∷ cs) x h e = subst P (some-injective c x e) h.0
  choose-All hash (some k) m [] x h e = cc
  choose-All hash (some k) m (c ∷ cs) x h e =
      get_elem?-All (nonempty_or (untaken (bound_ids m) (c ∷ cs)) (c ∷ cs)) _ x
        (nonempty_or-All (untaken (bound_ids m) (c ∷ cs)) (c ∷ cs) (untaken-All _ (c ∷ cs) h) h) e

pub pick_usable-IsUsable :
    (hash : String → ℕ) (s : PoolState) (now m : ℕ) (exclude : Bool) (k : Option String) (x : Exit)
    → pick_usable hash s now m exclude k ≡ some x
    → IsUsable s now m exclude x
unfolding pick_usable
pick_usable-IsUsable hash s now m exclude k x e =
    choose-All (IsUsable s now m exclude) hash k s.assignment _ x
      (candidates-All s now m exclude s.exits) e
