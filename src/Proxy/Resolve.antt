-- ===== src/Proxy/Resolve.antt =====
-- Which exit a session uses, or that it goes without one (src/proxy-pool.js). `hash` stands for the
-- FNV-1a hash of the assignment key, and `acquired` for what the pool's run-time state gives.
pub mod Direct
pub mod Static
use one_gl.Prelude.{
  ℕ, ◌+◌, ◌%◌, ◌≤◌, ◌<◌, ◌≡◌, ◌≢◌, ◌↔◌, refl, Bool, true, false, ◌&&◌, ◌||◌, not, Option, none,
  some, List, [], ◌∷◌, if◌then◌else◌, ltb, length, get_elem?, String, arith, Bool-cases,
  Option-cases, inl, inr, ◌⊎◌, eq_iff, sym, zero, suc, ap, subst,
}
use one_gl.Proxy.Pool.{Exit, is_expired}
use mathlib.Core.List.{Mem, mem-cons_self, mem-cons_of_mem}
use mathlib.Core.Option.{some-injective}
use text.Mathlib.Text.{◌==◌ as str_eq}

pub data SourceKind : Type 0 where
  static http_api : SourceKind

pub record ProxyPool : Type 0 where
  pub enabled : Bool
  pub required : Bool
  pub platforms : List String
  pub source_kind : SourceKind
  pub exits : List Exit
  pub min_session_lifetime_ms : ℕ

-- `direct` is the null of the code; the last three are its exceptions.
pub data Resolved : Type 0 where
  direct : Resolved
  via : Exit → Resolved
  required_but_disabled not_static no_usable_exit : Resolved

unfoldable pub includes : String → List String → Bool
includes p [] = false
includes p (q ∷ qs) = str_eq q p || includes p qs

abbrev pub is_empty : List String → Bool
is_empty [] = true
is_empty (x ∷ xs) = false

unfoldable pub pool_applies_to : ProxyPool → String → Bool
unfolding includes
pool_applies_to pool platform = is_empty pool.platforms || includes platform pool.platforms

unfoldable pub usable_exits : ℕ → ℕ → List Exit → List Exit
unfolding is_expired
usable_exits now min_remaining [] = []
usable_exits now min_remaining (x ∷ xs) =
    let rest = usable_exits now min_remaining xs in
    if is_expired x now min_remaining then rest else x ∷ rest

abbrev pub pick_by_hash : ℕ → List Exit → Option Exit
pick_by_hash h [] = none
pick_by_hash h (x ∷ xs) = get_elem? (x ∷ xs) (h % length (x ∷ xs))

unfoldable pub select_exit : (String → ℕ) → ProxyPool → String → ℕ → ℕ → Option Exit
unfolding usable_exits
select_exit hash pool key now min_remaining =
    pick_by_hash (hash key) (usable_exits now min_remaining pool.exits)

abbrev pub or_no_exit : Option Exit → Resolved
or_no_exit none = no_usable_exit
or_no_exit (some x) = via x

-- The guards that both entries share, in the code's order: no file, another platform, disabled. The
-- pool is `none` where no file is configured.
abbrev pub guarded : Option ProxyPool → String → (ProxyPool → Resolved) → Resolved
guarded none platform f = direct
guarded (some pool) platform f =
    if not (pool_applies_to pool platform)
    then direct
    else if not pool.enabled
    then (if pool.required then required_but_disabled else direct)
    else f pool

abbrev pub from_static : (String → ℕ) → String → ℕ → ProxyPool → SourceKind → Resolved
from_static hash key now pool http_api = not_static
from_static hash key now pool static =
    or_no_exit (select_exit hash pool key now pool.min_session_lifetime_ms)

unfoldable pub resolve_session_proxy :
    (String → ℕ) → Option ProxyPool → String → String → ℕ → Resolved
unfolding pool_applies_to select_exit
resolve_session_proxy hash file platform key now =
    guarded file platform (λ pool. from_static hash key now pool pool.source_kind)

-- The caller may ask for more time than the pool's least session.
abbrev pub lifetime_of : Option ℕ → ProxyPool → ℕ
lifetime_of none pool = pool.min_session_lifetime_ms
lifetime_of (some t) pool = t

abbrev pub from_either :
    (String → ℕ) → String → ℕ → ℕ → Option Exit → ProxyPool → SourceKind → Resolved
from_either hash key now lifetime acquired pool static =
    or_no_exit (select_exit hash pool key now lifetime)
from_either hash key now lifetime acquired pool http_api = or_no_exit acquired

unfoldable pub acquire_session_proxy :
    (String → ℕ) → Option ProxyPool → String → String → ℕ → Option ℕ → (ℕ → Option Exit) → Resolved
unfolding pool_applies_to select_exit
acquire_session_proxy hash file platform key now min_remaining acquired =
    guarded file platform (λ pool.
      let lifetime = lifetime_of min_remaining pool in
      from_either hash key now lifetime (acquired lifetime) pool pool.source_kind)
