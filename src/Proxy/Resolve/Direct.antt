-- ===== src/Proxy/Resolve/Direct.antt =====
-- When a session goes without an exit (src/proxy-pool.js).
use one_gl.Prelude.{
  ℕ, ◌≡◌, ◌≢◌, ◌↔◌, refl, Bool, true, false, not, Option, none, some, if◌then◌else◌, String, inl,
  inr, ◌⊎◌,
}
use one_gl.Proxy.Pool.{Exit}
use one_gl.Proxy.Resolve.{
  SourceKind, static, http_api, ProxyPool, Resolved, direct, required_but_disabled, pool_applies_to,
  or_no_exit, guarded, from_static, resolve_session_proxy, from_either, acquire_session_proxy,
}

-- A session may go without an exit: no pool is configured, the pool does not serve the platform, or it
-- is neither enabled nor required.
abbrev pub MayGoDirect : Option ProxyPool → String → Type 0
MayGoDirect file platform =
    (file ≡ none)
    ⊎ (pool : ProxyPool) × (file ≡ some pool)
      × ((pool_applies_to pool platform ≡ false)
          ⊎ ((pool.enabled ≡ false) × (pool.required ≡ false)))

guards-direct :
    (applies enabled required : Bool) (r : Resolved)
    → r ≢ direct
    → (if not applies
        then direct
        else if not enabled
        then (if required then required_but_disabled else direct)
        else r)
      ≡ direct
    → (applies ≡ false) ⊎ ((enabled ≡ false) × (required ≡ false))
guards-direct false b c r n e = inl refl
guards-direct true true c r n e = absurd (n e)
guards-direct true false true r n e = cc
guards-direct true false false r n e = inr (refl, refl)

guards-allow :
    (applies enabled required : Bool) (r : Resolved)
    → (applies ≡ false) ⊎ ((enabled ≡ false) × (required ≡ false))
    → (if not applies
        then direct
        else if not enabled
        then (if required then required_but_disabled else direct)
        else r)
      ≡ direct
guards-allow false b c r h = refl
guards-allow true b c r (inl e) = cc
guards-allow true b c r (inr (p, q)) = rw (p, q) refl

-- The guards let a session go direct only where it may.
guarded-direct :
    (file : Option ProxyPool) (platform : String) (f : ProxyPool → Resolved)
    → ((pool : ProxyPool) → f pool ≢ direct)
    → guarded file platform f ≡ direct
    → MayGoDirect file platform
guarded-direct none platform f n e = inl refl
guarded-direct (some pool) platform f n e = inr (
  pool,
  refl,
  guards-direct (pool_applies_to pool platform) pool.enabled pool.required (f pool) (n pool) e,
)

guarded-MayGoDirect :
    (file : Option ProxyPool) (platform : String) (f : ProxyPool → Resolved)
    → MayGoDirect file platform
    → guarded file platform f ≡ direct
guarded-MayGoDirect file platform f (inl e) = rw e refl
guarded-MayGoDirect file platform f (inr (pool, e, h)) =
    rw e (guards-allow (pool_applies_to pool platform) pool.enabled pool.required (f pool) h)

or_no_exit-direct : (o : Option Exit) → or_no_exit o ≢ direct
or_no_exit-direct none e = cc
or_no_exit-direct (some x) e = cc

from_static-direct :
    (hash : String → ℕ) (key : String) (now : ℕ) (pool : ProxyPool) (k : SourceKind)
    → from_static hash key now pool k ≢ direct
from_static-direct hash key now pool static e = or_no_exit-direct _ e
from_static-direct hash key now pool http_api e = cc

from_either-direct :
    (hash : String → ℕ) (key : String) (now l : ℕ) (o : Option Exit) (pool : ProxyPool)
    (k : SourceKind)
    → from_either hash key now l o pool k ≢ direct
from_either-direct hash key now l o pool static = or_no_exit-direct _
from_either-direct hash key now l o pool http_api = or_no_exit-direct _

-- A session goes without an exit exactly where no pool is configured, the pool does not serve its
-- platform, or the pool is neither enabled nor required. Both entries agree on it, and a failed
-- selection or acquisition never falls back to it.
pub session-direct_iff :
    (hash : String → ℕ) (file : Option ProxyPool) (platform key : String) (now : ℕ)
    → (min_remaining : Option ℕ) (acquired : ℕ → Option Exit)
    → ((resolve_session_proxy hash file platform key now ≡ direct) ↔ MayGoDirect file platform)
      × ((acquire_session_proxy hash file platform key now min_remaining acquired ≡ direct)
          ↔ MayGoDirect file platform)
unfolding resolve_session_proxy acquire_session_proxy
session-direct_iff hash file platform key now min_remaining acquired = (
  (
    guarded-direct file platform _ (λ pool. from_static-direct hash key now pool pool.source_kind),
    guarded-MayGoDirect file platform _,
  ),
  (
    guarded-direct file platform _
        (λ pool. from_either-direct hash key now _ _ pool pool.source_kind),
    guarded-MayGoDirect file platform _,
  ),
)
