-- ===== src/Tests/Proxy.antt =====
-- Pools of two exits.
use one_gl.Prelude.{ℕ, ◌≡◌, ◌≢◌, ◌↔◌, refl, true, none, some, [], ◌∷◌, String}
use one_gl.Proxy.Pool.{Exit, PoolState, has, pick_usable}
use one_gl.Proxy.Pool.Handout.{acquire_from_api}
use one_gl.Proxy.Pool.Acquire.{IsPicked, acquire_from_api-once}
use one_gl.Proxy.Resolve.{ProxyPool, static, direct, resolve_session_proxy, acquire_session_proxy}
use one_gl.Proxy.Resolve.Direct.{MayGoDirect, session-direct_iff}

abbrev first_exit : Exit
first_exit = record { id = "e1"; expires_at = some 5000 }

abbrev second_exit : Exit
second_exit = record { id = "e2"; expires_at = none }

abbrev pool_state : PoolState
pool_state = record { exits = first_exit ∷ second_exit ∷ []; consumed = []; assignment = [] }

abbrev bound_state : PoolState
bound_state = record pool_state { assignment = ("doubao|a|0", "e1") ∷ [] }

abbrev used_state : PoolState
used_state = record pool_state { consumed = "e1" ∷ [] }

abbrev zero_hash : String → ℕ
zero_hash s = 0

acquire_from_api-once_example :
    IsPicked zero_hash 500 10 1000 1100 none pool_state first_exit
    × (has "e1" used_state.consumed ≡ true)
    × ((t u : ℕ) (r : PoolState) (y : Exit)
        → has "e1" r.consumed ≡ true
        → pick_usable zero_hash r t u true none ≡ some y
        → y.id ≢ "e1")
unfolding acquire_from_api
acquire_from_api-once_example =
    acquire_from_api-once zero_hash "doubao|a|0" 500 10 1000 1100 none pool_state first_exit
      used_state refl

abbrev static_pool : ProxyPool
static_pool = record {
  enabled = true;
  required = true;
  platforms = "doubao" ∷ [];
  source_kind = static;
  exits = first_exit ∷ second_exit ∷ [];
  min_session_lifetime_ms = 500;
}

session-direct_iff_example :
    ((resolve_session_proxy zero_hash (some static_pool) "kimi" "kimi|a|0" 1000 ≡ direct)
      ↔ MayGoDirect (some static_pool) "kimi")
    × ((acquire_session_proxy zero_hash (some static_pool) "kimi" "kimi|a|0" 1000 none (λ t. none)
          ≡ direct)
        ↔ MayGoDirect (some static_pool) "kimi")
session-direct_iff_example =
    session-direct_iff zero_hash (some static_pool) "kimi" "kimi|a|0" 1000 none (λ t. none)
