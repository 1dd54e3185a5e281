-- ===== src/Proxy/Resolve/Static.antt =====
-- What a static pool resolves to (src/proxy-pool.js).
use one_gl.Prelude.{
  ℕ, ◌%◌, ◌≡◌, refl, Bool, true, false, not, Option, none, some, List, [], ◌∷◌, if◌then◌else◌,
  length, get_elem?, String, Bool-cases, inl, inr, zero, suc, ap, subst,
}
use one_gl.Proxy.Pool.{Exit, is_expired}
use mathlib.Core.List.{Mem, mem-cons_self, mem-cons_of_mem}
use mathlib.Core.Option.{some-injective}
use one_gl.Proxy.Resolve.{
  SourceKind, static, http_api, ProxyPool, Resolved, direct, via, required_but_disabled, not_static,
  no_usable_exit, pool_applies_to, usable_exits, pick_by_hash, select_exit, or_no_exit, from_static,
  resolve_session_proxy, from_either, acquire_session_proxy,
}

usable_exits-IsUsable :
    (now m n : ℕ) (xs : List Exit) (x : Exit)
    → get_elem? (usable_exits now m xs) n ≡ some x
    → Mem x xs × (is_expired x now m ≡ false)
unfolding usable_exits
usable_exits-IsUsable now m n [] x e = cc
usable_exits-IsUsable now m n (y ∷ ys) x e = elim (Bool-cases (is_expired y now m)) [
  | inl p ↦ later (usable_exits-IsUsable now m n ys x (rw p at e))
  | inr p ↦ here p (λ i. usable_exits-IsUsable now m i ys x) n (rw p at e)
]
  where
    later : Mem x ys × (is_expired x now m ≡ false) → Mem x (y ∷ ys) × (is_expired x now m ≡ false)
    later h = (mem-cons_of_mem y h.0, h.1)

    here :
        is_expired y now m ≡ false
        → ((i : ℕ)
            → get_elem? (usable_exits now m ys) i ≡ some x
            → Mem x ys × (is_expired x now m ≡ false))
        → (i : ℕ) → get_elem? (y ∷ usable_exits now m ys) i ≡ some x
        → Mem x (y ∷ ys) × (is_expired x now m ≡ false)
    here p rest zero f =
        subst (λ z. Mem z (y ∷ ys) × (is_expired z now m ≡ false)) (some-injective y x f)
          (mem-cons_self, p)
    here p rest (suc i) f = later (rest i f)

pick_by_hash-IsUsable :
    (now m h : ℕ) (xs us : List Exit) (x : Exit)
    → usable_exits now m xs ≡ us
    → pick_by_hash h us ≡ some x
    → Mem x xs × (is_expired x now m ≡ false)
pick_by_hash-IsUsable now m h xs [] x p e = cc
pick_by_hash-IsUsable now m h xs (u ∷ us) x p e =
    usable_exits-IsUsable now m (h % length (u ∷ us)) xs x (rw p e)

guards-via :
    (applies enabled required : Bool) (r : Resolved) (x : Exit)
    → (if not applies
        then direct
        else if not enabled
        then (if required then required_but_disabled else direct)
        else r)
      ≡ via x
    → r ≡ via x
guards-via false b c r x e = cc
guards-via true true c r x e = e
guards-via true false true r x e = cc
guards-via true false false r x e = cc

abbrev exit_of : Resolved → Option Exit
exit_of direct = none
exit_of (via x) = some x
exit_of required_but_disabled = none
exit_of not_static = none
exit_of no_usable_exit = none

or_no_exit-via : (o : Option Exit) (x : Exit) → or_no_exit o ≡ via x → o ≡ some x
or_no_exit-via none x e = cc
or_no_exit-via (some y) x e = ap exit_of e

from_static-IsUsable :
    (hash : String → ℕ) (key : String) (now : ℕ) (pool : ProxyPool) (k : SourceKind) (x : Exit)
    → from_static hash key now pool k ≡ via x
    → Mem x pool.exits × (is_expired x now pool.min_session_lifetime_ms ≡ false)
unfolding select_exit
from_static-IsUsable hash key now pool static x e =
    pick_by_hash-IsUsable now pool.min_session_lifetime_ms (hash key) pool.exits _ x refl
      (or_no_exit-via _ x e)
from_static-IsUsable hash key now pool http_api x e = cc

from_static-from_either :
    (hash : String → ℕ) (key : String) (now : ℕ) (o : Option Exit) (pool : ProxyPool)
    (k : SourceKind)
    → k ≡ static
    → from_static hash key now pool k
      ≡ from_either hash key now pool.min_session_lifetime_ms o pool k
from_static-from_either hash key now o pool static e = refl
from_static-from_either hash key now o pool http_api e = cc

-- Where the caller asks for no more time than the pool does, both entries resolve a static pool to the
-- same exit, and whatever its run-time state holds; that exit is one of the pool's, with at least the
-- least session time left.
resolve_session_proxy-acquires :
    (hash : String → ℕ) (pool : ProxyPool) (platform key : String) (now : ℕ)
    (acquired : ℕ → Option Exit)
    → pool.source_kind ≡ static
    → (resolve_session_proxy hash (some pool) platform key now
        ≡ acquire_session_proxy hash (some pool) platform key now none acquired)
      × ((x : Exit)
          → resolve_session_proxy hash (some pool) platform key now ≡ via x
          → Mem x pool.exits × (is_expired x now pool.min_session_lifetime_ms ≡ false))
unfolding resolve_session_proxy acquire_session_proxy
resolve_session_proxy-acquires hash pool platform key now acquired k = (
  ap
      (λ r.
        if not (pool_applies_to pool platform)
        then direct
        else if not pool.enabled
        then (if pool.required then required_but_disabled else direct)
        else r)
      (from_static-from_either hash key now (acquired pool.min_session_lifetime_ms) pool
        pool.source_kind k),
  λ x e.
      from_static-IsUsable hash key now pool pool.source_kind x
        (guards-via (pool_applies_to pool platform) pool.enabled pool.required _ x e),
)
