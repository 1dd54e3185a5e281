-- ===== src/Providers.antt =====
-- The adapter registry of src/providers/index.js: which adapter an id names, whether it collects
-- from a surface that needs no credential, and the burst allowance that its profile declares.
-- Trimming and lower-casing of the id are JavaScript's, and a parameter of the registry.
use one_gl.Prelude.{
  ℕ, String, Bool, true, false, not, Option, none, some, List, [], ◌∷◌, if◌then◌else◌, ltb,
}
use text.Mathlib.Text.{◌==◌ as str_eq}

-- A profile's quota; a half that is not an integer is `none`.
pub record Quota : Type 0 where
  pub burst_prompts : Option ℕ
  pub burst_pause_ms : Option ℕ

pub record Adapter : Type 0 where
  pub id : String
  pub provider : String
  pub requires_stored_auth : Bool
  pub quota : Option Quota

-- `Map.set`, and `Map.get`, on a map from texts to adapters.
unfoldable pub map_set : String → Adapter → List (String × Adapter) → List (String × Adapter)
map_set k v [] = (k, v) ∷ []
map_set k v ((j, w) ∷ m) = if str_eq j k then (k, v) ∷ m else (j, w) ∷ map_set k v m

unfoldable pub map_get : String → List (String × Adapter) → Option Adapter
map_get k [] = none
map_get k ((j, v) ∷ m) = if str_eq j k then some v else map_get k m

abbrev is_none : Option Adapter → Bool
is_none none = true
is_none (some a) = false

-- One round of the loop that fills `byId`: the id always, the provider's alias if it is free.
unfoldable pub register : List (String × Adapter) → Adapter → List (String × Adapter)
unfolding map_set map_get
register m a =
    let m' = map_set a.id a m in
    if is_none (map_get a.provider m') then map_set a.provider a m' else m'

unfoldable pub register_all : List (String × Adapter) → List Adapter → List (String × Adapter)
unfolding register
register_all m [] = m
register_all m (a ∷ as') = register_all (register m a) as'

pub record Registry : Type 0 where
  pub adapters : List Adapter
  pub normalize : String → String  -- String(id).trim().toLowerCase()

-- `none` is the exception for an adapter that is not registered.
unfoldable pub get_provider_adapter : Registry → String → Option Adapter
unfolding register_all map_get
get_provider_adapter r id = map_get (r.normalize id) (register_all [] r.adapters)

abbrev free_of : Option Adapter → Bool
free_of none = false
free_of (some a) = not a.requires_stored_auth

-- The exception is caught, and then the surface counts as one with a credential.
unfoldable pub is_credential_free_surface : Registry → String → Bool
unfolding get_provider_adapter
is_credential_free_surface r p = free_of (get_provider_adapter r p)

pub record Pacing : Type 0 where
  pub prompts : ℕ
  pub pause_ms : ℕ

abbrev pacing_of : Option ℕ → Option ℕ → Option Pacing
pacing_of (some n) (some p) = if ltb p 1 then none else some (record { prompts = n; pause_ms = p })
pacing_of none q = none
pacing_of (some n) none = none

abbrev quota_pacing : Option Quota → Option Pacing
quota_pacing none = none
quota_pacing (some q) = pacing_of q.burst_prompts q.burst_pause_ms

abbrev adapter_pacing : Option Adapter → Option Pacing
adapter_pacing none = none
adapter_pacing (some a) = quota_pacing a.quota

unfoldable pub provider_burst_pacing : Registry → String → Option Pacing
unfolding get_provider_adapter
provider_burst_pacing r p = adapter_pacing (get_provider_adapter r p)
