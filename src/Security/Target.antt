-- ===== src/Security/Target.antt =====
-- The target of a request (src/security/outbound-url.js): `parseOutboundUrl`, `resolvePublicTarget`,
-- `validatePublicOutboundUrl`. `parse_url` stands for the platform's `new URL`, `is_ip` for `net.isIP`,
-- and `lookup` for the name service; `none` is their exception. An empty text is a part the URL lacks.
pub mod Public
use one_gl.Prelude.{
  ℕ, Bool, true, false, ◌&&◌, ◌||◌, not, Option, none, some, List, [], ◌∷◌, if◌then◌else◌, ltb,
  ◌==◌, Text, length,
}
use one_gl.Security.Ipv6.{strip_ipv6_brackets}
use one_gl.Security.Address.{is_public_ip_address}

pub data Protocol : Type 0 where
  https http other_protocol : Protocol

pub record Url : Type 0 where
  pub protocol : Protocol
  pub hostname : Text
  pub username : Text
  pub password : Text
  pub path : Text
  pub hash : Text

pub record Resolved : Type 0 where
  pub address : Text
  pub family : ℕ

pub data OutboundError : Type 0 where
  invalid_url needs_https needs_http_or_https needs_hostname has_credentials : OutboundError
  lookup_failed unresolved : OutboundError
  non_public : Text → OutboundError

pub data Outcome {ℓ} (A : Type ℓ) : Type ℓ where
  ok : A → Outcome A
  error : OutboundError → Outcome A

unfoldable pub then_outcome {ℓ κ} :
    {A : Type ℓ} {B : Type κ} → Outcome A → (A → Outcome B) → Outcome B
then_outcome (ok a) f = f a
then_outcome (error e) f = error e

abbrev pub is_allowed : Bool → Protocol → Bool
is_allowed allow_http https = true
is_allowed allow_http http = allow_http
is_allowed allow_http other_protocol = false

abbrev pub check_url : Bool → Option Url → Outcome Url
check_url allow_http none = error invalid_url
check_url allow_http (some url) =
    if not (is_allowed allow_http url.protocol)
    then error (if allow_http then needs_http_or_https else needs_https)
    else if length url.hostname == 0
    then error needs_hostname
    else if ltb 0 (length url.username) || ltb 0 (length url.password)
    then error has_credentials
    else ok (record url { hash = [] })

unfoldable pub parse_outbound_url : (Text → Option Url) → Text → Bool → Outcome Url
parse_outbound_url parse_url raw allow_http = check_url allow_http (parse_url raw)

-- The loop over the addresses.
unfoldable pub check_addresses :
    (Text → ℕ) → List Resolved → Outcome (List Resolved) → Outcome (List Resolved)
check_addresses is_ip [] all = all
check_addresses is_ip (item ∷ items) all =
    let rest = check_addresses is_ip items all in
    if is_public_ip_address is_ip item.address item.family
    then rest
    else error (non_public item.address)

abbrev pub check_found : (Text → ℕ) → Option (List Resolved) → Outcome (List Resolved)
check_found is_ip none = error lookup_failed
check_found is_ip (some []) = error unresolved
check_found is_ip (some (item ∷ items)) = check_addresses is_ip (item ∷ items) (ok (item ∷ items))

abbrev pub addresses_of :
    (Text → ℕ) → (Text → Option (List Resolved)) → Text → Option (List Resolved)
addresses_of is_ip lookup hostname =
    if is_ip hostname == 0
    then lookup hostname
    else some (record { address = hostname; family = is_ip hostname } ∷ [])

unfoldable pub resolve_public_target :
    (Text → ℕ) → (Text → Option (List Resolved)) → Url → Outcome (List Resolved)
unfolding check_addresses
resolve_public_target is_ip lookup url =
    check_found is_ip (addresses_of is_ip lookup (strip_ipv6_brackets url.hostname))

unfoldable pub validate_public_outbound_url :
    (Text → Option Url) → (Text → ℕ) → (Text → Option (List Resolved)) → Text → Bool → Outcome Url
unfolding then_outcome parse_outbound_url resolve_public_target
validate_public_outbound_url parse_url is_ip lookup raw allow_http =
    then_outcome (parse_outbound_url parse_url raw allow_http)
      (λ url. then_outcome (resolve_public_target is_ip lookup url) (λ _. ok url))
