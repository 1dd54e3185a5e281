-- ===== src/Security/Target/Public.antt =====
-- Which targets the checks let through (src/security/outbound-url.js).
use one_gl.Prelude.{
  ℕ, ◌≡◌, ◌≢◌, ◌↔◌, inl, inr, refl, sym, ap, subst, Bool, true, false, Option, none, some, List, [],
  ◌∷◌, All, Text, ◌==◌, length, Bool-cases, arith, if◌then◌else◌, not, ltb, ◌||◌,
}
use one_gl.Security.Ipv6.{strip_ipv6_brackets}
use one_gl.Security.Address.{is_public_ip_address}
use one_gl.Security.Target.{
  Url, Resolved, OutboundError, Outcome, ok, error, check_addresses, check_found, addresses_of,
  resolve_public_target, parse_outbound_url, check_url, is_allowed, needs_https,
  needs_http_or_https, needs_hostname, has_credentials,
}

abbrev pub IsPublic : (Text → ℕ) → Resolved → Type 0
IsPublic is_ip r = is_public_ip_address is_ip r.address r.family ≡ true

-- What holds of a result, if there is one.
abbrev pub Given {ℓ κ} : {A : Type ℓ} → (A → Type κ) → Outcome A → Type κ
Given P (ok a) = P a
Given P (error e) = Unit

Given-ok {ℓ κ} : {A : Type ℓ} (P : A → Type κ) (o : Outcome A) (a : A) → Given P o → o ≡ ok a → P a
Given-ok P o a g e = subst (Given P) e g

Given-map {ℓ κ μ} :
    {A : Type ℓ} {P : A → Type κ} {Q : A → Type μ} (o : Outcome A)
    → ((a : A) → P a → Q a)
    → Given P o
    → Given Q o
Given-map (ok a) f g = f a g
Given-map (error e) f g = tt

-- A guard with its exception.
Given-guard {ℓ κ} :
    {A : Type ℓ} (P : A → Type κ) (b : Bool) (x : OutboundError) (o : Outcome A)
    → (b ≡ false → Given P o)
    → Given P (if b then error x else o)
Given-guard P true x o h = tt
Given-guard P false x o h = h refl

check_addresses-Given :
    (is_ip : Text → ℕ) (items : List Resolved) (rs : List Resolved)
    → Given (λ r. (r ≡ rs) × All (IsPublic is_ip) items) (check_addresses is_ip items (ok rs))
unfolding check_addresses
check_addresses-Given is_ip [] rs = (refl, tt)
check_addresses-Given is_ip (item ∷ items) rs =
    elim (Bool-cases (is_public_ip_address is_ip item.address item.family)) [
      | inl e ↦ rw e (
          Given-map (check_addresses is_ip items (ok rs)) (λ r h. (h.0, (refl, h.1)))
            (check_addresses-Given is_ip items rs))
      | inr e ↦ rw e tt
    ]

check_addresses-ok :
    (is_ip : Text → ℕ) (items : List Resolved) (all : Outcome (List Resolved))
    → All (IsPublic is_ip) items
    → check_addresses is_ip items all ≡ all
unfolding check_addresses
check_addresses-ok is_ip [] all h = refl
check_addresses-ok is_ip (item ∷ items) all h = rw h.0 (check_addresses-ok is_ip items all h.1)

check_found-Given :
    (is_ip : Text → ℕ) (found : Option (List Resolved))
    → Given
        (λ rs. (found ≡ some rs) × ((length rs ≢ 0) × All (IsPublic is_ip) rs))
        (check_found is_ip found)
check_found-Given is_ip none = tt
check_found-Given is_ip (some []) = tt
check_found-Given is_ip (some (item ∷ items)) =
    Given-map (check_addresses is_ip (item ∷ items) (ok (item ∷ items)))
      (λ rs h. (
        ap some (sym h.0),
        (
          subst (λ r. length r ≢ 0) (sym h.0) (omega arith),
          subst (All (IsPublic is_ip)) (sym h.0) h.1,
        ),
      ))
      (check_addresses-Given is_ip (item ∷ items) (item ∷ items))

check_found-ok :
    (is_ip : Text → ℕ) (rs : List Resolved)
    → length rs ≢ 0
    → All (IsPublic is_ip) rs
    → check_found is_ip (some rs) ≡ ok rs
check_found-ok is_ip [] h all = absurd (h refl)
check_found-ok is_ip (item ∷ items) h all =
    check_addresses-ok is_ip (item ∷ items) (ok (item ∷ items)) all

-- The target of a URL is accepted, with the addresses that were found, exactly when the host is an address
-- or the name service answers, at least one address was found, and every one of them is public: one
-- address that is not refuses them all.
pub resolve_public_target-ok_iff :
    (is_ip : Text → ℕ) (lookup : Text → Option (List Resolved)) (url : Url) (rs : List Resolved)
    → (resolve_public_target is_ip lookup url ≡ ok rs) ↔ (
        (addresses_of is_ip lookup (strip_ipv6_brackets url.hostname) ≡ some rs)
        × ((length rs ≢ 0) × All (IsPublic is_ip) rs))
unfolding resolve_public_target
resolve_public_target-ok_iff is_ip lookup url rs =
    let found = addresses_of is_ip lookup (strip_ipv6_brackets url.hostname) in
    (
      λ e.
          Given-ok (λ r. (found ≡ some r) × ((length r ≢ 0) × All (IsPublic is_ip) r))
            (check_found is_ip found) rs (check_found-Given is_ip found) e,
      λ h. rw h.0 (check_found-ok is_ip rs h.1.0 h.1.1),
    )

-- What a URL must be to be let through.
pub record IsOutbound (allow_http : Bool) (url : Url) : Type 0 where
  pub allowed : is_allowed allow_http url.protocol ≡ true
  pub named : length url.hostname ≢ 0
  pub no_user : length url.username ≡ 0
  pub no_password : length url.password ≡ 0
  pub no_hash : url.hash ≡ []

check_url-Given :
    (allow_http : Bool) (o : Option Url) → Given (IsOutbound allow_http) (check_url allow_http o)
check_url-Given allow_http none = tt
check_url-Given allow_http (some url) =
    Given-guard (IsOutbound allow_http) (not (is_allowed allow_http url.protocol))
      (if allow_http then needs_http_or_https else needs_https) _
      (λ p. Given-guard (IsOutbound allow_http) (length url.hostname == 0) needs_hostname _ (λ h.
        Given-guard (IsOutbound allow_http)
          (ltb 0 (length url.username) || ltb 0 (length url.password)) has_credentials _
          (λ c. record {
            allowed = ground (arith, p);
            named = ground arith;
            no_user = ground arith;
            no_password = ground arith;
            no_hash = refl;
          })))

pub parse_outbound_url-Given :
    (parse_url : Text → Option Url) (raw : Text) (allow_http : Bool)
    → Given (IsOutbound allow_http) (parse_outbound_url parse_url raw allow_http)
unfolding parse_outbound_url
parse_outbound_url-Given parse_url raw allow_http = check_url-Given allow_http (parse_url raw)
