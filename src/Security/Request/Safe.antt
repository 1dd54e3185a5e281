-- ===== src/Security/Request/Safe.antt =====
-- What a request of src/security/outbound-url.js can reach, and how much it keeps.
use one_gl.Prelude.{
  ℕ, ◌≤◌, ◌≡◌, ◌≢◌, inl, inr, refl, Bool, true, Option, some, List, [], ◌∷◌, ◌++◌, All, Text, ltb,
  length, Bool-cases, arith,
}
use one_gl.Security.Ipv6.{strip_ipv6_brackets}
use one_gl.Security.Target.{
  Url, Resolved, Outcome, ok, error, then_outcome, parse_outbound_url, resolve_public_target,
  addresses_of,
}
use one_gl.Security.Target.Public.{
  IsPublic, Given, IsOutbound, parse_outbound_url-Given, resolve_public_target-ok_iff,
}
use one_gl.Security.Request.{
  ResponseEvent, data_chunk, ended, failed, Reply, Promise, reading, replied, rejected, in_limit,
  on_response, read_response, read_all, request_with_pinned_lookup, safe_outbound_request,
}

-- The reply is a full one of status 2xx to the address, or is not taken as a success; and no more is kept
-- than the limit allows.
pub record IsBounded (max_response_bytes : ℕ) (address : Text) (r : Reply) : Type 0 where
  pub kept : length r.body ≤ max_response_bytes
  pub whole : r.ok_status ≡ true → (200 ≤ r.status) × ((r.status ≤ 299) × (length r.body ≡ r.bytes))
  at_address : r.connected_address ≡ address

abbrev pub PromiseBounded : ℕ → Text → Promise → Type 0
PromiseBounded max_response_bytes address (reading body) = length body ≤ max_response_bytes
PromiseBounded max_response_bytes address (replied r) = IsBounded max_response_bytes address r
PromiseBounded max_response_bytes address rejected = Unit

in_limit-Bounded :
    (max_response_bytes status : ℕ) (address body : Text)
    → PromiseBounded max_response_bytes address (in_limit max_response_bytes status address body)
in_limit-Bounded max_response_bytes status address body =
    elim (Bool-cases (ltb max_response_bytes (length body))) [
      | inl e ↦ rw e (record { kept = omega arith; whole = λ h. cc; at_address = refl })
      | inr e ↦ rw e (ground arith)
    ]

on_response-Bounded :
    (max_response_bytes status : ℕ) (address : Text) (p : Promise) (e : ResponseEvent)
    → PromiseBounded max_response_bytes address p
    → PromiseBounded max_response_bytes address (on_response max_response_bytes status address p e)
unfolding on_response
on_response-Bounded m status address (replied r) e h = h
on_response-Bounded m status address rejected e h = tt
on_response-Bounded m status address (reading body) (data_chunk chunk) h =
    in_limit-Bounded m status address (body ++ chunk)
on_response-Bounded m status address (reading body) ended h = record {
  kept = h;
  whole = λ k. (ground (arith, k), (ground (arith, k), refl));
  at_address = refl;
}
on_response-Bounded m status address (reading body) failed h = tt

read_response-Bounded :
    (max_response_bytes status : ℕ) (address : Text) (p : Promise) (es : List ResponseEvent)
    → PromiseBounded max_response_bytes address p
    → PromiseBounded max_response_bytes address
        (read_response max_response_bytes status address p es)
unfolding read_response
read_response-Bounded m status address p [] h = h
read_response-Bounded m status address p (e ∷ es) h =
    read_response-Bounded m status address (on_response m status address p e) es
      (on_response-Bounded m status address p e h)

module _ (parse_url : Text → Option Url) (is_ip : Text → ℕ) (lookup : Text → Option (List Resolved))
    (network : Url → Text → ℕ × List ResponseEvent) (max_response_bytes : ℕ)
    (allow_http : Bool) where
  -- Where a request went, and what it came to.
  pub record IsSafe (p : Promise) : Type 0 where
    pub url : Url
    pub outbound : IsOutbound allow_http url
    pub target : Resolved
    pub others : List Resolved
    pub found :
        addresses_of is_ip lookup (strip_ipv6_brackets url.hostname) ≡ some (target ∷ others)
    pub public_all : All (IsPublic is_ip) (target ∷ others)
    pub answered : p ≡ read_all max_response_bytes target.address (network url target.address)
    pub bounded : PromiseBounded max_response_bytes target.address p

  pinned-IsSafe :
      (url : Url) (rs : List Resolved)
      → IsOutbound allow_http url
      → addresses_of is_ip lookup (strip_ipv6_brackets url.hostname) ≡ some rs
      → length rs ≢ 0
      → All (IsPublic is_ip) rs
      → IsSafe (request_with_pinned_lookup network max_response_bytes url rs)
  unfolding request_with_pinned_lookup
  pinned-IsSafe url [] outbound found named all = absurd (named refl)
  pinned-IsSafe url (target ∷ others) outbound found named all = record {
    url = url;
    outbound = outbound;
    target = target;
    others = others;
    found = found;
    public_all = all;
    answered = refl;
    bounded =
        let (status, es) = network url target.address in
        read_response-Bounded max_response_bytes status target.address (reading []) es
          (omega arith);
  }

  resolved-Given :
      (url : Url)
      → IsOutbound allow_http url
      → Given IsSafe (
          then_outcome
            (resolve_public_target is_ip lookup url)
            (λ addresses. ok (request_with_pinned_lookup network max_response_bytes url addresses)))
  unfolding then_outcome
  resolved-Given url outbound = resolved (resolve_public_target is_ip lookup url) refl
    where
      resolved :
          (o : Outcome (List Resolved))
          → resolve_public_target is_ip lookup url ≡ o
          → Given IsSafe (
              then_outcome o (λ addresses.
                ok (request_with_pinned_lookup network max_response_bytes url addresses)))
      resolved (error e) h = tt
      resolved (ok rs) h =
          let (found, (named, all)) = (resolve_public_target-ok_iff is_ip lookup url rs).0 h in
          pinned-IsSafe url rs outbound found named all

  parsed-Given :
      (o : Outcome Url)
      → Given (IsOutbound allow_http) o
      → Given IsSafe (
          then_outcome o (λ url. then_outcome (resolve_public_target is_ip lookup url) (λ addresses.
            ok (request_with_pinned_lookup network max_response_bytes url addresses))))
  unfolding then_outcome
  parsed-Given (ok url) h = resolved-Given url h
  parsed-Given (error e) h = tt

  -- A request that is not refused goes to the first of the addresses that were found for an https URL, or
  -- an http URL where that is allowed, with a host and without credentials; all of these addresses are
  -- public; and its reply comes from that address, keeps no more bytes than the limit, and is a success
  -- only with a status from 200 to 299 and the whole body.
  pub safe_outbound_request-IsSafe :
      (raw_url : Text)
      → Given IsSafe (
          safe_outbound_request parse_url is_ip lookup network max_response_bytes raw_url
            allow_http)
  unfolding safe_outbound_request
  safe_outbound_request-IsSafe raw_url =
      parsed-Given (parse_outbound_url parse_url raw_url allow_http)
        (parse_outbound_url-Given parse_url raw_url allow_http)
