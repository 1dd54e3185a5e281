-- ===== src/Security/Request.antt =====
-- The request itself (src/security/outbound-url.js): `requestWithPinnedLookup` and `safeOutboundRequest`.
-- The network is a parameter: what the response to the URL at an address brings, in the order in which it
-- comes. A request that fails or times out brings `failed`.
pub mod Safe
use one_gl.Prelude.{
  ℕ, ◌+◌, Bool, true, false, ◌&&◌, Option, none, some, List, [], ◌∷◌, ◌++◌, if◌then◌else◌, ltb, leb,
  Text, length,
}
use one_gl.Security.Target.{
  Url, Resolved, OutboundError, Outcome, ok, error, then_outcome, parse_outbound_url,
  resolve_public_target,
}

pub data ResponseEvent : Type 0 where
  data_chunk : Text → ResponseEvent
  ended failed : ResponseEvent

pub record Reply : Type 0 where
  pub status : ℕ
  pub ok_status : Bool
  pub body : Text
  pub connected_address : Text
  pub bytes : ℕ
  too_large : Bool

-- The promise and, while it is unsettled, the bytes so far.
pub data Promise : Type 0 where
  reading : Text → Promise
  replied : Reply → Promise
  rejected : Promise

abbrev pub in_limit : ℕ → ℕ → Text → Text → Promise
in_limit max_response_bytes status address body =
    if ltb max_response_bytes (length body)
    then replied (record {
      status = status;
      ok_status = false;
      body = [];
      connected_address = address;
      bytes = length body;
      too_large = true;
    })
    else reading body

-- A settled promise ignores what comes.
unfoldable pub on_response : ℕ → ℕ → Text → Promise → ResponseEvent → Promise
on_response max_response_bytes status address (replied r) e = replied r
on_response max_response_bytes status address rejected e = rejected
on_response max_response_bytes status address (reading body) (data_chunk chunk) =
    in_limit max_response_bytes status address (body ++ chunk)
on_response max_response_bytes status address (reading body) ended = replied (record {
  status = status;
  ok_status = leb 200 status && ltb status 300;
  body = body;
  connected_address = address;
  bytes = length body;
  too_large = false;
})
on_response max_response_bytes status address (reading body) failed = rejected

unfoldable pub read_response : ℕ → ℕ → Text → Promise → List ResponseEvent → Promise
unfolding on_response
read_response max_response_bytes status address p [] = p
read_response max_response_bytes status address p (e ∷ es) =
    read_response max_response_bytes status address
      (on_response max_response_bytes status address p e) es

abbrev pub read_all : ℕ → Text → ℕ × List ResponseEvent → Promise
read_all max_response_bytes address (status, es) =
    read_response max_response_bytes status address (reading []) es

-- Only the first address is used. A target has one; with none there is no request.
unfoldable pub request_with_pinned_lookup :
    (Url → Text → ℕ × List ResponseEvent) → ℕ → Url → List Resolved → Promise
unfolding read_response
request_with_pinned_lookup network max_response_bytes url [] = rejected
request_with_pinned_lookup network max_response_bytes url (target ∷ others) =
    read_all max_response_bytes target.address (network url target.address)

unfoldable pub safe_outbound_request :
    (Text → Option Url)
    → (Text → ℕ)
    → (Text → Option (List Resolved))
    → (Url → Text → ℕ × List ResponseEvent)
    → ℕ
    → Text
    → Bool
    → Outcome Promise
unfolding request_with_pinned_lookup then_outcome
safe_outbound_request parse_url is_ip lookup network max_response_bytes raw_url allow_http =
    then_outcome (parse_outbound_url parse_url raw_url allow_http) (λ url.
      then_outcome (resolve_public_target is_ip lookup url)
        (λ addresses. ok (request_with_pinned_lookup network max_response_bytes url addresses)))
