-- ===== src/Security/Ipv4.antt =====
-- Addresses of four octets (src/security/outbound-url.js). A text is the list of its codes.
pub mod Dotted
use one_gl.Prelude.{
  ℕ, zero, suc, ◌+◌, ◌-◌, ◌*◌, ◌^◌, Bool, true, false, ◌&&◌, Option, none, some, List, [], ◌∷◌,
  if◌then◌else◌, ltb, leb, ◌==◌, length, Text, split,
}

abbrev pub dot : ℕ
dot = b'.'

unfoldable pub is_digit : ℕ → Bool
is_digit c = leb b'0' c && leb c b'9'

unfoldable pub all_of : (ℕ → Bool) → Text → Bool
all_of p [] = true
all_of p (c ∷ cs) = p c && all_of p cs

-- `Number` of a text of digits that follow the value so far.
pub decimal_from : ℕ → Text → ℕ
decimal_from value [] = value
decimal_from value (c ∷ cs) = decimal_from (value * 10 + (c - b'0')) cs

-- `/^\d{1,3}$/` and the bound
unfoldable pub octet_of : Text → Option ℕ
unfolding is_digit all_of decimal_from
octet_of raw =
    if ltb 0 (length raw)
      && leb (length raw) 3
      && all_of is_digit raw
      && leb (decimal_from 0 raw) 255
    then some (decimal_from 0 raw)
    else none

-- The octet fills the bits that the shift leaves zero.
abbrev pub push_octet : ℕ → Option ℕ → Option ℕ
push_octet value none = none
push_octet value (some octet) = some (value * 2 ^ 8 + octet)

unfoldable pub octets_from : Option ℕ → List Text → Option ℕ
unfolding octet_of
octets_from none raws = none
octets_from (some value) [] = some value
octets_from (some value) (raw ∷ raws) = octets_from (push_octet value (octet_of raw)) raws

unfoldable pub ipv4_to_big_int : Text → Option ℕ
unfolding octets_from split
ipv4_to_big_int address =
    let parts = split dot address in if length parts == 4 then octets_from (some 0) parts else none
