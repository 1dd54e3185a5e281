-- ===== src/Tests/Security.antt =====
-- Addresses and requests, with a platform that knows one URL and one host.
use one_gl.Prelude.{ℕ, ◌≡◌, refl, true, false, not, Option, some, List, [], ◌∷◌, arith, Text, codes}
use one_gl.Security.Ipv4.Dotted.{dotted}
use one_gl.Security.Ipv6.{ipv6_to_big_int}
use one_gl.Security.Address.{is_public_ip_address}
use one_gl.Security.Address.Ranges.{reserved, some_of, is_public_ip_address-dotted}
use one_gl.Security.Target.{Url, https, Resolved}
use one_gl.Security.Target.Public.{Given}
use one_gl.Security.Request.{ResponseEvent, data_chunk, ended, safe_outbound_request}
use one_gl.Security.Request.Safe.{IsSafe, safe_outbound_request-IsSafe}

-- No text is read as an address by itself.
abbrev no_ip : Text → ℕ
no_ip text = 0

-- Runs of the parser of eight words.
mapped_words : ipv6_to_big_int (codes "[::FFFF:1.2.3.4]") ≡ some 281470698652420
unfolding ipv6_to_big_int
mapped_words = refl

full_words_1 : ipv6_to_big_int (codes "2001:db8::1") ≡ some 42540766411282592856903984951653826561
unfolding ipv6_to_big_int
full_words_1 = refl

mapped_refused : is_public_ip_address no_ip (codes "::ffff:8.8.8.8") 6 ≡ false
unfolding is_public_ip_address
mapped_refused = refl

global_allowed : is_public_ip_address no_ip (codes "2a00:1450:4001::1") 6 ≡ true
unfolding is_public_ip_address
global_allowed = refl

is_public_ip_address-dotted_example :
    is_public_ip_address no_ip (dotted 172 31 8 9) 4 ≡ not (some_of (reserved 172 31 8))
is_public_ip_address-dotted_example =
    is_public_ip_address-dotted no_ip 172 31 8 9 (omega arith) (omega arith) (omega arith)
      (omega arith)

abbrev hook_url : Url
hook_url = record {
  protocol = https;
  hostname = codes "hooks.example";
  username = [];
  password = [];
  path = codes "/in";
  hash = [];
}

abbrev parse_url : Text → Option Url
parse_url text = some hook_url

abbrev name_service : Text → Option (List Resolved)
name_service host = some (record { address = codes "93.184.216.34"; family = 4 } ∷ [])

abbrev network : Url → Text → ℕ × List ResponseEvent
network url address = (200, data_chunk (codes "ok") ∷ ended ∷ [])

safe_outbound_request-IsSafe_example :
    Given (IsSafe parse_url no_ip name_service network 2000 false) (
      safe_outbound_request parse_url no_ip name_service network 2000
        (codes "https://hooks.example/in#x")
        false)
safe_outbound_request-IsSafe_example =
    safe_outbound_request-IsSafe parse_url no_ip name_service network 2000 false
      (codes "https://hooks.example/in#x")
