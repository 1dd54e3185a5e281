-- ===== src/Security/Address.antt =====
-- Which addresses are public (src/security/outbound-url.js). `is_ip` stands for `net.isIP`: 4, 6, or 0
-- for a text that is no address.
pub mod Ranges
use one_gl.Prelude.{
  ℕ, zero, suc, ◌+◌, ◌-◌, ◌*◌, ◌/◌, ◌^◌, Bool, true, false, ◌&&◌, ◌||◌, not, Option, none, some,
  List, [], ◌∷◌, if◌then◌else◌, ◌==◌, String, Text, codes,
}
use one_gl.Security.Ipv4.{ipv4_to_big_int}
use one_gl.Security.Ipv6.{strip_ipv6_brackets, ipv6_to_big_int}

abbrev pub blocked_ipv4 : List (String × ℕ)
blocked_ipv4 =
    ("0.0.0.0", 8)
    ∷ ("10.0.0.0", 8)
    ∷ ("100.64.0.0", 10)
    ∷ ("127.0.0.0", 8)
    ∷ ("169.254.0.0", 16)
    ∷ ("172.16.0.0", 12)
    ∷ ("192.0.0.0", 24)
    ∷ ("192.0.2.0", 24)
    ∷ ("192.88.99.0", 24)
    ∷ ("192.168.0.0", 16)
    ∷ ("198.18.0.0", 15)
    ∷ ("198.51.100.0", 24)
    ∷ ("203.0.113.0", 24)
    ∷ ("224.0.0.0", 4)
    ∷ ("240.0.0.0", 4)
    ∷ []

abbrev pub blocked_ipv6 : List (String × ℕ)
blocked_ipv6 =
    ("::", 128)
    ∷ ("::1", 128)
    ∷ ("::ffff:0:0", 96)
    ∷ ("64:ff9b::", 96)
    ∷ ("64:ff9b:1::", 48)
    ∷ ("100::", 64)
    ∷ ("2001:2::", 48)
    ∷ ("2001:10::", 28)
    ∷ ("2001:20::", 28)
    ∷ ("2001:db8::", 32)
    ∷ ("2002::", 16)
    ∷ ("3fff::", 20)
    ∷ ("fc00::", 7)
    ∷ ("fe80::", 10)
    ∷ ("ff00::", 8)
    ∷ []

abbrev pub in_cidr : ℕ → ℕ → ℕ → ℕ → Bool
in_cidr value base bits prefix = value / 2 ^ (bits - prefix) == base / 2 ^ (bits - prefix)

-- Whether the value lies behind one of the prefixes, of an address of so many bits.
in_some : (Text → Option ℕ) → ℕ → ℕ → List (String × ℕ) → Bool
in_some parse bits value [] = false
in_some parse bits value ((base, prefix) ∷ rest) =
    elim (parse (codes base)) [ none ↦ false | some b ↦ in_cidr value b bits prefix ]
    || in_some parse bits value rest

unfoldable pub is_blocked : ℕ → ℕ → Bool
unfolding in_some ipv4_to_big_int ipv6_to_big_int
is_blocked bits value =
    if bits == 32
    then in_some ipv4_to_big_int 32 value blocked_ipv4
    else in_some ipv6_to_big_int 128 value blocked_ipv6

abbrev pub is_free : ℕ → Option ℕ → Bool
is_free bits none = false
is_free bits (some value) = not (is_blocked bits value)

-- A family of 0 is one that the caller does not know.
unfoldable pub is_public_ip_address : (Text → ℕ) → Text → ℕ → Bool
unfolding is_blocked
is_public_ip_address is_ip address family =
    let normalized = strip_ipv6_brackets address in
    let detected = if family == 0 then is_ip normalized else family in
    if detected == 4
    then is_free 32 (ipv4_to_big_int normalized)
    else if detected == 6
    then is_free 128 (ipv6_to_big_int normalized)
    else false
