-- ===== src/Security/Address/Ranges.antt =====
-- What the blocked prefixes of four octets mean (src/security/outbound-url.js).
use one_gl.Prelude.{
  ℕ, ◌+◌, ◌*◌, ◌≤◌, ◌≡◌, ◌∙◌, ap, refl, Bool, false, ◌&&◌, ◌||◌, not, List, [], ◌∷◌, Text,
  Bool-cases, inl, inr, ◌++◌, arith, leb, ltb, ◌==◌,
}
use one_gl.Security.Ipv4.{dot, ipv4_to_big_int}
use one_gl.Security.Ipv4.Dotted.{octet_text, dotted, ipv4_to_big_int-dotted}
use one_gl.Security.Ipv6.{strip_ipv6_brackets}
use one_gl.Security.Address.{is_free, in_cidr, is_blocked, is_public_ip_address}

-- The networks that are no place of the public internet, by their octets.
abbrev pub reserved : ℕ → ℕ → ℕ → List Bool
reserved a b c =
    (a == 0)
    ∷ (a == 10)
    ∷ (a == 100 && (leb 64 b && leb b 127))
    ∷ (a == 127)
    ∷ (a == 169 && b == 254)
    ∷ (a == 172 && (leb 16 b && leb b 31))
    ∷ (a == 192 && (b == 0 && c == 0))
    ∷ (a == 192 && (b == 0 && c == 2))
    ∷ (a == 192 && (b == 88 && c == 99))
    ∷ (a == 192 && b == 168)
    ∷ (a == 198 && (leb 18 b && leb b 19))
    ∷ (a == 198 && (b == 51 && c == 100))
    ∷ (a == 203 && (b == 0 && c == 113))
    ∷ (leb 224 a && leb a 239)
    ∷ (leb 240 a)
    ∷ []

abbrev pub some_of : List Bool → Bool
some_of [] = false
some_of (p ∷ ps) = p || some_of ps

abbrev pub value_of : ℕ → ℕ → ℕ → ℕ → ℕ
value_of a b c d = ((a * 256 + b) * 256 + c) * 256 + d

module _ (a b c d : ℕ) (ha : a ≤ 255) (hb : b ≤ 255) (hc : c ≤ 255) (hd : d ≤ 255) where
  net_0 : in_cidr (value_of a b c d) 0 32 8 ≡ (a == 0)
  net_0 = ground arith

  net_10 : in_cidr (value_of a b c d) 167772160 32 8 ≡ (a == 10)
  net_10 = ground arith

  net_100 : in_cidr (value_of a b c d) 1681915904 32 10 ≡ (a == 100 && (leb 64 b && leb b 127))
  net_100 = ground arith

  net_127 : in_cidr (value_of a b c d) 2130706432 32 8 ≡ (a == 127)
  net_127 = ground arith

  net_169 : in_cidr (value_of a b c d) 2851995648 32 16 ≡ (a == 169 && b == 254)
  net_169 = ground arith

  net_172 : in_cidr (value_of a b c d) 2886729728 32 12 ≡ (a == 172 && (leb 16 b && leb b 31))
  net_172 = ground arith

  net_192_0_0 : in_cidr (value_of a b c d) 3221225472 32 24 ≡ (a == 192 && (b == 0 && c == 0))
  net_192_0_0 = ground arith

  net_192_0_2 : in_cidr (value_of a b c d) 3221225984 32 24 ≡ (a == 192 && (b == 0 && c == 2))
  net_192_0_2 = ground arith

  net_192_88 : in_cidr (value_of a b c d) 3227017984 32 24 ≡ (a == 192 && (b == 88 && c == 99))
  net_192_88 = ground arith

  net_192_168 : in_cidr (value_of a b c d) 3232235520 32 16 ≡ (a == 192 && b == 168)
  net_192_168 = ground arith

  net_198_18 : in_cidr (value_of a b c d) 3323068416 32 15 ≡ (a == 198 && (leb 18 b && leb b 19))
  net_198_18 = ground arith

  net_198_51 : in_cidr (value_of a b c d) 3325256704 32 24 ≡ (a == 198 && (b == 51 && c == 100))
  net_198_51 = ground arith

  net_203 : in_cidr (value_of a b c d) 3405803776 32 24 ≡ (a == 203 && (b == 0 && c == 113))
  net_203 = ground arith

  net_224 : in_cidr (value_of a b c d) 3758096384 32 4 ≡ (leb 224 a && leb a 239)
  net_224 = ground arith

  net_240 : in_cidr (value_of a b c d) 4026531840 32 4 ≡ (leb 240 a)
  net_240 = ground arith

  is_blocked-value_of : is_blocked 32 (value_of a b c d) ≡ some_of (reserved a b c)
  unfolding is_blocked
  is_blocked-value_of =
      rw
        (
          net_0, net_10, net_100, net_127, net_169, net_172, net_192_0_0, net_192_0_2, net_192_88,
          net_192_168, net_198_18, net_198_51, net_203, net_224, net_240,
        )
        refl

unbracketed :
    (n : ℕ) (rest : Text) → strip_ipv6_brackets (octet_text n ++ rest) ≡ octet_text n ++ rest
unfolding strip_ipv6_brackets octet_text
unbracketed n rest = elim (Bool-cases (ltb n 10)) [
  | inl e ↦ rw e (ground arith)
  | inr e ↦
      rw e (elim (Bool-cases (ltb n 100)) [
        | inl f ↦ rw f (ground arith)
        | inr f ↦ rw f (ground arith)
      ])
]

unbracketed_dotted : (a b c d : ℕ) → strip_ipv6_brackets (dotted a b c d) ≡ dotted a b c d
unfolding dotted
unbracketed_dotted a b c d =
    unbracketed a (dot ∷ (octet_text b ++ dot ∷ (octet_text c ++ dot ∷ octet_text d)))

-- The dotted address of four octets is public exactly when its octets lie in none of the fifteen reserved
-- networks.
pub is_public_ip_address-dotted :
    (is_ip : Text → ℕ) (a b c d : ℕ)
    → a ≤ 255
    → b ≤ 255
    → c ≤ 255
    → d ≤ 255
    → is_public_ip_address is_ip (dotted a b c d) 4 ≡ not (some_of (reserved a b c))
unfolding is_public_ip_address
is_public_ip_address-dotted is_ip a b c d ha hb hc hd =
    ap (λ t. is_free 32 (ipv4_to_big_int t)) (unbracketed_dotted a b c d)
    ∙ ap (is_free 32) (ipv4_to_big_int-dotted a b c d ha hb hc hd)
    ∙ ap not (is_blocked-value_of a b c d ha hb hc hd)
