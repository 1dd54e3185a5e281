-- ===== src/Security/Ipv4/Dotted.antt =====
-- The parser of four octets reads what the dotted form prints.
use one_gl.Prelude.{
  ℕ, ◌+◌, ◌*◌, ◌/◌, ◌%◌, ◌≤◌, ◌≡◌, ◌∙◌, ap, some, List, [], ◌∷◌, ◌++◌, if◌then◌else◌, ltb, Text,
  split, Lacks, split-append, split-whole, arith, Bool-cases, inl, inr, if-both,
}
use one_gl.Security.Ipv4.{
  dot, is_digit, all_of, decimal_from, octet_of, push_octet, octets_from, ipv4_to_big_int,
}

abbrev pub digit : ℕ → ℕ
digit n = b'0' + n % 10

-- Without leading zeros.
unfoldable pub octet_text : ℕ → Text
octet_text n =
    if ltb n 10
    then digit n ∷ []
    else if ltb n 100
    then digit (n / 10) ∷ digit n ∷ []
    else digit (n / 100) ∷ digit (n / 10) ∷ digit n ∷ []

unfoldable pub dotted : ℕ → ℕ → ℕ → ℕ → Text
dotted a b c d = octet_text a ++ dot ∷ (octet_text b ++ dot ∷ (octet_text c ++ dot ∷ octet_text d))

octet_of-octet_text : (n : ℕ) → n ≤ 255 → octet_of (octet_text n) ≡ some n
unfolding octet_of octet_text all_of is_digit decimal_from
octet_of-octet_text n h = elim (Bool-cases (ltb n 10)) [
  | inl e ↦ rw e (ground arith)
  | inr e ↦
      rw e (elim (Bool-cases (ltb n 100)) [
        | inl f ↦ rw f (ground arith)
        | inr f ↦ rw f (ground arith)
      ])
]

octet_text-Lacks : (n : ℕ) → Lacks dot (octet_text n)
unfolding octet_text
octet_text-Lacks n =
    if-both (Lacks dot) (ltb n 10) (ground arith, tt)
      (if-both (Lacks dot) (ltb n 100) (ground arith, (ground arith, tt))
        (ground arith, (ground arith, (ground arith, tt))))

split-dotted :
    (a b c d : ℕ)
    → split dot (dotted a b c d) ≡ octet_text a ∷ octet_text b ∷ octet_text c ∷ octet_text d ∷ []
unfolding dotted
split-dotted a b c d =
    split-append dot (octet_text a) (octet_text b ++ dot ∷ (octet_text c ++ dot ∷ octet_text d))
      (octet_text-Lacks a)
    ∙ ap (λ rest. octet_text a ∷ rest)
        (split-append dot (octet_text b) (octet_text c ++ dot ∷ octet_text d) (octet_text-Lacks b)
          ∙ ap (λ rest. octet_text b ∷ rest)
              (split-append dot (octet_text c) (octet_text d) (octet_text-Lacks c)
                ∙ ap (λ rest. octet_text c ∷ rest)
                    (split-whole dot (octet_text d) (octet_text-Lacks d))))

octets_from-next :
    (value n : ℕ) (raws : List Text)
    → n ≤ 255
    → octets_from (some value) (octet_text n ∷ raws) ≡ octets_from (some (value * 256 + n)) raws
unfolding octets_from
octets_from-next value n raws h =
    ap (λ o. octets_from (push_octet value o) raws) (octet_of-octet_text n h)

-- The value that the parser makes of the dotted form of four octets is their value in base 256.
pub ipv4_to_big_int-dotted :
    (a b c d : ℕ)
    → a ≤ 255
    → b ≤ 255
    → c ≤ 255
    → d ≤ 255
    → ipv4_to_big_int (dotted a b c d) ≡ some (((a * 256 + b) * 256 + c) * 256 + d)
unfolding ipv4_to_big_int
ipv4_to_big_int-dotted a b c d ha hb hc hd =
    let first : 0 * 256 + a ≡ a = omega arith in
    rw (split-dotted a b c d) (
      octets_from-next 0 a (octet_text b ∷ octet_text c ∷ octet_text d ∷ []) ha
      ∙ ap (λ v. octets_from (some v) (octet_text b ∷ octet_text c ∷ octet_text d ∷ [])) first
      ∙ octets_from-next a b (octet_text c ∷ octet_text d ∷ []) hb
      ∙ octets_from-next (a * 256 + b) c (octet_text d ∷ []) hc
      ∙ octets_from-next ((a * 256 + b) * 256 + c) d [] hd)
