-- ===== src/Security/Ipv6.antt =====
-- Addresses of eight words (src/security/outbound-url.js). A text is the list of its codes.
use one_gl.Prelude.{
  ℕ, suc, ◌+◌, ◌-◌, ◌*◌, ◌/◌, ◌%◌, ◌^◌, Bool, true, false, ◌&&◌, ◌||◌, Option, none, some, List, [],
  ◌∷◌, ◌++◌, if◌then◌else◌, ltb, leb, ◌==◌, length, take, drop, replicate, Text, split, index_of,
  cons_head,
}
use one_gl.Security.Ipv4.{dot, is_digit, all_of, ipv4_to_big_int}

abbrev pub colon : ℕ
colon = b':'

abbrev pub percent : ℕ
percent = b'%'

-- `text.endsWith("]")`
unfoldable pub ends_with : ℕ → Text → Bool
ends_with c [] = false
ends_with c (a ∷ []) = a == c
ends_with c (a ∷ b ∷ as') = ends_with c (b ∷ as')

unfoldable pub strip_ipv6_brackets : Text → Text
unfolding ends_with
strip_ipv6_brackets [] = []
strip_ipv6_brackets (c ∷ cs) =
    if c == b'[' && ends_with b']' (c ∷ cs) then take (length cs - 1) cs else c ∷ cs

unfoldable pub lower : ℕ → ℕ
lower c = if leb b'A' c && leb c b'Z' then c + 32 else c

unfoldable pub to_lower_case : Text → Text
unfolding lower
to_lower_case [] = []
to_lower_case (c ∷ cs) = lower c ∷ to_lower_case cs

abbrev pub later_index : Bool → Option ℕ → Option ℕ
later_index here (some i) = some (suc i)
later_index here none = if here then some 0 else none

-- `text.lastIndexOf(c)`
unfoldable pub last_index_of : ℕ → Text → Option ℕ
last_index_of c [] = none
last_index_of c (a ∷ as') = later_index (a == c) (last_index_of c as')

abbrev pub includes : ℕ → Text → Bool
includes c text = elim (index_of c text) [ none ↦ false | some i ↦ true ]

abbrev pub hex_digit : ℕ → ℕ
hex_digit n = if ltb n 10 then b'0' + n else b'a' + (n - 10)

-- `toString(16)` of a word
unfoldable pub hex_text : ℕ → Text
hex_text n =
    if ltb n 16
    then hex_digit n ∷ []
    else if ltb n 256
    then hex_digit (n / 16) ∷ hex_digit (n % 16) ∷ []
    else if ltb n 4096
    then hex_digit (n / 256) ∷ hex_digit (n / 16 % 16) ∷ hex_digit (n % 16) ∷ []
    else hex_digit (n / 4096)
      ∷ hex_digit (n / 256 % 16)
      ∷ hex_digit (n / 16 % 16)
      ∷ hex_digit (n % 16)
      ∷ []

-- The last four octets as two words.
abbrev pub with_words : Text → Option ℕ → Option Text
with_words before none = none
with_words before (some ipv4) =
    some (before ++ colon ∷ hex_text (ipv4 / 2 ^ 16 % 2 ^ 16) ++ colon ∷ hex_text (ipv4 % 2 ^ 16))

abbrev pub at_separator : Text → Option ℕ → Option Text
at_separator address none = none
at_separator address (some separator) =
    with_words (take separator address) (ipv4_to_big_int (drop (suc separator) address))

unfoldable pub expand_octets : Text → Option Text
unfolding last_index_of hex_text ipv4_to_big_int index_of
expand_octets address =
    if includes dot address
    then at_separator address (last_index_of colon address)
    else some address

-- `address.split("::")`
unfoldable pub split_compressed : Text → List Text
split_compressed [] = [] ∷ []
split_compressed (a ∷ []) = (a ∷ []) ∷ []
split_compressed (a ∷ b ∷ as') =
    let rest = split_compressed as' in
    let next = split_compressed (b ∷ as') in
    if a == colon && b == colon then [] ∷ rest else cons_head a next

unfoldable pub words_of : Text → List Text
unfolding split
words_of [] = []
words_of (c ∷ cs) = split colon (c ∷ cs)

unfoldable pub is_hex : ℕ → Bool
unfolding is_digit
is_hex c = is_digit c || (leb b'a' c && leb c b'f')

-- `/^[0-9a-f]{1,4}$/`
unfoldable pub is_word : Text → Bool
unfolding is_hex all_of
is_word word = ltb 0 (length word) && leb (length word) 4 && all_of is_hex word

unfoldable pub every_word : List Text → Bool
unfolding is_word
every_word [] = true
every_word (w ∷ ws) = is_word w && every_word ws

unfoldable pub full_words : List Text → Option (List Text)
unfolding every_word
full_words left = if every_word left && length left == 8 then some left else none

unfoldable pub compressed_words : List Text → List Text → Option (List Text)
unfolding every_word
compressed_words left right =
    let zeros = 8 - (length left + length right) in
    if every_word left && every_word right && leb 1 zeros
    then some (left ++ replicate zeros (b'0' ∷ []) ++ right)
    else none

-- Eight words, from what stands around the `::`.
unfoldable pub ipv6_words : List Text → Option (List Text)
unfolding full_words compressed_words words_of
ipv6_words [] = none
ipv6_words (left ∷ []) = full_words (words_of left)
ipv6_words (left ∷ right ∷ []) = compressed_words (words_of left) (words_of right)
ipv6_words (left ∷ right ∷ more ∷ others) = none

-- `Number.parseInt(word, 16)` of digits that follow the value so far.
unfoldable pub hex_from : ℕ → Text → ℕ
hex_from value [] = value
hex_from value (c ∷ cs) =
    hex_from (value * 16 + (if leb b'a' c then c - b'a' + 10 else c - b'0')) cs

unfoldable pub value_of_words : ℕ → List Text → ℕ
unfolding hex_from
value_of_words value [] = value
value_of_words value (w ∷ ws) = value_of_words (value * 2 ^ 16 + hex_from 0 w) ws

abbrev pub value_of_address : Option (List Text) → Option ℕ
value_of_address none = none
value_of_address (some words) = some (value_of_words 0 words)

abbrev pub value_of_expanded : Option Text → Option ℕ
value_of_expanded none = none
value_of_expanded (some address) = value_of_address (ipv6_words (split_compressed address))

unfoldable pub ipv6_to_big_int : Text → Option ℕ
unfolding strip_ipv6_brackets to_lower_case expand_octets split_compressed ipv6_words value_of_words
    index_of
ipv6_to_big_int raw_address =
    let address = to_lower_case (strip_ipv6_brackets raw_address) in
    if length address == 0 || includes percent address
    then none
    else value_of_expanded (expand_octets address)
