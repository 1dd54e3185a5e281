-- ===== src/Worker/Identity.antt =====
-- The texts that name accounts and sessions: `accountIdentity` and `parseAccountIdentity` of
-- src/queue/connection.js, `sessionKey` of src/worker.js. A text is the list of its codes; the decimal
-- text of a slot is JavaScript's.
pub mod Keys
use one_gl.Prelude.{
  ℕ, zero, suc, ◌+◌, ◌≤◌, ◌<◌, Bool, true, false, ◌&&◌, ◌||◌, Option, none, some, List, [], ◌∷◌,
  ◌++◌, if◌then◌else◌, ltb, ◌==◌, take, drop, length, Text, index_of,
}

abbrev pub colon : ℕ
colon = b':'

abbrev pub hash_sign : ℕ
hash_sign = b'#'

unfoldable pub account_identity : Text → Text → Text
account_identity account_key provider = provider ++ colon ∷ account_key

abbrev pub split_identity : Text → Option ℕ → Option (Text × Text)
split_identity text none = none
split_identity text (some i) =
    if i == 0 || suc i == length text then none else some (take i text, drop (suc i) text)

-- The provider and the account; `none` is the exception.
unfoldable pub parse_account_identity : Text → Option (Text × Text)
unfolding index_of
parse_account_identity text = split_identity text (index_of colon text)

unfoldable pub session_key : (ℕ → Text) → Text → Text → ℕ → Text
unfolding account_identity
session_key decimal account_key provider slot =
    if ltb 0 slot
    then account_identity account_key provider ++ hash_sign ∷ decimal slot
    else account_identity account_key provider
