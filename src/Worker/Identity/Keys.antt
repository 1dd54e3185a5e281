-- ===== src/Worker/Identity/Keys.antt =====
-- The texts that name accounts and sessions name them uniquely (src/queue/connection.js, src/worker.js).
use one_gl.Prelude.{
  Text, index_of, ℕ, zero, suc, ◌<◌, ◌≡◌, ◌≢◌, refl, sym, ap, ◌∙◌, true, false, ◌||◌, some, [], ◌∷◌,
  ◌++◌, ltb, ◌==◌, take, drop, length, arith, All, Bool-cases, inl, inr, length-append,
}
use mathlib.Core.List.{append_assoc}
use one_gl.Worker.Identity.{colon, hash_sign, account_identity, parse_account_identity, session_key}

-- A text without a character.
abbrev pub Lacks : ℕ → Text → Type 0
Lacks c text = All (λ a. a ≢ c) text

index_of-append : (c : ℕ) (s t : Text) → Lacks c s → index_of c (s ++ c ∷ t) ≡ some (length s)
unfolding index_of
index_of-append c [] t h = ground arith
index_of-append c (a ∷ s) t h = ground (arith, index_of-append c s t h.1)

take-append : (s t : Text) → take (length s) (s ++ t) ≡ s
take-append [] t = refl
take-append (a ∷ s) t = ap (λ r. a ∷ r) (take-append s t)

drop-append : (c : ℕ) (s t : Text) → drop (suc (length s)) (s ++ c ∷ t) ≡ t
drop-append c [] t = refl
drop-append c (a ∷ s) t = drop-append c s t

is_inside :
    (s t : Text)
    → 0 < length t
    → 0 < length s
    → (length s == 0 || suc (length s) == length (s ++ colon ∷ t)) ≡ false
is_inside s t p q = ground (arith, length-append s (colon ∷ t))

-- An identity is taken apart into the provider and the account that it was put together from, whatever
-- the account's text, if both are not empty and the provider has no colon.
pub parse_account_identity-account_identity :
    (account_key provider : Text)
    → 0 < length account_key
    → 0 < length provider
    → Lacks colon provider
    → parse_account_identity (account_identity account_key provider) ≡ some (provider, account_key)
unfolding parse_account_identity account_identity
parse_account_identity-account_identity account_key provider p q h =
    rw
      (
        index_of-append colon provider account_key h,
        is_inside provider account_key p q,
        take-append provider (colon ∷ account_key),
        drop-append colon provider account_key,
      )
      refl

identity-append :
    (account_key provider rest : Text)
    → account_identity (account_key ++ rest) provider
      ≡ account_identity account_key provider ++ rest
unfolding account_identity
identity-append account_key provider rest = sym (append_assoc provider (colon ∷ account_key) rest)

-- `closeSession(parseAccountIdentity(key))`, which names no slot, names the session with that very key:
-- for every account and every slot, the parts of its session's key make up the same key again.
session_key-parse_account_identity :
    (decimal : ℕ → Text) (account_key provider : Text) (slot : ℕ)
    → 0 < length account_key
    → 0 < length provider
    → Lacks colon provider
    → (a : Text) × (p : Text) × (parse_account_identity
          (session_key decimal account_key provider slot)
        ≡ some (p, a))
      × (session_key decimal a p 0 ≡ session_key decimal account_key provider slot)
unfolding session_key
session_key-parse_account_identity decimal account_key provider slot p q h =
    elim (Bool-cases (ltb 0 slot)) [
      | inl e ↦ rw e (
        account_key ++ hash_sign ∷ decimal slot,
        provider,
        rw (← identity-append account_key provider (hash_sign ∷ decimal slot)) (
            parse_account_identity-account_identity (account_key ++ hash_sign ∷ decimal slot)
              provider (omega (arith, length-append account_key (hash_sign ∷ decimal slot))) q h),
        identity-append account_key provider (hash_sign ∷ decimal slot),
      )
      | inr e ↦ rw e (
        account_key,
        provider,
        parse_account_identity-account_identity account_key provider p q h,
        refl,
      )
    ]

cons_parts : (a b : ℕ) (s t : Text) → ◌≡◌ {A = Text} (a ∷ s) (b ∷ t) → (a ≡ b) × (s ≡ t)
cons_parts a b s t e = (cc, cc)

-- Where neither text has the separator, the parts of a separated text are determined.
split_unique :
    (c : ℕ) (s s' t t' : Text)
    → Lacks c s
    → Lacks c s'
    → s ++ c ∷ t ≡ s' ++ c ∷ t'
    → (s ≡ s') × (t ≡ t')
split_unique c [] [] t t' h k e = (refl, (cons_parts c c t t' e).1)
split_unique c [] (b ∷ s') t t' h k e = absurd (k.0 (sym (cons_parts c b t (s' ++ c ∷ t') e).0))
split_unique c (a ∷ s) [] t t' h k e = absurd (h.0 (cons_parts a c (s ++ c ∷ t) t' e).0)
split_unique c (a ∷ s) (b ∷ s') t t' h k e =
    let (head, tail) = cons_parts a b (s ++ c ∷ t) (s' ++ c ∷ t') e in
    let (front, back) = split_unique c s s' t t' h.1 k.1 tail in (cc (head, front), back)

not-Lacks-append : (c : ℕ) (s t t' : Text) → Lacks c s → s ≢ t ++ c ∷ t'
not-Lacks-append c [] [] t' h e = cc
not-Lacks-append c [] (b ∷ t) t' h e = cc
not-Lacks-append c (a ∷ s) [] t' h e = h.0 (cons_parts a c s t' e).0
not-Lacks-append c (a ∷ s) (b ∷ t) t' h e =
    not-Lacks-append c s t t' h.1 (cons_parts a b s (t ++ c ∷ t') e).1

-- The account part of a session's key.
abbrev suffixed : (ℕ → Text) → Text → ℕ → Text
suffixed decimal b zero = b
suffixed decimal b (suc n) = b ++ hash_sign ∷ decimal (suc n)

session_key-suffixed :
    (decimal : ℕ → Text) (b p : Text) (n : ℕ)
    → session_key decimal b p n ≡ account_identity (suffixed decimal b n) p
unfolding session_key
session_key-suffixed decimal b p zero = refl
session_key-suffixed decimal b p (suc n) =
    let positive : ltb 0 (suc n) ≡ true = ground arith in
    rw positive (sym (identity-append b p (hash_sign ∷ decimal (suc n))))

suffixed-injective :
    (decimal : ℕ → Text) (a b : Text) (m n : ℕ)
    → ((i j : ℕ) → decimal i ≡ decimal j → i ≡ j)
    → Lacks hash_sign a
    → Lacks hash_sign b
    → suffixed decimal a m ≡ suffixed decimal b n
    → (a ≡ b) × (m ≡ n)
suffixed-injective decimal a b zero zero inj ha hb e = (e, refl)
suffixed-injective decimal a b zero (suc n) inj ha hb e =
    absurd (not-Lacks-append hash_sign a b (decimal (suc n)) ha e)
suffixed-injective decimal a b (suc m) zero inj ha hb e =
    absurd (not-Lacks-append hash_sign b a (decimal (suc m)) hb (sym e))
suffixed-injective decimal a b (suc m) (suc n) inj ha hb e =
    let (same, slot) = split_unique hash_sign a b (decimal (suc m)) (decimal (suc n)) ha hb e in
    (same, inj (suc m) (suc n) slot)

-- Sessions of different accounts, providers or slots have different keys, where providers have no colon,
-- accounts no hash sign, and different slots different decimal texts.
session_key-injective :
    (decimal : ℕ → Text) (a a' p p' : Text) (slot slot' : ℕ)
    → ((m n : ℕ) → decimal m ≡ decimal n → m ≡ n)
    → Lacks colon p
    → Lacks colon p'
    → Lacks hash_sign a
    → Lacks hash_sign a'
    → session_key decimal a p slot ≡ session_key decimal a' p' slot'
    → (a ≡ a') × (p ≡ p') × (slot ≡ slot')
unfolding account_identity
session_key-injective decimal a a' p p' slot slot' inj cp cp' ha ha' e =
    let keys =
      sym (session_key-suffixed decimal a p slot) ∙ e ∙ session_key-suffixed decimal a' p' slot' in
    let (provider, rest) =
      split_unique colon p p' (suffixed decimal a slot) (suffixed decimal a' slot') cp cp' keys in
    let (account, same) = suffixed-injective decimal a a' slot slot' inj ha ha' rest in
    (account, provider, same)
