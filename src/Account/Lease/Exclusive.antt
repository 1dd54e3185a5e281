-- ===== src/Account/Lease/Exclusive.antt =====
-- What holding a lease of src/accounts/distributed-lock.js excludes.
use native.Mathlib.Nat.{le_refl}
use one_gl.Prelude.{
  ℕ, zero, suc, ◌+◌, ◌<◌, ◌≤◌, ◌≡◌, ◌≢◌, ◌⊎◌, inl, inr, refl, false, Option, none, some,
  if◌then◌else◌, ◌==◌, arith, Option-cases, ap, subst, ◌∙◌, sym, ℕ_discrete,
}
use one_gl.Account.Lease.{
  AdvisoryLocks, Scope, Lease, Request, account_lock_key, slot_lock_key, slot_ceiling, take_slot,
  finish_lease, acquire_account_execution_lease, release,
}

module _ (locks : AdvisoryLocks) (advisory_key : Scope → ℕ) where
  open locks use {Table, holder, try_lock, unlock, try_lock_free, try_lock_held, unlock_held}

  -- The same keys are held by the same sessions.
  abbrev pub SameHolders : Table → Table → Type 0
  SameHolders t u = (j : ℕ) → holder u j ≡ holder t j

  -- A session that is new: it holds nothing.
  abbrev pub IsFresh : ℕ → Table → Type 0
  IsFresh s t = (j o : ℕ) → holder t j ≡ some o → o ≢ s

  -- What the loop over the slots can give: nothing, and nothing has changed; or the lock of a slot
  -- that was free, and only that has changed.
  abbrev pub Takes : ℕ → Request → ℕ → ℕ → Table → Option ℕ × Table → Type 0
  Takes s q low high t (none, u) =
      SameHolders t u
      × ((n : ℕ) → low ≤ n → n < high → holder t (slot_lock_key locks advisory_key q n) ≢ none)
  Takes s q low high t (some k, u) =
      (n : ℕ) × (low ≤ n)
      × (n < high)
      × (k ≡ slot_lock_key locks advisory_key q n)
      × (holder t k ≡ none)
      × ((j : ℕ) → holder u j ≡ (if j == k then some s else holder t j))

  -- A slot that another session holds is passed over.
  Takes-shift :
      (s : ℕ) (q : Request) (low left : ℕ) (t u : Table) (o : ℕ)
      → holder t (slot_lock_key locks advisory_key q low) ≡ some o
      → SameHolders t u
      → (r : Option ℕ × Table) → Takes s q (suc low) (suc low + left) u r
      → Takes s q low (low + suc left) t r
  Takes-shift s q low left t u o held same (none, v) (still, full) =
      (λ j. still j ∙ same j, λ n a b. every n a b)
    where
      every :
          (n : ℕ)
          → low ≤ n
          → n < low + suc left
          → holder t (slot_lock_key locks advisory_key q n) ≢ none
      every n a b = elim (ℕ_discrete low n) [
        | yes e ↦ subst (λ m. holder t (slot_lock_key locks advisory_key q m) ≢ none) e (λ f. cc)
        | no e ↦ λ f. full n (omega arith) (omega arith) (same _ ∙ f)
      ]
  Takes-shift s q low left t u o held same (some k, v) (n, a, b, key, free, put) = (
    n,
    omega arith,
    omega arith,
    key,
    sym (same k) ∙ free,
    λ j. put j ∙ ap (λ h. if j == k then some s else h) (same j),
  )

  take_slot-Takes :
      (s : ℕ) (q : Request) (low left : ℕ) (t : Table)
      → ((n o : ℕ) → holder t (slot_lock_key locks advisory_key q n) ≡ some o → o ≢ s)
      → Takes s q low (low + left) t (take_slot locks advisory_key s q low left t)
  unfolding take_slot
  take_slot-Takes s q low zero t others = (λ j. refl, λ n a b. absurd (omega arith))
  take_slot-Takes s q low (suc left) t others =
      elim (Option-cases (holder t (slot_lock_key locks advisory_key q low))) [
        | inl free ↦
            rw ((try_lock_free s _ t free).0)
              (low, le_refl low, omega arith, refl, free, (try_lock_free s _ t free).1)
        | inr (o, held) ↦
            let (no_lock, same) =
              try_lock_held s (slot_lock_key locks advisory_key q low) o t held
                (others low o held) in
            rw no_lock (
              Takes-shift s q low left t _ o held same _
                (take_slot-Takes s q (suc low) left _ (λ n p e. others n p (sym (same _) ∙ e))))
      ]

  -- What an acquisition can give: nothing, and then the same sessions hold the same keys, and the
  -- account's slot or every slot of the platform is taken; or the lock of the account's slot and the
  -- lock of one slot below the ceiling, which were free, and nothing else has changed.
  abbrev pub Acquires : ℕ → Request → Table → Option Lease × Table → Type 0
  Acquires s q t (none, u) =
      SameHolders t u
      × ((holder t (account_lock_key locks advisory_key q) ≢ none)
          ⊎ ((n : ℕ)
              → n < slot_ceiling locks advisory_key q
              → holder t (slot_lock_key locks advisory_key q n) ≢ none))
  Acquires s q t (some l, u) =
      (n : ℕ) × (n < slot_ceiling locks advisory_key q)
      × (l.account_lock ≡ account_lock_key locks advisory_key q)
      × (l.slot_lock ≡ slot_lock_key locks advisory_key q n)
      × (holder t l.account_lock ≡ none)
      × (holder t l.slot_lock ≡ none)
      × ((j : ℕ)
          → holder u j ≡ (
              if j == l.slot_lock
              then some s
              else if j == l.account_lock
              then some s
              else holder t j))

  acquired :
      (s : ℕ) (q : Request) (t u : Table)
      → holder t (account_lock_key locks advisory_key q) ≡ none
      → ((j : ℕ)
          → holder u j
            ≡ (if j == account_lock_key locks advisory_key q then some s else holder t j))
      → ((n : ℕ) → slot_lock_key locks advisory_key q n ≢ account_lock_key locks advisory_key q)
      → (r : Option ℕ × Table) → Takes s q 0 (0 + slot_ceiling locks advisory_key q) u r
      → Acquires s q t (finish_lease locks advisory_key s q r)
  acquired s q t u free put apart (none, v) (same, full) = (
    λ j.
        let unlocked =
          unlock_held s (account_lock_key locks advisory_key q) v (same _ ∙ put _ ∙ ground arith)
            j in
        ground (arith, unlocked, same j, put j),
    inr (λ n b e.
        full n (omega arith) (omega arith)
          (ground (arith, put (slot_lock_key locks advisory_key q n), apart n))),
  )
  acquired s q t u free put apart (some k, v) (n, a, b, key, open_, put') = (
    n,
    omega arith,
    refl,
    key,
    free,
    ground (arith, put k, apart n),
    λ j. ground (arith, put' j, put j),
  )

  -- A session that holds nothing either gets no lease, and then the same sessions hold the same keys
  -- as before, because the account's slot or every slot of the platform is taken; or it gets the lock
  -- of the account's slot and the lock of one slot below the ceiling, both free before, and nothing
  -- else changes. The keys of the account and of the slots are told apart by the hash.
  acquire_account_execution_lease-Acquires :
      (s : ℕ) (q : Request) (t : Table)
      → IsFresh s t
      → ((n : ℕ) → slot_lock_key locks advisory_key q n ≢ account_lock_key locks advisory_key q)
      → Acquires s q t (acquire_account_execution_lease locks advisory_key s q t)
  unfolding acquire_account_execution_lease
  acquire_account_execution_lease-Acquires s q t fresh apart =
      elim (Option-cases (holder t (account_lock_key locks advisory_key q))) [
        | inl free ↦
            let (locked, put) = try_lock_free s (account_lock_key locks advisory_key q) t free in
            rw locked (
              acquired s q t _ free put apart _ (
                take_slot-Takes s q 0 (slot_ceiling locks advisory_key q) _ (λ n o e.
                  fresh (slot_lock_key locks advisory_key q n) o
                    (ground (arith, put (slot_lock_key locks advisory_key q n), apart n)))))
        | inr (o, held) ↦
            let (refused, same) =
              try_lock_held s (account_lock_key locks advisory_key q) o t held (fresh _ o held) in
            rw refused (same, inl (λ e. cc))
      ]

  -- While a lease is held, no session that holds nothing gets one for the same slot of the same
  -- account; and the release of the lease makes the same sessions hold the same keys as before it. The
  -- holder held nothing before, and the hash tells the keys of the account and of the slots apart.
  pub lease-excludes :
      (s s' : ℕ) (q : Request) (t u : Table) (l : Lease)
      → IsFresh s t
      → ((n : ℕ) → slot_lock_key locks advisory_key q n ≢ account_lock_key locks advisory_key q)
      → acquire_account_execution_lease locks advisory_key s q t ≡ (some l, u)
      → IsFresh s' u
      → ((acquire_account_execution_lease locks advisory_key s' q u).0 ≡ none)
        × SameHolders t (release locks advisory_key s l false u).1
  unfolding release
  lease-excludes s s' q t u l fresh apart e fresh' =
      let got : Acquires s q t (some l, u) =
        subst (Acquires s q t) e (acquire_account_execution_lease-Acquires s q t fresh apart) in
      (refused got _ (acquire_account_execution_lease-Acquires s' q u fresh' apart), restored got)
    where
      refused :
          Acquires s q t (some l, u) → (r : Option Lease × Table) → Acquires s' q u r → r.0 ≡ none
      refused got (none, v) other = refl
      refused (n, b, acc, key, free, open_, put) (some m, v)
            (n', b', acc', key', free', open_', put') =
          absurd (ground (arith, put m.account_lock))

      restored :
          Acquires s q t (some l, u) → SameHolders t (release locks advisory_key s l false u).1
      restored (n, b, acc, key, free, open_, put) j =
          let first = unlock_held s l.slot_lock u (put l.slot_lock ∙ ground arith) in
          let held : holder (unlock s l.slot_lock u) l.account_lock ≡ some s =
            ground (arith, first l.account_lock, put l.account_lock, apart n) in
          let second = unlock_held s l.account_lock (unlock s l.slot_lock u) held in
          ground (arith, first j, second j, put j)
