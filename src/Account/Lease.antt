-- ===== src/Account/Lease.antt =====
-- The execution lease of src/accounts/distributed-lock.js: one advisory lock for an account's slot and
-- one for a global slot of the platform. PostgreSQL's locks are a parameter, and so is the hash that
-- makes a lock's key from the text of its scope.
pub mod Exclusive
use one_gl.Prelude.{
  ℕ, zero, suc, ◌+◌, Bool, true, false, Option, none, some, if◌then◌else◌, ◌==◌, ltb, String, ◌≡◌,
  ◌≢◌, max,
}

-- PostgreSQL's session advisory locks: which session holds a key, and what the calls do to that.
pub record AdvisoryLocks : Type 1 where
  pub Table : Type 0
  pub holder : Table → ℕ → Option ℕ
  pub try_lock : ℕ → ℕ → Table → Bool × Table
  pub unlock : ℕ → ℕ → Table → Table
  pub try_lock_free :
      (s k : ℕ) (t : Table)
      → holder t k ≡ none
      → ((try_lock s k t).0 ≡ true)
        × ((j : ℕ) → holder (try_lock s k t).1 j ≡ (if j == k then some s else holder t j))
  pub try_lock_held :
      (s k o : ℕ) (t : Table)
      → holder t k ≡ some o
      → o ≢ s
      → ((try_lock s k t).0 ≡ false) × ((j : ℕ) → holder (try_lock s k t).1 j ≡ holder t j)
  pub unlock_held :
      (s k : ℕ) (t : Table)
      → holder t k ≡ some s
      → (j : ℕ) → holder (unlock s k t) j ≡ (if j == k then none else holder t j)

-- The texts that are hashed: `onegl-account:<provider>:<account>#<slot>`, with no suffix at slot 0,
-- and `onegl-global-slot:<provider>:<slot>`.
pub data Scope : Type 0 where
  account_scope : String → String → ℕ → Scope
  slot_scope : String → ℕ → Scope

pub record Lease : Type 0 where
  pub account_key : String
  pub account_lock : ℕ
  pub slot_lock : ℕ

pub record Request : Type 0 where
  pub account_key : String
  pub provider : String
  pub parallelism : ℕ
  pub slot : ℕ

module _ (locks : AdvisoryLocks) (advisory_key : Scope → ℕ) where
  open locks use {Table, holder, try_lock, unlock}

  abbrev pub account_lock_key : Request → ℕ
  account_lock_key q = advisory_key (account_scope q.provider q.account_key q.slot)

  abbrev pub slot_lock_key : Request → ℕ → ℕ
  slot_lock_key q n = advisory_key (slot_scope q.provider n)

  -- Math.max(1, parallelism), which is the ceiling of the slots too.
  abbrev pub slot_ceiling : Request → ℕ
  slot_ceiling q = max 1 q.parallelism

  -- The loop over the candidates, with `left` of them to come.
  unfoldable pub take_slot : ℕ → Request → ℕ → ℕ → Table → Option ℕ × Table
  take_slot s q candidate zero t = (none, t)
  take_slot s q candidate (suc left) t =
      let (locked, t') = try_lock s (slot_lock_key q candidate) t in
      let rest = take_slot s q (suc candidate) left t' in
      if locked then (some (slot_lock_key q candidate), t') else rest

  abbrev pub finish_lease : ℕ → Request → Option ℕ × Table → Option Lease × Table
  finish_lease s q (none, t) = (none, unlock s (account_lock_key q) t)
  finish_lease s q (some k, t) = (
    some (record { account_key = q.account_key; account_lock = account_lock_key q; slot_lock = k }),
    t,
  )

  -- `none` where the account or every slot is taken; the session is the client's connection.
  unfoldable pub acquire_account_execution_lease : ℕ → Request → Table → Option Lease × Table
  unfolding take_slot
  acquire_account_execution_lease s q t =
      let (locked, t') = try_lock s (account_lock_key q) t in
      let taken = finish_lease s q (take_slot s q 0 (slot_ceiling q) t') in
      if locked then taken else (none, t')

  -- The lease's `release`, with the flag `released`.
  unfoldable pub release : ℕ → Lease → Bool → Table → Bool × Table
  release s l released t =
      if released then (true, t) else (true, unlock s l.account_lock (unlock s l.slot_lock t))
