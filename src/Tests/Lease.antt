-- ===== src/Tests/Lease.antt =====
-- Leases over a table of locks that is a function from keys to sessions.
use one_gl.Prelude.{
  ℕ, ◌+◌, ◌*◌, ◌≡◌, ◌≢◌, refl, Bool, true, false, Option, none, some, if◌then◌else◌, ◌==◌, arith,
}
use one_gl.Account.Lease.{
  AdvisoryLocks, Scope, account_scope, slot_scope, Lease, Request, acquire_account_execution_lease,
  release,
}
use one_gl.Account.Lease.Exclusive.{SameHolders, IsFresh, lease-excludes}

abbrev Holders : Type 0
Holders = ℕ → Option ℕ

abbrev put : ℕ → Option ℕ → Holders → Holders
put k h t = λ j. if j == k then h else t j

abbrev grant : ℕ → ℕ → Holders → Option ℕ → Bool × Holders
grant s k t none = (true, put k (some s) t)
grant s k t (some o) = (o == s, t)

grant-held : (s k o : ℕ) (t : Holders) → t k ≡ some o → o ≢ s → (o == s) ≡ false
grant-held s k o t e n = ground arith

abbrev holders : AdvisoryLocks
holders = record {
  Table = Holders;
  holder = λ t k. t k;
  try_lock = λ s k t. grant s k t (t k);
  unlock = λ s k t. put k none t;
  try_lock_free = λ s k t free. rw free (refl, λ j. refl);
  try_lock_held = λ s k o t held n. rw held (grant-held s k o t held n, λ j. refl);
  unlock_held = λ s k t held j. refl;
}

abbrev hash_of : Scope → ℕ
hash_of (account_scope provider account slot) = slot * 2 + 1
hash_of (slot_scope provider slot) = slot * 2

abbrev request : Request
request = record { account_key = "a"; provider = "doubao"; parallelism = 2; slot = 0 }

abbrev free_locks : Holders
free_locks = λ j. none

abbrev locked_by_one : Holders
locked_by_one = put 0 (some 1) (put 1 (some 1) free_locks)

abbrev lease_of_one : Lease
lease_of_one = record { account_key = "a"; account_lock = 1; slot_lock = 0 }

free_locks-IsFresh : IsFresh holders hash_of 1 free_locks
free_locks-IsFresh j o e = cc

locked_by_one-IsFresh : IsFresh holders hash_of 2 locked_by_one
locked_by_one-IsFresh j o e = ground arith

keys-apart : (n : ℕ) → n * 2 ≢ 1
keys-apart n = omega arith

lease-excludes_example :
    ((acquire_account_execution_lease holders hash_of 2 request locked_by_one).0 ≡ none)
    × SameHolders holders hash_of free_locks
        (release holders hash_of 1 lease_of_one false locked_by_one).1
unfolding acquire_account_execution_lease
lease-excludes_example =
    lease-excludes holders hash_of 1 2 request free_locks locked_by_one lease_of_one
      free_locks-IsFresh keys-apart refl locked_by_one-IsFresh
