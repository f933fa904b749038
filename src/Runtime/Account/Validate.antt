-- ===== src/Runtime/Account/Validate.antt =====
-- runtime/account.go: `SyncAccounts` and `ValidateProgramChanges`.
use solanago.Base.{ℕ, ◌+◌, ◌/◌, ◌%◌, ◌^◌, Bool, true, false, not, ◌&&◌, ◌||◌, if◌then◌else◌}
use solanago.Base.{List, [], ◌∷◌, Result, ok, fail_if, ◌>>=◌, ◌>>◌, ltb, ◌==◌}
use solanago.Base.Bytes.{equal, all_zero}
use solanago.Sbpf.Validate.{contains}
use solanago.Sdk.Pubkey.{Pubkey}
use solanago.Runtime.ProgramError.{program_error_invalid_account_data}
use solanago.Runtime.Account.{
  AccountView, Error, builtin, live_data, sync, accept_baseline, readonly_account_modified,
  external_account_data_modified, external_lamport_spend, unbalanced_lamports,
}
use solanago.Runtime.Account.Context.{Context, view, store}

-- The pointers that a loop over the slots does not skip: those not `seen` before.
unfoldable pub unseen : List ℕ → List ℕ → List ℕ
unseen seen [] = []
unseen seen (pointer ∷ rest) = elim (contains seen pointer) [
  | true ↦ unseen seen rest
  | false ↦ pointer ∷ unseen (pointer ∷ seen) rest
]

-- The loop of `SyncAccounts`.
unfoldable pub sync_each : Context → List ℕ → Result Error Context
sync_each c [] = ok c
sync_each c (pointer ∷ rest) = do
  a ← view c pointer
  refreshed ← sync a
  sync_each (store c pointer refreshed) rest

unfoldable pub sync_accounts : Context → Result Error Context
sync_accounts c = sync_each c (unseen [] c.account_slots)

-- `low` and `high`: a sum of 128 bits.
pub record Wide : Type 0 where
  pub low : ℕ
  pub high : ℕ

abbrev pub zero_sum : Wide
zero_sum = record { low = 0; high = 0 }

-- The two calls of `bits.Add64`.
unfoldable pub add : Wide → ℕ → Wide
add sum value = record {
  low = (sum.low + value) % 2 ^ 64;
  high = (sum.high + (sum.low + value) / 2 ^ 64) % 2 ^ 64;
}

module _ (sha256 : List ℕ → List ℕ) where
  unfoldable pub owner_changed : AccountView → Bool
  owner_changed a = not (equal a.owner a.baseline_owner)

  unfoldable pub data_changed : AccountView → Bool
  data_changed a =
      not (a.data_len == a.baseline_data_len)
      || not (equal (sha256 (live_data a)) a.baseline_data_hash)

  unfoldable pub lamports_changed : AccountView → Bool
  lamports_changed a = not (a.lamports == a.baseline_lamports)

  -- The tests of the loop on an account that another program owned, and on one of this program.
  unfoldable pub check_external : AccountView → Result Error (Unit {0})
  check_external a = do
    fail_if (owner_changed a || data_changed a) external_account_data_modified
    fail_if (ltb a.lamports a.baseline_lamports) external_lamport_spend

  unfoldable pub check_own : AccountView → Result Error (Unit {0})
  check_own a =
      fail_if (owner_changed a && not (all_zero (live_data a)))
        (builtin program_error_invalid_account_data)

  -- The tests of the loop on one account.
  unfoldable pub check_view : Pubkey → AccountView → Result Error (Unit {0})
  check_view program_id a = do
    fail_if
        ((not a.is_writable || a.executable)
          && (owner_changed a || data_changed a || lamports_changed a))
        readonly_account_modified
    if not (equal a.baseline_owner program_id) then check_external a else check_own a

  -- The loop, which returns the sums of the baselines and of the balances.
  unfoldable pub check_views : Context → List ℕ → Wide → Wide → Result Error (Wide × Wide)
  check_views c [] baseline current = ok (baseline, current)
  check_views c (pointer ∷ rest) baseline current = do
    a ← view c pointer
    check_view c.program_id a
    check_views c rest (add baseline a.baseline_lamports) (add current a.lamports)

  -- The context with its accounts refreshed.
  unfoldable pub validate_program_changes : Context → Result Error Context
  validate_program_changes c = do
    synced ← sync_accounts c
    sums ← check_views synced (unseen [] synced.account_slots) zero_sum zero_sum
    fail_if (not (sums.0.low == sums.1.low) || not (sums.0.high == sums.1.high)) unbalanced_lamports
    ok synced

  unfoldable pub accept_each : Context → List ℕ → Result Error Context
  accept_each c [] = ok c
  accept_each c (pointer ∷ rest) = do
    a ← view c pointer
    accept_each (store c pointer (accept_baseline sha256 a)) rest

  unfoldable pub accept_account_baselines : Context → Result Error Context
  accept_account_baselines c = do
    synced ← sync_accounts c
    accept_each synced (unseen [] synced.account_slots)
