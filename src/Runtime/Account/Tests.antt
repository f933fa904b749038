-- ===== src/Runtime/Account/Tests.antt =====
-- Runs of the account model at fixed inputs.
use solanago.Base.{
  ℕ, ◌≤◌, ◌<◌, ◌^◌, length, ◌≡◌, refl, true, false, arith, List, [], ◌∷◌, replicate, get_elem?, All,
  ok, err, some,
}
use solanago.Base.Bytes.{equal, all_zero}
use solanago.Sbpf.Validate.{contains}
use solanago.Sdk.Pubkey.{Pubkey}
use solanago.Runtime.ProgramError.{builtin_program_error}
use solanago.Runtime.Account.{
  Account, AccountView, external_account_data_modified, new_account_view, accept_baseline,
  live_data, sync, sync_length, stored, overwrite, owner_of, lamports_of, require_signer,
  require_writable, require_owner, writable_data, set_lamports, set_owner, resize_data, cleared,
}
use solanago.Runtime.Account.Context.{
  Context, new_context, new_views, count_from, view, store, account_at, check_requirement,
  require_account, transfer_lamports, assign_owner, copy_data, resize_account,
}
use solanago.Runtime.Account.Context
use solanago.Runtime.Account.Validate.{
  unseen, sync_each, sync_accounts, add, owner_changed, data_changed, lamports_changed,
  check_external, check_own, check_view, check_views, validate_program_changes,
}
use solanago.Runtime.Account.Keeps.{members, balance}
use solanago.Base.{zero, suc}
use mathlib.Core.Path.{subst}
use solanago.Base.Splice.{splice}
use solanago.Runtime.Account.Totals.{total}
use solanago.Runtime.Account.Sound.{
  Operation, run_operations, attempt, transfer, assign, grow, write,
}
use solanago.Runtime.Account.Fresh.{validate-run_new}
use solanago.Runtime.Account.Caught.{
  Records, IsRecorded, IsRespected, validate_program_changes-IsRespected,
}

account_runs : Unit {0}
unfolding new_context new_views new_account_view accept_baseline count_from live_data view store
    account_at check_requirement require_account Context.transfer transfer_lamports assign_owner
    copy_data writable_data sync sync_length stored overwrite owner_of lamports_of require_signer
    require_writable require_owner set_lamports set_owner unseen sync_each sync_accounts add
    owner_changed data_changed lamports_changed check_external check_own check_view check_views
    validate_program_changes attempt run_operations equal all_zero contains builtin_program_error
account_runs = tt

abbrev hash : List ℕ → List ℕ
hash bytes = bytes

abbrev program_key : Pubkey
program_key = replicate 32 7

abbrev account : ℕ → Pubkey → ℕ → List ℕ → Account
account key owner lamports bytes = record {
  key = replicate 32 key;
  owner = owner;
  lamports = lamports;
  bytes = bytes;
  is_signer = true;
  is_writable = true;
  executable = false;
}

abbrev accounts : List Account
accounts =
    account 1 program_key 100 (1 ∷ 2 ∷ 3 ∷ [])
    ∷ account 2 (replicate 32 9) 50 []
    ∷ account 3 program_key 0 (0 ∷ 0 ∷ [])
    ∷ []

abbrev invocation : Context
invocation = new_context hash program_key accounts (4 ∷ [])

-- The second call fails: another program owns the account. The third moves an account to it.
abbrev calls : List Operation
calls =
    transfer 0 1 30
    ∷ transfer 1 0 10
    ∷ assign 2 (replicate 32 9)
    ∷ write 0 program_key (5 ∷ 6 ∷ 7 ∷ [])
    ∷ []

validate-run_new_example :
    validate_program_changes hash (run_operations invocation calls)
    ≡ ok (run_operations invocation calls)
validate-run_new_example =
    validate-run_new hash program_key accounts (4 ∷ []) calls
      (
        (ground arith, ground arith),
        ((ground arith, ground arith), ((ground arith, ground arith), tt)),
      )
      (tt, (tt, (tt, (refl, tt))))

abbrev lamports_in : List AccountView → List ℕ
lamports_in [] = []
lamports_in (a ∷ rest) = a.lamports ∷ lamports_in rest

-- The calls moved the lamports.
run_operations-calls : lamports_in (run_operations invocation calls).views ≡ 70 ∷ 80 ∷ 0 ∷ []
unfolding account_runs
run_operations-calls = refl

-- The invocation after a transfer.
abbrev paid : Context
paid = run_operations invocation (transfer 0 1 30 ∷ [])

-- A program that writes to the data of an account of another program.
abbrev tampered : Context
tampered = elim (view invocation 1) [
  | ok a ↦ store invocation 1 (record a { data_len = 2 })
  | err e ↦ invocation
]

tampered-refused : validate_program_changes hash tampered ≡ err external_account_data_modified
unfolding account_runs
tampered-refused = refl

passed : validate_program_changes hash paid ≡ ok paid
unfolding account_runs
passed = refl

paid_words : All (λ (a : AccountView). balance a < 2 ^ 64) paid.views
unfolding account_runs
paid_words = (ground arith, (ground arith, (ground arith, tt)))

old_words : All (λ (a : AccountView). balance a < 2 ^ 64) invocation.views
unfolding account_runs
old_words = (ground arith, (ground arith, (ground arith, tt)))

same_view : (a b : AccountView) → some a ≡ some b → a ≡ b
same_view a b e = cc e

-- The transfer left the baselines as they were taken.
paid-Records : Records hash invocation paid
unfolding account_runs
paid-Records = record { program_same = refl; recorded = λ p a e. recorded_at p a e }
  where
    recorded_at :
        (p : ℕ) (a : AccountView)
        → get_elem? paid.views p ≡ some a
        → (b : AccountView) × (get_elem? invocation.views p ≡ some b) × IsRecorded hash b a
    recorded_at zero a e = (
      _,
      refl,
      subst (IsRecorded hash _) (same_view _ a e) (record {
        same_owner = refl;
        same_lamports = refl;
        same_length = refl;
        same_hash = refl;
      }),
    )
    recorded_at (suc zero) a e = (
      _,
      refl,
      subst (IsRecorded hash _) (same_view _ a e) (record {
        same_owner = refl;
        same_lamports = refl;
        same_length = refl;
        same_hash = refl;
      }),
    )
    recorded_at (suc (suc zero)) a e = (
      _,
      refl,
      subst (IsRecorded hash _) (same_view _ a e) (record {
        same_owner = refl;
        same_lamports = refl;
        same_length = refl;
        same_hash = refl;
      }),
    )
    recorded_at (suc (suc (suc p))) a e = absurd (cc e)

few_slots : length paid.account_slots ≤ 2 ^ 64
unfolding account_runs
few_slots = ground arith

validate_program_changes-IsRespected_example :
    ((i p : ℕ) (a : AccountView)
      → get_elem? paid.account_slots i ≡ some p
      → get_elem? paid.views p ≡ some a
      → (b : AccountView) × (get_elem? invocation.views p ≡ some b)
        × IsRespected hash invocation.program_id b a)
    × (total balance paid.views (members paid) ≡ total balance invocation.views (members paid))
validate_program_changes-IsRespected_example =
    validate_program_changes-IsRespected hash invocation paid paid paid-Records passed paid_words
      old_words few_slots

-- A program that resizes an account of another program, under the id of that, is refused at the end.
foreign_resize :
    validate_program_changes hash (run_operations invocation (grow 1 (replicate 32 9) 2 ∷ []))
    ≡ err external_account_data_modified
unfolding account_runs resize_account resize_data cleared splice
foreign_resize = refl
