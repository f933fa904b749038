-- ===== src/Runtime/Account/Fresh.antt =====
-- runtime/account.go: the invocation that `NewContext` makes.
use solanago.Base.{ℕ, zero, suc, ◌+◌, ◌^◌, ◌≤◌, ◌<◌, ◌≡◌, refl, arith, ok}
use solanago.Base.{List, [], ◌∷◌, length, length-append, replicate, get_elem?, All}
use solanago.Sdk.Pubkey.{Pubkey}
use solanago.Runtime.Account.{
  Account, new_account_view, accept_baseline, live_data, stored, max_permitted_data_length,
  max_permitted_data_increase,
}
use solanago.Runtime.Account.Context.{new_context, new_views, count_from}
use solanago.Runtime.Account.Validate.{validate_program_changes}
use solanago.Runtime.Account.Honest.{IsHonest}
use solanago.Runtime.Account.Keeps.{IsSound, balance, baseline}
use solanago.Runtime.Account.Totals.{total, part}
use solanago.Runtime.Account.Sound.{Operation, IsOwn, run_operations, validate-run_operations}

-- The limits of an account's data and balance.
abbrev pub IsAccount : Account → Type 0
IsAccount a = (length a.bytes ≤ max_permitted_data_length) × (a.lamports < 2 ^ 64)

module _ (sha256 : List ℕ → List ℕ) (program_id : Pubkey) where
  new_account_view-IsHonest :
      (a : Account) → IsAccount a → IsHonest sha256 program_id (new_account_view sha256 a)
  unfolding new_account_view accept_baseline stored live_data
  new_account_view-IsHonest a (short, small) = record {
    synced = record {
      owner_agrees = refl;
      lamports_agree = refl;
      length_agrees = refl;
      in_data = omega (arith, length-append a.bytes (replicate max_permitted_data_increase 0));
      in_limit = short;
      in_growth = omega arith;
    };
    guarded = record {
      locked = λ n. (refl, refl, (refl, refl));
      foreign = λ ne. (refl, omega arith, (refl, refl));
      given_away = λ own moved. absurd (moved refl);
    };
    lamports_word = small;
  }

  new_views-IsHonest :
      (accounts : List Account)
      → All IsAccount accounts
      → All (IsHonest sha256 program_id) (new_views sha256 accounts)
  unfolding new_views
  new_views-IsHonest [] h = tt
  new_views-IsHonest (a ∷ rest) (h, hs) =
      (new_account_view-IsHonest a h, new_views-IsHonest rest hs)

  count_from-below :
      (n m : ℕ) (accounts : List Account)
      → n + length accounts ≤ m
      → All (λ (p : ℕ). p < m) (count_from n accounts)
  unfolding count_from
  count_from-below n m [] h = tt
  count_from-below n m (a ∷ rest) h =
      (omega (arith, h), count_from-below (n + 1) m rest (omega (arith, h)))

  length-new_views :
      (accounts : List Account) → length (new_views sha256 accounts) ≡ length accounts
  unfolding new_views
  length-new_views [] = refl
  length-new_views (a ∷ rest) = ground (arith, length-new_views rest)

  same_part :
      (accounts : List Account) (p : ℕ)
      → part balance (get_elem? (new_views sha256 accounts) p)
        ≡ part baseline (get_elem? (new_views sha256 accounts) p)
  unfolding new_views new_account_view accept_baseline
  same_part [] p = refl
  same_part (a ∷ rest) zero = refl
  same_part (a ∷ rest) (suc p) = same_part rest p

  same_total :
      (accounts : List Account) (ps : List ℕ)
      → total balance (new_views sha256 accounts) ps ≡ total baseline (new_views sha256 accounts) ps
  same_total accounts [] = refl
  same_total accounts (p ∷ ps) = omega (arith, same_part accounts p, same_total accounts ps)

  pub new_context-IsSound :
      (accounts : List Account) (instruction_data : List ℕ)
      → All IsAccount accounts
      → IsSound sha256 (new_context sha256 program_id accounts instruction_data)
  unfolding new_context
  new_context-IsSound accounts instruction_data h = record {
    honest = new_views-IsHonest accounts h;
    in_views =
        count_from-below 0 (length (new_views sha256 accounts)) accounts
          (omega (arith, length-new_views accounts));
    balanced = same_total accounts _;
  }

  -- On an invocation that NewContext makes of any accounts with at most 10 MiB of data and a balance
  -- of 64 bits, whatever sequence of TransferLamports, AssignOwner, ResizeData and copies into
  -- the slice of WritableData the program makes, where it gives its own id to the latter two and
  -- copies before its next call, and whichever of them fail, `ValidateProgramChanges` passes at
  -- the end and changes nothing.
  pub validate-run_new :
      (accounts : List Account) (instruction_data : List ℕ) (os : List Operation)
      → All IsAccount accounts
      → All (IsOwn program_id) os
      → validate_program_changes sha256
          (run_operations (new_context sha256 program_id accounts instruction_data) os)
        ≡ ok (run_operations (new_context sha256 program_id accounts instruction_data) os)
  unfolding new_context
  validate-run_new accounts instruction_data os h own =
      validate-run_operations sha256 (new_context sha256 program_id accounts instruction_data) os
        (new_context-IsSound accounts instruction_data h) own
