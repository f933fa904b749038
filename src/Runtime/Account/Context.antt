-- ===== src/Runtime/Account/Context.antt =====
-- runtime/account.go: `Context`, the invocation. `account_slots` has pointers to views, as positions in
-- `views`; the slots of one account share their pointer. A negative index or length is refused by the
-- source as one out of range is.
use solanago.Base.{ℕ, ◌+◌, ◌-◌, ◌^◌, Bool, true, false, not, if◌then◌else◌}
use solanago.Base.{List, [], ◌∷◌, length, take, get_elem?, set, Option, none, some}
use solanago.Base.{Result, ok, err, fail_if, ◌>>=◌, ◌>>◌, ltb}
use solanago.Base.Bytes.{equal, all_zero}
use solanago.Base.Splice.{splice}
use solanago.Sdk.Pubkey.{Pubkey}
use solanago.Runtime.ProgramError.{
  program_error_not_enough_account_keys, program_error_account_data_too_small,
  program_error_illegal_owner, program_error_insufficient_funds, program_error_arithmetic_overflow,
  program_error_invalid_account_data,
}
use solanago.Runtime.Account.{
  Account, AccountView, Error, builtin, live_data, new_account_view, owner_of, lamports_of, sync,
  require_signer, require_writable, require_owner, resize_data, writable_data, set_lamports,
  set_owner,
}

pub record AccountRequirement : Type 0 where
  pub signer : Bool
  pub writable : Bool
  pub owner : Option Pubkey
  pub min_data_len : ℕ

pub record Context : Type 0 where
  pub program_id : Pubkey
  pub instruction_data : List ℕ
  pub views : List AccountView
  pub account_slots : List ℕ

-- The loop of `NewContext`, from a position on.
unfoldable pub count_from : {A : Type 0} → ℕ → List A → List ℕ
count_from n [] = []
count_from n (_ ∷ rest) = n ∷ count_from (n + 1) rest

unfoldable pub new_views : (List ℕ → List ℕ) → List Account → List AccountView
new_views sha256 [] = []
new_views sha256 (account ∷ rest) = new_account_view sha256 account ∷ new_views sha256 rest

unfoldable pub new_context : (List ℕ → List ℕ) → Pubkey → List Account → List ℕ → Context
new_context sha256 program_id accounts instruction_data = record {
  program_id = program_id;
  instruction_data = instruction_data;
  views = new_views sha256 accounts;
  account_slots = count_from 0 accounts;
}

-- The view at a pointer; the pointers of a context have one.
unfoldable pub view : Context → ℕ → Result Error AccountView
view c pointer = elim (get_elem? c.views pointer) [
  | none ↦ err (builtin program_error_not_enough_account_keys)
  | some a ↦ ok a
]

unfoldable pub store : Context → ℕ → AccountView → Context
store c pointer a = record c { views = set c.views pointer a }

-- `AccountAt`: the pointer in a slot.
unfoldable pub account_at : Context → ℕ → Result Error ℕ
account_at c index = elim (get_elem? c.account_slots index) [
  | none ↦ err (builtin program_error_not_enough_account_keys)
  | some pointer ↦ ok pointer
]

unfoldable pub check_requirement : AccountView → AccountRequirement → Result Error (Unit {0})
check_requirement a requirement = do
  if requirement.signer then require_signer a else ok tt
  if requirement.writable then require_writable a else ok tt
  elim requirement.owner [ none ↦ ok tt | some owner ↦ require_owner a owner ]
  fail_if (ltb a.data_len requirement.min_data_len) (builtin program_error_account_data_too_small)

-- The pointer to the account, and the context with the account refreshed.
unfoldable pub require_account : Context → ℕ → AccountRequirement → Result Error (ℕ × Context)
require_account c index requirement = do
  pointer ← account_at c index
  found ← view c pointer
  a ← sync found
  check_requirement a requirement
  ok (pointer, store c pointer a)

abbrev pub only_writable : AccountRequirement
only_writable = record { signer = false; writable = true; owner = none; min_data_len = 0 }

-- The tests and writes of `TransferLamports` on the two accounts.
unfoldable pub transfer : Context → ℕ → ℕ → ℕ → Result Error Context
transfer c from to amount = do
  source ← view c from
  destination ← view c to
  fail_if (not (equal (owner_of source) c.program_id)) (builtin program_error_illegal_owner)
  fail_if (ltb (lamports_of source) amount) (builtin program_error_insufficient_funds)
  fail_if (ltb (2 ^ 64 - 1 - amount) (lamports_of destination))
      (builtin program_error_arithmetic_overflow)
  let debited = store c from (set_lamports source (lamports_of source - amount))
  credited ← view debited to
  ok (store debited to (set_lamports credited (lamports_of credited + amount)))

unfoldable pub transfer_lamports : Context → ℕ → ℕ → ℕ → Result Error Context
transfer_lamports c from to amount = do
  source ← require_account c from only_writable
  destination ← require_account source.1 to only_writable
  transfer destination.1 source.0 destination.0 amount

unfoldable pub assign_owner : Context → ℕ → Pubkey → Result Error Context
assign_owner c index owner = do
  found ← require_account c index (record only_writable { owner = some c.program_id })
  a ← view found.1 found.0
  fail_if (not (all_zero (live_data a))) (builtin program_error_invalid_account_data)
  ok (store found.1 found.0 (set_owner a owner))

-- Two steps of a program, on an account of `AccountAt`: `ResizeData`, to which it gives a program id of
-- its choice,
unfoldable pub resize_account : Context → ℕ → Pubkey → ℕ → Result Error Context
resize_account c index program_id new_length = do
  pointer ← account_at c index
  a ← view c pointer
  resized ← resize_data a program_id new_length
  ok (store c pointer resized)

-- and Go's `copy` of bytes into the slice of `WritableData`, which it got for such an id, before any
-- other call. The slice is live: a write to one that was kept over later calls is not a step here.
unfoldable pub copy_data : Context → ℕ → Pubkey → List ℕ → Result Error Context
copy_data c index program_id new = do
  pointer ← account_at c index
  a ← view c pointer
  live ← writable_data a program_id
  ok (store c pointer (record a { bytes = splice a.bytes 0 (take (length live) new) }))
