-- ===== src/Runtime/Account.antt =====
-- runtime/account.go: the view of one account and its checks. The memory that a running program writes
-- is the three storages (`ownerStorage` or the bytes of `raw` at `ownerOffset`, and so on, absent in a
-- native context) and the data. A view attached to a direct mapping, which resizes a region of the
-- memory map too, is not modelled. Where an operation fails, what it refreshed is refreshed again
-- by the next one, and so is left out.
pub mod Context
pub mod Validate
pub mod Guarded
pub mod Honest
pub mod Totals
pub mod Keeps
pub mod Transfer
pub mod Fresh
pub mod Visited
pub mod Caught
pub mod Sound
pub mod Tests
use solanago.Base.{ℕ, ◌+◌, ◌-◌, ◌*◌, ◌≡◌, Bool, true, false, not, ◌&&◌, ◌||◌, if◌then◌else◌}
use solanago.Base.{List, [], ◌∷◌, ◌++◌, length, take, replicate, Option, none, some}
use solanago.Base.{Result, ok, err, fail_if, ◌>>=◌, ◌>>◌, ltb}
use solanago.Base.Bytes.{equal}
use solanago.Base.Splice.{splice}
use solanago.Sdk.Pubkey.{Pubkey}
use solanago.Runtime.ProgramError.{ProgramError, builtin_program_error, ProgramErrorKind}
use solanago.Runtime.ProgramError.{
  program_error_invalid_argument, program_error_incorrect_program_id, program_error_invalid_realloc,
  program_error_missing_required_signature,
}

pub data Error : Type 0 where
  program_error : ProgramError → Error
  readonly_account_modified external_account_data_modified external_lamport_spend
        unbalanced_lamports :
      Error

abbrev pub builtin : ProgramErrorKind → Error
builtin kind = program_error (builtin_program_error kind)

abbrev pub max_permitted_data_increase : ℕ
max_permitted_data_increase = 10 * 1024

abbrev pub max_permitted_data_length : ℕ
max_permitted_data_length = 10 * 1024 * 1024

pub record Account : Type 0 where
  pub key : Pubkey
  pub owner : Pubkey
  pub lamports : ℕ
  pub bytes : List ℕ
  pub is_signer : Bool
  pub is_writable : Bool
  pub executable : Bool

-- `bytes` is the field `data`, and a storage what stands in the program's memory.
pub record AccountView : Type 0 where
  pub key : Pubkey
  pub owner : Pubkey
  pub lamports : ℕ
  pub bytes : List ℕ
  pub data_len : ℕ
  pub original_len : ℕ
  pub is_signer : Bool
  pub is_writable : Bool
  pub executable : Bool
  pub baseline_owner : Pubkey
  pub baseline_lamports : ℕ
  pub baseline_data_len : ℕ
  pub baseline_data_hash : List ℕ
  pub owner_storage : Option Pubkey
  pub lamports_storage : Option ℕ
  pub data_len_storage : Option ℕ

-- `a.data[:a.dataLen]`.
unfoldable pub live_data : AccountView → List ℕ
live_data a = take a.data_len a.bytes

-- crypto/sha256.
module _ (sha256 : List ℕ → List ℕ) where
  unfoldable pub accept_baseline : AccountView → AccountView
  accept_baseline a = record a {
    baseline_owner = a.owner;
    baseline_lamports = a.lamports;
    baseline_data_len = a.data_len;
    baseline_data_hash = sha256 (live_data a);
  }

  unfoldable pub new_account_view : Account → AccountView
  new_account_view account = accept_baseline (record {
    key = account.key;
    owner = account.owner;
    lamports = account.lamports;
    bytes = account.bytes ++ replicate max_permitted_data_increase 0;
    data_len = length account.bytes;
    original_len = length account.bytes;
    is_signer = account.is_signer;
    is_writable = account.is_writable;
    executable = account.executable;
    baseline_owner = replicate 32 0;
    baseline_lamports = 0;
    baseline_data_len = 0;
    baseline_data_hash = replicate 32 0;
    owner_storage = none;
    lamports_storage = none;
    data_len_storage = none;
  })

-- The value in the program's memory, or the one that the view keeps.
unfoldable pub stored {ℓ} : {A : Type ℓ} → Option A → A → A
stored none kept = kept
stored (some value) kept = value

-- What a write leaves in a storage.
unfoldable pub overwrite {ℓ} : {A : Type ℓ} → Option A → A → Option A
overwrite none value = none
overwrite (some old) value = some value

-- `Owner` and `Lamports`.
unfoldable pub owner_of : AccountView → Pubkey
owner_of a = stored a.owner_storage a.owner

unfoldable pub lamports_of : AccountView → ℕ
lamports_of a = stored a.lamports_storage a.lamports

-- The last part of `Sync`, on the length in the program's memory.
unfoldable pub sync_length : AccountView → Option ℕ → Result Error AccountView
sync_length a none = ok a
sync_length a (some size) = do
  fail_if
      (ltb (length a.bytes) size
        || ltb max_permitted_data_length size
        || ltb (a.original_len + max_permitted_data_increase) size)
      (builtin program_error_invalid_realloc)
  ok (record a { data_len = size })

unfoldable pub sync : AccountView → Result Error AccountView
sync a = sync_length (record a { owner = owner_of a; lamports = lamports_of a }) a.data_len_storage

unfoldable pub require_signer : AccountView → Result Error (Unit {0})
require_signer a = fail_if (not a.is_signer) (builtin program_error_missing_required_signature)

unfoldable pub require_writable : AccountView → Result Error (Unit {0})
require_writable a =
    fail_if (not a.is_writable || a.executable) (builtin program_error_invalid_argument)

unfoldable pub require_owner : AccountView → Pubkey → Result Error (Unit {0})
require_owner a owner =
    fail_if (not (equal (owner_of a) owner)) (builtin program_error_incorrect_program_id)

unfoldable pub writable_data : AccountView → Pubkey → Result Error (List ℕ)
writable_data a program_id = do require_writable a; require_owner a program_id; ok (live_data a)

-- The bytes after the two lengths were compared and the difference cleared.
unfoldable pub cleared : AccountView → ℕ → List ℕ
cleared a new_length =
    if ltb a.data_len new_length
    then splice a.bytes a.data_len (replicate (new_length - a.data_len) 0)
    else splice a.bytes new_length (replicate (a.data_len - new_length) 0)

unfoldable pub resize_data : AccountView → Pubkey → ℕ → Result Error AccountView
resize_data view program_id new_length = do
  a ← sync view
  require_writable a
  require_owner a program_id
  fail_if
      (ltb max_permitted_data_length new_length
        || ltb (a.original_len + max_permitted_data_increase) new_length
        || ltb (length a.bytes) new_length)
      (builtin program_error_invalid_realloc)
  ok (record a {
    bytes = cleared a new_length;
    data_len = new_length;
    data_len_storage = overwrite a.data_len_storage new_length;
  })

unfoldable pub set_lamports : AccountView → ℕ → AccountView
set_lamports a value = record a {
  lamports = value;
  lamports_storage = overwrite a.lamports_storage value;
}

unfoldable pub set_owner : AccountView → Pubkey → AccountView
set_owner a owner = record a { owner = owner; owner_storage = overwrite a.owner_storage owner }
