-- ===== src/Runtime/Abi.antt =====
-- runtime/abi.go: the input of a program as one buffer: its constants, its types and its arithmetic
-- on lengths. The mode `AccountDataDirectMapping`, in which the data of accounts are regions of their
-- own, is not modelled, and so are the fields that only it fills. A Go int is not negative here.
pub mod Serialize
pub mod Parse
pub mod Layout
pub mod Cursor
pub mod Record
pub mod Slots
pub mod Back
pub mod Sizes
pub mod Pointers
pub mod RoundTrip
pub mod Sound
pub mod Tests
use solanago.Base.{ℕ, ◌+◌, ◌-◌, ◌*◌, ◌/◌, ◌%◌, ◌^◌, ◌≡◌, Bool, true, false, ◌||◌, if◌then◌else◌}
use solanago.Base.{List, length, ◌++◌, Option, none, some, ltb, ◌==◌, not, ◌&&◌}
use solanago.Base.Bytes.{put_le}
use solanago.Runtime.Account.{Account}

pub data Error : Type 0 where
  invalid_abi too_many_accounts instruction_too_large invalid_duplicate : Error

abbrev pub mm_input_start : ℕ
mm_input_start = 4 * 2 ^ 32

abbrev pub max_accounts_per_instruction : ℕ
max_accounts_per_instruction = 255

abbrev pub max_instruction_data_len : ℕ
max_instruction_data_len = 10 * 1024

abbrev pub non_duplicate_marker : ℕ
non_duplicate_marker = 255

abbrev pub bpf_align_of_u128 : ℕ
bpf_align_of_u128 = 8

-- `duplicate_of` is none for the -1 of the source.
pub record AccountRegion : Type 0 where
  pub vm_address : ℕ
  pub key_address : ℕ
  pub owner_address : ℕ
  pub lamports_address : ℕ
  pub data_address : ℕ
  pub original_data_len : ℕ
  pub duplicate_of : Option ℕ
  pub record_byte_offset : ℕ

-- runtime/account.go.
pub record InputAccount : Type 0 where
  pub account : Option Account
  pub duplicate_of : Option ℕ

unfoldable pub unique_input_account : Account → InputAccount
unique_input_account account = record { account = some account; duplicate_of = none }

unfoldable pub duplicate_input_account : ℕ → InputAccount
duplicate_input_account index = record { account = none; duplicate_of = some index }

-- `MMInputStart + uint64(offset)`.
abbrev pub input_address : ℕ → ℕ
input_address offset = (mm_input_start + offset) % 2 ^ 64

abbrev pub largest_int : ℕ
largest_int = 2 ^ 63 - 1

unfoldable pub checked_add_int : ℕ → ℕ → Option ℕ
checked_add_int one two = if ltb (largest_int - two) one then none else some (one + two)

unfoldable pub checked_mul_int : ℕ → ℕ → Option ℕ
checked_mul_int one two =
    if not (one == 0) && ltb (largest_int / one) two then none else some (one * two)

unfoldable pub alignment_padding : ℕ → ℕ
alignment_padding offset = (bpf_align_of_u128 - offset % bpf_align_of_u128) % bpf_align_of_u128

unfoldable pub append_u64 : List ℕ → ℕ → List ℕ
append_u64 buffer value = buffer ++ put_le 8 value

unfoldable pub bool_byte : Bool → ℕ
bool_byte value = if value then 1 else 0
