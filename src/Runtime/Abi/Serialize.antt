-- ===== src/Runtime/Abi/Serialize.antt =====
-- runtime/abi.go: `SerializeInputV1WithOptions`, without the mode `AccountDataDirectMapping`. Indexing
-- behind the end, which panics in Go, is `invalid_abi` here: the loop that measures excludes it.
use solanago.Base.{ℕ, ◌+◌, ◌-◌, ◌^◌, Bool, true, false, not, ◌||◌, if◌then◌else◌}
use solanago.Base.{List, [], ◌∷◌, ◌++◌, length, replicate, get_elem?, Option, none, some}
use solanago.Base.{Result, ok, err, fail_if, ◌>>=◌, ◌>>◌, ltb, leb, ◌==◌}
use solanago.Sdk.Pubkey.{Pubkey}
use solanago.Runtime.Account.{Account, max_permitted_data_increase, max_permitted_data_length}
use solanago.Runtime.Abi.{
  Error, invalid_abi, too_many_accounts, instruction_too_large, invalid_duplicate, AccountRegion,
  InputAccount, max_accounts_per_instruction, max_instruction_data_len, non_duplicate_marker,
  input_address, checked_add_int, checked_mul_int, alignment_padding, append_u64, bool_byte,
}

pub record SerializeOptions : Type 0 where
  pub direct_account_pointers : Bool

-- `direct_account_pointers_offset` is none for the -1 of the source.
pub record SerializedInput : Type 0 where
  pub buffer : List ℕ
  pub account_regions : List AccountRegion
  pub instruction_data_offset : ℕ
  pub direct_account_pointers_offset : Option ℕ
  pub instruction_data_address : ℕ

-- The second result of the checked arithmetic, where it is looked at and where it is not.
unfoldable pub or_invalid : Option ℕ → Result Error ℕ
or_invalid none = err invalid_abi
or_invalid (some value) = ok value

unfoldable pub unchecked : Option ℕ → ℕ
unchecked none = 0
unchecked (some value) = value

unfoldable pub is_some : Option Account → Bool
is_some none = false
is_some (some _) = true

-- The size with an account's record.
unfoldable pub record_size : ℕ → Account → Result Error ℕ
record_size size account = do
  fail_if (ltb max_permitted_data_length (length account.bytes)) invalid_abi
  head ← or_invalid (checked_add_int 96 (length account.bytes))
  whole ← or_invalid (
      checked_add_int head (max_permitted_data_increase + alignment_padding (length account.bytes)))
  or_invalid (checked_add_int size whole)

-- A round of the loop that measures.
unfoldable pub slot_size : ℕ → ℕ → InputAccount → Result Error ℕ
slot_size index size input = elim input.duplicate_of [
  | some target ↦
      fail_if (is_some input.account || leb index target) invalid_duplicate
      >> ok (unchecked (checked_add_int size 8))
  | none ↦ elim input.account [ none ↦ err invalid_abi | some account ↦ record_size size account ]
]

unfoldable pub slot_sizes : ℕ → ℕ → List InputAccount → Result Error ℕ
slot_sizes index size [] = ok size
slot_sizes index size (input ∷ rest) = do
  more ← slot_size index size input
  slot_sizes (index + 1) more rest

pub record Written : Type 0 where
  pub buffer : List ℕ
  pub regions : List AccountRegion

unfoldable pub write_duplicate : Written → ℕ → Result Error Written
write_duplicate w target = elim (get_elem? w.regions target) [
  | none ↦ err invalid_abi
  | some region ↦ ok (record {
    buffer = w.buffer ++ (target ∷ replicate 7 0);
    regions =
        w.regions
        ++ (record region { duplicate_of = some target; record_byte_offset = length w.buffer }
            ∷ []);
  })
]

unfoldable pub write_account : Written → Account → Written
write_account w account =
    let flags =
      w.buffer
      ++ (non_duplicate_marker
          ∷ bool_byte account.is_signer
          ∷ bool_byte account.is_writable
          ∷ bool_byte account.executable
          ∷ []) in
    let padded = flags ++ replicate 4 0 in
    let key = padded ++ account.key in
    let owner = key ++ account.owner in
    let lamports = append_u64 owner account.lamports in
    let data_len = append_u64 lamports (length account.bytes) in
    let bytes = data_len ++ account.bytes in
    let increase =
      bytes
      ++ replicate (max_permitted_data_increase + alignment_padding (length account.bytes)) 0 in
    record {
      buffer = append_u64 increase (2 ^ 64 - 1);
      regions =
          w.regions
          ++ (record {
            vm_address = input_address (length w.buffer);
            key_address = input_address (length padded);
            owner_address = input_address (length key);
            lamports_address = input_address (length owner);
            data_address = input_address (length data_len);
            original_data_len = length account.bytes;
            duplicate_of = none;
            record_byte_offset = length w.buffer;
          }
              ∷ []);
    }

-- A round of the loop that writes.
unfoldable pub write_slot : Written → InputAccount → Result Error Written
write_slot w input = elim input.duplicate_of [
  | some target ↦ write_duplicate w target
  | none ↦ elim input.account [
    | none ↦ err invalid_abi
    | some account ↦ ok (write_account w account)
  ]
]

unfoldable pub write_slots : Written → List InputAccount → Result Error Written
write_slots w [] = ok w
write_slots w (input ∷ rest) = do more ← write_slot w input; write_slots more rest

unfoldable pub write_pointers : List ℕ → List AccountRegion → List ℕ
write_pointers buffer [] = buffer
write_pointers buffer (region ∷ rest) = write_pointers (append_u64 buffer region.vm_address) rest

-- The size of the buffer, and the padding in front of the pointers.
unfoldable pub input_size : SerializeOptions → List InputAccount → List ℕ → Result Error (ℕ × ℕ)
input_size options accounts instruction_data = do
  slots ← slot_sizes 0 8 accounts
  size ← or_invalid (checked_add_int slots (8 + length instruction_data + 32))
  if options.direct_account_pointers
      then (do
        pointers ← or_invalid (checked_mul_int (length accounts) 8)
        whole ← or_invalid (checked_add_int size (alignment_padding size + pointers))
        ok (whole, alignment_padding size))
      else ok (size, 0)

unfoldable pub serialize_input_v1_with_options :
    Pubkey → List InputAccount → List ℕ → SerializeOptions → Result Error SerializedInput
serialize_input_v1_with_options program_id accounts instruction_data options = do
  fail_if (ltb max_accounts_per_instruction (length accounts)) too_many_accounts
  fail_if (ltb max_instruction_data_len (length instruction_data)) instruction_too_large
  sizes ← input_size options accounts instruction_data
  written ← write_slots (record { buffer = append_u64 [] (length accounts); regions = [] }) accounts
  let head = append_u64 written.buffer (length instruction_data)
  let tail = (head ++ instruction_data) ++ program_id
  let padded = tail ++ replicate sizes.1 0
  let buffer =
      if options.direct_account_pointers then write_pointers padded written.regions else tail
  fail_if (not (length buffer == sizes.0)) invalid_abi
  ok (record {
    buffer = buffer;
    account_regions = written.regions;
    instruction_data_offset = length head;
    direct_account_pointers_offset =
        if options.direct_account_pointers then some (length padded) else none;
    instruction_data_address = input_address (length head);
  })
