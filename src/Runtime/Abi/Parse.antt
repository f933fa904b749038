-- ===== src/Runtime/Abi/Parse.antt =====
-- runtime/abi.go: `ParseInputV1WithOptions` and its cursor. The parser writes into its input, so that the
-- bytes are a part of the cursor. The storages of a view are slices of the input: the model keeps what
-- stands there.
use solanago.Base.{ℕ, suc, zero, ◌+◌, ◌-◌, ◌^◌, Bool, not, ◌||◌, ◌&&◌, if◌then◌else◌}
use solanago.Base.{
  List, [], ◌∷◌, ◌++◌, length, take, drop, replicate, get_elem?, get_or, none, some,
}
use solanago.Base.{Result, ok, err, fail_if, ◌>>=◌, ◌>>◌, ltb, leb, ◌==◌}
use solanago.Base.Bytes.{put_le, get_le}
use solanago.Base.Splice.{splice}
use solanago.Sdk.Pubkey.{Pubkey}
use solanago.Runtime.Account.{
  AccountView, accept_baseline, max_permitted_data_increase, max_permitted_data_length,
}
use solanago.Runtime.Account.Context.{Context}
use solanago.Runtime.Abi.{
  Error, invalid_abi, too_many_accounts, instruction_too_large, invalid_duplicate, AccountRegion,
  max_accounts_per_instruction, max_instruction_data_len, non_duplicate_marker, input_address,
  checked_add_int, alignment_padding,
}
use solanago.Runtime.Abi.Serialize.{or_invalid}

pub record ParseOptions : Type 0 where
  pub direct_account_pointers : Bool
  pub reject_non_canonical_bools : Bool

-- `bytes` is the field `data`.
pub record AbiCursor : Type 0 where
  pub bytes : List ℕ
  pub offset : ℕ

unfoldable pub take_slice : AbiCursor → ℕ → Result Error (List ℕ × AbiCursor)
take_slice c size =
    if ltb (length c.bytes) c.offset || ltb (length c.bytes - c.offset) size
    then err invalid_abi
    else ok (take size (drop c.offset c.bytes), record c { offset = c.offset + size })

unfoldable pub read_u8 : AbiCursor → Result Error (ℕ × AbiCursor)
read_u8 c = do taken ← take_slice c 1; ok (get_or taken.0 0 0, taken.1)

unfoldable pub boolean : Bool → AbiCursor → Result Error (Bool × AbiCursor)
boolean strict c = do
  value ← read_u8 c
  fail_if (strict && ltb 1 value.0) invalid_abi
  ok (not (value.0 == 0), value.1)

unfoldable pub read_u64 : AbiCursor → Result Error (ℕ × AbiCursor)
read_u64 c = do taken ← take_slice c 8; ok (get_le taken.0, taken.1)

-- The account's record without the marker, with the offsets of its fields, its data with the room
-- behind them and the cursor after it.
pub record AccountRecord : Type 0 where
  pub is_signer : Bool
  pub is_writable : Bool
  pub executable : Bool
  pub key : Pubkey
  pub owner : Pubkey
  pub lamports : ℕ
  pub data_len : ℕ
  pub bytes : List ℕ
  pub key_offset : ℕ
  pub owner_offset : ℕ
  pub lamports_offset : ℕ
  pub data_offset : ℕ
  pub cursor : AbiCursor

unfoldable pub parse_record : Bool → AbiCursor → Result Error AccountRecord
parse_record strict c = do
  is_signer ← boolean strict c
  is_writable ← boolean strict is_signer.1
  executable ← boolean strict is_writable.1
  padding ← take_slice executable.1 4
  key ← take_slice padding.1 32
  owner ← take_slice key.1 32
  lamports ← read_u64 owner.1
  data_len ← read_u64 lamports.1
  fail_if (ltb max_permitted_data_length data_len.0 || ltb (2 ^ 32 - 1) data_len.0) invalid_abi
  let at = data_len.1
  let noted = record at { bytes = splice at.bytes executable.1.offset (put_le 4 data_len.0) }
  capacity ← or_invalid (checked_add_int data_len.0 max_permitted_data_increase)
  bytes ← take_slice noted capacity
  aligned ← take_slice bytes.1 (alignment_padding data_len.0)
  rent_epoch ← read_u64 aligned.1
  ok (record {
    is_signer = is_signer.0;
    is_writable = is_writable.0;
    executable = executable.0;
    key = key.0;
    owner = owner.0;
    lamports = lamports.0;
    data_len = data_len.0;
    bytes = bytes.0;
    key_offset = padding.1.offset;
    owner_offset = key.1.offset;
    lamports_offset = owner.1.offset;
    data_offset = noted.offset;
    cursor = rent_epoch.1;
  })

-- What the loop has made: the views, the pointers to them in the slots, and the regions.
pub record Parsed : Type 0 where
  pub views : List AccountView
  pub account_slots : List ℕ
  pub regions : List AccountRegion

unfoldable pub parsed_region : ℕ → AccountRecord → AccountRegion
parsed_region record_offset r = record {
  vm_address = input_address record_offset;
  key_address = input_address r.key_offset;
  owner_address = input_address r.owner_offset;
  lamports_address = input_address r.lamports_offset;
  data_address = input_address r.data_offset;
  original_data_len = r.data_len;
  duplicate_of = none;
  record_byte_offset = record_offset;
}

-- The slot of a pointer to an earlier account.
unfoldable pub parse_duplicate : ℕ → ℕ → Parsed → Result Error Parsed
parse_duplicate target record_offset p = elim (get_elem? p.account_slots target) [
  | none ↦ err invalid_duplicate
  | some pointer ↦ elim (get_elem? p.regions target) [
    | none ↦ err invalid_duplicate
    | some region ↦ ok (record p {
      account_slots = p.account_slots ++ (pointer ∷ []);
      regions =
          p.regions
          ++ (record region { duplicate_of = some target; record_byte_offset = record_offset }
              ∷ []);
    })
  ]
]

unfoldable pub check_pointers : AbiCursor → List AccountRegion → Result Error AbiCursor
check_pointers c [] = ok c
check_pointers c (region ∷ rest) = do
  pointer ← read_u64 c
  fail_if (not (pointer.0 == region.vm_address)) invalid_abi
  check_pointers pointer.1 rest

-- The bytes that the parser leaves are the field `raw` of the context.
pub record ParsedInput : Type 0 where
  pub context : Context
  pub regions : List AccountRegion
  pub raw : List ℕ

-- crypto/sha256.
module _ (sha256 : List ℕ → List ℕ) where
  unfoldable pub parsed_view : AccountRecord → AccountView
  parsed_view r = accept_baseline sha256 (record {
    key = r.key;
    owner = r.owner;
    lamports = r.lamports;
    bytes = r.bytes;
    data_len = r.data_len;
    original_len = r.data_len;
    is_signer = r.is_signer;
    is_writable = r.is_writable;
    executable = r.executable;
    baseline_owner = replicate 32 0;
    baseline_lamports = 0;
    baseline_data_len = 0;
    baseline_data_hash = replicate 32 0;
    owner_storage = some r.owner;
    lamports_storage = some r.lamports;
    data_len_storage = some r.data_len;
  })

  -- A round of the loop.
  unfoldable pub parse_slot : Bool → ℕ → AbiCursor → Parsed → Result Error (AbiCursor × Parsed)
  parse_slot strict index c p = do
    marker ← read_u8 c
    if not (marker.0 == non_duplicate_marker)
        then (do
          fail_if (leb index marker.0) invalid_duplicate
          padding ← take_slice marker.1 7
          more ← parse_duplicate marker.0 c.offset p
          ok (padding.1, more))
        else (do
          r ← parse_record strict marker.1
          ok (
            r.cursor,
            record {
              views = p.views ++ (parsed_view r ∷ []);
              account_slots = p.account_slots ++ (length p.views ∷ []);
              regions = p.regions ++ (parsed_region c.offset r ∷ []);
            },
          ))

  -- The loop over the number of slots that are left.
  unfoldable pub parse_slots : Bool → ℕ → ℕ → AbiCursor → Parsed → Result Error (AbiCursor × Parsed)
  parse_slots strict zero index c p = ok (c, p)
  parse_slots strict (suc left) index c p = do
    round ← parse_slot strict index c p
    parse_slots strict left (index + 1) round.0 round.1

  unfoldable pub parse_input_v1_with_options : List ℕ → ParseOptions → Result Error ParsedInput
  parse_input_v1_with_options input options = do
    count ← read_u64 (record { bytes = input; offset = 0 })
    fail_if (ltb max_accounts_per_instruction count.0) too_many_accounts
    slots ←
        parse_slots options.reject_non_canonical_bools count.0 0 count.1
          (record { views = []; account_slots = []; regions = [] })
    size ← read_u64 slots.0
    fail_if (ltb max_instruction_data_len size.0) instruction_too_large
    instruction_data ← take_slice size.1 size.0
    program ← take_slice instruction_data.1 32
    c ←
        if options.direct_account_pointers
        then (do
          padding ← take_slice program.1 (alignment_padding program.1.offset)
          check_pointers padding.1 slots.1.regions)
        else ok program.1
    fail_if (not (c.offset == length input)) invalid_abi
    ok (record {
      context = record {
        program_id = program.0;
        instruction_data = instruction_data.0;
        views = slots.1.views;
        account_slots = slots.1.account_slots;
      };
      regions = slots.1.regions;
      raw = c.bytes;
    })
