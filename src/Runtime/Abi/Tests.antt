-- ===== src/Runtime/Abi/Tests.antt =====
-- Runs of the model of the input at fixed accounts.
use solanago.Base.{
  ℕ, ◌^◌, ◌≡◌, refl, true, false, arith, List, [], ◌∷◌, replicate, ok, err, inl, inr,
}
use solanago.Base.Bytes.{put_le}
use solanago.Sdk.Pubkey.{Pubkey}
use solanago.Runtime.Account.{Account}
use solanago.Runtime.Abi.{
  InputAccount, unique_input_account, duplicate_input_account, invalid_abi, invalid_duplicate,
  too_many_accounts,
}
use solanago.Runtime.Abi.Serialize.{
  SerializeOptions, SerializedInput, slot_size, slot_sizes, is_some, input_size,
  serialize_input_v1_with_options,
}
use solanago.Runtime.Abi.Parse.{
  ParseOptions, ParsedInput, take_slice, read_u64, parse_input_v1_with_options,
}
use solanago.Runtime.Account.Validate.{validate_program_changes}
use solanago.Runtime.Account.Sound.{Operation, transfer, run_operations}
use solanago.Runtime.Abi.Sound.{validate-run_input}
use solanago.Runtime.Abi.Layout.{IsSlots}
use solanago.Runtime.Abi.RoundTrip.{parse_input-serialize_input, mapped_context}

abbrev hash : List ℕ → List ℕ
hash bytes = bytes

abbrev program_key : Pubkey
program_key = replicate 32 7

abbrev payer : Account
payer = record {
  key = replicate 32 1;
  owner = replicate 32 0;
  lamports = 2 ^ 40;
  bytes = [];
  is_signer = true;
  is_writable = true;
  executable = false;
}

abbrev state : Account
state = record {
  key = replicate 32 2;
  owner = program_key;
  lamports = 890880;
  bytes = 1 ∷ 2 ∷ 3 ∷ [];
  is_signer = false;
  is_writable = true;
  executable = false;
}

-- The last slot is the payer again.
abbrev inputs : List InputAccount
inputs = unique_input_account payer ∷ unique_input_account state ∷ duplicate_input_account 0 ∷ []

inputs-IsSlots : IsSlots 0 inputs
inputs-IsSlots = (
  inl (payer, refl, (refl, refl, ground arith, ground arith)),
  (inl (state, refl, (refl, refl, ground arith, ground arith)), (inr (0, refl, ground arith), tt)),
)

abbrev with_pointers : SerializeOptions
with_pointers = record { direct_account_pointers = true }

abbrev strictly : ParseOptions
strictly = record { direct_account_pointers = true; reject_non_canonical_bools = true }

parse_input-serialize_input_example :
    (out : SerializedInput) × (raw : List ℕ) × (serialize_input_v1_with_options program_key inputs
        (4 ∷ 5 ∷ [])
        with_pointers
      ≡ ok out)
    × (parse_input_v1_with_options hash out.buffer strictly
        ≡ ok (record {
          context =
              mapped_context hash true program_key inputs
                (4 ∷ 5 ∷ [])
                refl
                (ground arith)
                (ground arith)
                inputs-IsSlots;
          regions = out.account_regions;
          raw = raw;
        }))
parse_input-serialize_input_example =
    parse_input-serialize_input hash true program_key inputs (4 ∷ 5 ∷ []) refl (ground arith)
      (ground arith) inputs-IsSlots true

-- A transfer from the state to the copy of the payer, and a debit of the payer, which fails.
abbrev calls : List Operation
calls = transfer 1 2 880 ∷ transfer 0 1 5 ∷ []

validate-run_input_example :
    (out : SerializedInput) × (parsed : ParsedInput) × (serialize_input_v1_with_options program_key
        inputs
        (4 ∷ 5 ∷ [])
        with_pointers
      ≡ ok out)
    × (parse_input_v1_with_options hash out.buffer strictly ≡ ok parsed)
    × (validate_program_changes hash (run_operations parsed.context calls)
        ≡ ok (run_operations parsed.context calls))
validate-run_input_example =
    validate-run_input hash program_key true true inputs (4 ∷ 5 ∷ []) calls refl (ground arith)
      (ground arith) inputs-IsSlots (tt, (tt, tt))

-- A slot does not copy itself, and no bytes are no input.
own_copy :
    serialize_input_v1_with_options program_key (duplicate_input_account 0 ∷ []) [] with_pointers
    ≡ err invalid_duplicate
unfolding serialize_input_v1_with_options input_size slot_sizes slot_size duplicate_input_account
    is_some
own_copy = refl

no_input : parse_input_v1_with_options hash [] strictly ≡ err invalid_abi
unfolding parse_input_v1_with_options read_u64 take_slice
no_input = refl

too_many : parse_input_v1_with_options hash (put_le 8 256) strictly ≡ err too_many_accounts
unfolding parse_input_v1_with_options read_u64 take_slice
too_many = refl
