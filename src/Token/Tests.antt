-- ===== src/Token/Tests.antt =====
-- Runs on a mint and on an account, and the round trips at a concrete mint and account.
use solanago.Base.{◌++◌, ◌+◌, ◌^◌, ◌≡◌, refl, true, false, [], replicate, ok, err, ◌>>=◌, arith}
use solanago.Base.Splice.{splice}
use solanago.Base.Blocks.{range}
use solanago.Token.State.{
  OptionalPubkey, Mint, Account, invalid_state, decode_bool, decode_optional_pubkey_state,
  encode_optional_pubkey_state, decode_optional_u64_state, encode_optional_u64_state, decode_mint,
  encode_mint, write_mint_fields, decode_account, encode_account,
}
use solanago.Token.RoundTrip.{IsMint, decode_mint-encode_mint}
use solanago.Token.Multisig.{
  Multisig, IsMultisig, decode_multisig, encode_multisig, decode_multisig-encode_multisig,
}
use solanago.Token.Accounts.{IsAccount, decode_account-encode_account}

abbrev some_key : OptionalPubkey
some_key = record { is_set = true; value = replicate 32 7 }

abbrev no_key : OptionalPubkey
no_key = record { is_set = false; value = replicate 32 0 }

abbrev gold : Mint
gold = record {
  mint_authority = some_key;
  supply = 1000000;
  decimals = 9;
  initialized = true;
  freeze_authority = no_key;
}

abbrev frozen_account : Account
frozen_account = record {
  mint = replicate 32 1;
  owner = replicate 32 2;
  amount = 2 ^ 63 + 5;
  delegate = some_key;
  state = 2;
  is_native = record { is_set = true; value = 890880 };
  delegated_amount = 77;
  close_authority = no_key;
}

token_runs : Unit {0}
unfolding splice range decode_bool decode_optional_pubkey_state encode_optional_pubkey_state
    decode_optional_u64_state encode_optional_u64_state decode_mint encode_mint write_mint_fields
    decode_account encode_account
token_runs = tt

account_round : (encode_account frozen_account >>= decode_account) ≡ ok frozen_account
unfolding token_runs
account_round = refl

-- The state 3 is none of an account, and the flag 2 none of a mint.
unknown_state : encode_account (record frozen_account { state = 3 }) ≡ err invalid_state
unfolding token_runs
unknown_state = refl

unknown_flag :
    (encode_mint gold >>= λ bytes. decode_mint (splice bytes 45 (replicate 1 2)))
    ≡ err invalid_state
unfolding token_runs
unknown_flag = refl

short_mint : decode_mint [] ≡ err invalid_state
unfolding token_runs
short_mint = refl

gold-IsMint : IsMint gold
gold-IsMint = record {
  authority = record { size = refl; unset = λ e. absurd (cc e) };
  freeze = record { size = refl; unset = λ e. refl };
  supply_word = omega arith;
}

decode_mint-encode_mint_example : (encode_mint gold >>= decode_mint) ≡ ok gold
decode_mint-encode_mint_example = decode_mint-encode_mint gold gold-IsMint

frozen_account-IsAccount : IsAccount frozen_account
frozen_account-IsAccount = record {
  mint_fits = refl;
  owner_fits = refl;
  amount_word = ground arith;
  delegated_word = ground arith;
  delegate_key = record { size = refl; unset = λ e. absurd (cc e) };
  close_key = record { size = refl; unset = λ e. refl };
  native_word = record { word = ground arith; unset = λ e. absurd (cc e) };
  known_state = ground arith;
}

decode_account-encode_account_example :
    (encode_account frozen_account >>= decode_account) ≡ ok frozen_account
decode_account-encode_account_example =
    decode_account-encode_account frozen_account frozen_account-IsAccount

abbrev signers : Multisig
signers = record {
  m = 2;
  n = 3;
  initialized = true;
  signers = replicate 3 (replicate 32 5) ++ replicate 8 (replicate 32 0);
}

signers-IsMultisig : IsMultisig signers
signers-IsMultisig = record {
  eleven = refl;
  keys = (refl, (refl, (refl, (refl, (refl, (refl, (refl, (refl, (refl, (refl, (refl, tt)))))))))));
}

decode_multisig-encode_multisig_example : (encode_multisig signers >>= decode_multisig) ≡ ok signers
decode_multisig-encode_multisig_example = decode_multisig-encode_multisig signers signers-IsMultisig
