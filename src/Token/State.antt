-- ===== src/Token/State.antt =====
-- sdk/token/state.go: the bytes of a mint and of a token account. `sdk.Pubkey` is an array of 32 bytes.
use solanago.Sdk.Pubkey.{Pubkey}
use solanago.Base.{ℕ, Bool, true, false, not, ◌==◌, ltb, if◌then◌else◌}
use solanago.Base.{List, [], ◌∷◌, length, get_or, replicate, Result, ok, err, fail_if, ◌>>=◌, ◌>>◌}
use solanago.Base.Bytes.{put_le, get_le}
use solanago.Base.Splice.{splice}
use solanago.Base.Blocks.{range}

pub data Error : Type 0 where
  invalid_state : Error

abbrev pub mint_size : ℕ
mint_size = 82

abbrev pub account_size : ℕ
account_size = 165

pub record OptionalPubkey : Type 0 where
  pub is_set : Bool
  pub value : Pubkey

pub record OptionalU64 : Type 0 where
  pub is_set : Bool
  pub value : ℕ

pub record Mint : Type 0 where
  pub mint_authority : OptionalPubkey
  pub supply : ℕ
  pub decimals : ℕ
  pub initialized : Bool
  pub freeze_authority : OptionalPubkey

-- `AccountState` is a byte: uninitialized, initialized or frozen.
abbrev pub account_frozen : ℕ
account_frozen = 2

pub record Account : Type 0 where
  pub mint : Pubkey
  pub owner : Pubkey
  pub amount : ℕ
  pub delegate : OptionalPubkey
  pub state : ℕ
  pub is_native : OptionalU64
  pub delegated_amount : ℕ
  pub close_authority : OptionalPubkey

unfoldable pub decode_bool : ℕ → Result Error Bool
decode_bool value =
    if value == 0 then ok false else if value == 1 then ok true else err invalid_state

-- A value that is not set is the array of zeros.
unfoldable pub decode_optional_pubkey_state : List ℕ → Result Error OptionalPubkey
decode_optional_pubkey_state bytes =
    let tag = get_le (range bytes 0 4) in
    do
      fail_if (not (length bytes == 36)) invalid_state
      fail_if (ltb 1 tag) invalid_state
      ok (record {
        is_set = tag == 1;
        value = if tag == 1 then range bytes 4 32 else replicate 32 0;
      })

-- The bytes that it writes the value into, after the writes.
unfoldable pub encode_optional_pubkey_state : List ℕ → OptionalPubkey → Result Error (List ℕ)
encode_optional_pubkey_state bytes value = do
  fail_if (not (length bytes == 36)) invalid_state
  ok (if value.is_set then splice (splice bytes 0 (put_le 4 1)) 4 value.value else bytes)

unfoldable pub decode_optional_u64_state : List ℕ → Result Error OptionalU64
decode_optional_u64_state bytes =
    let tag = get_le (range bytes 0 4) in
    do
      fail_if (not (length bytes == 12)) invalid_state
      fail_if (ltb 1 tag) invalid_state
      ok (
          if tag == 0
          then record { is_set = false; value = 0 }
          else record { is_set = true; value = get_le (range bytes 4 8) })

unfoldable pub encode_optional_u64_state : List ℕ → OptionalU64 → Result Error (List ℕ)
encode_optional_u64_state bytes value = do
  fail_if (not (length bytes == 12)) invalid_state
  ok (if value.is_set then splice (splice bytes 0 (put_le 4 1)) 4 (put_le 8 value.value) else bytes)

unfoldable pub decode_mint : List ℕ → Result Error Mint
decode_mint bytes = do
  fail_if (not (length bytes == mint_size)) invalid_state
  mint_authority ← decode_optional_pubkey_state (range bytes 0 36)
  initialized ← decode_bool (get_or bytes 45 0)
  freeze_authority ← decode_optional_pubkey_state (range bytes 46 36)
  ok (record {
    mint_authority = mint_authority;
    supply = get_le (range bytes 36 8);
    decimals = get_or bytes 44 0;
    initialized = initialized;
    freeze_authority = freeze_authority;
  })

-- The assignments between the two optional keys.
unfoldable pub write_mint_fields : List ℕ → Mint → List ℕ
write_mint_fields bytes mint =
    let counted = splice (splice bytes 36 (put_le 8 mint.supply)) 44 (mint.decimals ∷ []) in
    if mint.initialized then splice counted 45 (1 ∷ []) else counted

unfoldable pub encode_mint : Mint → Result Error (List ℕ)
encode_mint mint = do
  let blank = replicate mint_size 0
  first ← encode_optional_pubkey_state (range blank 0 36) mint.mint_authority
  let bytes = write_mint_fields (splice blank 0 first) mint
  last ← encode_optional_pubkey_state (range bytes 46 36) mint.freeze_authority
  ok (splice bytes 46 last)

unfoldable pub decode_account : List ℕ → Result Error Account
decode_account bytes = do
  fail_if (not (length bytes == account_size)) invalid_state
  delegate ← decode_optional_pubkey_state (range bytes 72 36)
  fail_if (ltb account_frozen (get_or bytes 108 0)) invalid_state
  is_native ← decode_optional_u64_state (range bytes 109 12)
  close_authority ← decode_optional_pubkey_state (range bytes 129 36)
  ok (record {
    mint = range bytes 0 32;
    owner = range bytes 32 32;
    amount = get_le (range bytes 64 8);
    delegate = delegate;
    state = get_or bytes 108 0;
    is_native = is_native;
    delegated_amount = get_le (range bytes 121 8);
    close_authority = close_authority;
  })

unfoldable pub encode_account : Account → Result Error (List ℕ)
encode_account account = do
  fail_if (ltb account_frozen account.state) invalid_state
  let keyed = splice (splice (replicate account_size 0) 0 account.mint) 32 account.owner
  let counted = splice keyed 64 (put_le 8 account.amount)
  delegate ← encode_optional_pubkey_state (range counted 72 36) account.delegate
  let stated = splice (splice counted 72 delegate) 108 (account.state ∷ [])
  native ← encode_optional_u64_state (range stated 109 12) account.is_native
  let delegated = splice (splice stated 109 native) 121 (put_le 8 account.delegated_amount)
  close ← encode_optional_pubkey_state (range delegated 129 36) account.close_authority
  ok (splice delegated 129 close)
