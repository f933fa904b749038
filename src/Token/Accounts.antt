-- ===== src/Token/Accounts.antt =====
-- sdk/token/state.go: what is encoded of a token account is decoded again.
use solanago.Base.{
  ℕ, ◌^◌, ◌<◌, ◌≤◌, ◌≡◌, refl, sym, ap, ◌∙◌, Bool, true, false, ltb, if◌then◌else◌, arith,
}
use solanago.Base.{
  List, [], ◌∷◌, ◌++◌, length, get_or, get_elem?, set, replicate, some, Result, ok, ◌>>=◌,
}
use solanago.Base.Bytes.{put_le, get_le-put_le}
use solanago.Base.Splice.{splice}
use solanago.Base.Blocks.{
  range, join, before, splice_written, range_block, length-join, splice-whole, get_or-range,
}
use solanago.Token.State.{Error, OptionalU64, Account, account_frozen}
use solanago.Token.State.{
  encode_optional_pubkey_state, encode_optional_u64_state, decode_optional_u64_state,
}
use solanago.Token.State.{decode_account, encode_account}
use solanago.Token.RoundTrip.{
  IsKey, key_block, encode-key_block, length-key_block, decode-key_block,
}

-- A 64-bit number; one that is not set is 0, as Go leaves it.
pub record IsOptionalWord (v : OptionalU64) : Type 0 where
  pub word : v.value < 2 ^ 64
  pub unset : v.is_set ≡ false → v.value ≡ 0

abbrev word_block : OptionalU64 → List ℕ
word_block v = if v.is_set then put_le 4 1 ++ put_le 8 v.value else replicate 12 0

encode-word_block :
    (v : OptionalU64) → encode_optional_u64_state (replicate 12 0) v ≡ ok (word_block v)
unfolding encode_optional_u64_state splice
encode-word_block v = refl

length-word_block : (v : OptionalU64) → length (word_block v) ≡ 12
length-word_block v = by_flag v.is_set v.value
  where
    by_flag : (b : Bool) (n : ℕ) → length (word_block (record { is_set = b; value = n })) ≡ 12
    by_flag true n = refl
    by_flag false n = refl

decode-word_block :
    (v : OptionalU64) → IsOptionalWord v → decode_optional_u64_state (word_block v) ≡ ok v
unfolding decode_optional_u64_state range
decode-word_block v h = by_flag v.is_set v.value h.word h.unset
  where
    by_flag :
        (b : Bool) (n : ℕ)
        → n < 2 ^ 64
        → (b ≡ false → n ≡ 0)
        → decode_optional_u64_state (word_block (record { is_set = b; value = n }))
          ≡ ok (record { is_set = b; value = n })
    by_flag true n w u = ap (λ k. ok (record { is_set = true; value = k })) (get_le-put_le 8 n w)
    by_flag false n w u = ap (λ k. ok (record { is_set = false; value = k })) (sym (u refl))

-- The layout of an account.
abbrev layout : List ℕ → List ℕ → List ℕ → List ℕ → ℕ → List ℕ → List ℕ → List ℕ → List (List ℕ)
layout mint owner amount delegate state native delegated close =
    mint ∷ owner ∷ amount ∷ delegate ∷ (state ∷ []) ∷ native ∷ delegated ∷ close ∷ []

abbrev account_blocks : Account → List (List ℕ)
account_blocks a =
    layout a.mint a.owner (put_le 8 a.amount) (key_block a.delegate) a.state
      (word_block a.is_native) (put_le 8 a.delegated_amount) (key_block a.close_authority)

-- An account as Go holds it.
pub record IsAccount (a : Account) : Type 0 where
  pub mint_fits : length a.mint ≡ 32
  pub owner_fits : length a.owner ≡ 32
  pub amount_word : a.amount < 2 ^ 64
  pub delegated_word : a.delegated_amount < 2 ^ 64
  pub delegate_key : IsKey a.delegate
  pub close_key : IsKey a.close_authority
  pub native_word : IsOptionalWord a.is_native
  pub known_state : a.state ≤ account_frozen

-- A block over one of its length.
write_block :
    (bytes : List ℕ) (s : List (List ℕ)) (i : ℕ) (b : List ℕ) (start : ℕ) (new : List ℕ)
    → bytes ≡ join s
    → get_elem? s i ≡ some b
    → start ≡ before s i
    → length b ≡ length new
    → splice bytes start new ≡ join (set s i new)
write_block bytes s i b start new e at here same =
    splice_written bytes s i b new start new e at here (omega (arith, same))
      (splice-whole b new same)

module _ (a : Account) (h : IsAccount a) where
  -- `EncodeAccount` from each of the optional fields on.
  from_close : List ℕ → Result Error (List ℕ)
  from_close bytes =
      encode_optional_pubkey_state (range bytes 129 36) a.close_authority >>= λ close.
      ok (splice bytes 129 close)

  from_native : List ℕ → Result Error (List ℕ)
  from_native bytes = encode_optional_u64_state (range bytes 109 12) a.is_native >>= λ native.
      from_close (splice (splice bytes 109 native) 121 (put_le 8 a.delegated_amount))

  from_delegate : List ℕ → Result Error (List ℕ)
  from_delegate bytes = encode_optional_pubkey_state (range bytes 72 36) a.delegate >>= λ delegate.
      from_native (splice (splice bytes 72 delegate) 108 (a.state ∷ []))

  delegate_length : length (key_block a.delegate) ≡ 36
  delegate_length = length-key_block a.delegate h.delegate_key.size

  close_length : length (key_block a.close_authority) ≡ 36
  close_length = length-key_block a.close_authority h.close_key.size

  native_length : length (word_block a.is_native) ≡ 12
  native_length = length-word_block a.is_native

  counted :
      splice (splice (splice (replicate 165 0) 0 a.mint) 32 a.owner) 64 (put_le 8 a.amount)
      ≡ join (
          layout a.mint a.owner
            (put_le 8 a.amount)
            (replicate 36 0)
            0
            (replicate 12 0)
            (replicate 8 0)
            (replicate 36 0))
  counted =
      let blank =
        layout (replicate 32 0) (replicate 32 0) (replicate 8 0) (replicate 36 0) 0 (replicate 12 0)
          (replicate 8 0) (replicate 36 0) in
      let first =
        write_block (replicate 165 0) blank 0 (replicate 32 0) 0 a.mint refl refl refl
          (sym h.mint_fits) in
      let second =
        write_block _ (set blank 0 a.mint) 1 (replicate 32 0) 32 a.owner first refl
          (omega (arith, h.mint_fits)) (sym h.owner_fits) in
      write_block _ (set (set blank 0 a.mint) 1 a.owner) 2 (replicate 8 0) 64 (put_le 8 a.amount)
        second refl (omega (arith, h.mint_fits, h.owner_fits)) refl

  -- The states of the buffer, by the blocks that are written.
  abbrev stage : List ℕ → ℕ → List ℕ → List ℕ → List ℕ → List (List ℕ)
  stage delegate state native delegated close =
      layout a.mint a.owner (put_le 8 a.amount) delegate state native delegated close

  close_step :
      (bytes r : List ℕ)
      → range bytes 129 36 ≡ replicate 36 0
      → splice bytes 129 (key_block a.close_authority) ≡ r
      → from_close bytes ≡ ok r
  unfolding from_close
  close_step bytes r e f = rw (e, encode-key_block a.close_authority h.close_key.size) (ap ok f)

  native_step :
      (bytes r : List ℕ)
      → range bytes 109 12 ≡ replicate 12 0
      → from_close
          (splice (splice bytes 109 (word_block a.is_native)) 121 (put_le 8 a.delegated_amount))
        ≡ ok r
      → from_native bytes ≡ ok r
  unfolding from_native
  native_step bytes r e f = rw (e, encode-word_block a.is_native) f

  delegate_step :
      (bytes r : List ℕ)
      → range bytes 72 36 ≡ replicate 36 0
      → from_native (splice (splice bytes 72 (key_block a.delegate)) 108 (a.state ∷ [])) ≡ ok r
      → from_delegate bytes ≡ ok r
  unfolding from_delegate
  delegate_step bytes r e f = rw (e, encode-key_block a.delegate h.delegate_key.size) f

  written :
      from_delegate
        (join (stage (replicate 36 0) 0 (replicate 12 0) (replicate 8 0) (replicate 36 0)))
      ≡ ok (join (account_blocks a))
  written =
      let d = key_block a.delegate in
      let n = word_block a.is_native in
      let m = put_le 8 a.delegated_amount in
      let s0 = stage (replicate 36 0) 0 (replicate 12 0) (replicate 8 0) (replicate 36 0) in
      let s1 = stage d 0 (replicate 12 0) (replicate 8 0) (replicate 36 0) in
      let s2 = stage d a.state (replicate 12 0) (replicate 8 0) (replicate 36 0) in
      let s3 = stage d a.state n (replicate 8 0) (replicate 36 0) in
      let s4 = stage d a.state n m (replicate 36 0) in
      let e1 =
        write_block (join s0) s0 3 (replicate 36 0) 72 d refl refl
          (omega (arith, h.mint_fits, h.owner_fits)) (sym delegate_length) in
      let e2 =
        write_block _ s1 4 (0 ∷ []) 108 (a.state ∷ []) e1 refl
          (omega (arith, h.mint_fits, h.owner_fits, delegate_length)) refl in
      let e3 =
        write_block (join s2) s2 5 (replicate 12 0) 109 n refl refl
          (omega (arith, h.mint_fits, h.owner_fits, delegate_length)) (sym native_length) in
      let e4 =
        write_block _ s3 6 (replicate 8 0) 121 m e3 refl
          (omega (arith, h.mint_fits, h.owner_fits, delegate_length, native_length)) refl in
      let e5 =
        write_block (join s4) s4 7 (replicate 36 0) 129 (key_block a.close_authority) refl refl
          (omega (arith, h.mint_fits, h.owner_fits, delegate_length, native_length))
          (sym close_length) in
      let r0 =
        range_block s0 3 (replicate 36 0) 72 36 refl (omega (arith, h.mint_fits, h.owner_fits))
          refl in
      let r2 =
        range_block s2 5 (replicate 12 0) 109 12 refl
          (omega (arith, h.mint_fits, h.owner_fits, delegate_length)) refl in
      let r4 =
        range_block s4 7 (replicate 36 0) 129 36 refl
          (omega (arith, h.mint_fits, h.owner_fits, delegate_length, native_length)) refl in
      let closed = ap from_close e4 ∙ close_step (join s4) _ r4 e5 in
      let native = ap from_native e2 ∙ native_step (join s2) _ r2 closed in
      delegate_step (join s0) _ r0 native

  -- The bytes of an account are its layout.
  encode_account-join : encode_account a ≡ ok (join (account_blocks a))
  unfolding encode_account from_delegate from_native from_close
  encode_account-join =
      let known : ltb account_frozen a.state ≡ false = ground (arith, h.known_state) in
      rw known (ap from_delegate counted ∙ written)

  decode_account-from :
      (bytes : List ℕ)
      → length bytes ≡ 165
      → range bytes 0 32 ≡ a.mint
      → range bytes 32 32 ≡ a.owner
      → range bytes 64 8 ≡ put_le 8 a.amount
      → range bytes 72 36 ≡ key_block a.delegate
      → get_or bytes 108 0 ≡ a.state
      → range bytes 109 12 ≡ word_block a.is_native
      → range bytes 121 8 ≡ put_le 8 a.delegated_amount
      → range bytes 129 36 ≡ key_block a.close_authority
      → decode_account bytes ≡ ok a
  unfolding decode_account
  decode_account-from bytes l m o amount d s n g c =
      let known : ltb account_frozen a.state ≡ false = ground (arith, h.known_state) in
      rw
        (
          l,
          d,
          decode-key_block a.delegate h.delegate_key,
          s,
          known,
          n,
          decode-word_block a.is_native h.native_word,
          c,
          decode-key_block a.close_authority h.close_key,
          m,
          o,
          amount,
          get_le-put_le 8 a.amount (omega (arith, h.amount_word)),
          g,
          get_le-put_le 8 a.delegated_amount (omega (arith, h.delegated_word)),
        )
        refl

  decode_account-join : decode_account (join (account_blocks a)) ≡ ok a
  decode_account-join =
      let s = account_blocks a in
      decode_account-from (join s)
        (length-join s
          ∙ omega (arith, h.mint_fits, h.owner_fits, delegate_length, native_length, close_length))
        (range_block s 0 _ 0 32 refl refl h.mint_fits)
        (range_block s 1 _ 32 32 refl (omega (arith, h.mint_fits)) h.owner_fits)
        (range_block s 2 _ 64 8 refl (omega (arith, h.mint_fits, h.owner_fits)) refl)
        (range_block s 3 _ 72 36 refl (omega (arith, h.mint_fits, h.owner_fits)) delegate_length)
        (get_or-range (join s) 108
          ∙ ap (λ b. get_or b 0 0)
              (range_block s 4 (a.state ∷ []) 108 1 refl
                (omega (arith, h.mint_fits, h.owner_fits, delegate_length)) refl))
        (range_block s 5 _ 109 12 refl (omega (arith, h.mint_fits, h.owner_fits, delegate_length))
          native_length)
        (range_block s 6 _ 121 8 refl
          (omega (arith, h.mint_fits, h.owner_fits, delegate_length, native_length)) refl)
        (range_block s 7 _ 129 36 refl
          (omega (arith, h.mint_fits, h.owner_fits, delegate_length, native_length)) close_length)

  -- A token account of a known state, whose mint and owner have 32 bytes, whose amounts are 64-bit
  -- words, and whose optional keys and number are zeros where they are not set, is decoded from the
  -- bytes that it is encoded to.
  pub decode_account-encode_account : (encode_account a >>= decode_account) ≡ ok a
  decode_account-encode_account = rw encode_account-join decode_account-join
