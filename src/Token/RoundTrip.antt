-- ===== src/Token/RoundTrip.antt =====
-- What is encoded of a mint or a token account is decoded again.
use solanago.Base.{
  ℕ, zero, suc, ◌^◌, ◌<◌, ◌≡◌, refl, sym, ap, ◌∙◌, Bool, true, false, ◌==◌, if◌then◌else◌, arith,
}
use solanago.Base.{List, [], ◌∷◌, ◌++◌, length, get_or, set, replicate, ok, ◌>>=◌}
use solanago.Base.Bytes.{put_le, get_le-put_le}
use solanago.Base.Splice.{splice}
use solanago.Base.Blocks.{
  range, join, splice_written, range_block, range-whole, length-join, splice-whole, get_or-range,
  append-nil,
}
use solanago.Token.State.{OptionalPubkey, Mint, decode_bool, decode_optional_pubkey_state}
use solanago.Token.State.{encode_optional_pubkey_state}
use solanago.Token.State.{decode_mint, encode_mint, write_mint_fields}

-- A key of 32 bytes; one that is not set is zeros, as Go leaves it.
pub record IsKey (v : OptionalPubkey) : Type 0 where
  pub size : length v.value ≡ 32
  pub unset : v.is_set ≡ false → v.value ≡ replicate 32 0

abbrev pub key_block : OptionalPubkey → List ℕ
key_block v = if v.is_set then put_le 4 1 ++ v.value else replicate 36 0

key-written :
    (value : List ℕ)
    → length value ≡ 32
    → splice (splice (replicate 36 0) 0 (put_le 4 1)) 4 value ≡ put_le 4 1 ++ value
unfolding splice
key-written value h = rw h (ap (λ l. put_le 4 1 ++ l) (append-nil value))

pub encode-key_block :
    (v : OptionalPubkey)
    → length v.value ≡ 32
    → encode_optional_pubkey_state (replicate 36 0) v ≡ ok (key_block v)
unfolding encode_optional_pubkey_state
encode-key_block v h = ap (λ l. ok (if v.is_set then l else replicate 36 0)) (key-written v.value h)

length-key_block-by :
    (b : Bool) (value : List ℕ)
    → length value ≡ 32
    → length (key_block (record { is_set = b; value = value })) ≡ 36
length-key_block-by true value h = omega arith
length-key_block-by false value h = refl

pub length-key_block : (v : OptionalPubkey) → length v.value ≡ 32 → length (key_block v) ≡ 36
length-key_block v h = length-key_block-by v.is_set v.value h

decode-key_block-by :
    (b : Bool) (value : List ℕ)
    → length value ≡ 32
    → (b ≡ false → value ≡ replicate 32 0)
    → decode_optional_pubkey_state (key_block (record { is_set = b; value = value }))
      ≡ ok (record { is_set = b; value = value })
unfolding decode_optional_pubkey_state range
decode-key_block-by true value h u =
    let sized : (suc (suc (suc (suc (length value)))) == 36) ≡ true = ground arith in
    let whole : range value 0 32 ≡ value = ap (λ n. range value 0 n) (sym h) ∙ range-whole value in
    rw (sized, whole) refl
decode-key_block-by false value h u =
    ap (λ l. ok (record { is_set = false; value = l })) (sym (u refl))

pub decode-key_block :
    (v : OptionalPubkey) → IsKey v → decode_optional_pubkey_state (key_block v) ≡ ok v
decode-key_block v k = decode-key_block-by v.is_set v.value k.size k.unset

abbrev pub flag : Bool → ℕ
flag b = if b then 1 else 0

decode_bool-flag : (b : Bool) → decode_bool (flag b) ≡ ok b
unfolding decode_bool
decode_bool-flag true = refl
decode_bool-flag false = refl

-- The layout of a mint.
abbrev pub mint_blocks : Mint → List (List ℕ)
mint_blocks m =
    key_block m.mint_authority
    ∷ put_le 8 m.supply
    ∷ (m.decimals ∷ [])
    ∷ (flag m.initialized ∷ [])
    ∷ key_block m.freeze_authority
    ∷ []

-- A mint as Go holds it: two keys, a 64-bit supply, and a byte.
pub record IsMint (m : Mint) : Type 0 where
  pub authority : IsKey m.mint_authority
  pub freeze : IsKey m.freeze_authority
  pub supply_word : m.supply < 2 ^ 64

module _ (m : Mint) (h : IsMint m) where
  abbrev open_blocks : ℕ → List (List ℕ)
  open_blocks f =
      key_block m.mint_authority
      ∷ put_le 8 m.supply
      ∷ (m.decimals ∷ [])
      ∷ (f ∷ [])
      ∷ replicate 36 0
      ∷ []

  authority_length : length (key_block m.mint_authority) ≡ 36
  authority_length = length-key_block m.mint_authority h.authority.size

  freeze_length : length (key_block m.freeze_authority) ≡ 36
  freeze_length = length-key_block m.freeze_authority h.freeze.size

  counted :
      splice
        (splice (splice (replicate 82 0) 0 (key_block m.mint_authority)) 36 (put_le 8 m.supply))
        44
        (m.decimals ∷ [])
      ≡ join (open_blocks 0)
  counted =
      let blank = replicate 36 zero ∷ replicate 8 0 ∷ (0 ∷ []) ∷ (0 ∷ []) ∷ replicate 36 0 ∷ [] in
      let keyed = set blank 0 (key_block m.mint_authority) in
      let supplied = set keyed 1 (put_le 8 m.supply) in
      splice_written _ supplied 2 _ _ 44 (m.decimals ∷ [])
        (splice_written _ keyed 1 _ _ 36 (put_le 8 m.supply)
          (splice_written _ blank 0 _ _ 0 (key_block m.mint_authority) refl refl refl
            (omega (arith, authority_length)) (splice-whole _ _ (sym authority_length)))
          refl (omega (arith, authority_length)) (omega arith) (splice-whole _ _ refl))
        refl (omega (arith, authority_length)) (omega arith) (splice-whole _ _ refl)

  flagged :
      (b : Bool) (bytes : List ℕ)
      → bytes ≡ join (open_blocks 0)
      → (if b then splice bytes 45 (1 ∷ []) else bytes) ≡ join (open_blocks (flag b))
  flagged true bytes e =
      splice_written bytes (open_blocks 0) 3 _ _ 45 (1 ∷ []) e refl
        (omega (arith, authority_length)) (omega arith) (splice-whole _ _ refl)
  flagged false bytes e = e

  closed :
      (bytes : List ℕ)
      → bytes ≡ join (open_blocks (flag m.initialized))
      → (encode_optional_pubkey_state (range bytes 46 36) m.freeze_authority >>= λ last.
          ok (splice bytes 46 last))
        ≡ ok (join (mint_blocks m))
  closed bytes e =
      let s = open_blocks (flag m.initialized) in
      let blank =
        range_block s 4 (replicate 36 zero) 46 36 refl (omega (arith, authority_length)) refl in
      let keyed =
        splice_written (join s) s 4 _ _ 46 (key_block m.freeze_authority) refl refl
          (omega (arith, authority_length)) (omega (arith, freeze_length))
          (splice-whole (replicate 36 zero) _ (sym freeze_length)) in
      ap
        (λ b. encode_optional_pubkey_state (range b 46 36) m.freeze_authority >>= λ l.
          ok (splice b 46 l))
        e
      ∙ ap
          (λ z.
            encode_optional_pubkey_state z m.freeze_authority >>= λ l. ok (splice (join s) 46 l))
          blank
      ∙ ap (λ r. r >>= λ l. ok (splice (join s) 46 l))
          (encode-key_block m.freeze_authority h.freeze.size)
      ∙ ap ok keyed

  blank_key : range (replicate 82 0) 0 36 ≡ replicate 36 0
  unfolding range
  blank_key = refl

  -- The bytes of a mint are its layout.
  encode_mint-join : encode_mint m ≡ ok (join (mint_blocks m))
  unfolding encode_mint write_mint_fields
  encode_mint-join =
      rw (blank_key, encode-key_block m.mint_authority h.authority.size)
        (closed _ (flagged m.initialized _ counted))

  decode_mint-from :
      (bytes : List ℕ)
      → length bytes ≡ 82
      → range bytes 0 36 ≡ key_block m.mint_authority
      → range bytes 36 8 ≡ put_le 8 m.supply
      → get_or bytes 44 0 ≡ m.decimals
      → get_or bytes 45 0 ≡ flag m.initialized
      → range bytes 46 36 ≡ key_block m.freeze_authority
      → decode_mint bytes ≡ ok m
  unfolding decode_mint
  decode_mint-from bytes l a s d i f =
      rw
        (
          l,
          a,
          decode-key_block m.mint_authority h.authority,
          i,
          decode_bool-flag m.initialized,
          f,
          decode-key_block m.freeze_authority h.freeze,
          s,
          get_le-put_le 8 m.supply (omega (arith, h.supply_word)),
          d,
        )
        refl

  decode_mint-join : decode_mint (join (mint_blocks m)) ≡ ok m
  decode_mint-join =
      let s = mint_blocks m in
      decode_mint-from (join s) (length-join s ∙ omega (arith, authority_length, freeze_length))
        (range_block s 0 _ 0 36 refl refl authority_length)
        (range_block s 1 _ 36 8 refl (omega (arith, authority_length)) refl)
        (get_or-range (join s) 44
          ∙ ap (λ b. get_or b 0 0)
              (range_block s 2 (m.decimals ∷ []) 44 1 refl (omega (arith, authority_length)) refl))
        (get_or-range (join s) 45
          ∙ ap (λ b. get_or b 0 0)
              (range_block s 3 (flag m.initialized ∷ []) 45 1 refl (omega (arith, authority_length))
                refl))
        (range_block s 4 _ 46 36 refl (omega (arith, authority_length)) freeze_length)

  -- A mint whose keys have 32 bytes, zeros where they are not set, and whose supply is a 64-bit word,
  -- is decoded from the bytes that it is encoded to.
  pub decode_mint-encode_mint : (encode_mint m >>= decode_mint) ≡ ok m
  decode_mint-encode_mint = rw encode_mint-join decode_mint-join
