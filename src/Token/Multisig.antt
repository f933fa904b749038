-- ===== src/Token/Multisig.antt =====
-- sdk/token/state.go: the bytes of a multisignature account. Its array of signers is a list of 11 keys.
use solanago.Base.{
  ℕ, zero, suc, ◌+◌, ◌-◌, ◌*◌, ◌≡◌, refl, sym, ap, ◌∙◌, Bool, true, false, not, ◌==◌, if◌then◌else◌,
  arith,
}
use solanago.Base.{
  List, [], ◌∷◌, ◌++◌, length, take, drop, get_or, replicate, length-append, All, Result, ok,
  fail_if, ◌>>=◌, ◌>>◌,
}
use mathlib.Core.List.{append_assoc}
use solanago.Base.Splice.{splice, take-append, drop-append}
use solanago.Base.Blocks.{range}
use solanago.Sdk.Pubkey.{Pubkey}
use solanago.Token.State.{Error, invalid_state, decode_bool}

abbrev pub multisig_size : ℕ
multisig_size = 355

abbrev pub max_signers : ℕ
max_signers = 11

pub record Multisig : Type 0 where
  pub m : ℕ
  pub n : ℕ
  pub initialized : Bool
  pub signers : List Pubkey

-- The loops over the signers, from a number on.
unfoldable pub read_signers : List ℕ → ℕ → ℕ → List Pubkey
read_signers bytes i zero = []
read_signers bytes i (suc left) = range bytes (3 + i * 32) 32 ∷ read_signers bytes (i + 1) left

unfoldable pub write_signers : List ℕ → ℕ → List Pubkey → List ℕ
write_signers bytes i [] = bytes
write_signers bytes i (signer ∷ rest) =
    write_signers (splice bytes (3 + i * 32) signer) (i + 1) rest

unfoldable pub decode_multisig : List ℕ → Result Error Multisig
decode_multisig bytes = do
  fail_if (not (length bytes == multisig_size)) invalid_state
  initialized ← decode_bool (get_or bytes 2 0)
  ok (record {
    m = get_or bytes 0 0;
    n = get_or bytes 1 0;
    initialized = initialized;
    signers = read_signers bytes 0 max_signers;
  })

unfoldable pub encode_multisig : Multisig → Result Error (List ℕ)
encode_multisig state =
    let counted = splice (splice (replicate multisig_size 0) 0 (state.m ∷ [])) 1 (state.n ∷ []) in
    let flagged = if state.initialized then splice counted 2 (1 ∷ []) else counted in
    ok (write_signers flagged 0 state.signers)

abbrev IsSigner : Pubkey → Type 0
IsSigner key = length key ≡ 32

abbrev concat : List Pubkey → List ℕ
concat [] = []
concat (key ∷ keys) = key ++ concat keys

-- A write at the end of what was written, over zeros.
splice_next :
    (front new rest old : List ℕ)
    → length old ≡ length new
    → splice (front ++ (old ++ rest)) (length front) new ≡ (front ++ new) ++ rest
unfolding splice
splice_next front new rest old h =
    let none_left : length front + length new - length front - length old ≡ 0 = omega (arith, h) in
    let behind : drop (length front + length new) (front ++ (old ++ rest)) ≡ rest =
      drop-append front (old ++ rest) (length front + length new) (omega arith)
      ∙ drop-append old rest (length front + length new - length front) (omega (arith, h))
      ∙ ap (λ k. drop k rest) none_left in
    rw (take-append front (old ++ rest), behind) (sym (append_assoc front new rest))

-- The zeros that the keys are written over.
abbrev blank : ℕ → List ℕ
blank zero = []
blank (suc k) = replicate 32 0 ++ blank k

write_signers-concat :
    (front : List ℕ) (i : ℕ) (keys : List Pubkey)
    → length front ≡ 3 + i * 32
    → All IsSigner keys
    → write_signers (front ++ blank (length keys)) i keys ≡ front ++ concat keys
unfolding write_signers
write_signers-concat front i [] e h = refl
write_signers-concat front i (key ∷ keys) e (one, others) =
    ap
      (λ k.
        write_signers (splice (front ++ (replicate 32 0 ++ blank (length keys))) k key) (i + 1)
          keys)
      (sym e)
    ∙ ap (λ l. write_signers l (i + 1) keys)
        (splice_next front key (blank (length keys)) (replicate 32 0) (sym one))
    ∙ write_signers-concat (front ++ key) (i + 1) keys
        (omega (arith, e, one, length-append front key)) others
    ∙ append_assoc front key (concat keys)

read_signers-concat :
    (front : List ℕ) (i : ℕ) (keys : List Pubkey)
    → length front ≡ 3 + i * 32
    → All IsSigner keys
    → read_signers (front ++ concat keys) i (length keys) ≡ keys
unfolding read_signers range
read_signers-concat front i [] e h = refl
read_signers-concat front i (key ∷ keys) e (one, others) =
    let none_left : 3 + i * 32 - length front ≡ 0 = omega (arith, e) in
    let at : drop (3 + i * 32) (front ++ (key ++ concat keys)) ≡ key ++ concat keys =
      drop-append front (key ++ concat keys) (3 + i * 32) (omega (arith, e))
      ∙ ap (λ k. drop k (key ++ concat keys)) none_left in
    let first : take 32 (drop (3 + i * 32) (front ++ (key ++ concat keys))) ≡ key =
      ap (take 32) at
      ∙ ap (λ k. take k (key ++ concat keys)) (sym one)
      ∙ take-append key (concat keys) in
    let rest =
      ap (λ l. read_signers l (i + 1) (length keys)) (sym (append_assoc front key (concat keys)))
      ∙ read_signers-concat (front ++ key) (i + 1) keys
          (omega (arith, e, one, length-append front key)) others in
    rw (first, rest)

-- A multisignature account as Go holds it.
pub record IsMultisig (state : Multisig) : Type 0 where
  pub eleven : length state.signers ≡ max_signers
  pub keys : All IsSigner state.signers

length-concat : (keys : List Pubkey) → All IsSigner keys → length (concat keys) ≡ length keys * 32
length-concat [] h = refl
length-concat (key ∷ keys) (one, others) =
    omega (arith, one, length-concat keys others, length-append key (concat keys))

module _ (state : Multisig) (h : IsMultisig state) where
  abbrev front : Bool → List ℕ
  front b = state.m ∷ state.n ∷ (if b then 1 else 0) ∷ []

  flagged :
      (b : Bool)
      → (if b
          then splice
              (splice (splice (replicate 355 0) 0 (state.m ∷ [])) 1 (state.n ∷ []))
              2
              (1 ∷ [])
          else splice (splice (replicate 355 0) 0 (state.m ∷ [])) 1 (state.n ∷ []))
        ≡ front b ++ blank 11
  unfolding splice
  flagged true = refl
  flagged false = refl

  encode_multisig-front :
      encode_multisig state ≡ ok (front state.initialized ++ concat state.signers)
  unfolding encode_multisig
  encode_multisig-front = ap ok (
      ap (λ l. write_signers l 0 state.signers) (flagged state.initialized)
      ∙ ap (λ k. write_signers (front state.initialized ++ blank k) 0 state.signers) (sym h.eleven)
      ∙ write_signers-concat (front state.initialized) 0 state.signers refl h.keys)

  decoded_flag : (b : Bool) → decode_bool (if b then 1 else 0) ≡ ok b
  unfolding decode_bool
  decoded_flag true = refl
  decoded_flag false = refl

  decode_multisig-front :
      decode_multisig (front state.initialized ++ concat state.signers) ≡ ok state
  unfolding decode_multisig
  decode_multisig-front =
      let size : (suc (suc (suc (length (concat state.signers)))) == 355) ≡ true =
        ground (arith, length-concat state.signers h.keys, h.eleven) in
      let signers : read_signers (front state.initialized ++ concat state.signers) 0 11
          ≡ state.signers =
        ap (read_signers (front state.initialized ++ concat state.signers) 0) (sym h.eleven)
        ∙ read_signers-concat (front state.initialized) 0 state.signers refl h.keys in
      rw (size, decoded_flag state.initialized, signers)

  -- A multisignature account with 11 keys of 32 bytes is decoded from the bytes that it is encoded to.
  pub decode_multisig-encode_multisig : (encode_multisig state >>= decode_multisig) ≡ ok state
  decode_multisig-encode_multisig = rw encode_multisig-front decode_multisig-front
