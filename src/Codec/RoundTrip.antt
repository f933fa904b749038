-- ===== src/Codec/RoundTrip.antt =====
-- What an encoder appends, a decoder that stands there reads back.
use solanago.Base.{
  ℕ, ◌+◌, ◌-◌, ◌^◌, ◌<◌, ◌≤◌, ◌≡◌, refl, ap, sym, ◌∙◌, Bool, true, false, ◌||◌, List, [], ◌∷◌, ◌++◌,
  arith,
}
use solanago.Base.{length, take, drop, none, some, length-append, ltb}
use solanago.Base.Int.{ℤ, pos, ltb_ℤ, IsInt64, to_u64, of_u64-to_u64, to_u64-lt}
use solanago.Base.Bytes.{put_le, length-put_le, get_le-put_le}
use mathlib.Core.List.{append_assoc}
use solanago.Codec.Encoder.{Encoder, append_bytes}
use solanago.Codec.Encoder
use solanago.Codec.Decoder.{
  Decoder, take_bytes, or_zero, first_or_zero, signed, bool_tag, copy_bytes, bytes_of_size,
}
use solanago.Codec.Decoder

-- A decoder of the bytes that an encoder wrote and more, which stands at `offset`.
abbrev pub reading : Encoder → List ℕ → ℕ → Decoder
reading e more offset = record { input = e.buf ++ more; offset = offset; failure = none }

written_between : (a b more : List ℕ) → take (length b) (drop (length a) ((a ++ b) ++ more)) ≡ b
written_between (x ∷ a) b more = written_between a b more
written_between [] b more = first b
  where
    first : (b : List ℕ) → take (length b) (b ++ more) ≡ b
    first [] = refl
    first (x ∷ b) = ap (λ l. x ∷ l) (first b)

pub take_bytes-append_bytes :
    (e : Encoder) (bytes more : List ℕ) (n : ℕ)
    → e.failure ≡ none
    → length bytes ≡ n
    → take_bytes (reading (append_bytes e bytes) more (length e.buf)) (pos n)
      ≡ (reading (append_bytes e bytes) more (length (append_bytes e bytes).buf), some bytes)
unfolding take_bytes append_bytes
take_bytes-append_bytes e bytes more n clean l =
    let total = length-append e.buf bytes in
    let whole = length-append (e.buf ++ bytes) more in
    let enough : (ltb_ℤ (pos n) (pos 0) || ltb (length ((e.buf ++ bytes) ++ more) - length e.buf) n)
        ≡ false =
      ground (arith, total, whole) in
    let end : length e.buf + n ≡ length (e.buf ++ bytes) = omega arith in
    let back : take n (drop (length e.buf) ((e.buf ++ bytes) ++ more)) ≡ bytes =
      rw (← l) (written_between e.buf bytes more) in
    rw (clean, enough, end, back) refl

-- Words of `n` bytes.
word :
    (e : Encoder) (more : List ℕ) (n value : ℕ)
    → e.failure ≡ none
    → value < 256 ^ n
    → or_zero (take_bytes (reading (append_bytes e (put_le n value)) more (length e.buf)) (pos n))
      ≡ (
        reading
            (append_bytes e (put_le n value))
            more
            (length (append_bytes e (put_le n value)).buf),
        value,
      )
unfolding or_zero
word e more n value clean small =
    let written = append_bytes e (put_le n value) in
    ap or_zero (take_bytes-append_bytes e (put_le n value) more n clean (length-put_le n value))
    ∙ ap (λ v. (reading written more (length written.buf), v)) (get_le-put_le n value small)

-- A 64-bit word that an encoder without an error wrote is read back by a decoder that stands before
-- it, whatever bytes follow; the decoder then stands behind it, without an error.
pub u64-u64 :
    (e : Encoder) (more : List ℕ) (value : ℕ)
    → e.failure ≡ none
    → value < 2 ^ 64
    → Decoder.u64 (reading (Encoder.u64 e value) more (length e.buf))
      ≡ (reading (Encoder.u64 e value) more (length (Encoder.u64 e value).buf), value)
unfolding Decoder.u64 Encoder.u64
u64-u64 e more value clean small = word e more 8 value clean (omega arith)

pub u32-u32 :
    (e : Encoder) (more : List ℕ) (value : ℕ)
    → e.failure ≡ none
    → value < 2 ^ 32
    → Decoder.u32 (reading (Encoder.u32 e value) more (length e.buf))
      ≡ (reading (Encoder.u32 e value) more (length (Encoder.u32 e value).buf), value)
unfolding Decoder.u32 Encoder.u32
u32-u32 e more value clean small = word e more 4 value clean (omega arith)

-- A signed 64-bit integer that an encoder without an error wrote is read back by a decoder that
-- stands before it, whatever bytes follow; the decoder then stands behind it, without an error.
pub i64-i64 :
    (e : Encoder) (more : List ℕ) (value : ℤ)
    → e.failure ≡ none
    → IsInt64 value
    → Decoder.i64 (reading (Encoder.i64 e value) more (length e.buf))
      ≡ (reading (Encoder.i64 e value) more (length (Encoder.i64 e value).buf), value)
unfolding Decoder.i64 Encoder.i64 Decoder.signed
i64-i64 e more value clean small =
    rw (u64-u64 e more (to_u64 value) clean (to_u64-lt value), signed, of_u64-to_u64 value small)
      refl

-- A Boolean that an encoder without an error wrote is read back by a decoder that stands before it,
-- whatever bytes follow; the decoder then stands behind it, without an error.
bool-bool :
    (e : Encoder) (more : List ℕ) (value : Bool)
    → e.failure ≡ none
    → Decoder.bool (reading (Encoder.bool e value) more (length e.buf))
      ≡ (reading (Encoder.bool e value) more (length (Encoder.bool e value).buf), value)
unfolding Decoder.bool Encoder.bool Decoder.u8 Encoder.u8 Decoder.bool_tag first_or_zero
bool-bool e more true clean =
    ap (λ r. bool_tag (first_or_zero r)) (take_bytes-append_bytes e (1 ∷ []) more 1 clean refl)
bool-bool e more false clean =
    ap (λ r. bool_tag (first_or_zero r)) (take_bytes-append_bytes e (0 ∷ []) more 1 clean refl)

append_bytes-clean :
    (e : Encoder) (bytes : List ℕ)
    → e.failure ≡ none
    → ((append_bytes e bytes).failure ≡ none) × ((append_bytes e bytes).buf ≡ e.buf ++ bytes)
unfolding append_bytes
append_bytes-clean e bytes clean = rw (clean, append_bytes) (clean, refl)

bytes_u32-fixed :
    (e : Encoder) (value : List ℕ) (max : ℕ)
    → e.failure ≡ none
    → length value ≤ max
    → max < 2 ^ 32
    → Encoder.bytes_u32 e value max ≡ Encoder.fixed (Encoder.u32 e (length value)) value
unfolding Encoder.bytes_u32
bytes_u32-fixed e value max clean fits small =
    let within : (ltb max (length value) || ltb (2 ^ 32 - 1) (length value)) ≡ false =
      ground arith in
    rw (clean, within) refl

-- The bytes of a later field are more bytes to a reader of an earlier one.
reading-fixed :
    (e : Encoder) (value more : List ℕ) (offset : ℕ)
    → e.failure ≡ none
    → reading (Encoder.fixed e value) more offset ≡ reading e (value ++ more) offset
unfolding Encoder.fixed
reading-fixed e value more offset clean =
    ap (λ input. record { input = input; offset = offset; failure = none })
      (ap (λ buf. buf ++ more) (append_bytes-clean e value clean).1 ∙ append_assoc e.buf value more)

after_length :
    (e : Encoder) (more value : List ℕ) (max : ℕ)
    → e.failure ≡ none
    → length value ≤ max
    → Decoder.bytes_of_size (reading e (value ++ more) (length e.buf), length value) max
      ≡ (reading (Encoder.fixed e value) more (length (Encoder.fixed e value).buf), value)
unfolding Decoder.bytes_of_size Decoder.fixed Encoder.fixed copy_bytes
after_length e more value max clean fits =
    let within : ltb max (length value) ≡ false = ground arith in
    rw within (
      ap (λ d. copy_bytes (take_bytes d (pos (length value))))
        (sym (reading-fixed e value more (length e.buf) clean))
      ∙ ap copy_bytes (take_bytes-append_bytes e value more (length value) clean refl))

-- Bytes no longer than a 32-bit limit, which an encoder without an error wrote with their length in
-- front, are read back under the same limit by a decoder that stands before them, whatever bytes
-- follow; the decoder then stands behind them, without an error.
pub bytes_u32-bytes_u32 :
    (e : Encoder) (more value : List ℕ) (max : ℕ)
    → e.failure ≡ none
    → length value ≤ max
    → max < 2 ^ 32
    → Decoder.bytes_u32 (reading (Encoder.bytes_u32 e value max) more (length e.buf)) max ≡ (
      reading (Encoder.bytes_u32 e value max) more (length (Encoder.bytes_u32 e value max).buf),
      value,
    )
unfolding Decoder.bytes_u32
bytes_u32-bytes_u32 e more value max clean fits small =
    let first = Encoder.u32 e (length value) in
    let first_clean : first.failure ≡ none =
      unfold Encoder.u32 in (append_bytes-clean e _ clean).0 in
    rw (bytes_u32-fixed e value max clean fits small) (
      ap (λ d. bytes_of_size (Decoder.u32 d) max)
        (reading-fixed first value more (length e.buf) first_clean)
      ∙ ap (λ r. bytes_of_size r max) (u32-u32 e (value ++ more) (length value) clean (omega arith))
      ∙ after_length first more value max first_clean fits)
