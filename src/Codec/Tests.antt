-- ===== src/Codec/Tests.antt =====
-- Runs of the codec, after serialization/codec_test.go, and uses of its laws.
use solanago.Base.{ℕ, ◌+◌, ◌^◌, ◌≡◌, refl, List, [], ◌∷◌, length, none, some, arith}
use solanago.Base.Int.{negsuc}
use solanago.Codec.Errors.{invalid_bool, unexpected_end, length_exceeded}
use solanago.Codec.Encoder.{Encoder, new_encoder, append_bytes}
use solanago.Codec.Encoder
use solanago.Codec.Decoder.{
  Decoder, new_decoder, take_bytes, first_or_zero, or_zero, bool_tag, bytes_of_size, copy_bytes,
  signed,
}
use solanago.Codec.Decoder
use solanago.Codec.RoundTrip.{reading, u64-u64, i64-i64, bytes_u32-bytes_u32}

codec_runs : Unit {0}
unfolding new_encoder append_bytes Encoder.u32 Encoder.fixed Encoder.bytes_u32 Encoder.bool
    Encoder.u8 new_decoder take_bytes first_or_zero or_zero bool_tag bytes_of_size copy_bytes signed
    Decoder.u8 Decoder.u32 Decoder.bool Decoder.bytes_u32 Decoder.fixed
codec_runs = tt

two_is_no_bool : (Decoder.bool (new_decoder (2 ∷ []))).0.failure ≡ some invalid_bool
unfolding codec_runs
two_is_no_bool = refl

short_word :
    (Decoder.u32 (new_decoder (1 ∷ 2 ∷ 3 ∷ []))).0
    ≡ record { input = 1 ∷ 2 ∷ 3 ∷ []; offset = 0; failure = some unexpected_end }
unfolding codec_runs
short_word = refl

over_limit : (Encoder.bytes_u32 new_encoder (1 ∷ 2 ∷ []) 1).failure ≡ some length_exceeded
unfolding codec_runs
over_limit = refl

-- An encoder that has written a byte.
abbrev begun : Encoder
begun = record { buf = 7 ∷ []; failure = none }

abbrev rest : List ℕ
rest = 9 ∷ 9 ∷ []

u64-u64_example : Decoder.u64 (reading (Encoder.u64 begun (2 ^ 63 + 1)) rest 1) ≡ (
  reading (Encoder.u64 begun (2 ^ 63 + 1)) rest (length (Encoder.u64 begun (2 ^ 63 + 1)).buf),
  2 ^ 63 + 1,
)
u64-u64_example = u64-u64 begun rest (2 ^ 63 + 1) refl (omega arith)

i64-i64_example : Decoder.i64 (reading (Encoder.i64 begun (negsuc 1)) rest 1) ≡ (
  reading (Encoder.i64 begun (negsuc 1)) rest (length (Encoder.i64 begun (negsuc 1)).buf),
  negsuc 1,
)
i64-i64_example = i64-i64 begun rest (negsuc 1) refl (omega arith)

bytes_u32-bytes_u32_example :
    Decoder.bytes_u32 (reading (Encoder.bytes_u32 begun (5 ∷ 6 ∷ []) 4) rest 1) 4 ≡ (
      reading
          (Encoder.bytes_u32 begun (5 ∷ 6 ∷ []) 4)
          rest
          (length (Encoder.bytes_u32 begun (5 ∷ 6 ∷ []) 4).buf),
      5 ∷ 6 ∷ [],
    )
bytes_u32-bytes_u32_example =
    bytes_u32-bytes_u32 begun rest (5 ∷ 6 ∷ []) 4 refl (omega arith) (omega arith)
