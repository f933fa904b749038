-- ===== src/Codec/Decoder.antt =====
-- serialization/codec.go: the type `Decoder`. A method returns the decoder it leaves and its result,
-- and after an error it reads nothing more. A nil receiver is not modelled.
use solanago.Base.{
  ℕ, ◌+◌, ◌-◌, ◌||◌, not, ◌==◌, Bool, true, false, List, [], length, take, drop, get_or, Option,
  none, some,
}
use solanago.Base.{Result, ok, err, ltb, if◌then◌else◌}
use solanago.Base.Int.{ℤ, pos, pos_part, ltb_ℤ, of_u32, of_u64}
use solanago.Base.Bytes.{get_le}
use solanago.Codec.Errors.{
  Error, invalid_argument, length_exceeded, unexpected_end, invalid_bool, invalid_option,
  trailing_data,
}

-- `input` is the field `data`, and `failure` the field `err`.
pub record Decoder : Type 0 where
  pub input : List ℕ
  pub offset : ℕ
  pub failure : Option Error

unfoldable pub new_decoder : List ℕ → Decoder
new_decoder input = record { input = input; offset = 0; failure = none }

unfoldable pub remaining : Decoder → ℕ
remaining d = length d.input - d.offset

-- `take`; no bytes are the nil slice.
unfoldable pub take_bytes : Decoder → ℤ → Decoder × Option (List ℕ)
take_bytes d size = elim d.failure [
  | some _ ↦ (d, none)
  | none ↦
      if ltb_ℤ size (pos 0) || ltb (length d.input - d.offset) (pos_part size)
      then (record d { failure = some unexpected_end }, none)
      else (
        record d { offset = d.offset + pos_part size },
        some (take (pos_part size) (drop d.offset d.input)),
      )
]

-- The value that the bytes hold, and 0 where there are none.
unfoldable pub or_zero : Decoder × Option (List ℕ) → Decoder × ℕ
or_zero (d, none) = (d, 0)
or_zero (d, some bytes) = (d, get_le bytes)

unfoldable pub first_or_zero : Decoder × Option (List ℕ) → Decoder × ℕ
first_or_zero (d, none) = (d, 0)
first_or_zero (d, some bytes) = (d, get_or bytes 0 0)

unfoldable pub u8 : Decoder → Decoder × ℕ
u8 d = first_or_zero (take_bytes d (pos 1))

-- The `switch` on the tag that was read.
unfoldable pub bool_tag : Decoder × ℕ → Decoder × Bool
bool_tag (d, value) = elim d.failure [
  | some _ ↦ (d, false)
  | none ↦
      if value == 0
      then (d, false)
      else if value == 1
      then (d, true)
      else (record d { failure = some invalid_bool }, false)
]

unfoldable pub bool : Decoder → Decoder × Bool
bool d = bool_tag (u8 d)

unfoldable pub u16 : Decoder → Decoder × ℕ
u16 d = or_zero (take_bytes d (pos 2))

unfoldable pub u32 : Decoder → Decoder × ℕ
u32 d = or_zero (take_bytes d (pos 4))

unfoldable pub signed : (ℕ → ℤ) → Decoder × ℕ → Decoder × ℤ
signed convert (d, value) = (d, convert value)

unfoldable pub i32 : Decoder → Decoder × ℤ
i32 d = signed of_u32 (u32 d)

unfoldable pub u64 : Decoder → Decoder × ℕ
u64 d = or_zero (take_bytes d (pos 8))

unfoldable pub i64 : Decoder → Decoder × ℤ
i64 d = signed of_u64 (u64 d)

-- `append([]byte(nil), value...)`.
unfoldable pub copy_bytes : Decoder × Option (List ℕ) → Decoder × List ℕ
copy_bytes (d, none) = (d, [])
copy_bytes (d, some bytes) = (d, bytes)

unfoldable pub fixed : Decoder → ℤ → Decoder × List ℕ
fixed d size = copy_bytes (take_bytes d size)

-- After the length was read.
unfoldable pub bytes_of_size : Decoder × ℕ → ℕ → Decoder × List ℕ
bytes_of_size (d, size) max = elim d.failure [
  | some _ ↦ (d, [])
  | none ↦
      if ltb max size then (record d { failure = some length_exceeded }, []) else fixed d (pos size)
]

unfoldable pub bytes_u32 : Decoder → ℕ → Decoder × List ℕ
bytes_u32 d max = bytes_of_size (u32 d) max

-- A function that decodes a payload; it may return an error of its own.
abbrev pub DecodeFunction : Type 0
DecodeFunction = Decoder → Decoder × Option Error

-- `if err := decode(d); err != nil { d.err = err }; return d.err == nil`.
unfoldable pub keep_error : Decoder × Option Error → Decoder × Bool
keep_error (d, some x) = (record d { failure = some x }, false)
keep_error (d, none) = elim d.failure [ some _ ↦ (d, false) | none ↦ (d, true) ]

unfoldable pub option_tag : Decoder × ℕ → Option DecodeFunction → Decoder × Bool
option_tag (d, tag) decode = elim d.failure [
  | some _ ↦ (d, false)
  | none ↦
      if tag == 0
      then (d, false)
      else if tag == 1
      then elim decode [
        | none ↦ (record d { failure = some invalid_argument }, false)
        | some f ↦ keep_error (f d)
      ]
      else (record d { failure = some invalid_option }, false)
]

-- No function is the nil one.
unfoldable pub option : Decoder → Option DecodeFunction → Decoder × Bool
option d decode = option_tag (u8 d) decode

unfoldable pub finish : Decoder → Result Error (Unit {0})
finish d = elim d.failure [
  | some x ↦ err x
  | none ↦ if not (remaining d == 0) then err trailing_data else ok tt
]

unfoldable pub finish_unmarshal : Decoder × Option Error → Result Error (Unit {0})
finish_unmarshal (d, some x) = err x
finish_unmarshal (d, none) = finish d

-- `Unmarshal`, with the method `DecodeFrom` of its target; no method is the nil target.
unfoldable pub unmarshal : List ℕ → Option DecodeFunction → Result Error (Unit {0})
unmarshal input none = err invalid_argument
unmarshal input (some decode_from) = finish_unmarshal (decode_from (new_decoder input))

-- `Err` and `Offset`.
unfoldable pub decoder_err : Decoder → Option Error
decoder_err d = d.failure

unfoldable pub decoder_offset : Decoder → ℕ
decoder_offset d = d.offset
