-- ===== src/Codec/Encoder.antt =====
-- serialization/codec.go: the type `Encoder`, whose methods pass on the first error. A nil receiver
-- is not modelled: the methods do nothing on it.
use solanago.Base.{ℕ, ◌-◌, ◌^◌, ◌||◌, Bool, List, [], ◌∷◌, ◌++◌, length, Option, none, some}
use solanago.Base.{Result, ok, err, ltb, if◌then◌else◌}
use solanago.Base.Int.{ℤ, to_u32, to_u64}
use solanago.Base.Bytes.{put_le}
use solanago.Codec.Errors.{Error, invalid_argument, length_exceeded}

-- `failure` is the field `err`.
pub record Encoder : Type 0 where
  pub buf : List ℕ
  pub failure : Option Error

unfoldable pub new_encoder : Encoder
new_encoder = record { buf = []; failure = none }

-- `e.buf = append(e.buf, bytes...)` under the guard on `e.err`.
unfoldable pub append_bytes : Encoder → List ℕ → Encoder
append_bytes e bytes = elim e.failure [ some _ ↦ e | none ↦ record e { buf = e.buf ++ bytes } ]

unfoldable pub u8 : Encoder → ℕ → Encoder
u8 e value = append_bytes e (value ∷ [])

unfoldable pub bool : Encoder → Bool → Encoder
bool e value = if value then u8 e 1 else u8 e 0

unfoldable pub u16 : Encoder → ℕ → Encoder
u16 e value = append_bytes e (put_le 2 value)

unfoldable pub u32 : Encoder → ℕ → Encoder
u32 e value = append_bytes e (put_le 4 value)

unfoldable pub i32 : Encoder → ℤ → Encoder
i32 e value = u32 e (to_u32 value)

unfoldable pub u64 : Encoder → ℕ → Encoder
u64 e value = append_bytes e (put_le 8 value)

unfoldable pub i64 : Encoder → ℤ → Encoder
i64 e value = u64 e (to_u64 value)

unfoldable pub fixed : Encoder → List ℕ → Encoder
fixed e value = append_bytes e value

unfoldable pub bytes_u32 : Encoder → List ℕ → ℕ → Encoder
bytes_u32 e value max = elim e.failure [
  | some _ ↦ e
  | none ↦
      if ltb max (length value) || ltb (2 ^ 32 - 1) (length value)
      then record e { failure = some length_exceeded }
      else fixed (u32 e (length value)) value
]

-- A function that encodes a payload; it may return an error of its own.
abbrev pub EncodeFunction : Type 0
EncodeFunction = Encoder → Encoder × Option Error

-- `if err := encode(e); err != nil { e.err = err }`.
unfoldable pub keep_error : Encoder × Option Error → Encoder
keep_error (e, none) = e
keep_error (e, some x) = record e { failure = some x }

-- No function is the nil one.
unfoldable pub option : Encoder → Bool → Option EncodeFunction → Encoder
option e present encode = elim e.failure [
  | some _ ↦ e
  | none ↦
      if present
      then elim encode [
        | none ↦ record (bool e present) { failure = some invalid_argument }
        | some f ↦ keep_error (f (bool e present))
      ]
      else bool e present
]

unfoldable pub finish_marshal : Encoder × Option Error → Result Error (List ℕ)
finish_marshal (e, some x) = err x
finish_marshal (e, none) = elim e.failure [ some x ↦ err x | none ↦ ok e.buf ]

-- `Marshal`, of the method `EncodeTo` of its value; no method is the nil value.
unfoldable pub marshal : Option EncodeFunction → Result Error (List ℕ)
marshal none = err invalid_argument
marshal (some encode_to) = finish_marshal (encode_to new_encoder)

-- `Err` and `Bytes`.
unfoldable pub encoder_err : Encoder → Option Error
encoder_err e = e.failure

unfoldable pub encoder_bytes : Encoder → List ℕ
encoder_bytes e = e.buf
