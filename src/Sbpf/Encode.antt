-- ===== src/Sbpf/Encode.antt =====
-- sbpf/encoder.go: instructions to little-endian slots of eight bytes.
use solanago.Base.{ℕ, ◌*◌, ◌/◌, ◌%◌, ◌^◌, bit_or, List, [], ◌∷◌, ◌++◌, Result, ok, ◌>>=◌, ◌>>◌}
use solanago.Base.{if◌then◌else◌}
use solanago.Base.Int.{ℤ, to_u16, to_u32, of_u32, to_u64}
use solanago.Base.Bytes.{put_le}
use solanago.Sbpf.Opcode.{Opcode, byte_of, same, ld_dw_imm}
use solanago.Sbpf.Instruction.{Instruction, Error}
use solanago.Sbpf.Validate.{validate_instruction, validate_program}

-- `int32(x)` of an int64.
abbrev pub to_i32 : ℤ → ℤ
to_i32 x = of_u32 (to_u32 x)

-- The eight bytes that `encodeSlot` writes.
unfoldable pub encode_slot : Opcode → ℕ → ℕ → ℤ → ℤ → List ℕ
encode_slot op destination source offset immediate =
    byte_of op
    ∷ bit_or (source * 2 ^ 4 % 256) destination
    ∷ (put_le 2 (to_u16 offset) ++ put_le 4 (to_u32 immediate))

-- `EncodeInstruction` behind its check. A fresh slice is zero where nothing is written.
unfoldable pub encode_valid : Instruction → List ℕ
encode_valid ins =
    let first = encode_slot ins.op ins.dst ins.src ins.offset (to_i32 ins.immediate) in
    if same ins.op ld_dw_imm
    then first ++ (0 ∷ 0 ∷ 0 ∷ 0 ∷ put_le 4 (to_u64 ins.immediate / 2 ^ 32 % 2 ^ 32))
    else first

unfoldable pub encode_instruction : Instruction → Result Error (List ℕ)
encode_instruction ins = do validate_instruction ins; ok (encode_valid ins)

-- The loop of `Encode`.
unfoldable pub encode_each : List Instruction → Result Error (List ℕ)
encode_each [] = ok []
encode_each (ins ∷ rest) = do
  bytes ← encode_instruction ins
  more ← encode_each rest
  ok (bytes ++ more)

unfoldable pub encode : List Instruction → Result Error (List ℕ)
encode program = do validate_program program; encode_each program
