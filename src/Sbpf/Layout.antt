-- ===== src/Sbpf/Layout.antt =====
-- The file format as one function, and the loop of `decode` on what it writes.
use solanago.Base.{ℕ, zero, suc, ◌+◌, ◌*◌, ◌/◌, ◌%◌, ◌^◌, ◌≡◌, refl, ap, ◌∙◌, true, false, arith}
use solanago.Base.{List, [], ◌∷◌, ◌++◌, take, drop, All, Bool-cases, inl, inr}
use solanago.Base.{ok, ◌>>=◌, ◌>>◌, bit_or}
use solanago.Base.Bits.{bit_or_disjoint}
use solanago.Base.Bytes.{put_le, get_le, get_le-put_le}
use solanago.Base.Int.{ℤ, IsInt32, IsInt64, of_u32-to_u32, of_u64-to_u64, to_u32, to_u64, of_u64}
use solanago.Base.Int.{of_u32-IsInt32, to_u32-lt, to_u64-lt}
use solanago.Sbpf.Opcode.{same, ld_dw_imm}
use solanago.Sbpf.Instruction.{Instruction, IsTyped, slots}
use solanago.Sbpf.Validate.Program.{IsValid, validate_instruction-IsValid, slot_total, Checked}
use solanago.Sbpf.Encode.{to_i32, encode_slot, encode_valid, encode_instruction, encode_each}
use solanago.Sbpf.Decode.{slice, decode_slot, wide_immediate, check_continuation, decode_each}
use solanago.Sbpf.Slot.{decode_slot-encode_slot}

-- The file format: the instructions one after the other.
abbrev pub layout : List Instruction → List ℕ
layout [] = []
layout (ins ∷ rest) = encode_valid ins ++ layout rest

pub encode_each-layout :
    (starts : List ℕ) (n pc : ℕ) (p : List Instruction)
    → Checked starts n pc p
    → encode_each p ≡ ok (layout p)
unfolding encode_each encode_instruction
encode_each-layout starts n pc [] c = refl
encode_each-layout starts n pc (ins ∷ rest) (v, t, c) =
    rw (v, encode_each-layout starts n (pc + slots ins) rest c)

-- The loop of `decode`, a round at a time.
pub decode_each-narrow :
    (left : ℕ) (bytes : List ℕ)
    → same (decode_slot (take 8 bytes)).op ld_dw_imm ≡ false
    → decode_each (suc left) bytes
      ≡ (decode_each left (drop 8 bytes) >>= λ rest. ok (decode_slot (take 8 bytes) ∷ rest))
unfolding decode_each
decode_each-narrow zero bytes h = rw h
decode_each-narrow (suc left) bytes h = rw h

pub decode_each-wide :
    (left : ℕ) (bytes : List ℕ)
    → same (decode_slot (take 8 bytes)).op ld_dw_imm ≡ true
    → decode_each (suc (suc left)) bytes ≡ (
        check_continuation (slice bytes 8 8) >> decode_each left (drop 16 bytes) >>= λ rest. ok (
          record (decode_slot (take 8 bytes)) {
            immediate = wide_immediate (decode_slot (take 8 bytes)) (slice bytes 8 8);
          }
          ∷ rest))
unfolding decode_each
decode_each-wide left bytes h = rw h

pub encode_valid-narrow :
    (ins : Instruction)
    → same ins.op ld_dw_imm ≡ false
    → encode_valid ins ≡ encode_slot ins.op ins.dst ins.src ins.offset (to_i32 ins.immediate)
unfolding encode_valid
encode_valid-narrow ins h = rw h

pub encode_valid-wide :
    (ins : Instruction)
    → same ins.op ld_dw_imm ≡ true
    → encode_valid ins
      ≡ encode_slot ins.op ins.dst ins.src ins.offset (to_i32 ins.immediate)
        ++ (0 ∷ 0 ∷ 0 ∷ 0 ∷ put_le 4 (to_u64 ins.immediate / 2 ^ 32 % 2 ^ 32))
unfolding encode_valid
encode_valid-wide ins h = rw h

to_i32-IsInt32 : (x : ℤ) → IsInt32 (to_i32 x)
to_i32-IsInt32 x = of_u32-IsInt32 (to_u32 x) (to_u32-lt x)

pub low_half : (x : ℤ) → to_u32 (to_i32 x) ≡ to_u64 x % 2 ^ 32
low_half x = ground arith

-- The two halves of an int64, joined as `decode` joins them.
join_halves :
    (x : ℤ)
    → IsInt64 x
    → of_u64 (
        bit_or
          (get_le (put_le 4 (to_u64 x / 2 ^ 32 % 2 ^ 32)) * 2 ^ 32 % 2 ^ 64)
          (to_u32 (to_i32 x)))
      ≡ x
join_halves x h =
    rw (get_le-put_le 4 (to_u64 x / 2 ^ 32 % 2 ^ 32) (omega arith), high, low_half x, whole)
      (of_u64-to_u64 x h)
  where
    high : to_u64 x / 2 ^ 32 % 2 ^ 32 * 2 ^ 32 % 2 ^ 64 ≡ to_u64 x / 2 ^ 32 * 2 ^ 32
    high = omega (arith, to_u64-lt x)

    whole : bit_or (to_u64 x / 2 ^ 32 * 2 ^ 32) (to_u64 x % 2 ^ 32) ≡ to_u64 x
    whole = omega (arith, bit_or_disjoint 32 (to_u64 x / 2 ^ 32) (to_u64 x % 2 ^ 32) (omega arith))

-- A slot written by `encode_valid` is read back with the low half of the immediate.
read_slot :
    (ins : Instruction)
    → IsValid ins
    → IsTyped ins
    → decode_slot (encode_slot ins.op ins.dst ins.src ins.offset (to_i32 ins.immediate))
      ≡ record ins { immediate = to_i32 ins.immediate }
read_slot ins v t =
    decode_slot-encode_slot ins.op ins.dst ins.src ins.offset (to_i32 ins.immediate) v.named
      (omega arith) (omega arith) t.offset_int16 (to_i32-IsInt32 ins.immediate)

-- The loop of `decode` at the bytes of an instruction of one slot.
read_narrow :
    (ins : Instruction) (more : List ℕ)
    → IsValid ins
    → IsTyped ins
    → same ins.op ld_dw_imm ≡ false
    → (decode_slot (take 8 (encode_valid ins ++ more)) ≡ ins)
      × (drop 8 (encode_valid ins ++ more) ≡ more)
unfolding encode_slot
read_narrow ins more v t h = rw (encode_valid-narrow ins h) (
  read_slot ins v t ∙ ap (λ i. record ins { immediate = i }) (of_u32-to_u32 _ (v.encodable h)),
  refl,
)

-- The same for LD_DW_IMM.
read_wide :
    (ins : Instruction) (more : List ℕ)
    → IsValid ins
    → IsTyped ins
    → same ins.op ld_dw_imm ≡ true
    → let bytes = encode_valid ins ++ more in
      (decode_slot (take 8 bytes) ≡ record ins { immediate = to_i32 ins.immediate })
      × (check_continuation (slice bytes 8 8) ≡ ok tt)
      × (wide_immediate (record ins { immediate = to_i32 ins.immediate }) (slice bytes 8 8)
          ≡ ins.immediate)
      × (drop 16 bytes ≡ more)
unfolding encode_slot wide_immediate check_continuation
read_wide ins more v t h =
    rw (encode_valid-wide ins h)
      (read_slot ins v t, refl, join_halves ins.immediate t.immediate_int64, refl)

pub slots-narrow : (ins : Instruction) → same ins.op ld_dw_imm ≡ false → slots ins ≡ 1
unfolding slots
slots-narrow ins h = rw h

pub slots-wide : (ins : Instruction) → same ins.op ld_dw_imm ≡ true → slots ins ≡ 2
unfolding slots
slots-wide ins h = rw h

pub decode_each-layout :
    (starts : List ℕ) (n pc : ℕ) (p : List Instruction)
    → All IsTyped p
    → Checked starts n pc p
    → decode_each (slot_total p) (layout p) ≡ ok p
decode_each-layout starts n pc [] t c = unfold decode_each in refl
decode_each-layout starts n pc (ins ∷ rest) (t, ts) (v, _, c) =
    elim (Bool-cases (same ins.op ld_dw_imm)) [
      | inr h ↦
          let (first, others) = read_narrow ins (layout rest) valid t h in
          rw (one h, decode_each-narrow (slot_total rest) (layout (ins ∷ rest)) (rw first h))
            (rw (first, others, decode_each-layout starts n (pc + slots ins) rest ts c))
      | inl h ↦
          let (first, zeros, joined, others) = read_wide ins (layout rest) valid t h in
          rw (two h, decode_each-wide (slot_total rest) (layout (ins ∷ rest)) (rw first h))
            (rw (
              first,
              zeros,
              joined,
              others,
              decode_each-layout starts n (pc + slots ins) rest ts c,
            ))
    ]
  where
    valid : IsValid ins
    valid = validate_instruction-IsValid ins v

    one : same ins.op ld_dw_imm ≡ false → slot_total (ins ∷ rest) ≡ suc (slot_total rest)
    one h = omega (arith, slots-narrow ins h)

    two : same ins.op ld_dw_imm ≡ true → slot_total (ins ∷ rest) ≡ suc (suc (slot_total rest))
    two h = omega (arith, slots-wide ins h)
