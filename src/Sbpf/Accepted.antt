-- ===== src/Sbpf/Accepted.antt =====
-- What the loop of `decode` accepts, it writes back: the bytes are the layout of the program.
use solanago.Base.{
  ℕ, zero, suc, ◌+◌, ◌*◌, ◌/◌, ◌%◌, ◌^◌, ◌<◌, ◌≤◌, ◌≡◌, ap, sym, ◌∙◌, true, false, arith,
}
use mathlib.Core.Path.{ap₂}
use mathlib.Core.Logic.{◌≢◌}
use mathlib.Core.List.{append_assoc}
use solanago.Base.{List, [], ◌∷◌, ◌++◌, length, take, drop, All, Bool-cases, inl, inr}
use solanago.Base.{ok, ◌>>◌, bit_or, >>=-eq-ok}
use solanago.Base.{take-append-drop, drop-drop, All-take, All-drop, length-take, length-drop}
use solanago.Base.{ok-injective}
use solanago.Base.Bits.{bit_or_disjoint}
use solanago.Base.Bytes.{IsByte, put_le, get_le, put_le-get_le}
use solanago.Base.Int.{ℤ, IsInt32, of_u32-to_u32, to_u32, to_u64, of_u64, of_u32}
use solanago.Base.Int.{to_u32-lt, to_u64-of_u64}
use solanago.Sbpf.Opcode.{same, ld_dw_imm}
use solanago.Sbpf.Instruction.{Instruction}
use solanago.Sbpf.Encode.{to_i32, encode_slot, encode_valid}
use solanago.Sbpf.Decode.{slice, decode_slot, wide_immediate, check_continuation, decode_each}
use solanago.Sbpf.Slot.{encode_slot-decode_slot, decode_slot_fits}
use solanago.Sbpf.Layout.{layout, encode_valid-narrow}
use solanago.Sbpf.Layout.{encode_valid-wide, decode_each-narrow, decode_each-wide}

-- The slot read as an instruction of its own writes the same bytes.
rewrite_slot :
    (slot : List ℕ)
    → length slot ≡ 8
    → All IsByte slot
    → let ins = decode_slot slot in
      encode_slot ins.op ins.dst ins.src ins.offset (to_i32 ins.immediate) ≡ slot
rewrite_slot slot l b =
    ap
      (λ (i : ℤ).
        encode_slot (decode_slot slot).op (decode_slot slot).dst (decode_slot slot).src
          (decode_slot slot).offset i)
      (of_u32-to_u32 _ (decode_slot_fits slot l b).1)
    ∙ encode_slot-decode_slot slot l b

low_u32 : (x : ℤ) → to_u32 x ≡ to_u64 x % 2 ^ 32
low_u32 x = ground arith

-- The halves of a joined immediate.
split_wide :
    (low : ℤ) (high : ℕ)
    → IsInt32 low
    → high < 2 ^ 32
    → let x = of_u64 (bit_or (high * 2 ^ 32 % 2 ^ 64) (to_u32 low)) in
      (to_i32 x ≡ low) × (to_u64 x / 2 ^ 32 % 2 ^ 32 ≡ high)
split_wide low high i h = rw joined (
  ap of_u32 (low_u32 (of_u64 w) ∙ ap (λ (t : ℕ). t % 2 ^ 32) back ∙ lows) ∙ of_u32-to_u32 low i,
  omega (arith, back, to_u32-lt low),
)
  where
    w : ℕ
    w = high * 2 ^ 32 + to_u32 low

    shifted : high * 2 ^ 32 % 2 ^ 64 ≡ high * 2 ^ 32
    shifted = omega arith

    joined : bit_or (high * 2 ^ 32 % 2 ^ 64) (to_u32 low) ≡ w
    joined = rw shifted (bit_or_disjoint 32 high (to_u32 low) (to_u32-lt low))

    back : to_u64 (of_u64 w) ≡ w
    back = to_u64-of_u64 w (omega (arith, to_u32-lt low))

    lows : w % 2 ^ 32 ≡ to_u32 low
    lows = omega (arith, to_u32-lt low)

-- What the second slot of LD_DW_IMM holds.
rewrite_wide :
    (ins : Instruction) (cont : List ℕ)
    → IsInt32 ins.immediate
    → length cont ≡ 8
    → All IsByte cont
    → check_continuation cont ≡ ok tt
    → (to_i32 (wide_immediate ins cont) ≡ ins.immediate)
      × (0 ∷ 0 ∷ 0 ∷ 0 ∷ put_le 4 (to_u64 (wide_immediate ins cont) / 2 ^ 32 % 2 ^ 32) ≡ cont)
unfolding wide_immediate check_continuation
rewrite_wide ins (a ∷ b ∷ c ∷ d ∷ e ∷ f ∷ g ∷ h ∷ []) i l bytes z =
    (halves.0, ground (arith, halves.1, put_le-get_le high_bytes))
  where
    high_bytes : List ℕ
    high_bytes = e ∷ f ∷ g ∷ h ∷ []

    halves :
        (to_i32 (wide_immediate ins (a ∷ b ∷ c ∷ d ∷ high_bytes)) ≡ ins.immediate)
        × (to_u64 (wide_immediate ins (a ∷ b ∷ c ∷ d ∷ high_bytes)) / 2 ^ 32 % 2 ^ 32
            ≡ get_le high_bytes)
    halves = split_wide ins.immediate (get_le high_bytes) i (omega arith)
rewrite_wide ins _ i l bytes z = absurd (omega arith)

encode_valid-read :
    (slot : List ℕ)
    → length slot ≡ 8
    → All IsByte slot
    → same (decode_slot slot).op ld_dw_imm ≡ false
    → encode_valid (decode_slot slot) ≡ slot
encode_valid-read slot l b h = encode_valid-narrow (decode_slot slot) h ∙ rewrite_slot slot l b

encode_valid-read_wide :
    (slot cont : List ℕ)
    → length slot ≡ 8
    → All IsByte slot
    → length cont ≡ 8
    → All IsByte cont
    → same (decode_slot slot).op ld_dw_imm ≡ true
    → check_continuation cont ≡ ok tt
    → encode_valid
        (record (decode_slot slot) { immediate = wide_immediate (decode_slot slot) cont })
      ≡ slot ++ cont
encode_valid-read_wide slot cont l b l' b' h z =
    let (same_low, same_cont) =
      rewrite_wide (decode_slot slot) cont (decode_slot_fits slot l b).1 l' b' z in
    encode_valid-wide
      (record (decode_slot slot) { immediate = wide_immediate (decode_slot slot) cont }) h
    ∙ ap₂ ◌++◌
        (ap
            (λ (i : ℤ).
              encode_slot (decode_slot slot).op (decode_slot slot).dst (decode_slot slot).src
                (decode_slot slot).offset i)
            same_low
          ∙ encode_slot-decode_slot slot l b)
        same_cont

take_eight : (xs : List ℕ) → 8 ≤ length xs → length (take 8 xs) ≡ 8
take_eight xs h = omega (arith, length-take 8 xs)

sixteen : (xs : List ℕ) → (take 8 xs ++ slice xs 8 8) ++ drop 16 xs ≡ xs
sixteen xs =
    append_assoc (take 8 xs) (slice xs 8 8) (drop 16 xs)
    ∙ ap (λ (l : List ℕ). take 8 xs ++ (slice xs 8 8 ++ l)) (sym (drop-drop 8 8 xs))
    ∙ ap (λ (l : List ℕ). take 8 xs ++ l) (take-append-drop 8 (drop 8 xs))
    ∙ take-append-drop 8 xs

-- A round of the loop at an instruction of one slot, where the later rounds keep the bytes.
narrow_round :
    (left : ℕ) (bytes : List ℕ) (p : List Instruction)
    → 8 ≤ length bytes
    → All IsByte bytes
    → same (decode_slot (take 8 bytes)).op ld_dw_imm ≡ false
    → decode_each (suc left) bytes ≡ ok p
    → ((rest : List Instruction)
        → decode_each left (drop 8 bytes) ≡ ok rest
        → layout rest ≡ drop 8 bytes)
    → layout p ≡ bytes
narrow_round left bytes p l b h e later =
    let (rest, e1, e2) =
      >>=-eq-ok (decode_each left (drop 8 bytes)) (λ rest. ok (decode_slot (take 8 bytes) ∷ rest))
        (sym (decode_each-narrow left bytes h) ∙ e) in
    ap layout (sym (ok-injective e2))
    ∙ ap₂ ◌++◌ (encode_valid-read (take 8 bytes) (take_eight bytes l) (All-take IsByte 8 bytes b) h)
        (later rest e1)
    ∙ take-append-drop 8 bytes

-- A round of the loop at LD_DW_IMM.
wide_round :
    (left : ℕ) (bytes : List ℕ) (p : List Instruction)
    → 16 ≤ length bytes
    → All IsByte bytes
    → same (decode_slot (take 8 bytes)).op ld_dw_imm ≡ true
    → decode_each (suc (suc left)) bytes ≡ ok p
    → ((rest : List Instruction)
        → decode_each left (drop 16 bytes) ≡ ok rest
        → layout rest ≡ drop 16 bytes)
    → layout p ≡ bytes
wide_round left bytes p l b h e later =
    let cont = slice bytes 8 8 in
    let ins = record (decode_slot (take 8 bytes)) {
      immediate = wide_immediate (decode_slot (take 8 bytes)) cont;
    } in
    let (rest, e1, e2) =
      >>=-eq-ok (check_continuation cont >> decode_each left (drop 16 bytes))
        (λ rest. ok (ins ∷ rest)) (sym (decode_each-wide left bytes h) ∙ e) in
    let (u, z, e3) =
      >>=-eq-ok (check_continuation cont) (λ _. decode_each left (drop 16 bytes)) e1 in
    ap layout (sym (ok-injective e2))
    ∙ ap₂ ◌++◌
        (encode_valid-read_wide (take 8 bytes) cont (take_eight bytes (omega arith))
          (All-take IsByte 8 bytes b)
          (take_eight (drop 8 bytes) (omega (arith, length-drop 8 bytes)))
          (All-take IsByte 8 (drop 8 bytes) (All-drop IsByte 8 bytes b)) h z)
        (later rest e3)
    ∙ sixteen bytes

last_wide :
    (bytes : List ℕ) (p : List Instruction)
    → same (decode_slot (take 8 bytes)).op ld_dw_imm ≡ true
    → decode_each 1 bytes ≢ ok p
unfolding decode_each
last_wide bytes p h e = cc (rw h at e)

decode_each-zero : (bytes : List ℕ) (p : List Instruction) → decode_each 0 bytes ≡ ok p → [] ≡ p
unfolding decode_each
decode_each-zero bytes p e = ok-injective e

-- Whatever the loop of `decode` accepts is the layout of what it returns.
pub layout-decode_each :
    (left : ℕ) (bytes : List ℕ) (p : List Instruction)
    → length bytes ≡ 8 * left
    → All IsByte bytes
    → decode_each left bytes ≡ ok p
    → layout p ≡ bytes
layout-decode_each zero [] p l b e = ap layout (sym (decode_each-zero [] p e))
layout-decode_each zero (x ∷ bytes) p l b e = absurd (omega arith)
layout-decode_each (suc zero) bytes p l b e =
    elim (Bool-cases (same (decode_slot (take 8 bytes)).op ld_dw_imm)) [
      | inl h ↦ absurd (last_wide bytes p h e)
      | inr h ↦ narrow_round zero bytes p (omega arith) b h e (λ rest.
          layout-decode_each zero (drop 8 bytes) rest (omega (arith, length-drop 8 bytes))
            (All-drop IsByte 8 bytes b))
    ]
layout-decode_each (suc (suc left)) bytes p l b e =
    elim (Bool-cases (same (decode_slot (take 8 bytes)).op ld_dw_imm)) [
      | inl h ↦ wide_round left bytes p (omega arith) b h e (λ rest.
          layout-decode_each left (drop 16 bytes) rest (omega (arith, length-drop 16 bytes))
            (All-drop IsByte 16 bytes b))
      | inr h ↦ narrow_round (suc left) bytes p (omega arith) b h e (λ rest.
          layout-decode_each (suc left) (drop 8 bytes) rest (omega (arith, length-drop 8 bytes))
            (All-drop IsByte 8 bytes b))
    ]
