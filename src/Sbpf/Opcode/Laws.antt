-- ===== src/Sbpf/Opcode/Laws.antt =====
-- The bytes of the operation codes tell them apart.
use solanago.Base.{ℕ, ◌≡◌, refl, true, List, [], ◌∷◌, arith}
use solanago.Sbpf.Opcode.{Opcode, unknown, ld_dw_imm, byte_of, find_opcode, opcode_of, opcodes}
use solanago.Sbpf.Opcode.Names.{is_valid, opcode_name}

-- The opcode of a byte has that byte.
byte_of-find_opcode : (b : ℕ) (l : List Opcode) → byte_of (find_opcode b l) ≡ b
unfolding find_opcode byte_of
byte_of-find_opcode b [] = refl
byte_of-find_opcode b (op ∷ rest) = ground (arith, byte_of-find_opcode b rest)

pub byte_of-opcode_of : (b : ℕ) → byte_of (opcode_of b) ≡ b
unfolding opcode_of
byte_of-opcode_of b = byte_of-find_opcode b opcodes

-- The byte of a valid operation is read back as that operation.
pub opcode_of-byte_of : (op : Opcode) → is_valid op ≡ true → opcode_of (byte_of op) ≡ op
unfolding opcode_of byte_of is_valid opcode_name
opcode_of-byte_of (unknown b) h = cc
opcode_of-byte_of ld_dw_imm h = refl
opcode_of-byte_of _ h = refl
