-- ===== src/Vm/Effect.antt =====
-- The cases of the `switch` in `execute` of vm/vm.go, apart from memory accesses and calls: what an
-- operation asks for, given the values of its registers and its immediate.
mod Words
mod Alu32
mod Alu64
mod Jump32
mod Jump64
pub mod Bounds
pub use Words.{Effect, assign, branch, fault}
unfoldable pub use Words.{sign_extend32, add_signed_offset}
pub use Words.{u32, i32, shift_right, checked}
unfoldable pub use Alu32.{alu32}
unfoldable pub use Alu64.{alu64}
unfoldable pub use Jump32.{jump32}
unfoldable pub use Jump64.{jump64}
use solanago.Base.{ℕ, Option, none, some}
use solanago.Base.Int.{ℤ}
use solanago.Sbpf.Opcode.{Opcode}

or_else : Option Effect → Option Effect → Option Effect
or_else none other = other
or_else (some effect) other = some effect

-- `none` is a memory access, a call, EXIT or no operation at all.
unfoldable pub effect : Opcode → ℕ → ℕ → ℤ → Option Effect
unfolding or_else
effect op dst src imm =
    or_else (alu32 op dst src imm)
      (or_else (alu64 op dst src imm) (or_else (jump32 op dst src imm) (jump64 op dst src imm)))
