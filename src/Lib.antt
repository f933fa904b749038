-- ===== src/Lib.antt =====
-- solanago compiles a subset of Go to sBPFv3, the bytecode of Solana programs, and has a reference
-- interpreter for it. This library models the bytecode (the package sbpf), the interpreter (the package
-- vm), the codec of instruction and account data (the package serialization), the container of a
-- program (the package elf), the memory map, the accounts, the input and the error codes of the package runtime, and the state
-- of tokens (the package sdk/token), and proves them right.
--
-- How the parts interact. A program is a list of instructions. sbpf validates it, writes it as slots of
-- eight bytes and reads it back; LD_DW_IMM takes two slots, so that an instruction has an index and a
-- physical pc. vm checks a program by sbpf, keeps it with the map from pcs to indices, and runs it on
-- eleven registers, a stack of its own and memory regions of the caller. elf wraps the slots of a
-- program and its entry in a file, and reads them back out of one, checked by sbpf, for a machine to
-- run. The codec, and what is modelled of runtime and of sdk/token, stand alone.
--
-- Base: tests, lists, results, Go's signed integers with their conversions to words, bits,
--   little-endian words in bytes, writes into a slice (Splice, and Blocks for a slice of several
--   parts), and Go's sort.Slice (Sort) and sort.Search (Search). A word is a native number; wrap-around is written `% 2 ^ w`.
-- Sbpf/Opcode, Opcode/Names, Opcode/Classes: sbpf/opcode.go. `byte_of` has the bytes of the constants,
--   `opcode_of` is the conversion of a byte, and a byte that names nothing is `unknown b`.
-- Sbpf/Instruction, Sbpf/Validate: sbpf/instruction.go (`ValidateInstruction`, `ValidateProgram`,
--   `PhysicalPCs` and the constructors of instructions).
-- Sbpf/Encode, Sbpf/Decode: sbpf/encoder.go and sbpf/decoder.go. Sbpf/Slot, Layout, Accepted and
--   RoundTrip hold the proofs on them; Sbpf/Validate/Program and Sbpf/Targets those on validation.
-- Sbpf/Syscall: sbpf/syscall.go, the hash of syscall names.
-- Vm/Errors, Vm/Memory: vm/memory.go, and `loadMemory` and `storeMemory` of vm/vm.go. A slice that
--   `memoryRange` returns is the place where it begins. Below Vm/Memory stand the proofs: Search,
--   Store, Write, Access, Apart, Map.
-- Vm/Effect and below it: the cases of the `switch` of `execute` in vm/vm.go that do arithmetic or jump,
--   as functions of the operands.
-- Vm/Machine: the configuration and the constructors of vm/vm.go. Vm/Step: a round of the loop, with the
--   loads, stores, calls and returns. Vm/Run: the loop, `run`, `Run` and `RunWithMemory`.
-- Vm/Program, Vm/Termination, Vm/Sound: the proofs on the interpreter.
--   Vm/Sound/Invariant has what each round keeps, Vm/Sound/Control where it can go on.
-- Runtime/ProgramError: runtime/errors.go, the errors and their codes.
-- Runtime/MemoryMap: runtime/memory.go. A slice of a region's bytes is its index, offset and width, and
--   the map is passed on with what was written. The field `Data` is its elements and those behind them
--   up to its capacity. Below it stand the proofs: Table, Lookup, Resize, Storage,
--   Translate.
-- Runtime/Account: the views of accounts of runtime/account.go. Runtime/Account/Context: its `Context`, with
--   pointers to views as positions in a list, so that slots of one account share one. Validate:
--   `SyncAccounts`, `ValidateProgramChanges` and `acceptAccountBaselines`, with the hash of crypto/sha256
--   as a parameter. Guarded and Honest have what an operation keeps of one account, Totals the sums over
--   the accounts, Keeps and Transfer what each operation keeps of an invocation, Sound runs of operations,
--   Fresh those of a new context, Visited what the loop of the validation has seen, and Caught what it shows.
-- Runtime/Abi, Abi/Serialize, Abi/Parse: runtime/abi.go: the types and lengths, `SerializeInputV1WithOptions`, and
--   `ParseInputV1WithOptions` with its cursor, which has the bytes, since the parser writes into them.
--   Runtime/Abi/Layout is the format as a list of slots, independent of both; Cursor, Record, Slots, Back,
--   Sizes, Pointers and RoundTrip have the proofs, and Sound the operations of Runtime/Account on a parsed
--   input.
-- Elf/Format, Elf/Labels, Elf/Parse, Elf/Build: elf/elf.go: the constants and small tests, the checks of
--   the sections and symbols, `ParseStrictV3`, and `BuildV3` as the list of its writes. Elf/Blocks,
--   Layout, Written, Reads, Accepts, Image and RoundTrip have the proofs; Elf/Layout is the format of the
--   file as a list of blocks, in numbers of its own and not the constants of the writes.
-- Sdk/Pubkey: sdk/pubkey.go, the key alone.
-- Token/State: sdk/token/state.go, the bytes of a mint and of an account; Token/RoundTrip and
--   Token/Accounts have the proofs. Token/Multisig: those of a multisignature account.
-- Codec/Encoder, Codec/Decoder: serialization/codec.go; Codec/RoundTrip has the proofs.
-- Tests and Examples stand beside each part.
--
-- Bounds and fuel. The loop of `execute` runs on fuel, one more than the limit of instructions: every
-- round but the last counts a step, and a round at the limit fails. Other loops are recursion on lists
-- or on a number of slots. Go's int is 64 bits wide; configurations are integers of either sign until
-- they are checked, and lengths and pcs are numbers.
--
-- What is not modelled. The messages of errors: an error is the sentinel that it wraps, and the one
-- that wraps both ErrStackOverflow and ErrCallDepthExceeded is `stack_overflow`. Nil receivers, except
-- the nil machine of `Run`. The bytes that a run leaves in the caller's regions are part of the state
-- of a run and not of its result. `sort.Slice` is an insertion sort; the order of regions of one
-- address does not matter, since they are refused. Regions are Go slices, and neither map compares
-- their backing arrays; here each region of vm's map and of runtime's has bytes of its own, so regions
-- over one array, and a caller that writes to an array while a machine runs, are not modelled. The
-- slice that `WritableData` returns is live: a program may keep it over later calls, and here it
-- copies into it at once. The zero value of the VM, which no constructor returns, has a run without a
-- result, since `make` panics on its capacity. The wrappers of the entrypoint. An account whose data
-- is a region of a direct mapping, which a resize resizes too, the serializer of that mode, and the
-- getters of accounts that copy. A register number of eleven or more, at which Go's array index would
-- panic, reads 0: validation excludes it. The disassembler, the layouts, calls and syscalls of
-- runtime, the rest of sdk, the packages compiler, deploy, svmtest and web, the commands and the
-- examples.
pub mod Base
pub mod Sbpf
pub mod Vm
pub mod Codec
pub mod Runtime
pub mod Elf
pub mod Token
pub mod Sdk
