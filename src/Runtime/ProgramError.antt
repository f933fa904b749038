-- ===== src/Runtime/ProgramError.antt =====
-- runtime/errors.go: program errors and the 64-bit codes that an entrypoint returns for them.
use solanago.Base.{
  ℕ, ◌*◌, ◌/◌, ◌%◌, ◌^◌, ◌≤◌, ◌<◌, ◌≡◌, ◌≢◌, refl, Bool, true, false, not, ◌&&◌, Option, none, some,
  ◌⊎◌, inl, inr, arith,
}
use solanago.Base.{if◌then◌else◌, leb, ◌==◌, Bool-cases}

-- `ProgramErrorKind`, a 32-bit word. The kinds from `custom_zero` to the last have the numbers from 1
-- to 26.
abbrev pub ProgramErrorKind : Type 0
ProgramErrorKind = ℕ

abbrev pub program_error_custom_zero : ProgramErrorKind
program_error_custom_zero = 1

abbrev pub program_error_invalid_argument : ProgramErrorKind
program_error_invalid_argument = 2

abbrev pub program_error_invalid_account_data : ProgramErrorKind
program_error_invalid_account_data = 4

abbrev pub program_error_account_data_too_small : ProgramErrorKind
program_error_account_data_too_small = 5

abbrev pub program_error_insufficient_funds : ProgramErrorKind
program_error_insufficient_funds = 6

abbrev pub program_error_incorrect_program_id : ProgramErrorKind
program_error_incorrect_program_id = 7

abbrev pub program_error_missing_required_signature : ProgramErrorKind
program_error_missing_required_signature = 8

abbrev pub program_error_not_enough_account_keys : ProgramErrorKind
program_error_not_enough_account_keys = 11

abbrev pub program_error_illegal_owner : ProgramErrorKind
program_error_illegal_owner = 18

abbrev pub program_error_invalid_realloc : ProgramErrorKind
program_error_invalid_realloc = 20

abbrev pub program_error_arithmetic_overflow : ProgramErrorKind
program_error_arithmetic_overflow = 24

-- `ProgramErrorIncorrectAuthority`.
abbrev pub program_error_incorrect_authority : ProgramErrorKind
program_error_incorrect_authority = 26

abbrev pub program_success : ℕ
program_success = 0

pub record ProgramError : Type 0 where
  pub kind : ProgramErrorKind
  pub custom_code : ℕ
  pub custom : Bool

unfoldable pub custom_program_error : ℕ → ProgramError
custom_program_error code = record { kind = 0; custom_code = code; custom = true }

unfoldable pub builtin_program_error : ProgramErrorKind → ProgramError
builtin_program_error kind = record { kind = kind; custom_code = 0; custom = false }

-- `_, ok := programErrorNames[kind]`: the names are those of the kinds declared.
unfoldable pub has_name : ProgramErrorKind → Bool
has_name kind = leb program_error_custom_zero kind && leb kind program_error_incorrect_authority

unfoldable pub return_code : ProgramError → ℕ
return_code e =
    if e.custom
    then (if e.custom_code == 0 then program_error_custom_zero * 2 ^ 32 else e.custom_code)
    else e.kind * 2 ^ 32

-- `code&0xffffffff` and `uint32(code)` are both the low word.
unfoldable pub low_word : ℕ → ℕ
low_word code = code % 2 ^ 32

unfoldable pub program_error_from_return_code : ℕ → Option ProgramError
program_error_from_return_code code =
    let kind = code / 2 ^ 32 in
    if code == program_success
    then none
    else if code == program_error_custom_zero * 2 ^ 32
    then some (custom_program_error 0)
    else if low_word code == 0 && has_name kind && not (kind == program_error_custom_zero)
    then some (builtin_program_error kind)
    else some (custom_program_error (low_word code))

-- Errors as the two constructors make them: a custom code of 32 bits, or a kind that has a name and
-- is not the one that stands for the custom code 0.
abbrev pub IsProgramError : ProgramError → Type 0
IsProgramError e =
    ((e.custom ≡ true) × (e.kind ≡ 0) × (e.custom_code < 2 ^ 32))
    ⊎ ((e.custom ≡ false) × (e.custom_code ≡ 0) × (2 ≤ e.kind) × (e.kind ≤ 26))

-- The code of a custom error of a 32-bit code, or of a built-in error whose kind has a name and is not
-- CustomZero, is a 64-bit word other than success, and is mapped back to the error.
pub program_error_from_return_code-return_code :
    (e : ProgramError)
    → IsProgramError e
    → (program_error_from_return_code (return_code e) ≡ some e)
      × (return_code e ≢ program_success)
      × (return_code e < 2 ^ 64)
unfolding program_error_from_return_code return_code low_word has_name custom_program_error
    builtin_program_error
program_error_from_return_code-return_code e (inl (c, k, l)) =
    (ground arith, ground arith, ground arith)
program_error_from_return_code-return_code e (inr (c, k, l, u)) =
    (ground arith, ground arith, ground arith)

-- The codes of those errors: a 32-bit word other than success, or a named kind in the high word.
abbrev pub IsReturnCode : ℕ → Type 0
IsReturnCode code =
    ((0 < code) × (code < 2 ^ 32))
    ⊎ ((code % 2 ^ 32 ≡ 0) × (1 ≤ code / 2 ^ 32) × (code / 2 ^ 32 ≤ 26))

-- A code of an error is mapped to an error that has this code.
pub return_code-program_error_from_return_code :
    (code : ℕ)
    → IsReturnCode code
    → (e : ProgramError) × (program_error_from_return_code code ≡ some e)
      × IsProgramError e
      × (return_code e ≡ code)
unfolding program_error_from_return_code return_code low_word has_name custom_program_error
    builtin_program_error
return_code-program_error_from_return_code code (inl (pos, small)) =
    (custom_program_error code, ground arith, inl (refl, refl, small), ground arith)
return_code-program_error_from_return_code code (inr (low, named, known)) =
    elim (Bool-cases (code / 2 ^ 32 == 1)) [
      | inl zero_code ↦
          (custom_program_error 0, ground arith, inl (refl, refl, omega arith), ground arith)
      | inr other ↦ (
        builtin_program_error (code / 2 ^ 32),
        ground arith,
        inr (refl, refl, ground arith, known),
        ground arith,
      )
    ]
