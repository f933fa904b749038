-- ===== src/Runtime/Abi/Layout.antt =====
-- The input of a program as a format of its own, independent of what writes and reads it.
use solanago.Base.{ℕ, ◌+◌, ◌-◌, ◌^◌, ◌≡◌, ◌≤◌, ◌<◌, ◌⊎◌}
use solanago.Base.{List, [], ◌∷◌, ◌++◌, length, replicate, none, some}
use solanago.Base.Bytes.{put_le}
use solanago.Runtime.Account.{Account, max_permitted_data_increase, max_permitted_data_length}
use solanago.Runtime.Abi.{
  InputAccount, unique_input_account, duplicate_input_account, non_duplicate_marker,
  alignment_padding, bool_byte,
}

abbrev pub IsInputAccount : Account → Type 0
IsInputAccount a =
    (length a.key ≡ 32)
    × (length a.owner ≡ 32)
    × (a.lamports < 2 ^ 64)
    × (length a.bytes ≤ max_permitted_data_length)

-- An account, or a copy of an earlier slot.
abbrev pub IsSlot : ℕ → InputAccount → Type 0
IsSlot index input =
    ((a : Account) × (input ≡ unique_input_account a) × IsInputAccount a)
    ⊎ ((target : ℕ) × (input ≡ duplicate_input_account target) × (target < index))

abbrev pub IsSlots : ℕ → List InputAccount → Type 0
IsSlots index [] = Unit {0}
IsSlots index (input ∷ rest) = IsSlot index input × IsSlots (index + 1) rest

-- The record of an account behind its marker, in front of more bytes.
abbrev pub record_bytes : Account → List ℕ → List ℕ
record_bytes a rest =
    bool_byte a.is_signer
    ∷ bool_byte a.is_writable
    ∷ bool_byte a.executable
    ∷ (replicate 4 0
        ++ (a.key
            ++ (a.owner
                ++ (put_le 8 a.lamports
                    ++ (put_le 8 (length a.bytes)
                        ++ ((a.bytes ++ replicate max_permitted_data_increase 0)
                            ++ (replicate (alignment_padding (length a.bytes)) 0
                                ++ (put_le 8 (2 ^ 64 - 1) ++ rest))))))))

abbrev pub slot_bytes : InputAccount → List ℕ → List ℕ
slot_bytes input rest = elim input.duplicate_of [
  | some target ↦ target ∷ (replicate 7 0 ++ rest)
  | none ↦ elim input.account [ none ↦ rest | some a ↦ non_duplicate_marker ∷ record_bytes a rest ]
]

abbrev pub slots_bytes : List InputAccount → List ℕ → List ℕ
slots_bytes [] rest = rest
slots_bytes (input ∷ inputs) rest = slot_bytes input (slots_bytes inputs rest)
