-- ===== src/Runtime/Abi/Sizes.antt =====
-- The size that the serializer computes in advance is that of its buffer.
use solanago.Base.{
  ℕ, suc, zero, ◌+◌, ◌*◌, ◌/◌, ◌≡◌, ◌≤◌, ◌<◌, inl, inr, refl, sym, ap, ◌∙◌, false, arith,
}
use solanago.Base.{List, [], ◌∷◌, length, none, some, ok, ltb, leb}
use mathlib.Core.Path.{subst}
use native.Mathlib.Nat.{le-div_iff_mul-le}
use solanago.Runtime.Account.{Account, max_permitted_data_increase, max_permitted_data_length}
use solanago.Runtime.Abi.{
  InputAccount, unique_input_account, duplicate_input_account, alignment_padding, checked_add_int,
  checked_mul_int, largest_int,
}
use solanago.Runtime.Abi.Serialize.{
  or_invalid, unchecked, is_some, record_size, slot_size, slot_sizes,
}
use solanago.Runtime.Abi.Layout.{IsInputAccount, IsSlot, IsSlots, slot_bytes, slots_bytes}
use solanago.Runtime.Abi.Record.{record_length}
use solanago.Runtime.Abi.Slots.{length-record_bytes}

-- More than a slot takes.
abbrev pub slot_limit : ℕ
slot_limit = 110 + max_permitted_data_length + max_permitted_data_increase

alignment_padding-lt : (n : ℕ) → alignment_padding n < 8
unfolding alignment_padding
alignment_padding-lt n = omega arith

pub checked_add_int-below : (m n : ℕ) → m + n ≤ largest_int → checked_add_int m n ≡ some (m + n)
unfolding checked_add_int
checked_add_int-below m n h = ground arith

pub checked_mul_int-below : (n : ℕ) → n ≤ 255 → checked_mul_int n 8 ≡ some (n * 8)
unfolding checked_mul_int
checked_mul_int-below zero h = refl
checked_mul_int-below (suc n) h =
    let large : 8 ≤ largest_int / suc n = (le-div_iff_mul-le (omega arith)).1 (omega (arith, h)) in
    let fits : ltb (largest_int / suc n) 8 ≡ false = ground (arith, large) in rw fits (ground arith)

record_size-below :
    (size : ℕ) (a : Account)
    → length a.bytes ≤ max_permitted_data_length
    → size + slot_limit ≤ largest_int
    → record_size size a ≡ ok (size + (1 + record_length a))
unfolding record_size or_invalid
record_size-below size a short h =
    let pad = alignment_padding-lt (length a.bytes) in
    let fits : ltb max_permitted_data_length (length a.bytes) ≡ false = ground arith in
    let e1 = checked_add_int-below 96 (length a.bytes) (omega (arith, short)) in
    let e2 =
      checked_add_int-below (96 + length a.bytes)
        (max_permitted_data_increase + alignment_padding (length a.bytes))
        (omega (arith, short, pad)) in
    let e3 =
      checked_add_int-below size
        (96 + length a.bytes + (max_permitted_data_increase + alignment_padding (length a.bytes)))
        (omega (arith, short, pad, h)) in
    rw (fits, e1, e2, e3) (ap ok (omega arith))

abbrev slot_length : InputAccount → ℕ
slot_length input = elim input.duplicate_of [
  | some target ↦ 8
  | none ↦ elim input.account [ none ↦ 0 | some a ↦ 1 + record_length a ]
]

-- Its size, its length, and the limit, of one slot.
record IsMeasured (index : ℕ) (input : InputAccount) : Type 0 where
  measured :
      (size : ℕ)
      → size + slot_limit ≤ largest_int
      → slot_size index size input ≡ ok (size + slot_length input)
  length_same : (rest : List ℕ) → length (slot_bytes input rest) ≡ slot_length input + length rest
  limited : slot_length input ≤ slot_limit

account-IsMeasured :
    (index : ℕ) (a : Account) → IsInputAccount a → IsMeasured index (unique_input_account a)
unfolding unique_input_account slot_size
account-IsMeasured index a good = record {
  measured = λ size h. record_size-below size a good.3 h;
  length_same = λ rest. omega (arith, length-record_bytes a rest good);
  limited = omega (arith, alignment_padding-lt (length a.bytes), good.3);
}

copy-IsMeasured :
    (index target : ℕ) → target < index → IsMeasured index (duplicate_input_account target)
unfolding duplicate_input_account slot_size is_some unchecked
copy-IsMeasured index target h = record {
  measured = λ size k.
      let early : leb index target ≡ false = ground arith in
      let e = checked_add_int-below size 8 (omega (arith, k)) in rw (early, e) refl;
  length_same = λ rest. omega arith;
  limited = omega arith;
}

slot-IsMeasured : (index : ℕ) (input : InputAccount) → IsSlot index input → IsMeasured index input
slot-IsMeasured index input s = elim s [
  | inl (a, same, good) ↦ subst (IsMeasured index) (sym same) (account-IsMeasured index a good)
  | inr (target, same, earlier) ↦
      subst (IsMeasured index) (sym same) (copy-IsMeasured index target earlier)
]

abbrev pub slots_length : List InputAccount → ℕ
slots_length [] = 0
slots_length (input ∷ inputs) = slot_length input + slots_length inputs

pub slot_sizes-below :
    (index size : ℕ) (inputs : List InputAccount)
    → IsSlots index inputs
    → size + length inputs * slot_limit ≤ largest_int
    → (slot_sizes index size inputs ≡ ok (size + slots_length inputs))
      × (slots_length inputs ≤ length inputs * slot_limit)
      × ((rest : List ℕ) → length (slots_bytes inputs rest) ≡ slots_length inputs + length rest)
unfolding slot_sizes
slot_sizes-below index size [] s h = (ap ok (omega arith), omega arith, λ rest. omega arith)
slot_sizes-below index size (input ∷ inputs) (s, later) h =
    let one = slot-IsMeasured index input s in
    let e = one.measured size (omega (arith, h)) in
    let (all, limit, lengths) =
      slot_sizes-below (index + 1) (size + slot_length input) inputs later
        (omega (arith, h, one.limited)) in
    (
      rw e (all ∙ ap ok (omega arith)),
      omega (arith, limit, one.limited),
      λ rest. omega (arith, one.length_same (slots_bytes inputs rest), lengths rest),
    )
