-- ===== src/Runtime/Abi/Back.antt =====
-- What the parser makes of the slots that the serializer wrote.
use solanago.Base.{
  ℕ, suc, zero, ◌+◌, ◌≡◌, ◌≤◌, ◌<◌, inl, inr, refl, sym, ap, ◌∙◌, Bool, false, arith,
}
use solanago.Base.{
  List, [], ◌∷◌, ◌++◌, length, replicate, get_elem?, get_or, length-append, none, some, ok,
  >>=-eq-ok, ok-injective, get_elem?-below, leb, ◌==◌,
}
use mathlib.Core.Path.{subst}
use solanago.Base.Bytes.{put_le}
use solanago.Base.Splice.{take-append}
use solanago.Runtime.Account.{
  Account, AccountView, accept_baseline, live_data, max_permitted_data_increase,
}
use solanago.Runtime.Abi.{
  InputAccount, AccountRegion, unique_input_account, duplicate_input_account, input_address,
  append_u64, bool_byte, non_duplicate_marker,
}
use solanago.Runtime.Abi.Serialize.{Written, write_account, write_slot, write_slots}
use solanago.Runtime.Abi.Parse.{
  AbiCursor, Parsed, parsed_region, parsed_view, parse_duplicate, parse_slot, parse_slots,
}
use solanago.Runtime.Abi.Layout.{
  IsInputAccount, IsSlot, IsSlots, record_bytes, slot_bytes, slots_bytes,
}
use solanago.Runtime.Abi.Cursor.{IsAt, take_slice-IsAt, read_u8-IsAt}
use solanago.Runtime.Abi.Record.{record_of, record_length, parse_record-IsAt}
use solanago.Runtime.Abi.Slots.{
  slot-IsWritten, write_account-bytes, copied, copied-IsWritten, account-IsWritten,
  length-record_bytes,
}

-- The views, and the positions of those of the slots.
abbrev pub Mapped : Type 0
Mapped = List AccountView × List ℕ

module _ (sha256 : List ℕ → List ℕ) where
  -- The view of an account in a buffer, with what stands in the program's memory.
  abbrev pub mapped_view : Account → AccountView
  mapped_view a = record {
    key = a.key;
    owner = a.owner;
    lamports = a.lamports;
    bytes = a.bytes ++ replicate max_permitted_data_increase 0;
    data_len = length a.bytes;
    original_len = length a.bytes;
    is_signer = a.is_signer;
    is_writable = a.is_writable;
    executable = a.executable;
    baseline_owner = a.owner;
    baseline_lamports = a.lamports;
    baseline_data_len = length a.bytes;
    baseline_data_hash = sha256 a.bytes;
    owner_storage = some a.owner;
    lamports_storage = some a.lamports;
    data_len_storage = some (length a.bytes);
  }

  -- A slot of its own, or the pointer of an earlier one.
  abbrev pub mapped_slot : Mapped → InputAccount → Mapped
  mapped_slot (views, slots) input = elim input.duplicate_of [
    | some target ↦ (views, slots ++ (get_or slots target 0 ∷ []))
    | none ↦ elim input.account [
      | none ↦ (views, slots)
      | some a ↦ (views ++ (mapped_view a ∷ []), slots ++ (length views ∷ []))
    ]
  ]

  abbrev pub mapped_slots : Mapped → List InputAccount → Mapped
  mapped_slots m [] = m
  mapped_slots m (input ∷ inputs) = mapped_slots (mapped_slot m input) inputs

  abbrev pub parsed_of : Mapped → List AccountRegion → Parsed
  parsed_of (views, slots) regions = record {
    views = views;
    account_slots = slots;
    regions = regions;
  }

  parsed_view-record_of :
      (n : ℕ) (a : Account) (c : AbiCursor) → parsed_view sha256 (record_of n a c) ≡ mapped_view a
  unfolding parsed_view accept_baseline live_data
  parsed_view-record_of n a c =
      ap (λ b. record (mapped_view a) { baseline_data_hash = sha256 b }) (take-append a.bytes _)

  abbrev region_at : Account → ℕ → ℕ → ℕ → ℕ → ℕ → AccountRegion
  region_at a n key owner lamports bytes = record {
    vm_address = input_address n;
    key_address = input_address key;
    owner_address = input_address owner;
    lamports_address = input_address lamports;
    data_address = input_address bytes;
    original_data_len = length a.bytes;
    duplicate_of = none;
    record_byte_offset = n;
  }

  same_region :
      (a : Account) (n k o l d k' o' l' d' : ℕ)
      → k ≡ k'
      → o ≡ o'
      → l ≡ l'
      → d ≡ d'
      → region_at a n k o l d ≡ region_at a n k' o' l' d'
  same_region a n k o l d k' o' l' d' e f g h =
      ap (λ x. region_at a n x o l d) e
      ∙ ap (λ x. region_at a n k' x l d) f
      ∙ ap (λ x. region_at a n k' o' x d) g
      ∙ ap (λ x. region_at a n k' o' l' x) h

  -- The serializer and the parser find the fields at the same addresses.
  written_region :
      (w : Written) (a : Account) (c : AbiCursor)
      → IsInputAccount a
      → (write_account w a).regions
        ≡ w.regions ++ (parsed_region (length w.buffer) (record_of (length w.buffer + 1) a c) ∷ [])
  unfolding write_account append_u64 parsed_region
  written_region w a c (key, owner, _, _) =
      let flags =
        w.buffer
        ++ (non_duplicate_marker
            ∷ bool_byte a.is_signer
            ∷ bool_byte a.is_writable
            ∷ bool_byte a.executable
            ∷ []) in
      let l1 = length-append w.buffer (
        non_duplicate_marker
        ∷ bool_byte a.is_signer
        ∷ bool_byte a.is_writable
        ∷ bool_byte a.executable
        ∷ []) in
      let l2 = length-append flags (replicate 4 0) in
      let l3 = length-append (flags ++ replicate 4 0) a.key in
      let l4 = length-append ((flags ++ replicate 4 0) ++ a.key) a.owner in
      let l5 =
        length-append (((flags ++ replicate 4 0) ++ a.key) ++ a.owner) (put_le 8 a.lamports) in
      let l6 =
        length-append ((((flags ++ replicate 4 0) ++ a.key) ++ a.owner) ++ put_le 8 a.lamports)
          (put_le 8 (length a.bytes)) in
      ap (λ r. w.regions ++ (r ∷ []))
        (same_region a (length w.buffer) _ _ _ _ _ _ _ _ (omega (arith, l1, l2))
          (omega (arith, l1, l2, l3, key)) (omega (arith, l1, l2, l3, l4, key, owner))
          (omega (arith, l1, l2, l3, l4, l5, l6, key, owner)))

  -- What a round of the parser leaves.
  abbrev IsBack : Bool → ℕ → Mapped → InputAccount → Written → List ℕ → AbiCursor → Written → Type 0
  IsBack strict index m input w rest c w1 =
      (d : AbiCursor) × (parse_slot sha256 strict index c (parsed_of m w.regions)
        ≡ ok (d, parsed_of (mapped_slot m input) w1.regions))
      × IsAt (length w1.buffer) rest d

  get_or-found : (l : List ℕ) (i p : ℕ) → get_elem? l i ≡ some p → get_or l i 0 ≡ p
  get_or-found [] i p e = absurd (cc e)
  get_or-found (x ∷ l) zero p e = cc
  get_or-found (x ∷ l) (suc i) p e = get_or-found l i p e

  -- The length of the buffer with an account.
  length-write_account :
      (w : Written) (a : Account)
      → IsInputAccount a
      → length (write_account w a).buffer ≡ length w.buffer + 1 + record_length a
  length-write_account w a good =
      let same = ap length (write_account-bytes w a []) in
      let l1 = length-append (write_account w a).buffer [] in
      let l2 = length-append w.buffer (non_duplicate_marker ∷ record_bytes a []) in
      let l3 = length-record_bytes a [] good in omega (arith, same, l1, l2, l3)

  copied-IsBack :
      (strict : Bool) (index target pointer : ℕ) (region : AccountRegion) (m : Mapped) (w : Written)
      (rest : List ℕ) (c : AbiCursor)
      → target < index
      → index < 255
      → get_elem? m.1 target ≡ some pointer
      → get_elem? w.regions target ≡ some region
      → IsAt (length w.buffer) (target ∷ (replicate 7 0 ++ rest)) c
      → IsBack strict index m (duplicate_input_account target) w rest c (copied w target region)
  unfolding parse_slot parse_duplicate duplicate_input_account
  copied-IsBack strict index target pointer region m w rest c h small slot at standing =
      let (c1, e1, h1) = read_u8-IsAt (length w.buffer) target (replicate 7 0 ++ rest) c standing in
      let (c2, e2, h2) = take_slice-IsAt (length w.buffer + 1) 7 (replicate 7 0) rest c1 refl h1 in
      let other : (target == non_duplicate_marker) ≡ false = ground arith in
      let early : leb index target ≡ false = ground arith in
      (
        c2,
        rw
            (
              e1,
              other,
              early,
              e2,
              slot,
              at,
              standing.offset_same,
              get_or-found m.1 target pointer slot,
            )
            refl,
        subst (λ (k : ℕ). IsAt k rest c2)
            (omega (arith, length-append w.buffer (target ∷ replicate 7 0))) h2,
      )

  account-IsBack :
      (strict : Bool) (index : ℕ) (a : Account) (m : Mapped) (w : Written) (rest : List ℕ)
      (c : AbiCursor)
      → IsInputAccount a
      → IsAt (length w.buffer) (non_duplicate_marker ∷ record_bytes a rest) c
      → IsBack strict index m (unique_input_account a) w rest c (write_account w a)
  unfolding parse_slot unique_input_account
  account-IsBack strict index a m w rest c good standing =
      let (c1, e1, h1) =
        read_u8-IsAt (length w.buffer) non_duplicate_marker (record_bytes a rest) c standing in
      let (c2, e2, h2) = parse_record-IsAt strict (length w.buffer + 1) a rest c1 good h1 in
      (
        c2,
        rw
            (
              e1,
              e2,
              standing.offset_same,
              written_region w a c2 good,
              parsed_view-record_of (length w.buffer + 1) a c2,
            )
            refl,
        subst (λ (k : ℕ). IsAt k rest c2) (sym (length-write_account w a good)) h2,
      )

  slot-IsBack :
      (strict : Bool) (index : ℕ) (m : Mapped) (input : InputAccount) (w w1 : Written)
      (rest : List ℕ) (c : AbiCursor)
      → IsSlot index input
      → index < 255
      → length m.1 ≡ index
      → length w.regions ≡ index
      → write_slot w input ≡ ok w1
      → IsAt (length w.buffer) (slot_bytes input rest) c
      → IsBack strict index m input w rest c w1
  unfolding unique_input_account duplicate_input_account
  slot-IsBack strict index m input w w1 rest c s small slots regions written standing = elim s [
    | inl (a, same, good) ↦
        let same_written : write_account w a ≡ w1 =
          ok-injective
            (sym (account-IsWritten w a).written ∙ ap (write_slot w) (sym same) ∙ written) in
        subst (IsBack strict index m input w rest c) same_written (
          subst (λ (i : InputAccount). IsBack strict index m i w rest c (write_account w a))
            (sym same)
            (account-IsBack strict index a m w rest c good (
              subst (λ (i : InputAccount). IsAt (length w.buffer) (slot_bytes i rest) c) same
                standing)))
    | inr (target, same, earlier) ↦
        let (pointer, slot) = get_elem?-below m.1 target (omega (arith, earlier, slots)) in
        let (region, at) = get_elem?-below w.regions target (omega (arith, earlier, regions)) in
        let same_written : copied w target region ≡ w1 = ok-injective (
          sym (copied-IsWritten w target region at).written
          ∙ ap (write_slot w) (sym same)
          ∙ written) in
        subst (IsBack strict index m input w rest c) same_written (
          subst (λ (i : InputAccount). IsBack strict index m i w rest c (copied w target region))
            (sym same)
            (copied-IsBack strict index target pointer region m w rest c earlier small slot at (
              subst (λ (i : InputAccount). IsAt (length w.buffer) (slot_bytes i rest) c) same
                standing)))
  ]

  length-mapped_slot :
      (index : ℕ) (m : Mapped) (input : InputAccount)
      → IsSlot index input
      → length (mapped_slot m input).1 ≡ length m.1 + 1
  length-mapped_slot index m input s = elim s [
    | inl (a, same, _) ↦
        subst (λ (i : InputAccount). length (mapped_slot m i).1 ≡ length m.1 + 1) (sym same)
          (unfold unique_input_account in length-append m.1 _)
    | inr (target, same, _) ↦
        subst (λ (i : InputAccount). length (mapped_slot m i).1 ≡ length m.1 + 1) (sym same)
          (unfold duplicate_input_account in length-append m.1 _)
  ]

  -- The parser makes of the slots the accounts that were written, with the regions of the serializer.
  pub slots_back :
      (strict : Bool) (index : ℕ) (m : Mapped) (inputs : List InputAccount) (w w1 : Written)
      (rest : List ℕ) (c : AbiCursor)
      → IsSlots index inputs
      → index + length inputs ≤ 255
      → length m.1 ≡ index
      → length w.regions ≡ index
      → write_slots w inputs ≡ ok w1
      → IsAt (length w.buffer) (slots_bytes inputs rest) c
      → (d : AbiCursor) × (parse_slots sha256 strict (length inputs) index c (parsed_of m w.regions)
          ≡ ok (d, parsed_of (mapped_slots m inputs) w1.regions))
        × IsAt (length w1.buffer) rest d
  unfolding write_slots parse_slots
  slots_back strict index m [] w w1 rest c s few slots regions written standing =
      let same = ok-injective written in
      (
        c,
        ap (λ (x : Written). ok (c, parsed_of m x.regions)) same,
        subst (λ (x : Written). IsAt (length x.buffer) rest c) same standing,
      )
  slots_back strict index m (input ∷ inputs) w w1 rest c (s, later) few slots regions written
        standing =
      let (next, first, others) = >>=-eq-ok (write_slot w input) _ written in
      let (d, e, after) =
        slot-IsBack strict index m input w next (slots_bytes inputs rest) c s (omega (arith, few))
          slots regions first standing in
      let (w2, one) = slot-IsWritten index input w s regions in
      let same : w2 ≡ next = ok-injective (sym one.written ∙ first) in
      let more =
        subst (λ (x : Written). length x.regions ≡ length w.regions + 1) same one.one_more in
      let (d2, e2, end) =
        slots_back strict (index + 1) (mapped_slot m input) inputs next w1 rest d later
          (omega (arith, few)) (omega (arith, length-mapped_slot index m input s, slots))
          (omega (arith, more, regions)) others after in
      (d2, rw (e, e2) refl, end)
