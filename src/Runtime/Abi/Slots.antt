-- ===== src/Runtime/Abi/Slots.antt =====
-- The slots that the serializer writes are the layout's, and what the parser makes of them.
use solanago.Base.{ℕ, suc, zero, ◌+◌, ◌-◌, ◌^◌, ◌≡◌, inl, inr, refl, sym, ap, ◌∙◌, arith}
use solanago.Base.{
  List, [], ◌∷◌, ◌++◌, length, replicate, get_elem?, length-replicate, length-append, Option, none,
  some, Result, ok, err, get_elem?-below,
}
use mathlib.Core.Path.{subst}
use mathlib.Core.List.{append_assoc}
use solanago.Base.Bytes.{put_le}
use solanago.Runtime.Account.{Account, max_permitted_data_increase}
use solanago.Runtime.Abi.{
  Error, InputAccount, AccountRegion, unique_input_account, duplicate_input_account,
  alignment_padding, bool_byte, append_u64, non_duplicate_marker, invalid_abi,
}
use solanago.Runtime.Abi.Serialize.{
  Written, write_duplicate, write_account, write_slot, write_slots,
}
use solanago.Runtime.Abi.Layout.{
  IsInputAccount, IsSlot, IsSlots, record_bytes, slot_bytes, slots_bytes,
}
use solanago.Runtime.Abi.Record.{record_length}

zeros_more :
    (m n : ℕ) (rest : List ℕ)
    → replicate (m + n) 0 ++ rest ≡ replicate m 0 ++ (replicate n 0 ++ rest)
zeros_more zero n rest = let e : 0 + n ≡ n = omega arith in rw e
zeros_more (suc m) n rest =
    let e : suc m + n ≡ suc (m + n) = omega arith in rw e (ap (λ l. 0 ∷ l) (zeros_more m n rest))

flat :
    (b f z k o l d x y m rest : List ℕ)
    → (((((((((b ++ f) ++ z) ++ k) ++ o) ++ l) ++ d) ++ x) ++ y) ++ m) ++ rest
      ≡ b ++ (f ++ (z ++ (k ++ (o ++ (l ++ (d ++ (x ++ (y ++ (m ++ rest)))))))))
flat b f z k o l d x y m rest = simp append_assoc refl

room :
    (x m : List ℕ) (i j : ℕ)
    → x ++ (replicate (i + j) 0 ++ m) ≡ (x ++ replicate i 0) ++ (replicate j 0 ++ m)
room x m i j =
    ap (λ l. x ++ l) (zeros_more i j m) ∙ sym (append_assoc x (replicate i 0) (replicate j 0 ++ m))

pub write_account-bytes :
    (w : Written) (a : Account) (rest : List ℕ)
    → (write_account w a).buffer ++ rest ≡ w.buffer ++ (non_duplicate_marker ∷ record_bytes a rest)
unfolding write_account append_u64
write_account-bytes w a rest =
    flat w.buffer
      (non_duplicate_marker
        ∷ bool_byte a.is_signer
        ∷ bool_byte a.is_writable
        ∷ bool_byte a.executable
        ∷ [])
      (replicate 4 0) a.key a.owner (put_le 8 a.lamports) (put_le 8 (length a.bytes)) a.bytes
      (replicate (max_permitted_data_increase + alignment_padding (length a.bytes)) 0)
      (put_le 8 (2 ^ 64 - 1)) rest
    ∙ ap
        (λ l.
          w.buffer
          ++ (non_duplicate_marker
              ∷ bool_byte a.is_signer
              ∷ bool_byte a.is_writable
              ∷ bool_byte a.executable
              ∷ (replicate 4 0
                  ++ (a.key
                      ++ (a.owner ++ (put_le 8 a.lamports ++ (put_le 8 (length a.bytes) ++ l)))))))
        (room a.bytes (put_le 8 (2 ^ 64 - 1) ++ rest) max_permitted_data_increase
          (alignment_padding (length a.bytes)))

pub length-record_bytes :
    (a : Account) (rest : List ℕ)
    → IsInputAccount a
    → length (record_bytes a rest) ≡ record_length a + length rest
length-record_bytes a rest (key, owner, _, _) =
    let l1 =
      length-append a.key
        (a.owner ++ (put_le 8 a.lamports ++ (put_le 8 (length a.bytes) ++ tail))) in
    let l2 = length-append a.owner (put_le 8 a.lamports ++ (put_le 8 (length a.bytes) ++ tail)) in
    let l3 =
      length-append (a.bytes ++ replicate max_permitted_data_increase 0)
        (replicate (alignment_padding (length a.bytes)) 0 ++ (put_le 8 (2 ^ 64 - 1) ++ rest)) in
    let l4 = length-append a.bytes (replicate max_permitted_data_increase 0) in
    let l5 =
      length-append (replicate (alignment_padding (length a.bytes)) 0)
        (put_le 8 (2 ^ 64 - 1) ++ rest) in
    let l6 = length-replicate {A = ℕ} (alignment_padding (length a.bytes)) 0 in
    let l7 = length-replicate {A = ℕ} max_permitted_data_increase 0 in
    omega (arith, l1, l2, l3, l4, l5, l6, l7, key, owner)
  where
    tail : List ℕ
    tail =
        (a.bytes ++ replicate max_permitted_data_increase 0)
        ++ (replicate (alignment_padding (length a.bytes)) 0 ++ (put_le 8 (2 ^ 64 - 1) ++ rest))

-- What a round of the writer leaves.
pub record IsWritten (w : Written) (input : InputAccount) (w1 : Written) : Type 0 where
  pub written : write_slot w input ≡ ok w1
  pub buffer_same : (rest : List ℕ) → w1.buffer ++ rest ≡ w.buffer ++ slot_bytes input rest
  pub one_more : length w1.regions ≡ length w.regions + 1

-- The slot that points to an earlier one.
abbrev pub copied : Written → ℕ → AccountRegion → Written
copied w target region = record {
  buffer = w.buffer ++ (target ∷ replicate 7 0);
  regions =
      w.regions
      ++ (record region { duplicate_of = some target; record_byte_offset = length w.buffer } ∷ []);
}

pub copied-IsWritten :
    (w : Written) (target : ℕ) (region : AccountRegion)
    → get_elem? w.regions target ≡ some region
    → IsWritten w (duplicate_input_account target) (copied w target region)
unfolding write_slot write_duplicate duplicate_input_account
copied-IsWritten w target region at = record {
  written = ap (λ (f : Option AccountRegion). chosen f) at;
  buffer_same = λ rest. append_assoc w.buffer (target ∷ replicate 7 0) rest;
  one_more = length-append w.regions _;
}
  where
    chosen : Option AccountRegion → Result Error Written
    chosen f = elim f [ none ↦ err invalid_abi | some r ↦ ok (copied w target r) ]

pub account-IsWritten :
    (w : Written) (a : Account) → IsWritten w (unique_input_account a) (write_account w a)
unfolding write_slot unique_input_account
account-IsWritten w a = record {
  written = refl;
  buffer_same = write_account-bytes w a;
  one_more = unfold write_account in length-append w.regions _;
}

pub slot-IsWritten :
    (index : ℕ) (input : InputAccount) (w : Written)
    → IsSlot index input
    → length w.regions ≡ index
    → (w1 : Written) × IsWritten w input w1
slot-IsWritten index input w s e = elim s [
  | inl (a, same, good) ↦ (
    write_account w a,
    subst (λ (i : InputAccount). IsWritten w i (write_account w a)) (sym same)
        (account-IsWritten w a),
  )
  | inr (target, same, earlier) ↦
      let (region, at) = get_elem?-below w.regions target (omega (arith, earlier, e)) in
      (
        copied w target region,
        subst (λ (i : InputAccount). IsWritten w i (copied w target region)) (sym same)
            (copied-IsWritten w target region at),
      )
]

pub slots_written :
    (index : ℕ) (inputs : List InputAccount) (w : Written)
    → IsSlots index inputs
    → length w.regions ≡ index
    → (w1 : Written) × (write_slots w inputs ≡ ok w1)
      × (length w1.regions ≡ index + length inputs)
      × ((rest : List ℕ) → w1.buffer ++ rest ≡ w.buffer ++ slots_bytes inputs rest)
unfolding write_slots
slots_written index [] w s e = (w, refl, omega (arith, e), λ rest. refl)
slots_written index (input ∷ inputs) w (s, later) e =
    let (w1, one) = slot-IsWritten index input w s e in
    let (w2, all, count, same) =
      slots_written (index + 1) inputs w1 later (omega (arith, one.one_more, e)) in
    (
      w2,
      rw one.written all,
      omega (arith, count),
      λ rest. same rest ∙ one.buffer_same (slots_bytes inputs rest),
    )
