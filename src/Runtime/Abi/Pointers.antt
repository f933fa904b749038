-- ===== src/Runtime/Abi/Pointers.antt =====
-- The pointers to the records that may stand behind the input.
use solanago.Base.{ℕ, ◌+◌, ◌*◌, ◌^◌, ◌≡◌, ◌<◌, inl, inr, refl, sym, ◌∙◌, true, arith}
use solanago.Base.{
  List, [], ◌∷◌, ◌++◌, length, length-append, ok, >>=-eq-ok, ok-injective, ◌==◌, All, All-append,
  get_elem?, get_elem?-All, Option-cases,
}
use mathlib.Core.Path.{subst}
use mathlib.Core.List.{append_assoc, append-nil}
use solanago.Base.Bytes.{put_le}
use solanago.Runtime.Abi.{InputAccount, AccountRegion, append_u64}
use solanago.Runtime.Abi.Serialize.{
  Written, write_duplicate, write_account, write_slot, write_slots, write_pointers,
}
use solanago.Runtime.Abi.Parse.{AbiCursor, check_pointers}
use solanago.Runtime.Abi.Cursor.{IsAt, read_u64-IsAt}

-- The pointers of SIMD-0449 as bytes.
abbrev pub pointer_bytes : List AccountRegion → List ℕ
pointer_bytes [] = []
pointer_bytes (region ∷ rest) = put_le 8 region.vm_address ++ pointer_bytes rest

pub write_pointers-bytes :
    (buffer : List ℕ) (regions : List AccountRegion)
    → write_pointers buffer regions ≡ buffer ++ pointer_bytes regions
unfolding write_pointers append_u64
write_pointers-bytes buffer [] = sym (append-nil buffer)
write_pointers-bytes buffer (region ∷ rest) =
    write_pointers-bytes (buffer ++ put_le 8 region.vm_address) rest
    ∙ append_assoc buffer (put_le 8 region.vm_address) (pointer_bytes rest)

pub length-pointer_bytes :
    (regions : List AccountRegion) → length (pointer_bytes regions) ≡ length regions * 8
length-pointer_bytes [] = refl
length-pointer_bytes (region ∷ rest) = omega (
  arith,
  length-pointer_bytes rest,
  length-append (put_le 8 region.vm_address) (pointer_bytes rest),
)

-- The address of a record is a word.
abbrev pub HasWord : AccountRegion → Type 0
HasWord region = region.vm_address < 2 ^ 64

pub check_pointers-IsAt :
    (n : ℕ) (regions : List AccountRegion) (c : AbiCursor)
    → All HasWord regions
    → IsAt n (pointer_bytes regions) c
    → (d : AbiCursor) × (check_pointers c regions ≡ ok d) × IsAt (n + length regions * 8) [] d
unfolding check_pointers
check_pointers-IsAt n [] c h at = (c, refl, subst (λ (k : ℕ). IsAt k [] c) (omega arith) at)
check_pointers-IsAt n (region ∷ rest) c (word, words) at =
    let (c1, e1, h1) = read_u64-IsAt n region.vm_address (pointer_bytes rest) c word at in
    let (d, e, h) = check_pointers-IsAt (n + 8) rest c1 words h1 in
    let same : (region.vm_address == region.vm_address) ≡ true = ground arith in
    (d, rw (e1, same) e, subst (λ (k : ℕ). IsAt k [] d) (omega arith) h)

write_duplicate-HasWord :
    (w w1 : Written) (target : ℕ)
    → All HasWord w.regions
    → write_duplicate w target ≡ ok w1
    → All HasWord w1.regions
unfolding write_duplicate
write_duplicate-HasWord w w1 target h e = elim (Option-cases (get_elem? w.regions target)) [
  | inl absent ↦ absurd (cc (rw (absent, write_duplicate) at e))
  | inr (region, found) ↦
      subst (λ (x : Written). All HasWord x.regions)
        (ok-injective (rw (found, write_duplicate) at e))
        (All-append HasWord w.regions _ h
          (get_elem?-All HasWord w.regions target region h found, tt))
]

write_slot-HasWord :
    (w w1 : Written) (input : InputAccount)
    → All HasWord w.regions
    → write_slot w input ≡ ok w1
    → All HasWord w1.regions
unfolding write_slot write_account
write_slot-HasWord w w1 input h e = elim (Option-cases input.duplicate_of) [
  | inr (target, copy) ↦ write_duplicate-HasWord w w1 target h (rw copy at e)
  | inl unique ↦ elim (Option-cases input.account) [
    | inl absent ↦ absurd (cc (rw (unique, absent) at e))
    | inr (a, found) ↦
        subst (λ (x : Written). All HasWord x.regions) (ok-injective (rw (unique, found) at e))
          (All-append HasWord w.regions _ h (omega arith, tt))
  ]
]

pub write_slots-HasWord :
    (w w1 : Written) (inputs : List InputAccount)
    → All HasWord w.regions
    → write_slots w inputs ≡ ok w1
    → All HasWord w1.regions
unfolding write_slots
write_slots-HasWord w w1 [] h e = subst (λ (x : Written). All HasWord x.regions) (ok-injective e) h
write_slots-HasWord w w1 (input ∷ inputs) h e =
    let (next, first, others) = >>=-eq-ok (write_slot w input) _ e in
    write_slots-HasWord next w1 inputs (write_slot-HasWord w next input h first) others
