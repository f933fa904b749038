-- ===== src/Runtime/Abi/Record.antt =====
-- What the parser makes of the record of an account.
use solanago.Base.{ℕ, ◌+◌, ◌-◌, ◌^◌, ◌≡◌, ◌≤◌, refl, ap, ◌∙◌, Bool, false, arith, ◌||◌, ltb}
use solanago.Base.{List, ◌++◌, length, replicate, length-replicate, length-append, ok}
use mathlib.Core.Path.{subst}
use solanago.Base.Bytes.{put_le, length-put_le}
use solanago.Base.Splice.{splice}
use solanago.Runtime.Account.{Account, max_permitted_data_increase, max_permitted_data_length}
use solanago.Runtime.Abi.{alignment_padding, checked_add_int}
use solanago.Runtime.Abi.Serialize.{or_invalid}
use solanago.Runtime.Abi.Parse.{
  AbiCursor, AccountRecord, take_slice, read_u64, boolean, parse_record,
}
use solanago.Runtime.Abi.Layout.{IsInputAccount, record_bytes}
use solanago.Runtime.Abi.Cursor.{IsAt, take_slice-IsAt, read_u64-IsAt, boolean-IsAt, splice-IsAt}

-- The record of an account whose flags begin at an offset.
abbrev pub record_of : ℕ → Account → AbiCursor → AccountRecord
record_of n a c = record {
  is_signer = a.is_signer;
  is_writable = a.is_writable;
  executable = a.executable;
  key = a.key;
  owner = a.owner;
  lamports = a.lamports;
  data_len = length a.bytes;
  bytes = a.bytes ++ replicate max_permitted_data_increase 0;
  key_offset = n + 7;
  owner_offset = n + 39;
  lamports_offset = n + 71;
  data_offset = n + 87;
  cursor = c;
}

abbrev pub record_length : Account → ℕ
record_length a =
    87 + (length a.bytes + max_permitted_data_increase) + alignment_padding (length a.bytes) + 8

fits :
    (n : ℕ)
    → n ≤ max_permitted_data_length
    → (ltb max_permitted_data_length n || ltb (2 ^ 32 - 1) n) ≡ false
fits n h = ground arith

room_behind :
    (n : ℕ)
    → n ≤ max_permitted_data_length
    → or_invalid (checked_add_int n max_permitted_data_increase)
      ≡ ok (n + max_permitted_data_increase)
unfolding or_invalid checked_add_int
room_behind n h = ground arith

-- The record with the offsets that the cursors had.
abbrev record_at : Account → ℕ → ℕ → ℕ → ℕ → AbiCursor → AccountRecord
record_at a key owner lamports bytes c = record (record_of 0 a c) {
  key_offset = key;
  owner_offset = owner;
  lamports_offset = lamports;
  data_offset = bytes;
}

same_record :
    (a : Account) (c : AbiCursor) (n key owner lamports bytes : ℕ)
    → key ≡ n + 7
    → owner ≡ n + 39
    → lamports ≡ n + 71
    → bytes ≡ n + 87
    → record_at a key owner lamports bytes c ≡ record_of n a c
same_record a c n key owner lamports bytes e f g h = rw (e, f, g, h)

-- The reads of a record, one after the other.
parse_record-reads :
    (strict : Bool) (a : Account) (c c1 c2 c3 c4 c5 c6 c7 c8 c10 c11 c12 : AbiCursor)
    → length a.bytes ≤ max_permitted_data_length
    → boolean strict c ≡ ok (a.is_signer, c1)
    → boolean strict c1 ≡ ok (a.is_writable, c2)
    → boolean strict c2 ≡ ok (a.executable, c3)
    → take_slice c3 4 ≡ ok (replicate 4 0, c4)
    → take_slice c4 32 ≡ ok (a.key, c5)
    → take_slice c5 32 ≡ ok (a.owner, c6)
    → read_u64 c6 ≡ ok (a.lamports, c7)
    → read_u64 c7 ≡ ok (length a.bytes, c8)
    → take_slice
        (record c8 { bytes = splice c8.bytes c3.offset (put_le 4 (length a.bytes)) })
        (length a.bytes + max_permitted_data_increase)
      ≡ ok (a.bytes ++ replicate max_permitted_data_increase 0, c10)
    → take_slice c10 (alignment_padding (length a.bytes))
      ≡ ok (replicate (alignment_padding (length a.bytes)) 0, c11)
    → read_u64 c11 ≡ ok (2 ^ 64 - 1, c12)
    → parse_record strict c ≡ ok (record_at a c4.offset c5.offset c6.offset c8.offset c12)
unfolding parse_record
parse_record-reads strict a c c1 c2 c3 c4 c5 c6 c7 c8 c10 c11 c12 short e1 e2 e3 e4 e5 e6 e7 e8 e10
      e11 e12 =
    let fit = fits (length a.bytes) short in
    let room = room_behind (length a.bytes) short in
    rw (e1, e2, e3, e4, e5, e6, e7, e8, fit, room, e10, e11, e12)

pub parse_record-IsAt :
    (strict : Bool) (n : ℕ) (a : Account) (rest : List ℕ) (c : AbiCursor)
    → IsInputAccount a
    → IsAt n (record_bytes a rest) c
    → (d : AbiCursor) × (parse_record strict c ≡ ok (record_of n a d))
      × IsAt (n + record_length a) rest d
parse_record-IsAt strict n a rest c (key, owner, lamports, short) h =
    let (c1, e1, h1) = boolean-IsAt strict a.is_signer n _ c h in
    let (c2, e2, h2) = boolean-IsAt strict a.is_writable (n + 1) _ _ h1 in
    let (c3, e3, h3) = boolean-IsAt strict a.executable (n + 1 + 1) _ _ h2 in
    let (c4, e4, h4) = take_slice-IsAt (n + 1 + 1 + 1) 4 (replicate 4 0) _ _ refl h3 in
    let (c5, e5, h5) = take_slice-IsAt (n + 1 + 1 + 1 + 4) 32 a.key _ _ key h4 in
    let (c6, e6, h6) = take_slice-IsAt (n + 1 + 1 + 1 + 4 + 32) 32 a.owner _ _ owner h5 in
    let (c7, e7, h7) = read_u64-IsAt (n + 1 + 1 + 1 + 4 + 32 + 32) a.lamports _ _ lamports h6 in
    let (c8, e8, h8) =
      read_u64-IsAt (n + 1 + 1 + 1 + 4 + 32 + 32 + 8) (length a.bytes) _ _ (omega (arith, short))
        h7 in
    let h9 =
      splice-IsAt (n + 1 + 1 + 1 + 4 + 32 + 32 + 8 + 8) c3.offset (put_le 4 (length a.bytes)) _ _
        (omega (arith, length-put_le 4 (length a.bytes), h3.offset_same)) h8 in
    let size : length (a.bytes ++ replicate max_permitted_data_increase 0)
        ≡ length a.bytes + max_permitted_data_increase =
      omega (
        arith,
        length-append a.bytes (replicate max_permitted_data_increase 0),
        length-replicate {A = ℕ} max_permitted_data_increase 0,
      ) in
    let (c10, e10, h10) =
      take_slice-IsAt (n + 1 + 1 + 1 + 4 + 32 + 32 + 8 + 8)
        (length a.bytes + max_permitted_data_increase)
        (a.bytes ++ replicate max_permitted_data_increase 0) _ _ size h9 in
    let (c11, e11, h11) =
      take_slice-IsAt _ (alignment_padding (length a.bytes))
        (replicate (alignment_padding (length a.bytes)) 0) _ _
        (length-replicate {A = ℕ} (alignment_padding (length a.bytes)) 0) h10 in
    let (c12, e12, h12) = read_u64-IsAt _ (2 ^ 64 - 1) rest _ (ground arith) h11 in
    (
      c12,
      parse_record-reads strict a c c1 c2 c3 c4 c5 c6 c7 c8 c10 c11 c12 short e1 e2 e3 e4 e5 e6 e7
            e8 e10 e11 e12
          ∙ ap ok (
              same_record a c12 n c4.offset c5.offset c6.offset c8.offset
                (omega (arith, h4.offset_same)) (omega (arith, h5.offset_same))
                (omega (arith, h6.offset_same)) (omega (arith, h8.offset_same))),
      subst (λ (k : ℕ). IsAt k rest c12) (omega arith) h12,
    )
