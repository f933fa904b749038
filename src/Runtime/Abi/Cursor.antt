-- ===== src/Runtime/Abi/Cursor.antt =====
-- What a cursor reads where it stands.
use solanago.Base.{ℕ, ◌+◌, ◌-◌, ◌^◌, ◌≡◌, ◌≤◌, ◌<◌, refl, sym, ap, ◌∙◌, Bool, true, false, arith}
use solanago.Base.{List, [], ◌∷◌, ◌++◌, length, drop, length-append, ok}
use solanago.Base.{◌||◌, ltb, Bool-cases, inl, inr, length-drop, drop-drop}
use solanago.Base.Bytes.{put_le, length-put_le, get_le-put_le}
use solanago.Base.Splice.{splice, length-splice, take-append, drop-append, above-splice}
use solanago.Runtime.Abi.{bool_byte}
use solanago.Runtime.Abi.Parse.{AbiCursor, take_slice, read_u8, read_u64, boolean}

-- A cursor at an offset, with the bytes that follow.
pub record IsAt (n : ℕ) (rest : List ℕ) (c : AbiCursor) : Type 0 where
  pub offset_same : c.offset ≡ n
  pub rest_same : drop n c.bytes ≡ rest
  pub inside : n ≤ length c.bytes

abbrev past : AbiCursor → ℕ → AbiCursor
past c k = record c { offset = c.offset + k }

drop-front : (xs rest : List ℕ) → drop (length xs) (xs ++ rest) ≡ rest
drop-front xs rest =
    let e : length xs - length xs ≡ 0 = omega arith in
    drop-append xs rest (length xs) (omega arith) ∙ ap (λ k. drop k rest) e

pub take_slice-IsAt :
    (n k : ℕ) (xs rest : List ℕ) (c : AbiCursor)
    → length xs ≡ k
    → IsAt n (xs ++ rest) c
    → (d : AbiCursor) × (take_slice c k ≡ ok (xs, d)) × IsAt (n + k) rest d
unfolding take_slice
take_slice-IsAt n k xs rest c e h =
    let room : length xs + length rest + n ≡ length c.bytes =
      omega
        (arith, length-append xs rest, ap length h.rest_same, length-drop n c.bytes, h.inside) in
    let same : drop c.offset c.bytes ≡ xs ++ rest =
      ap (λ o. drop o c.bytes) h.offset_same ∙ h.rest_same in
    (
      past c k,
      rw same
          (elim (Bool-cases (ltb (length c.bytes) c.offset || ltb (length c.bytes - c.offset) k)) [
            | inl e1 ↦ absurd (ground (arith, e1, room, e, h.offset_same))
            | inr e1 ↦ rw (e1, ← e, take-append xs rest)
          ]),
      record {
        offset_same = omega (arith, h.offset_same);
        rest_same =
            sym (drop-drop n k c.bytes)
            ∙ ap (drop k) h.rest_same
            ∙ ap (λ j. drop j (xs ++ rest)) (sym e)
            ∙ drop-front xs rest;
        inside = omega (arith, room, e);
      },
    )

pub read_u8-IsAt :
    (n v : ℕ) (rest : List ℕ) (c : AbiCursor)
    → IsAt n (v ∷ rest) c
    → (d : AbiCursor) × (read_u8 c ≡ ok (v, d)) × IsAt (n + 1) rest d
unfolding read_u8
read_u8-IsAt n v rest c h =
    let (d, e, after) = take_slice-IsAt n 1 (v ∷ []) rest c refl h in (d, rw e, after)

pub read_u64-IsAt :
    (n v : ℕ) (rest : List ℕ) (c : AbiCursor)
    → v < 2 ^ 64
    → IsAt n (put_le 8 v ++ rest) c
    → (d : AbiCursor) × (read_u64 c ≡ ok (v, d)) × IsAt (n + 8) rest d
unfolding read_u64
read_u64-IsAt n v rest c small h =
    let (d, e, after) = take_slice-IsAt n 8 (put_le 8 v) rest c (length-put_le 8 v) h in
    (d, rw (e, get_le-put_le 8 v small), after)

pub boolean-IsAt :
    (strict b : Bool) (n : ℕ) (rest : List ℕ) (c : AbiCursor)
    → IsAt n (bool_byte b ∷ rest) c
    → (d : AbiCursor) × (boolean strict c ≡ ok (b, d)) × IsAt (n + 1) rest d
unfolding boolean bool_byte
boolean-IsAt strict b n rest c h =
    let (d, e, after) = read_u8-IsAt n (bool_byte b) rest c h in (d, read strict b c d e, after)
  where
    read :
        (strict b : Bool) (c d : AbiCursor)
        → read_u8 c ≡ ok (bool_byte b, d)
        → boolean strict c ≡ ok (b, d)
    read true true c d e = rw e refl
    read true false c d e = rw e refl
    read false true c d e = rw e refl
    read false false c d e = rw e refl

-- A write behind a cursor.
pub splice-IsAt :
    (n offset : ℕ) (new rest : List ℕ) (c : AbiCursor)
    → offset + length new ≤ n
    → IsAt n rest c
    → IsAt n rest (record c { bytes = splice c.bytes offset new })
splice-IsAt n offset new rest c h at = record {
  offset_same = at.offset_same;
  rest_same = above-splice c.bytes offset n new (omega (arith, h, at.inside)) h ∙ at.rest_same;
  inside = omega (arith, at.inside, length-splice c.bytes offset new (omega (arith, h, at.inside)));
}
