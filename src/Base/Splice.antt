-- ===== src/Base/Splice.antt =====
-- Writing a run of bytes into a slice.
use Prim.Native.Nat.{ℕ, zero, suc, ◌+◌, ◌-◌, ◌≤◌}
use mathlib.Core.Path.{◌≡◌, refl, ap, ◌∙◌}
use mathlib.Core.List.{List, [], ◌∷◌, ◌++◌}
use native.Mathlib.Omega.{arith}
use solanago.Base.Lists.{
  length, take, drop, All, length-append, length-take, length-drop, All-take, All-drop, All-append,
  drop-drop,
}
use solanago.Base.Bytes.{IsByte}

-- The bytes with `new` written from `offset` on.
unfoldable pub splice : List ℕ → ℕ → List ℕ → List ℕ
splice bytes offset new = take offset bytes ++ (new ++ drop (offset + length new) bytes)

splice-suc :
    (x : ℕ) (bytes : List ℕ) (offset : ℕ) (new : List ℕ)
    → splice (x ∷ bytes) (suc offset) new ≡ x ∷ splice bytes offset new
unfolding splice
splice-suc x bytes offset new =
    let e : suc offset + length new ≡ suc (offset + length new) = omega arith in rw e

splice-zero : (bytes new : List ℕ) → splice bytes zero new ≡ new ++ drop (length new) bytes
unfolding splice
splice-zero bytes new = let e : zero + length new ≡ length new = omega arith in rw e

pub length-splice :
    (bytes : List ℕ) (offset : ℕ) (new : List ℕ)
    → offset + length new ≤ length bytes
    → length (splice bytes offset new) ≡ length bytes
unfolding splice
length-splice bytes offset new h =
    length-append (take offset bytes) (new ++ drop (offset + length new) bytes)
    ∙ omega (
      arith,
      length-append new (drop (offset + length new) bytes),
      length-take offset bytes,
      length-drop (offset + length new) bytes,
    )

pub splice-IsByte :
    (bytes : List ℕ) (offset : ℕ) (new : List ℕ)
    → All IsByte bytes
    → All IsByte new
    → All IsByte (splice bytes offset new)
unfolding splice
splice-IsByte bytes offset new b n =
    All-append IsByte _ _ (All-take IsByte offset bytes b)
      (All-append IsByte new _ n (All-drop IsByte (offset + length new) bytes b))

pub take-append : (xs ys : List ℕ) → take (length xs) (xs ++ ys) ≡ xs
take-append [] ys = refl
take-append (x ∷ xs) ys = ap (λ l. x ∷ l) (take-append xs ys)

pub drop-append :
    (xs ys : List ℕ) (k : ℕ) → length xs ≤ k → drop k (xs ++ ys) ≡ drop (k - length xs) ys
drop-append [] ys k h = let e : k - 0 ≡ k = omega arith in rw e
drop-append (x ∷ xs) ys zero h = absurd (omega arith)
drop-append (x ∷ xs) ys (suc k) h =
    let e : suc k - suc (length xs) ≡ k - length xs = omega arith in
    rw e (drop-append xs ys k (omega arith))

-- What was written is read back.
pub read-splice :
    (bytes : List ℕ) (offset : ℕ) (new : List ℕ)
    → offset + length new ≤ length bytes
    → take (length new) (drop offset (splice bytes offset new)) ≡ new
read-splice bytes zero new h = rw (splice-zero bytes new) (take-append new _)
read-splice [] (suc offset) new h = absurd (omega arith)
read-splice (x ∷ bytes) (suc offset) new h =
    rw (splice-suc x bytes offset new) (read-splice bytes offset new (omega arith))

take-splice :
    (bytes : List ℕ) (offset width : ℕ) (new : List ℕ)
    → offset + length new ≤ length bytes
    → width ≤ offset
    → take width (splice bytes offset new) ≡ take width bytes
take-splice bytes offset zero new h k = refl
take-splice bytes zero (suc width) new h k = absurd (omega arith)
take-splice [] (suc offset) (suc width) new h k = absurd (omega arith)
take-splice (x ∷ bytes) (suc offset) (suc width) new h k =
    rw (splice-suc x bytes offset new)
      (ap (λ l. x ∷ l) (take-splice bytes offset width new (omega arith) (omega arith)))

-- Bytes below the written ones are unchanged,
pub below-splice :
    (bytes : List ℕ) (offset from width : ℕ) (new : List ℕ)
    → offset + length new ≤ length bytes
    → from + width ≤ offset
    → take width (drop from (splice bytes offset new)) ≡ take width (drop from bytes)
below-splice bytes offset zero width new h k = take-splice bytes offset width new h (omega arith)
below-splice [] offset (suc from) width new h k = absurd (omega arith)
below-splice (x ∷ bytes) zero (suc from) width new h k = absurd (omega arith)
below-splice (x ∷ bytes) (suc offset) (suc from) width new h k =
    rw (splice-suc x bytes offset new)
      (below-splice bytes offset from width new (omega arith) (omega arith))

-- and so are those above them.
pub above-splice :
    (bytes : List ℕ) (offset from : ℕ) (new : List ℕ)
    → offset + length new ≤ length bytes
    → offset + length new ≤ from
    → drop from (splice bytes offset new) ≡ drop from bytes
above-splice bytes zero from new h k =
    let e : length new + (from - length new) ≡ from = omega arith in
    rw (splice-zero bytes new) (
      drop-append new (drop (length new) bytes) from (omega arith)
      ∙ drop-drop (length new) (from - length new) bytes
      ∙ rw e)
above-splice bytes (suc offset) zero new h k = absurd (omega arith)
above-splice [] (suc offset) (suc from) new h k = absurd (omega arith)
above-splice (x ∷ bytes) (suc offset) (suc from) new h k =
    rw (splice-suc x bytes offset new)
      (above-splice bytes offset from new (omega arith) (omega arith))
