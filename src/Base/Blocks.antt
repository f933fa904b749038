-- ===== src/Base/Blocks.antt =====
-- A byte slice as its blocks, one after the other: reads and writes inside one of them.
use Prim.Native.Nat.{ℕ, zero, suc, ◌+◌, ◌-◌, ◌≤◌}
use mathlib.Core.Path.{◌≡◌, refl, sym, ap, ◌∙◌}
use mathlib.Core.Option.{some}
use mathlib.Core.List.{List, [], ◌∷◌, ◌++◌}
use native.Mathlib.Omega.{arith}
use solanago.Base.Lists.{length, take, drop, get_elem?, set, get_or, length-append, length-drop}
use solanago.Base.Splice.{splice}

-- `bytes[offset : offset+size]`.
unfoldable pub range : List ℕ → ℕ → ℕ → List ℕ
range bytes offset size = take size (drop offset bytes)

abbrev pub join : List (List ℕ) → List ℕ
join [] = []
join (b ∷ blocks) = b ++ join blocks

-- The bytes before a block.
abbrev pub before : List (List ℕ) → ℕ → ℕ
before [] i = 0
before (b ∷ blocks) zero = 0
before (b ∷ blocks) (suc i) = length b + before blocks i

append_assoc : (xs ys zs : List ℕ) → (xs ++ ys) ++ zs ≡ xs ++ (ys ++ zs)
append_assoc [] ys zs = refl
append_assoc (x ∷ xs) ys zs = ap (λ l. x ∷ l) (append_assoc xs ys zs)

take-front : (n : ℕ) (xs ys : List ℕ) → n ≤ length xs → take n (xs ++ ys) ≡ take n xs
take-front zero xs ys h = refl
take-front (suc n) [] ys h = absurd (omega arith)
take-front (suc n) (x ∷ xs) ys h = ap (λ l. x ∷ l) (take-front n xs ys (omega arith))

drop-front : (n : ℕ) (xs ys : List ℕ) → n ≤ length xs → drop n (xs ++ ys) ≡ drop n xs ++ ys
drop-front zero xs ys h = refl
drop-front (suc n) [] ys h = absurd (omega arith)
drop-front (suc n) (x ∷ xs) ys h = drop-front n xs ys (omega arith)

take-behind : (k : ℕ) (xs ys : List ℕ) → take (length xs + k) (xs ++ ys) ≡ xs ++ take k ys
take-behind k [] ys = let e : 0 + k ≡ k = omega arith in rw e
take-behind k (x ∷ xs) ys =
    let e : suc (length xs) + k ≡ suc (length xs + k) = omega arith in
    rw e (ap (λ l. x ∷ l) (take-behind k xs ys))

drop-behind : (k : ℕ) (xs ys : List ℕ) → drop (length xs + k) (xs ++ ys) ≡ drop k ys
drop-behind k [] ys = let e : 0 + k ≡ k = omega arith in rw e
drop-behind k (x ∷ xs) ys =
    let e : suc (length xs) + k ≡ suc (length xs + k) = omega arith in rw e (drop-behind k xs ys)

splice-front :
    (xs ys : List ℕ) (offset : ℕ) (new : List ℕ)
    → offset + length new ≤ length xs
    → splice (xs ++ ys) offset new ≡ splice xs offset new ++ ys
unfolding splice
splice-front xs ys offset new h =
    rw (take-front offset xs ys (omega arith), drop-front (offset + length new) xs ys h)
      (sym (
        append_assoc (take offset xs) (new ++ drop (offset + length new) xs) ys
        ∙ ap (λ l. take offset xs ++ l) (append_assoc new (drop (offset + length new) xs) ys)))

splice-behind :
    (xs ys : List ℕ) (offset : ℕ) (new : List ℕ)
    → splice (xs ++ ys) (length xs + offset) new ≡ xs ++ splice ys offset new
unfolding splice
splice-behind xs ys offset new =
    let e : length xs + offset + length new ≡ length xs + (offset + length new) = omega arith in
    rw (e, take-behind offset xs ys, drop-behind (offset + length new) xs ys)
      (append_assoc xs (take offset ys) (new ++ drop (offset + length new) ys))

-- A write inside a block changes the block.
pub splice-join :
    (blocks : List (List ℕ)) (i : ℕ) (b : List ℕ) (offset : ℕ) (new : List ℕ)
    → get_elem? blocks i ≡ some b
    → offset + length new ≤ length b
    → splice (join blocks) (before blocks i + offset) new
      ≡ join (set blocks i (splice b offset new))
splice-join [] i b offset new e h = absurd (cc e)
splice-join (c ∷ blocks) zero b offset new e h =
    let same_block : c ≡ b = cc in
    let start : 0 + offset ≡ offset = omega arith in
    rw (same_block, start) (splice-front b (join blocks) offset new h)
splice-join (c ∷ blocks) (suc i) b offset new e h =
    let start : length c + before blocks i + offset ≡ length c + (before blocks i + offset) =
      omega arith in
    rw start (
      splice-behind c (join blocks) (before blocks i + offset) new
      ∙ ap (λ l. c ++ l) (splice-join blocks i b offset new e h))

pub before-set :
    (blocks : List (List ℕ)) (i : ℕ) (b : List ℕ) → before (set blocks i b) i ≡ before blocks i
before-set [] i b = refl
before-set (x ∷ blocks) zero b = refl
before-set (x ∷ blocks) (suc i) b = ap (λ n. length x + n) (before-set blocks i b)

-- A read inside a block reads the block.
pub range-join :
    (blocks : List (List ℕ)) (i : ℕ) (b : List ℕ) (start offset size : ℕ)
    → get_elem? blocks i ≡ some b
    → start ≡ before blocks i + offset
    → offset + size ≤ length b
    → range (join blocks) start size ≡ range b offset size
unfolding range
range-join [] i b start offset size e s h = absurd (cc e)
range-join (c ∷ blocks) zero b start offset size e s h =
    let same_block : c ≡ b = cc in
    let here : start ≡ offset = omega arith in
    rw (same_block, here, drop-front offset b (join blocks) (omega arith))
      (take-front size (drop offset b) (join blocks) (omega (arith, length-drop offset b)))
range-join (c ∷ blocks) (suc i) b start offset size e s h =
    let further : start ≡ length c + (start - length c) = omega arith in
    rw further (
      ap (take size) (drop-behind (start - length c) c (join blocks))
      ∙ range-join blocks i b (start - length c) offset size e (omega arith) h)

-- A write at the beginning of a block, whose outcome on the block is known.
pub splice_written :
    (bytes : List ℕ) (s : List (List ℕ)) (i : ℕ) (b b' : List ℕ) (start : ℕ) (new : List ℕ)
    → bytes ≡ join s
    → get_elem? s i ≡ some b
    → start ≡ before s i
    → length new ≤ length b
    → splice b 0 new ≡ b'
    → splice bytes start new ≡ join (set s i b')
splice_written bytes s i b b' start new e at here inside result =
    let base : start ≡ before s i + 0 = omega arith in
    ap (λ l. splice l start new) e
    ∙ ap (λ k. splice (join s) k new) base
    ∙ splice-join s i b 0 new at (omega arith)
    ∙ ap (λ c. join (set s i c)) result

pub range-whole : (xs : List ℕ) → range xs 0 (length xs) ≡ xs
unfolding range
range-whole [] = refl
range-whole (x ∷ xs) = ap (λ l. x ∷ l) (range-whole xs)

-- A read of a whole block.
pub range_block :
    (s : List (List ℕ)) (i : ℕ) (b : List ℕ) (start size : ℕ)
    → get_elem? s i ≡ some b
    → start ≡ before s i
    → length b ≡ size
    → range (join s) start size ≡ b
range_block s i b start size at here whole =
    range-join s i b start 0 size at (omega arith) (omega arith)
    ∙ ap (λ n. range b 0 n) (sym whole)
    ∙ range-whole b

-- A byte is a range of one byte.
pub get_or-range : (bytes : List ℕ) (n : ℕ) → get_or bytes n 0 ≡ get_or (range bytes n 1) 0 0
unfolding range
get_or-range [] zero = refl
get_or-range [] (suc n) = refl
get_or-range (x ∷ bytes) zero = refl
get_or-range (x ∷ bytes) (suc n) = get_or-range bytes n

pub append-nil : (xs : List ℕ) → xs ++ [] ≡ xs
append-nil [] = refl
append-nil (x ∷ xs) = ap (λ l. x ∷ l) (append-nil xs)

drop-all : (xs : List ℕ) (n : ℕ) → length xs ≤ n → drop n xs ≡ []
drop-all [] zero h = refl
drop-all [] (suc n) h = refl
drop-all (x ∷ xs) zero h = absurd (omega arith)
drop-all (x ∷ xs) (suc n) h = drop-all xs n (omega arith)

-- A write over a whole block.
pub splice-whole : (b new : List ℕ) → length b ≡ length new → splice b 0 new ≡ new
unfolding splice
splice-whole b new h =
    ap (λ l. new ++ l) (drop-all b (0 + length new) (omega arith)) ∙ append-nil new

abbrev pub total : List (List ℕ) → ℕ
total [] = 0
total (b ∷ rest) = length b + total rest

pub length-join : (s : List (List ℕ)) → length (join s) ≡ total s
length-join [] = refl
length-join (b ∷ rest) = length-append b (join rest) ∙ ap (λ n. length b + n) (length-join rest)
