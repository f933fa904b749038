-- ===== src/Base/Bytes.antt =====
-- Byte slices as lists of numbers, and the little-endian words of Go's encoding/binary.
use Prim.Native.Nat.{ℕ, zero, suc, ◌+◌, ◌*◌, ◌/◌, ◌%◌, ◌^◌, ◌<◌}
use mathlib.Core.Path.{◌≡◌, refl, ap, ap₂}
use mathlib.Core.List.{List, [], ◌∷◌}
use mathlib.Core.Logic.{◌≢◌}
use mathlib.Core.Bool.{Bool, true, false, ◌&&◌}
use solanago.Base.Tests.{◌==◌}
use native.Mathlib.Omega.{arith}
use native.Mathlib.Nat.{pow-suc}
use solanago.Base.Lists.{length, All}

abbrev pub IsByte : ℕ → Type 0
IsByte b = b < 256

-- `PutUint16`, `PutUint32` and `PutUint64` write `n` bytes, lowest first.
abbrev pub put_le : ℕ → ℕ → List ℕ
put_le zero w = []
put_le (suc n) w = (w % 256) ∷ put_le n (w / 256)

-- `Uint16`, `Uint32` and `Uint64` read them.
abbrev pub get_le : List ℕ → ℕ
get_le [] = 0
get_le (b ∷ bs) = b + 256 * get_le bs

pub length-put_le : (n w : ℕ) → length (put_le n w) ≡ n
length-put_le zero w = refl
length-put_le (suc n) w = ap suc (length-put_le n (w / 256))

pub put_le-IsByte : (n w : ℕ) → All IsByte (put_le n w)
put_le-IsByte zero w = tt
put_le-IsByte (suc n) w = (omega arith, put_le-IsByte n (w / 256))

pub get_le-put_le : (n w : ℕ) → w < 256 ^ n → get_le (put_le n w) ≡ w
get_le-put_le zero w h = omega arith
get_le-put_le (suc n) w h = omega (arith, get_le-put_le n (w / 256) (omega (arith, pow-suc 256 n)))

pub get_le-lt : (bs : List ℕ) → All IsByte bs → get_le bs < 256 ^ length bs
get_le-lt [] h = omega arith
get_le-lt (b ∷ bs) h = omega (arith, pow-suc 256 (length bs), get_le-lt bs h.1)

pub put_le-get_le : (bs : List ℕ) → All IsByte bs → put_le (length bs) (get_le bs) ≡ bs
put_le-get_le [] h = refl
put_le-get_le (b ∷ bs) (hb, hbs) =
    ap₂ ◌∷◌ (omega arith) (rw (quotient b (get_le bs) hb) (put_le-get_le bs hbs))
  where
    quotient : (b v : ℕ) → b < 256 → (b + 256 * v) / 256 ≡ v
    quotient b v h = omega arith

-- `a == b` on arrays and strings.
unfoldable pub equal : List ℕ → List ℕ → Bool
equal [] [] = true
equal (x ∷ xs) (y ∷ ys) = x == y && equal xs ys
equal _ _ = false

unfoldable pub all_zero : List ℕ → Bool
all_zero [] = true
all_zero (value ∷ rest) = value == 0 && all_zero rest

pub equal-eq : (xs ys : List ℕ) → equal xs ys ≡ true → xs ≡ ys
unfolding equal
equal-eq [] [] h = refl
equal-eq [] (y ∷ ys) h = cc
equal-eq (x ∷ xs) [] h = cc
equal-eq (x ∷ xs) (y ∷ ys) h = ground (arith, equal-eq xs ys)

pub equal_refl : (xs : List ℕ) → equal xs xs ≡ true
unfolding equal
equal_refl [] = refl
equal_refl (x ∷ xs) = ground (arith, equal_refl xs)

pub equal-false : (xs ys : List ℕ) → equal xs ys ≡ false → xs ≢ ys
equal-false xs ys h e = let same : equal xs xs ≡ false = rw (← e) at h in cc (equal_refl xs)
