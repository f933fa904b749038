-- ===== src/Base/Search.antt =====
-- `sort.Search`: the binary search of Go's package sort.
use Prim.Native.Nat.{ℕ, zero, suc, ◌+◌, ◌/◌, ◌≤◌, ◌<◌}
use mathlib.Core.Path.{◌≡◌}
use mathlib.Core.Logic.{inl, inr}
use mathlib.Core.Bool.{Bool, true, false}
use native.Mathlib.Omega.{arith}
use native.Mathlib.Decide.{dec_lt}
use solanago.Base.Tests.{ltb, if◌then◌else◌, Bool-cases}

-- `for i < j { h := (i+j)/2; if !f(h) { i = h + 1 } else { j = h } }; return i`, on fuel.
unfoldable pub search_between : ℕ → (ℕ → Bool) → ℕ → ℕ → ℕ
search_between zero f i j = i
search_between (suc fuel) f i j =
    let h = (i + j) / 2 in
    let lower = search_between fuel f i h in
    let upper = search_between fuel f (h + 1) j in
    if ltb i j then (if f h then lower else upper) else i

unfoldable pub search_first : ℕ → (ℕ → Bool) → ℕ
search_first n f = search_between n f 0 n

-- The test fails below the index `r` of a range, and holds from there on.
pub record IsFirst (f : ℕ → Bool) (i j r : ℕ) : Type 0 where
  pub from : i ≤ r
  pub to : r ≤ j
  pub below : (k : ℕ) → i ≤ k → k < r → f k ≡ false
  pub there : r < j → f r ≡ true

module _ (f : ℕ → Bool) (rises : (a b : ℕ) → a ≤ b → f a ≡ true → f b ≡ true) where
  falls : (a b : ℕ) → a ≤ b → f b ≡ false → f a ≡ false
  falls a b h e = elim (Bool-cases (f a)) [ inl t ↦ let up = rises a b h t in cc | inr n ↦ n ]

  search_between-IsFirst :
      (fuel i j : ℕ) → i ≤ j → j ≤ i + fuel → IsFirst f i j (search_between fuel f i j)
  unfolding search_between
  search_between-IsFirst zero i j h enough = record {
    from = omega arith;
    to = h;
    below = λ k a b. absurd (omega arith);
    there = λ b. absurd (omega arith);
  }
  search_between-IsFirst (suc fuel) i j h enough = elim (Bool-cases (ltb i j)) [
    | inr done ↦ rw done (record {
      from = omega arith;
      to = h;
      below = λ k a b. absurd (omega arith);
      there = λ b. absurd (ground arith);
    })
    | inl more ↦
        let m = (i + j) / 2 in
        let room : i < j = ground arith in
        rw more (elim (Bool-cases (f m)) [
          | inl holds ↦ rw holds (
              let s = search_between-IsFirst fuel i m (omega arith) (omega arith) in
              record {
                from = s.from;
                to = omega (arith, s.to);
                below = s.below;
                there = λ b. elim (dec_lt (search_between fuel f i m) m) [
                  | yes lt ↦ s.there lt
                  | no ge ↦ rises m (search_between fuel f i m) (omega arith) holds
                ];
              })
          | inr fails ↦ rw fails (
              let s = search_between-IsFirst fuel (m + 1) j (omega arith) (omega arith) in
              record {
                from = omega (arith, s.from);
                to = s.to;
                below = λ k a b. elim (dec_lt m k) [
                  | yes lt ↦ s.below k (omega arith) b
                  | no ge ↦ falls k m (omega arith) fails
                ];
                there = s.there;
              })
        ])
  ]

  -- On a test that keeps holding once it holds, the search gives the first index at which it holds.
  pub search_first-IsFirst : (n : ℕ) → IsFirst f 0 n (search_first n f)
  unfolding search_first
  search_first-IsFirst n = search_between-IsFirst n 0 n (omega arith) (omega arith)
