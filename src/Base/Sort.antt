-- ===== src/Base/Sort.antt =====
-- `sort.Slice` with a number as the key, as an insertion sort. Go's sort may leave items of one key in
-- another order.
use Prim.Native.Nat.{ℕ, ◌≤◌}
use mathlib.Core.List.{List, [], ◌∷◌, Perm}
use mathlib.Core.List.Perm
use native.Mathlib.Omega.{arith}
use mathlib.Core.Logic.{inl, inr}
use solanago.Base.Tests.{ltb, if◌then◌else◌, Bool-cases}
use solanago.Base.Lists.{All}

module _ {ℓ} {A : Type ℓ} (key : A → ℕ) where
  unfoldable pub insert_by : A → List A → List A
  insert_by a [] = a ∷ []
  insert_by a (b ∷ rest) = if ltb (key b) (key a) then b ∷ insert_by a rest else a ∷ b ∷ rest

  unfoldable pub sort_by : List A → List A
  sort_by [] = []
  sort_by (a ∷ rest) = insert_by a (sort_by rest)

  -- No key is below `low`, nor below the one before it.
  abbrev pub IsAscending : ℕ → List A → Type 0
  IsAscending low [] = Unit
  IsAscending low (a ∷ rest) = (low ≤ key a) × IsAscending (key a) rest

  insert_by-IsAscending :
      (low : ℕ) (a : A) (l : List A)
      → low ≤ key a
      → IsAscending low l
      → IsAscending low (insert_by a l)
  unfolding insert_by
  insert_by-IsAscending low a [] h s = (h, tt)
  insert_by-IsAscending low a (b ∷ rest) h (k, s) = elim (Bool-cases (ltb (key b) (key a))) [
    | inl below ↦ rw below (k, insert_by-IsAscending (key b) a rest (ground arith) s)
    | inr above ↦ rw above (h, (ground arith, s))
  ]

  pub sort_by-IsAscending : (l : List A) → IsAscending 0 (sort_by l)
  unfolding sort_by
  sort_by-IsAscending [] = tt
  sort_by-IsAscending (a ∷ rest) =
      insert_by-IsAscending 0 a (sort_by rest) (omega arith) (sort_by-IsAscending rest)

  insert_by-perm : (a : A) (l : List A) → Perm (insert_by a l) (a ∷ l)
  unfolding insert_by
  insert_by-perm a [] = Perm.refl (a ∷ [])
  insert_by-perm a (b ∷ rest) = elim (Bool-cases (ltb (key b) (key a))) [
    | inl below ↦ rw below (Perm.trans (Perm.cons b (insert_by-perm a rest)) (Perm.swap a b rest))
    | inr above ↦ rw above (Perm.refl (a ∷ b ∷ rest))
  ]

  pub sort_by-perm : (l : List A) → Perm (sort_by l) l
  unfolding sort_by
  sort_by-perm [] = Perm.refl []
  sort_by-perm (a ∷ rest) =
      Perm.trans (insert_by-perm a (sort_by rest)) (Perm.cons a (sort_by-perm rest))

  insert_by-All {κ} : (P : A → Type κ) (a : A) (l : List A) → P a → All P l → All P (insert_by a l)
  unfolding insert_by
  insert_by-All P a [] h k = (h, tt)
  insert_by-All P a (b ∷ rest) h (k, s) = elim (Bool-cases (ltb (key b) (key a))) [
    | inl below ↦ rw below (k, insert_by-All P a rest h s)
    | inr above ↦ rw above (h, (k, s))
  ]

  pub sort_by-All {κ} : (P : A → Type κ) (l : List A) → All P l → All P (sort_by l)
  unfolding sort_by
  sort_by-All P [] h = tt
  sort_by-All P (a ∷ rest) (h, s) = insert_by-All P a (sort_by rest) h (sort_by-All P rest s)
