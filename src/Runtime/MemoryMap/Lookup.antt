-- ===== src/Runtime/MemoryMap/Lookup.antt =====
-- The two binary searches for a region of a table.
use solanago.Base.{ℕ, suc, ◌+◌, ◌≤◌, ◌<◌, ◌≡◌, refl, sym, ◌∙◌, true, false, arith}
use solanago.Base.{List, length, get_elem?, some, inl, inr, ltb, leb, Option-cases}
use solanago.Base.{get_elem?-lt, get_elem?-below, get_elem?-All}
use native.Mathlib.Decide.{dec_lt}
use solanago.Base.Search.{search_first, search_first-IsFirst}
use solanago.Runtime.MemoryMap.{MemoryRegion, starts_from, starts_after}
use solanago.Runtime.MemoryMap.Table.{IsRegion, IsTable, ordered}

starts_from-at :
    (l : List MemoryRegion) (address k : ℕ) (r : MemoryRegion)
    → get_elem? l k ≡ some r
    → starts_from l address k ≡ leb address r.vm_start
unfolding starts_from
starts_from-at l address k r e = rw (starts_from, e) refl

starts_after-at :
    (l : List MemoryRegion) (address k : ℕ) (r : MemoryRegion)
    → get_elem? l k ≡ some r
    → starts_after l address k ≡ ltb address r.vm_start
unfolding starts_after
starts_after-at l address k r e = rw (starts_after, e) refl

-- The regions of a table begin one behind the other.
module _ (l : List MemoryRegion) (t : IsTable l) where
  starts_le :
      (a b : ℕ) (x y : MemoryRegion)
      → get_elem? l a ≡ some x
      → get_elem? l b ≡ some y
      → a ≤ b
      → x.vm_start ≤ y.vm_start
  starts_le a b x y e f h = elim (dec_lt a b) [
    | yes lt ↦ omega (arith, ordered 0 l a b x y t.spaced e f lt)
    | no ge ↦
        let same_index : a ≡ b = omega arith in
        let same_region : x ≡ y = let g = rw same_index at e in cc in rw same_region (omega arith)
  ]

  starts_lt :
      (a b : ℕ) (x y : MemoryRegion)
      → get_elem? l a ≡ some x
      → get_elem? l b ≡ some y
      → a < b
      → x.vm_start < y.vm_start
  starts_lt a b x y e f h =
      let p = get_elem?-All IsRegion l a x t.each e in
      omega (arith, ordered 0 l a b x y t.spaced e f h, p.reserved)

  starts_from-rises :
      (address a b : ℕ) → a ≤ b → starts_from l address a ≡ true → starts_from l address b ≡ true
  unfolding starts_from
  starts_from-rises address a b h holds = elim (Option-cases (get_elem? l b)) [
    | inl gone ↦ rw (starts_from, gone) refl
    | inr (y, f) ↦
        let (x, e) = get_elem?-below l a (omega (arith, get_elem?-lt l b y f)) in
        let before : leb address x.vm_start ≡ true = sym (starts_from-at l address a x e) ∙ holds in
        starts_from-at l address b y f ∙ ground (arith, starts_le a b x y e f h)
  ]

  starts_after-rises :
      (address a b : ℕ) → a ≤ b → starts_after l address a ≡ true → starts_after l address b ≡ true
  unfolding starts_after
  starts_after-rises address a b h holds = elim (Option-cases (get_elem? l b)) [
    | inl gone ↦ rw (starts_after, gone) refl
    | inr (y, f) ↦
        let (x, e) = get_elem?-below l a (omega (arith, get_elem?-lt l b y f)) in
        let before : ltb address x.vm_start ≡ true =
          sym (starts_after-at l address a x e) ∙ holds in
        starts_after-at l address b y f ∙ ground (arith, starts_le a b x y e f h)
  ]

  -- The first search finds the region that begins at the address,
  pub search_first-starts_from :
      (k : ℕ) (r : MemoryRegion)
      → get_elem? l k ≡ some r
      → search_first (length l) (starts_from l r.vm_start) ≡ k
  search_first-starts_from k r e =
      let f = starts_from l r.vm_start in
      let i = search_first (length l) f in
      let s = search_first-IsFirst f (starts_from-rises r.vm_start) (length l) in
      let not_before : ¬ (i < k) = λ h.
        let small = get_elem?-lt l k r e in
        let (x, ex) = get_elem?-below l i (omega arith) in
        let from : leb r.vm_start x.vm_start ≡ true =
          sym (starts_from-at l r.vm_start i x ex) ∙ s.there (omega arith) in
        let less = starts_lt i k x r ex e h in ground arith in
      let not_behind : ¬ (k < i) = λ h.
        let fails : leb r.vm_start r.vm_start ≡ false =
          sym (starts_from-at l r.vm_start k r e) ∙ s.below k (omega arith) h in
        ground arith in
      omega arith

  -- and the second the one in whose reservation the address lies.
  pub search_first-starts_after :
      (k : ℕ) (r : MemoryRegion) (address : ℕ)
      → get_elem? l k ≡ some r
      → r.vm_start ≤ address
      → address < r.vm_start + r.reserved_length
      → search_first (length l) (starts_after l address) ≡ suc k
  search_first-starts_after k r address e from to =
      let f = starts_after l address in
      let i = search_first (length l) f in
      let s = search_first-IsFirst f (starts_after-rises address) (length l) in
      let small = get_elem?-lt l k r e in
      let not_before : ¬ (i < suc k) = λ h.
        let (x, ex) = get_elem?-below l i (omega arith) in
        let above : ltb address x.vm_start ≡ true =
          sym (starts_after-at l address i x ex) ∙ s.there (omega arith) in
        let le = starts_le i k x r ex e (omega arith) in ground arith in
      let not_behind : ¬ (suc k < i) = λ h.
        let (y, ey) = get_elem?-below l (suc k) (omega (arith, s.to)) in
        let fails : ltb address y.vm_start ≡ false =
          sym (starts_after-at l address (suc k) y ey) ∙ s.below (suc k) (omega arith) h in
        let behind = ordered 0 l k (suc k) r y t.spaced e ey (omega arith) in ground arith in
      omega arith
