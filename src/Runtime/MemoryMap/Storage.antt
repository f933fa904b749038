-- ===== src/Runtime/MemoryMap/Storage.antt =====
-- The backing bytes of a growable region.
use solanago.Base.{
  ℕ, zero, suc, ◌-◌, ◌^◌, ◌≤◌, ◌<◌, ◌≡◌, refl, ap, true, false, not, ◌||◌, some, arith,
}
use solanago.Base.{
  List, [], ◌∷◌, ◌++◌, length, take, get_elem?, length-take, length-append, get_elem?-All, ltb,
  ◌==◌,
}
use solanago.Runtime.MemoryMap.{MemoryRegion, MemoryMap, capacity, growable_storage}
use solanago.Runtime.MemoryMap.Table.{IsRegion, IsTable}
use solanago.Runtime.MemoryMap.Lookup.{search_first-starts_from}

take-take-append :
    (n : ℕ) (xs ys : List ℕ) → length xs ≤ n → take (length xs) (take n (xs ++ ys)) ≡ xs
take-take-append n [] ys h = refl
take-take-append zero (x ∷ xs) ys h = absurd (omega arith)
take-take-append (suc n) (x ∷ xs) ys h = ap (λ l. x ∷ l) (take-take-append n xs ys (omega arith))

-- On a table, a growable region whose length is the one asked for, and whose reservation fits Go's
-- int, gives storage of the length of its reservation, which begins with its bytes.
pub growable_storage-served :
    (m : MemoryMap) (k : ℕ) (r : MemoryRegion)
    → IsTable m.regions
    → get_elem? m.regions k ≡ some r
    → r.growable ≡ true
    → r.reserved_length < 2 ^ 63
    → (storage : List ℕ) × (growable_storage m r.vm_start (length r.bytes) ≡ some storage)
      × (length storage ≡ r.reserved_length)
      × (take (length r.bytes) storage ≡ r.bytes)
unfolding growable_storage
growable_storage-served m k r t e g fits =
    let p = get_elem?-All IsRegion m.regions k r t.each e in
    let backed = p.backed g in
    let found = search_first-starts_from m.regions t k r e in
    let here : not (r.vm_start == r.vm_start) ≡ false = ground arith in
    let open_tests : (not r.growable
          || not (length r.bytes == length r.bytes)
          || ltb (capacity r) r.reserved_length
          || ltb (2 ^ 63 - 1) r.reserved_length)
        ≡ false =
      ground arith in
    (
      take r.reserved_length (r.bytes ++ r.spare),
      rw (growable_storage, found, e, here, open_tests) refl,
      unfold capacity in
          omega (
            arith,
            length-take r.reserved_length (r.bytes ++ r.spare),
            length-append r.bytes r.spare,
          ),
      take-take-append r.reserved_length r.bytes r.spare p.mapped,
    )
