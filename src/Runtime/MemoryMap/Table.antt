-- ===== src/Runtime/MemoryMap/Table.antt =====
-- The region table: what `new_memory_map` returns, and what `resize_region` keeps of it.
use solanago.Base.{ℕ, zero, suc, ◌+◌, ◌-◌, ◌/◌, ◌^◌, ◌≤◌, ◌<◌, ◌≡◌, refl, sym, true, false, arith}
use solanago.Base.{List, [], ◌∷◌, length, get_elem?, some, ok, All}
use solanago.Base.{if◌then◌else◌, ltb, ◌==◌, fail_if, >>=-eq-ok, ok-injective}
use mathlib.Core.List.{Perm, map}
use mathlib.Core.Path.{subst, ap₂}
use solanago.Base.Sort.{sort_by-perm, sort_by-All}
use solanago.Runtime.MemoryMap.{
  MemoryRegion, MemoryMap, memory_overlap, capacity, reservation_length, reserved_end,
}
use solanago.Runtime.MemoryMap.{
  check_region, check_regions, sort_regions, check_gaps, check_disjoint, new_memory_map,
}

-- A region of a table: its reservation is not empty, holds the mapped bytes, and ends at a 64-bit
-- address in the block of 4 GiB where it begins; a growable region is writable and has the bytes for
-- all of its reservation.
pub record IsRegion (r : MemoryRegion) : Type 0 where
  pub reserved : 0 < r.reserved_length
  pub mapped : length r.bytes ≤ r.reserved_length
  pub bounded : r.vm_start + r.reserved_length ≤ 2 ^ 64 - 1
  pub one_block : r.vm_start / 2 ^ 32 ≡ (r.vm_start + r.reserved_length - 1) / 2 ^ 32
  pub backed : r.growable ≡ true → r.reserved_length ≤ capacity r
  pub grows_writable : r.growable ≡ true → r.writable ≡ true

-- No reservation begins below `low`, nor before the one in front of it has ended.
abbrev pub IsSpaced : ℕ → List MemoryRegion → Type 0
IsSpaced low [] = Unit
IsSpaced low (r ∷ rest) = (low ≤ r.vm_start) × IsSpaced (r.vm_start + r.reserved_length) rest

pub record IsTable (regions : List MemoryRegion) : Type 0 where
  pub each : All IsRegion regions
  pub spaced : IsSpaced 0 regions

-- The region with its default reservation written out.
abbrev pub reserve : MemoryRegion → MemoryRegion
reserve r = record r {
  reserved_length = if r.reserved_length == 0 then length r.bytes else r.reserved_length;
}

-- The tests of `check_region` with the reservation as a number.
passed :
    (r x : MemoryRegion)
    → check_region r ≡ ok x
    → let n = reservation_length r in
      (0 < n)
      × (length r.bytes ≤ n)
      × (r.vm_start + n ≤ 2 ^ 64 - 1)
      × (r.vm_start / 2 ^ 32 ≡ (r.vm_start + n - 1) / 2 ^ 32)
      × (r.growable ≡ true → n ≤ capacity r)
      × (r.growable ≡ true → r.writable ≡ true)
      × (x ≡ record r { reserved_length = n })
unfolding check_region reserved_end
passed r x h = (
  ground arith,
  ground arith,
  ground arith,
  ground arith,
  λ g. ground arith,
  λ g. ground arith,
  ground arith,
)

check_region-IsRegion : (r x : MemoryRegion) → check_region r ≡ ok x → IsRegion x × (x ≡ reserve r)
check_region-IsRegion r x h =
    let (pos, fits, bounded, block, backed, writable, e) = passed r x h in
    rw e (
      record {
        reserved = pos;
        mapped = fits;
        bounded = bounded;
        one_block = block;
        backed = λ g. unfold capacity in backed g;
        grows_writable = writable;
      },
      unfold reservation_length in refl,
    )

check_regions-All :
    (l checked : List MemoryRegion)
    → check_regions l ≡ ok checked
    → All IsRegion checked × (checked ≡ map reserve l)
unfolding check_regions
check_regions-All [] checked h = rw (sym (ok-injective h)) (tt, refl)
check_regions-All (r ∷ rest) checked h =
    let (x, first, h') = >>=-eq-ok (check_region r) _ h in
    let (others, later, h'') = >>=-eq-ok (check_regions rest) _ h' in
    let (is_region, e) = check_region-IsRegion r x first in
    let (all, es) = check_regions-All rest others later in
    rw (sym (ok-injective h'')) ((is_region, all), ap₂ ◌∷◌ e es)

pub reserved_end-IsRegion :
    (r : MemoryRegion) → IsRegion r → (reserved_end r).0 ≡ r.vm_start + r.reserved_length
unfolding reserved_end reservation_length
reserved_end-IsRegion r p =
    let set_length : (r.reserved_length == 0) ≡ false = ground (arith, p.reserved) in
    let fits : ltb (2 ^ 64 - 1 - r.vm_start) r.reserved_length ≡ false =
      ground (arith, p.bounded) in
    rw (set_length, fits) refl

check_gaps-IsSpaced :
    (previous : MemoryRegion) (rest : List MemoryRegion)
    → IsRegion previous
    → All IsRegion rest
    → check_gaps previous rest ≡ ok tt
    → IsSpaced (previous.vm_start + previous.reserved_length) rest
unfolding check_gaps
check_gaps-IsSpaced previous [] p a h = tt
check_gaps-IsSpaced previous (r ∷ rest) p (q, a) h =
    let (u, first, others) =
      >>=-eq-ok (fail_if (ltb r.vm_start (reserved_end previous).0) memory_overlap) _ h in
    let end = reserved_end-IsRegion previous p in
    (ground arith, check_gaps-IsSpaced r rest q a others)

check_disjoint-IsSpaced :
    (l : List MemoryRegion) → All IsRegion l → check_disjoint l ≡ ok tt → IsSpaced 0 l
unfolding check_disjoint
check_disjoint-IsSpaced [] a h = tt
check_disjoint-IsSpaced (r ∷ rest) (p, a) h = (omega arith, check_gaps-IsSpaced r rest p a h)

-- `NewMemoryMap` returns a table of regions in order and apart, each as a region of a table has to be;
-- they are the regions it was given, each with its default reservation written out.
pub new_memory_map-IsTable :
    (regions : List MemoryRegion) (m : MemoryMap)
    → new_memory_map regions ≡ ok m
    → IsTable m.regions × Perm m.regions (map reserve regions)
unfolding new_memory_map sort_regions
new_memory_map-IsTable regions m h =
    let (checked, each, h') = >>=-eq-ok (check_regions regions) _ h in
    let (u, apart, h'') = >>=-eq-ok (check_disjoint (sort_regions checked)) _ h' in
    let (all, e) = check_regions-All regions checked each in
    let sorted_all = sort_by-All (λ r. r.vm_start) IsRegion checked all in
    subst (λ (m : MemoryMap). IsTable m.regions × Perm m.regions (map reserve regions))
      (ok-injective h'')
      (
        record {
          each = sorted_all;
          spaced = check_disjoint-IsSpaced (sort_regions checked) sorted_all apart;
        },
        rw (← e) (sort_by-perm (λ r. r.vm_start) checked),
      )

get_elem?-IsSpaced :
    (low : ℕ) (l : List MemoryRegion) (k : ℕ) (r : MemoryRegion)
    → IsSpaced low l
    → get_elem? l k ≡ some r
    → low ≤ r.vm_start
get_elem?-IsSpaced low [] k r s e = absurd (cc e)
get_elem?-IsSpaced low (x ∷ rest) zero r (h, s) e =
    let same_region : x ≡ r = cc in rw (← same_region) h
get_elem?-IsSpaced low (x ∷ rest) (suc k) r (h, s) e =
    omega (arith, get_elem?-IsSpaced (x.vm_start + x.reserved_length) rest k r s e)

-- A region begins behind the reservation of one in front of it.
pub ordered :
    (low : ℕ) (l : List MemoryRegion) (a b : ℕ) (x y : MemoryRegion)
    → IsSpaced low l
    → get_elem? l a ≡ some x
    → get_elem? l b ≡ some y
    → a < b
    → x.vm_start + x.reserved_length ≤ y.vm_start
ordered low [] a b x y s e f h = absurd (cc e)
ordered low (z ∷ rest) a zero x y s e f h = absurd (omega arith)
ordered low (z ∷ rest) (suc a) (suc b) x y (_, s) e f h =
    ordered (z.vm_start + z.reserved_length) rest a b x y s e f (omega arith)
ordered low (z ∷ rest) zero (suc b) x y (_, s) e f h =
    let same_region : z ≡ x = cc in
    rw (← same_region) (get_elem?-IsSpaced (z.vm_start + z.reserved_length) rest b y s f)
