-- ===== src/Runtime/MemoryMap/Translate.antt =====
-- `Translate`, and the reads and writes through it.
use solanago.Base.{
  ℕ, suc, ◌+◌, ◌-◌, ◌%◌, ◌^◌, ◌≤◌, ◌<◌, ◌≡◌, refl, sym, ap, ◌∙◌, bit_and, Bool, true, false, not,
  ◌&&◌, ◌||◌, arith,
}
use solanago.Base.{List, length, get_elem?, set, take, drop, some, ok, err, inl, inr}
use solanago.Base.{
  if◌then◌else◌, ltb, ◌==◌, fail_if, ◌>>◌, >>=-eq-ok, ok-injective, Option-cases, get_elem?-All,
  get_elem?-set,
}
use mathlib.Core.Path.{subst}
use native.Mathlib.Decide.{dec_lt}
use solanago.Base.Bytes.{put_le, get_le, length-put_le, get_le-put_le}
use solanago.Base.Splice.{length-splice, read-splice}
use solanago.Base.Splice.{splice}
use solanago.Runtime.MemoryMap.{
  MemoryRegion, MemoryMap, Slice, access_violation, unaligned_pointer, invalid_length, region_end,
  translate_in, translate_at, translate, read_slice, write_slice, read_uint64, write_uint64,
  capacity,
}
use solanago.Runtime.MemoryMap.Table.{IsRegion, IsTable}
use solanago.Runtime.MemoryMap.Lookup.{search_first-starts_after}
use solanago.Runtime.MemoryMap.Resize.{set-IsTable}

region_end-IsRegion :
    (r : MemoryRegion) → IsRegion r → (region_end r).0 ≡ r.vm_start + length r.bytes
unfolding region_end
region_end-IsRegion r p =
    let fits : ltb (2 ^ 64 - 1 - r.vm_start) (length r.bytes) ≡ false =
      ground (arith, p.bounded, p.mapped) in
    rw fits refl

-- The slice is the range of addresses, inside the mapped bytes of one region, which is writable if the
-- access is a write.
abbrev pub Covers : MemoryMap → ℕ → ℕ → ℕ → Slice → Type 0
Covers m address width access s =
    (r : MemoryRegion) × (get_elem? m.regions s.index ≡ some r)
    × (address ≡ r.vm_start + s.offset)
    × (s.width ≡ width)
    × (s.offset + width ≤ length r.bytes)
    × (access ≡ 1 → r.writable ≡ true)

-- The pointer is a multiple of its alignment, a power of two.
abbrev pub IsAligned : ℕ → ℕ → Type 0
IsAligned address alignment =
    1 < alignment → (bit_and alignment (alignment - 1) ≡ 0) × (address % alignment ≡ 0)

translate_in-passed :
    (r : MemoryRegion) (index address width access : ℕ) (s : Slice)
    → IsRegion r
    → translate_in r index address width access ≡ ok s
    → (r.vm_start ≤ address)
      × (address + width ≤ r.vm_start + length r.bytes)
      × (access ≡ 1 → r.writable ≡ true)
      × (s ≡ record { index = index; offset = address - r.vm_start; width = width })
unfolding translate_in
translate_in-passed r index address width access s p h =
    let end = region_end-IsRegion r p in
    (ground arith, ground arith, λ w. ground arith, ground arith)

translate_in-Covers :
    (m : MemoryMap) (r : MemoryRegion) (index address width access : ℕ) (s : Slice)
    → get_elem? m.regions index ≡ some r
    → IsRegion r
    → translate_in r index address width access ≡ ok s
    → Covers m address width access s
translate_in-Covers m r index address width access s e p h =
    let (a, b, c, d) = translate_in-passed r index address width access s p h in
    rw d (r, e, omega arith, refl, omega arith, c)

translate_in-served :
    (r : MemoryRegion) (index address width access : ℕ)
    → IsRegion r
    → 0 < width
    → r.vm_start ≤ address
    → address + width ≤ r.vm_start + length r.bytes
    → translate_in r index address width access ≡ (
        if access == 1 && not r.writable
        then err access_violation
        else ok (record { index = index; offset = address - r.vm_start; width = width }))
unfolding translate_in
translate_in-served r index address width access p pos from to =
    let end = region_end-IsRegion r p in
    let inside : (ltb address r.vm_start
          || ltb (region_end r).0 (address + width)
          || (ltb 0 width && address == (region_end r).0))
        ≡ false =
      ground arith in
    rw inside (permit (access == 1 && not r.writable) _)
  where
    permit :
        (b : Bool) (s : Slice)
        → (fail_if b access_violation >> ok s) ≡ (if b then err access_violation else ok s)
    permit true s = refl
    permit false s = refl

translate_at-Covers :
    (m : MemoryMap) (next address width access : ℕ) (s : Slice)
    → IsTable m.regions
    → translate_at m next address width access ≡ ok s
    → Covers m address width access s
unfolding translate_at
translate_at-Covers m next address width access s t h =
    let (u, _, found) = >>=-eq-ok (fail_if (next == 0) access_violation) _ h in
    elim (Option-cases (get_elem? m.regions (next - 1))) [
      | inl gone ↦ let refused : err access_violation ≡ ok s = rw gone at found in cc
      | inr (r, e) ↦
          translate_in-Covers m r (next - 1) address width access s e
            (get_elem?-All IsRegion m.regions (next - 1) r t.each e) (rw e at found)
    ]

-- On a table, a slice that `Translate` returns is the range of addresses, inside the mapped bytes of
-- one region, which is writable if the access is a write; and the address has the alignment.
pub translate-Covers :
    (m : MemoryMap) (address width access alignment : ℕ) (s : Slice)
    → IsTable m.regions
    → translate m address width access alignment ≡ ok s
    → Covers m address width access s × IsAligned address alignment
unfolding translate
translate-Covers m address width access alignment s t h =
    let (u, _, h1) =
      >>=-eq-ok (fail_if (not (access == 0) && not (access == 1)) access_violation) _ h in
    let (v, aligned, h2) =
      >>=-eq-ok
        (fail_if
          (ltb 1 alignment
            && (not (bit_and alignment (alignment - 1) == 0) || not (address % alignment == 0)))
          unaligned_pointer)
        _ h1 in
    let (w, _, h3) = >>=-eq-ok (fail_if (ltb (2 ^ 64 - 1 - address) width) invalid_length) _ h2 in
    (translate_at-Covers m _ address width access s t h3, λ big. (ground arith, ground arith))

translate_at-found :
    (m : MemoryMap) (k address width access : ℕ) (r : MemoryRegion)
    → get_elem? m.regions k ≡ some r
    → translate_at m (suc k) address width access ≡ translate_in r k address width access
unfolding translate_at
translate_at-found m k address width access r e =
    let nonzero : (suc k == 0) ≡ false = ground arith in
    let before : suc k - 1 ≡ k = omega arith in
    let there : get_elem? m.regions (suc k - 1) ≡ some r = rw before e in
    rw (nonzero, there) (ap (λ i. translate_in r i address width access) before)

aligned_test :
    (address alignment : ℕ)
    → IsAligned address alignment
    → (ltb 1 alignment
        && (not (bit_and alignment (alignment - 1) == 0) || not (address % alignment == 0)))
      ≡ false
aligned_test address alignment h = elim (dec_lt 1 alignment) [
  | yes big ↦ let (a, b) = h big in ground arith
  | no small ↦ ground arith
]

-- On a table, an aligned read or write of a range that is not empty, inside the mapped bytes of a
-- region, gets its slice, unless it is a write and the region is not writable.
pub translate-served :
    (m : MemoryMap) (k address width access alignment : ℕ) (r : MemoryRegion)
    → IsTable m.regions
    → get_elem? m.regions k ≡ some r
    → 0 < width
    → r.vm_start ≤ address
    → address + width ≤ r.vm_start + length r.bytes
    → access ≤ 1
    → IsAligned address alignment
    → translate m address width access alignment ≡ (
        if access == 1 && not r.writable
        then err access_violation
        else ok (record { index = k; offset = address - r.vm_start; width = width }))
unfolding translate
translate-served m k address width access alignment r t e pos from to known aligned =
    let p = get_elem?-All IsRegion m.regions k r t.each e in
    let known' : (not (access == 0) && not (access == 1)) ≡ false = ground arith in
    let aligned' : (ltb 1 alignment
          && (not (bit_and alignment (alignment - 1) == 0) || not (address % alignment == 0)))
        ≡ false =
      aligned_test address alignment aligned in
    let short : ltb (2 ^ 64 - 1 - address) width ≡ false = ground (arith, p.bounded, p.mapped) in
    rw (known', aligned', short)
      (ap (λ next. translate_at m next address width access)
          (search_first-starts_after m.regions t k r address e from (omega (arith, p.mapped)))
        ∙ translate_at-found m k address width access r e
        ∙ translate_in-served r k address width access p pos from to)

write_slice-IsTable :
    (m : MemoryMap) (s : Slice) (r : MemoryRegion) (new : List ℕ)
    → IsTable m.regions
    → get_elem? m.regions s.index ≡ some r
    → s.offset + length new ≤ length r.bytes
    → let x = record r { bytes = splice r.bytes s.offset new } in
      (write_slice m s new ≡ record m { regions = set m.regions s.index x })
      × IsTable (set m.regions s.index x)
      × IsRegion x
unfolding write_slice
write_slice-IsTable m s r new t e fits =
    let p = get_elem?-All IsRegion m.regions s.index r t.each e in
    let same_length = length-splice r.bytes s.offset new fits in
    let x = record r { bytes = splice r.bytes s.offset new } in
    let q : IsRegion x = record {
      reserved = p.reserved;
      mapped = omega (arith, p.mapped);
      bounded = p.bounded;
      one_block = p.one_block;
      backed = λ g. let enough = p.backed g in unfold capacity in omega arith;
      grows_writable = p.grows_writable;
    } in
    (rw (write_slice, e) refl, set-IsTable m.regions s.index r x t e refl refl q, q)

read_uint64-at :
    (m : MemoryMap) (k address offset value : ℕ) (x : MemoryRegion)
    → IsTable m.regions
    → get_elem? m.regions k ≡ some x
    → address ≡ x.vm_start + offset
    → offset + 8 ≤ length x.bytes
    → address % 8 ≡ 0
    → get_le (take 8 (drop offset x.bytes)) ≡ value
    → read_uint64 m address ≡ ok value
unfolding read_uint64 read_slice
read_uint64-at m k address offset value x t e at fits aligned back =
    let found : translate m address 8 0 8
        ≡ ok (record { index = k; offset = address - x.vm_start; width = 8 }) =
      translate-served m k address 8 0 8 x t e (omega arith) (omega arith) (omega arith)
        (omega arith) (λ big. (refl, aligned)) in
    let same_offset : address - x.vm_start ≡ offset = omega arith in
    rw (found, read_slice, e, same_offset) (ap ok back)

-- After a successful write of a 64-bit word to a table, the map is a table and a read at the same
-- address gives the word.
pub read_uint64-write_uint64 :
    (m m' : MemoryMap) (address value : ℕ)
    → IsTable m.regions
    → value < 2 ^ 64
    → write_uint64 m address value ≡ ok m'
    → (read_uint64 m' address ≡ ok value) × IsTable m'.regions
unfolding write_uint64 read_uint64
read_uint64-write_uint64 m m' address value t small h =
    let (s, found, written) = >>=-eq-ok (translate m address 8 1 8) _ h in
    let ((r, e, at, width, fits, w), aligned) = translate-Covers m address 8 1 8 s t found in
    let (changed, t', q) =
      write_slice-IsTable m s r (put_le 8 value) t e (omega (arith, length-put_le 8 value)) in
    let stored =
      get_elem?-set m.regions s.index r
        (record r { bytes = splice r.bytes s.offset (put_le 8 value) }) e in
    let back : get_le (take 8 (drop s.offset (splice r.bytes s.offset (put_le 8 value)))) ≡ value =
      ap get_le (read-splice r.bytes s.offset (put_le 8 value) fits)
      ∙ get_le-put_le 8 value (omega arith) in
    subst (λ n. (read_uint64 n address ≡ ok value) × IsTable n.regions)
      (sym changed ∙ ok-injective written)
      (
        read_uint64-at _ s.index address s.offset value _ t' stored at
            (omega (arith, length-splice r.bytes s.offset (put_le 8 value) fits))
            (aligned (omega arith)).1 back,
        t',
      )
