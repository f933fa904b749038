-- ===== src/Runtime/MemoryMap/Resize.antt =====
-- `ResizeRegion`: which regions it changes, and how.
use solanago.Base.{
  ℕ, zero, suc, ◌+◌, ◌-◌, ◌^◌, ◌≤◌, ◌≡◌, refl, sym, ap, ◌∙◌, true, false, not, ◌||◌, arith,
}
use solanago.Base.{
  List, [], ◌∷◌, ◌++◌, length, get_elem?, set, take, replicate, some, ok, err, inl, inr,
}
use solanago.Base.{ltb, ◌==◌, Bool-cases, Option-cases}
use solanago.Base.{
  length-append, length-take, length-drop, length-replicate, get_elem?-All, set-All,
}
use mathlib.Core.List.{append-nil}
use solanago.Base.Search.{search_first}
use solanago.Runtime.MemoryMap.{
  MemoryRegion, MemoryMap, access_violation, capacity, starts_from, resize, resize_in, resize_at,
  resize_region,
}
use solanago.Runtime.MemoryMap.Table.{IsRegion, IsSpaced, IsTable}
use solanago.Runtime.MemoryMap.Lookup.{search_first-starts_from}

-- A region of a new length has the bytes it had, up to that length, and zeros behind them.
abbrev pub resized : List ℕ → ℕ → List ℕ
resized bytes n = take n bytes ++ replicate (n - length bytes) 0

take-all : (l : List ℕ) (n : ℕ) → length l ≤ n → take n l ≡ l
take-all [] zero h = refl
take-all [] (suc n) h = refl
take-all (x ∷ l) zero h = absurd (omega arith)
take-all (x ∷ l) (suc n) h = ap (λ t. x ∷ t) (take-all l n (omega arith))

resize-bytes : (r : MemoryRegion) (n : ℕ) → (resize r n).bytes ≡ resized r.bytes n
unfolding resize
resize-bytes r n = elim (Bool-cases (ltb (length r.bytes) n)) [
  | inl grows ↦ rw (grows, take-all r.bytes n (ground arith)) refl
  | inr shrinks ↦
      let nothing : n - length r.bytes ≡ 0 = ground arith in
      rw (shrinks, nothing) (sym (append-nil (take n r.bytes)))
]

length-resized : (l : List ℕ) (n : ℕ) → length (resized l n) ≡ n
length-resized l n =
    length-append (take n l) (replicate (n - length l) 0)
    ∙ omega (arith, length-take n l, length-replicate (n - length l) zero)

resize-capacity : (r : MemoryRegion) (n : ℕ) → n ≤ capacity r → capacity (resize r n) ≡ capacity r
unfolding resize capacity
resize-capacity r n h = elim (Bool-cases (ltb (length r.bytes) n)) [
  | inl grows ↦ rw grows (
      let k = n - length r.bytes in
      omega (
        arith,
        length-append r.bytes (replicate k zero),
        length-replicate k zero,
        length-drop k r.spare,
      ))
  | inr shrinks ↦ rw shrinks (
      let k = length r.bytes - n in
      omega (
        arith,
        length-append (replicate k zero) r.spare,
        length-replicate k zero,
        length-take n r.bytes,
      ))
]

-- The fields that a new length leaves alone.
resize-fields :
    (r : MemoryRegion) (n : ℕ)
    → ((resize r n).vm_start ≡ r.vm_start)
      × ((resize r n).reserved_length ≡ r.reserved_length)
      × ((resize r n).growable ≡ r.growable)
      × ((resize r n).writable ≡ r.writable)
unfolding resize
resize-fields r n = elim (Bool-cases (ltb (length r.bytes) n)) [
  | inl grows ↦ rw grows (refl, refl, refl, refl)
  | inr shrinks ↦ rw shrinks (refl, refl, refl, refl)
]

resize-IsRegion :
    (r : MemoryRegion) (n : ℕ)
    → IsRegion r
    → n ≤ r.reserved_length
    → n ≤ capacity r
    → IsRegion (resize r n)
resize-IsRegion r n p fits backed =
    let (s, l, g, w) = resize-fields r n in
    record {
      reserved = rw l p.reserved;
      mapped = rw (l, resize-bytes r n, length-resized r.bytes n) fits;
      bounded = rw (s, l) p.bounded;
      one_block = rw (s, l) p.one_block;
      backed = λ y. omega (arith, resize-capacity r n backed, p.backed (rw g at y));
      grows_writable = λ y. rw w (p.grows_writable (rw g at y));
    }

set-IsSpaced :
    (low : ℕ) (l : List MemoryRegion) (k : ℕ) (r x : MemoryRegion)
    → get_elem? l k ≡ some r
    → x.vm_start ≡ r.vm_start
    → x.reserved_length ≡ r.reserved_length
    → IsSpaced low l
    → IsSpaced low (set l k x)
set-IsSpaced low [] k r x e a b s = s
set-IsSpaced low (y ∷ rest) zero r x e a b (h, s) =
    let same_region : y ≡ r = cc in rw (a, b, ← same_region) (h, s)
set-IsSpaced low (y ∷ rest) (suc k) r x e a b (h, s) =
    (h, set-IsSpaced (y.vm_start + y.reserved_length) rest k r x e a b s)

pub set-IsTable :
    (l : List MemoryRegion) (k : ℕ) (r x : MemoryRegion)
    → IsTable l
    → get_elem? l k ≡ some r
    → x.vm_start ≡ r.vm_start
    → x.reserved_length ≡ r.reserved_length
    → IsRegion x
    → IsTable (set l k x)
set-IsTable l k r x t e a b p = record {
  each = set-All IsRegion l k x t.each p;
  spaced = set-IsSpaced 0 l k r x e a b t.spaced;
}

resize_in-passed :
    (m m' : MemoryMap) (k address n : ℕ) (r : MemoryRegion)
    → resize_in m k r address n ≡ ok m'
    → (r.vm_start ≡ address)
      × (r.growable ≡ true)
      × (n ≤ r.reserved_length)
      × (n ≤ capacity r)
      × (m' ≡ record m { regions = set m.regions k (resize r n) })
unfolding resize_in
resize_in-passed m m' k address n r h =
    (ground arith, ground arith, ground arith, ground arith, ground arith)

-- A resize that succeeds changes the one region that begins at the address, which is growable: it then
-- has the bytes it had, up to the new length, and zeros behind them; and the map is a table again.
pub resize_region-IsTable :
    (m m' : MemoryMap) (address n : ℕ)
    → IsTable m.regions
    → resize_region m address n ≡ ok m'
    → (k : ℕ) × (r : MemoryRegion) × (get_elem? m.regions k ≡ some r)
      × (r.vm_start ≡ address)
      × (r.growable ≡ true)
      × (m'.regions ≡ set m.regions k (resize r n))
      × ((resize r n).bytes ≡ resized r.bytes n)
      × (length (resize r n).bytes ≡ n)
      × IsTable m'.regions
unfolding resize_region resize_at
resize_region-IsTable m m' address n t h =
    let k = search_first (length m.regions) (starts_from m.regions address) in
    elim (Option-cases (get_elem? m.regions k)) [
      | inl gone ↦ (let refused : err access_violation ≡ ok m' = rw (resize_at, gone) at h in cc)
      | inr (r, e) ↦
          let (at, g, fits, backed, changed) =
            resize_in-passed m m' k address n r (rw (resize_at, e) at h) in
          let (s, l, _, _) = resize-fields r n in
          let p = get_elem?-All IsRegion m.regions k r t.each e in
          (
            k,
            r,
            e,
            at,
            g,
            ap (λ (x : MemoryMap). x.regions) changed,
            resize-bytes r n,
            ap length (resize-bytes r n) ∙ length-resized r.bytes n,
            rw changed (
                set-IsTable m.regions k r (resize r n) t e s l (resize-IsRegion r n p fits backed)),
          )
    ]

resize_in-served :
    (m : MemoryMap) (k n : ℕ) (r : MemoryRegion)
    → IsRegion r
    → r.growable ≡ true
    → n ≤ r.reserved_length
    → resize_in m k r r.vm_start n ≡ ok (record m { regions = set m.regions k (resize r n) })
unfolding resize_in
resize_in-served m k n r p g fits =
    let w = p.grows_writable g in
    let enough = p.backed g in
    let here : not (r.vm_start == r.vm_start) ≡ false = ground arith in
    let taken : (not r.growable
          || not r.writable
          || ltb r.reserved_length n
          || ltb (capacity r) n
          || ltb (2 ^ 63 - 1) n)
        ≡ false =
      ground (arith, p.bounded, p.one_block, p.reserved) in
    rw (here, taken) refl

-- A growable region of a table takes every length that its reservation holds.
pub resize_region-served :
    (m : MemoryMap) (k n : ℕ) (r : MemoryRegion)
    → IsTable m.regions
    → get_elem? m.regions k ≡ some r
    → r.growable ≡ true
    → n ≤ r.reserved_length
    → resize_region m r.vm_start n ≡ ok (record m { regions = set m.regions k (resize r n) })
unfolding resize_region
resize_region-served m k n r t e g fits =
    ap (λ i. resize_at m i r.vm_start n) (search_first-starts_from m.regions t k r e)
    ∙ unfold resize_at in
      rw (resize_at, e)
        (resize_in-served m k n r (get_elem?-All IsRegion m.regions k r t.each e) g fits)
