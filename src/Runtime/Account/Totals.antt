-- ===== src/Runtime/Account/Totals.antt =====
-- The accounts that the loops visit, each once, and sums over them.
use solanago.Base.{
  ℕ, zero, suc, ◌+◌, ◌/◌, ◌%◌, ◌^◌, ◌≡◌, ◌≢◌, refl, sym, ap, true, false, ◌==◌, ◌⊎◌, inl, inr,
  arith,
}
use solanago.Base.{
  List, [], ◌∷◌, get_elem?, set, get_elem?-set, get_elem?-set-other, Option, none, some, Bool-cases,
  All,
}
use native.Mathlib.Decide.{ℕ_discrete}
use solanago.Sbpf.Validate.{contains}
use solanago.Runtime.Account.{AccountView}
use solanago.Runtime.Account.Validate.{unseen, Wide, add}

abbrev pub Distinct : List ℕ → Type 0
Distinct [] = Unit {0}
Distinct (p ∷ ps) = (contains ps p ≡ false) × Distinct ps

contains-cons-other : (j k : ℕ) (l : List ℕ) → contains (j ∷ l) k ≡ false → contains l k ≡ false
unfolding contains
contains-cons-other j k l h = ground arith

contains-later : (j k : ℕ) (l : List ℕ) → contains l k ≡ true → contains (j ∷ l) k ≡ true
unfolding contains
contains-later j k l h = ground arith

contains-here : (j : ℕ) (l : List ℕ) → contains (j ∷ l) j ≡ true
unfolding contains
contains-here j l = ground arith

pub contains-cons :
    (j k : ℕ) (l : List ℕ) → contains (j ∷ l) k ≡ true → (j ≡ k) ⊎ (contains l k ≡ true)
unfolding contains
contains-cons j k l h = elim (Bool-cases (j == k)) [
  | inl e ↦ inl (ground arith)
  | inr n ↦ inr (ground arith)
]

contains-new : (j k : ℕ) (l : List ℕ) → j ≢ k → contains l k ≡ false → contains (j ∷ l) k ≡ false
unfolding contains
contains-new j k l ne h = ground arith

contains-ne : (j k : ℕ) (l : List ℕ) → contains (j ∷ l) k ≡ false → k ≢ j
unfolding contains
contains-ne j k l h e = ground arith

-- A pointer that was seen is not visited.
unseen-skips :
    (seen slots : List ℕ) (p : ℕ) → contains seen p ≡ true → contains (unseen seen slots) p ≡ false
unfolding unseen
unseen-skips seen [] p h = unfold contains in refl
unseen-skips seen (q ∷ rest) p h = elim (Bool-cases (contains seen q)) [
  | inl old ↦ rw (unseen, old) (unseen-skips seen rest p h)
  | inr new ↦
      let others = unseen-skips (q ∷ seen) rest p (contains-later q p seen h) in
      rw (unseen, new)
        (elim (ℕ_discrete q p) [
          | yes e ↦ absurd (cc (rw e at new))
          | no ne ↦ contains-new q p _ ne others
        ])
]

pub unseen-Distinct : (seen slots : List ℕ) → Distinct (unseen seen slots)
unfolding unseen
unseen-Distinct seen [] = tt
unseen-Distinct seen (q ∷ rest) = elim (Bool-cases (contains seen q)) [
  | inl old ↦ rw (unseen, old) (unseen-Distinct seen rest)
  | inr new ↦
      rw (unseen, new)
        (unseen-skips (q ∷ seen) rest q (contains-here q seen), unseen-Distinct (q ∷ seen) rest)
]

-- Every other pointer of a slot is.
pub unseen-visits :
    (seen slots : List ℕ) (p : ℕ)
    → contains slots p ≡ true
    → contains seen p ≡ false
    → contains (unseen seen slots) p ≡ true
unfolding unseen
unseen-visits seen [] p h n = unfold contains in cc h
unseen-visits seen (q ∷ rest) p h n = elim (Bool-cases (contains seen q)) [
  | inl old ↦
      rw (unseen, old)
        (elim (contains-cons q p rest h) [
          | inl e ↦ absurd (cc (rw e at old))
          | inr later ↦ unseen-visits seen rest p later n
        ])
  | inr new ↦
      rw (unseen, new)
        (elim (ℕ_discrete q p) [
          | yes e ↦ rw e (contains-here p _)
          | no ne ↦ elim (contains-cons q p rest h) [
            | inl e ↦ absurd (ne e)
            | inr later ↦
                contains-later q p _
                  (unseen-visits (q ∷ seen) rest p later (contains-new q p seen ne n))
          ]
        ])
]

pub unseen-All {ℓ} :
    (P : ℕ → Type ℓ) (seen slots : List ℕ) → All P slots → All P (unseen seen slots)
unfolding unseen
unseen-All P seen [] h = tt
unseen-All P seen (q ∷ rest) (h, hs) = elim (Bool-cases (contains seen q)) [
  | inl old ↦ rw (unseen, old) (unseen-All P seen rest hs)
  | inr new ↦ rw (unseen, new) (h, unseen-All P (q ∷ seen) rest hs)
]

pub get_elem?-contains : (l : List ℕ) (i p : ℕ) → get_elem? l i ≡ some p → contains l p ≡ true
get_elem?-contains [] i p e = absurd (cc e)
get_elem?-contains (q ∷ l) zero p e = let here : q ≡ p = cc in rw here (contains-here p l)
get_elem?-contains (q ∷ l) (suc i) p e = contains-later q p l (get_elem?-contains l i p e)

abbrev pub part : (AccountView → ℕ) → Option AccountView → ℕ
part f none = 0
part f (some a) = f a

-- The sum of a number over the views at some pointers.
abbrev pub total : (AccountView → ℕ) → List AccountView → List ℕ → ℕ
total f views [] = 0
total f views (p ∷ ps) = part f (get_elem? views p) + total f views ps

module _ (f : AccountView → ℕ) (views : List AccountView) (p : ℕ) (a b : AccountView)
    (at : get_elem? views p ≡ some a) where
  -- A new view with the same number keeps the sum.
  pub total-set_same : f a ≡ f b → (ps : List ℕ) → total f (set views p b) ps ≡ total f views ps
  total-set_same e [] = refl
  total-set_same e (q ∷ ps) = elim (ℕ_discrete p q) [
    | yes here ↦
        let new = get_elem?-set views p a b at in
        let rest = total-set_same e ps in rw (← here, new, at) (omega arith)
    | no other ↦
        let same = get_elem?-set-other views p q b other in
        rw same (ap (λ n. part f (get_elem? views q) + n) (total-set_same e ps))
  ]

  total-set_absent :
      (ps : List ℕ) → contains ps p ≡ false → total f (set views p b) ps ≡ total f views ps
  total-set_absent [] h = refl
  total-set_absent (q ∷ ps) h =
      let same = get_elem?-set-other views p q b (contains-ne q p ps h) in
      rw same (
        ap (λ n. part f (get_elem? views q) + n)
          (total-set_absent ps (contains-cons-other q p ps h)))

  -- A new view of a pointer that is visited changes the sum by the difference.
  pub total-set :
      (ps : List ℕ)
      → Distinct ps
      → contains ps p ≡ true
      → total f (set views p b) ps + f a ≡ total f views ps + f b
  total-set [] d h = unfold contains in cc h
  total-set (q ∷ ps) (first, d) h = elim (ℕ_discrete q p) [
    | yes here ↦
        let rest = total-set_absent ps (rw here at first) in
        let new = get_elem?-set views p a b at in rw (here, new, at) (omega arith)
    | no other ↦
        let same = get_elem?-set-other views p q b (λ e. other (sym e)) in
        let later : contains ps p ≡ true = elim (contains-cons q p ps h) [
          | inl e ↦ absurd (other e)
          | inr l ↦ l
        ] in
        let rest = total-set ps d later in rw same (omega arith)
  ]

-- A sum as the two words that the code keeps.
abbrev pub wide : ℕ → Wide
wide n = record { low = n % 2 ^ 64; high = n / 2 ^ 64 % 2 ^ 64 }

pub add-wide : (n value : ℕ) → add (wide n) value ≡ wide (n + value)
unfolding add
add-wide n value = ground arith
