-- ===== src/Runtime/Account/Visited.antt =====
-- What the loop of `ValidateProgramChanges` has seen when it ends.
use solanago.Base.{
  ℕ, ◌+◌, ◌-◌, ◌*◌, ◌/◌, ◌%◌, ◌^◌, ◌≤◌, ◌<◌, ◌≡◌, sym, ap, ◌∙◌, true, not, ◌||◌, inl, inr, arith,
}
use solanago.Base.{
  List, [], ◌∷◌, length, get_elem?, get_elem?-All, some, Option-cases, Bool-cases, All, ok, fail_if,
  >>=-eq-ok, ok-injective, ◌==◌,
}
use mathlib.Core.Path.{subst}
use solanago.Base.{some}
use solanago.Sbpf.Validate.{contains}
use solanago.Runtime.Account.{AccountView, unbalanced_lamports}
use solanago.Runtime.Account.Context.{Context, view}
use solanago.Runtime.Account.Validate.{unseen, Wide, check_view, check_views}
use solanago.Runtime.Account.Guarded.{IsGuarded, IsGuarded-check_view}
use solanago.Runtime.Account.Keeps.{balance, baseline, view-found}
use solanago.Runtime.Account.Totals.{total, part, wide, add-wide, contains-cons}

module _ (sha256 : List ℕ → List ℕ) where
  unfoldable pub IsSeen : Context → ℕ → Type 0
  IsSeen c p = (a : AccountView) × (get_elem? c.views p ≡ some a) × IsGuarded sha256 c.program_id a

  abbrev sums_of : ℕ → ℕ → Wide × Wide
  sums_of m n = (wide m, wide n)

  same_sums : (m n m' n' : ℕ) → m ≡ m' → n ≡ n' → sums_of m n ≡ sums_of m' n'
  same_sums m n m' n' e f = ap (λ x. sums_of x n) e ∙ ap (λ x. sums_of m' x) f

  pub check_views-passed :
      (c : Context) (ps : List ℕ) (m n : ℕ) (sums : Wide × Wide)
      → check_views sha256 c ps (wide m) (wide n) ≡ ok sums
      → All (IsSeen c) ps
        × (sums ≡ (wide (m + total baseline c.views ps), wide (n + total balance c.views ps)))
  unfolding check_views IsSeen
  check_views-passed c [] m n sums h =
      (tt, sym (ok-injective h) ∙ same_sums m n _ _ (omega arith) (omega arith))
  check_views-passed c (p ∷ ps) m n sums h =
      let (a, seen, e1) = >>=-eq-ok (view c p) _ h in
      let (_, checked, e2) = >>=-eq-ok (check_view sha256 c.program_id a) _ e1 in
      let at = view-found sha256 c p a seen in
      let e3 = rw (add-wide m a.baseline_lamports, add-wide n a.lamports) at e2 in
      let (rest, summed) =
        check_views-passed c ps (m + a.baseline_lamports) (n + a.lamports) sums e3 in
      let here : IsSeen c p = (a, at, IsGuarded-check_view sha256 c.program_id a checked) in
      (
        (here, rest),
        summed
            ∙ same_sums _ _ _ _ (omega (arith, ap (part baseline) at))
                (omega (arith, ap (part balance) at)),
      )

  pub visited-IsGuarded :
      (c : Context) (ps : List ℕ) (p : ℕ) (a : AccountView)
      → All (IsSeen c) ps
      → contains ps p ≡ true
      → get_elem? c.views p ≡ some a
      → IsGuarded sha256 c.program_id a
  unfolding IsSeen
  visited-IsGuarded c [] p a h m at = unfold contains in cc m
  visited-IsGuarded c (q ∷ ps) p a ((b, seen, g), rest) m at = elim (contains-cons q p ps m) [
    | inl e ↦
        let same : some b ≡ some a = sym seen ∙ ap (get_elem? c.views) e ∙ at in
        subst (IsGuarded sha256 c.program_id) (cc same) g
    | inr later ↦ visited-IsGuarded c ps p a rest later at
  ]

  pub total-bound :
      (f : AccountView → ℕ) (views : List AccountView) (ps : List ℕ)
      → All (λ (a : AccountView). f a < 2 ^ 64) views
      → total f views ps ≤ length ps * (2 ^ 64 - 1)
  total-bound f views [] h = omega arith
  total-bound f views (p ∷ ps) h =
      let rest = total-bound f views ps h in
      elim (Option-cases (get_elem? views p)) [
        | inl e ↦ rw e (omega (arith, rest))
        | inr (a, e) ↦
            let word = get_elem?-All (λ (a : AccountView). f a < 2 ^ 64) views p a h e in
            rw e (omega (arith, rest, word))
      ]

  pub length-unseen : (seen slots : List ℕ) → length (unseen seen slots) ≤ length slots
  unfolding unseen
  length-unseen seen [] = omega arith
  length-unseen seen (q ∷ rest) = elim (Bool-cases (contains seen q)) [
    | inl old ↦ rw (unseen, old) (omega (arith, length-unseen seen rest))
    | inr new ↦ rw (unseen, new) (omega (arith, length-unseen (q ∷ seen) rest))
  ]

  pub equal_sums :
      (m n : ℕ)
      → m < 2 ^ 128
      → n < 2 ^ 128
      → fail_if
          (not ((wide m).low == (wide n).low) || not ((wide m).high == (wide n).high))
          unbalanced_lamports
        ≡ ok tt
      → m ≡ n
  equal_sums m n a b h =
      let low : m % 2 ^ 64 ≡ n % 2 ^ 64 = ground arith in
      let high : m / 2 ^ 64 % 2 ^ 64 ≡ n / 2 ^ 64 % 2 ^ 64 = ground arith in
      omega (arith, low, high)
