-- ===== src/Runtime/Account/Transfer.antt =====
-- A transfer keeps an invocation in order, also from an account to itself.
use solanago.Base.{ℕ, ◌+◌, ◌-◌, ◌^◌, ◌≤◌, ◌≡◌, refl, sym, ap, ◌∙◌, true, not, inl, inr, arith}
use solanago.Base.{
  List, [], get_elem?, set, get_elem?-set, get_elem?-set-other, set-All, length-set, some,
}
use solanago.Base.{ok, fail_if, >>=-eq-ok, ok-injective, ltb}
use solanago.Base.{get_elem?-All}
use solanago.Sdk.Pubkey.{Pubkey}
use solanago.Base.Bytes.{equal, equal-eq}
use mathlib.Core.Path.{subst}
use native.Mathlib.Decide.{ℕ_discrete}
use solanago.Sbpf.Validate.{contains}
use solanago.Runtime.ProgramError.{
  program_error_illegal_owner, program_error_insufficient_funds, program_error_arithmetic_overflow,
}
use solanago.Runtime.Account.{
  AccountView, Error, builtin, owner_of, lamports_of, set_lamports, stored,
}
use solanago.Runtime.Account.Context.{
  Context, only_writable, view, store, require_account, transfer, transfer_lamports,
}
use solanago.Runtime.Account.Guarded.{writable}
use solanago.Runtime.Account.Honest.{IsSynced, IsHonest, set_lamports-IsHonest}
use solanago.Runtime.Account.Totals.{
  total, total-set, total-set_same, unseen-Distinct, unseen-visits, get_elem?-contains,
}
use solanago.Runtime.Account.Keeps.{
  found-view, IsSound, balance, baseline, members, view-found, view-IsHonest,
  require_account-passed, checked_writable,
}

own_passed :
    (a : AccountView) (owner : Pubkey) (e : Error)
    → IsSynced a
    → fail_if (not (equal (owner_of a) owner)) e ≡ ok tt
    → a.owner ≡ owner
unfolding owner_of
own_passed a owner e h q =
    sym h.owner_agrees ∙ equal-eq (stored a.owner_storage a.owner) owner (ground arith)

amounts :
    (have there amount : ℕ) (x y : Error)
    → fail_if (ltb have amount) x ≡ ok tt
    → fail_if (ltb (2 ^ 64 - 1 - amount) there) y ≡ ok tt
    → (amount ≤ have) × (there ≤ 2 ^ 64 - 1 - amount)
amounts have there amount x y h k = (ground arith, ground arith)

set_lamports-fields :
    (a : AccountView) (n : ℕ)
    → ((set_lamports a n).lamports ≡ n)
      × ((set_lamports a n).baseline_lamports ≡ a.baseline_lamports)
      × (writable (set_lamports a n) ≡ writable a)
      × ((set_lamports a n).owner ≡ a.owner)
unfolding set_lamports
set_lamports-fields a n = (refl, refl, refl, refl)

lamports_of_same : (a : AccountView) → IsSynced a → lamports_of a ≡ a.lamports
unfolding lamports_of
lamports_of_same a h = h.lamports_agree

module _ (sha256 : List ℕ → List ℕ) (c : Context) (s : IsSound sha256 c) where
  -- The context after the balance of a member was set.
  moved :
      (views : List AccountView) (p n : ℕ) (a : AccountView)
      → get_elem? views p ≡ some a
      → contains (members c) p ≡ true
      → total balance (set views p (set_lamports a n)) (members c) + a.lamports
        ≡ total balance views (members c) + n
  moved views p n a at member =
      let (new, _, _, _) = set_lamports-fields a n in
      let change =
        total-set balance views p a (set_lamports a n) at (members c)
          (unseen-Distinct [] c.account_slots) member in
      omega arith

  kept_baseline :
      (views : List AccountView) (p n : ℕ) (a : AccountView)
      → get_elem? views p ≡ some a
      → total baseline (set views p (set_lamports a n)) (members c)
        ≡ total baseline views (members c)
  kept_baseline views p n a at =
      let (_, same, _, _) = set_lamports-fields a n in
      total-set_same baseline views p a (set_lamports a n) at (sym same) (members c)

  -- The account that is credited, as the debit left it.
  credited_account :
      (from to n : ℕ) (a b k : AccountView)
      → get_elem? c.views from ≡ some a
      → get_elem? c.views to ≡ some b
      → n ≤ a.lamports
      → get_elem? (set c.views from (set_lamports a n)) to ≡ some k
      → (k.lamports ≤ b.lamports) × (writable k ≡ writable b)
  credited_account from to n a b k at bt less kt = elim (ℕ_discrete from to) [
    | yes e ↦
        let here = get_elem?-set c.views from a (set_lamports a n) at in
        let same : set_lamports a n ≡ k = cc (here, kt, e) in
        let same_account : a ≡ b = cc (at, bt, e) in
        let (l, _, w, _) = set_lamports-fields a n in
        (
          subst (λ (x : AccountView). x.lamports ≤ b.lamports) same
              (subst (λ (x : AccountView). (set_lamports a n).lamports ≤ x.lamports) same_account
                (omega arith)),
          ap writable (sym same) ∙ w ∙ ap writable same_account,
        )
    | no ne ↦
        let other = get_elem?-set-other c.views from to (set_lamports a n) ne in
        let same : b ≡ k = cc (other, kt, bt) in
        (
          subst (λ (x : AccountView). x.lamports ≤ b.lamports) same (omega arith),
          ap writable (sym same),
        )
  ]

  transfer-IsSound :
      (d : Context) (from to amount : ℕ) (a b : AccountView)
      → get_elem? c.views from ≡ some a
      → get_elem? c.views to ≡ some b
      → writable a ≡ true
      → writable b ≡ true
      → contains (members c) from ≡ true
      → contains (members c) to ≡ true
      → transfer c from to amount ≡ ok d
      → IsSound sha256 d
  unfolding transfer store
  transfer-IsSound d from to amount a b at bt wa wb ma mb h =
      let good = view-IsHonest sha256 c from a s at in
      let e1 = rw (found-view sha256 c from a at, found-view sha256 c to b bt) at h in
      let la = lamports_of_same a good.synced in
      let lb = lamports_of_same b (view-IsHonest sha256 c to b s bt).synced in
      let (_, owned, e2) =
        >>=-eq-ok
          (fail_if (not (equal (owner_of a) c.program_id)) (builtin program_error_illegal_owner)) _
          e1 in
      let (_, enough, e3) =
        >>=-eq-ok (fail_if (ltb (lamports_of a) amount) (builtin program_error_insufficient_funds))
          _ e2 in
      let (_, fits, e4) =
        >>=-eq-ok
          (fail_if (ltb (2 ^ 64 - 1 - amount) (lamports_of b))
            (builtin program_error_arithmetic_overflow))
          _ e3 in
      let own = own_passed a c.program_id _ good.synced owned in
      let left = lamports_of a - amount in
      let (few, many) = amounts (lamports_of a) (lamports_of b) amount _ _ enough fits in
      let debited = set c.views from (set_lamports a left) in
      let (k, seen, e5) = >>=-eq-ok (view (store c from (set_lamports a left)) to) _ e4 in
      let kt : get_elem? debited to ≡ some k =
        view-found sha256 (store c from (set_lamports a left)) to k seen in
      let (less, wk) = credited_account from to left a b k at bt (omega arith) kt in
      let paid =
        set_lamports-IsHonest sha256 c.program_id a left good wa (inl own)
          (omega (arith, good.lamports_word)) in
      let all_paid =
        set-All (IsHonest sha256 c.program_id) c.views from (set_lamports a left) s.honest paid in
      let good_k = get_elem?-All (IsHonest sha256 c.program_id) debited to k all_paid kt in
      let lk = lamports_of_same k good_k.synced in
      let received =
        set_lamports-IsHonest sha256 c.program_id k (lamports_of k + amount) good_k (wk ∙ wb)
          (inr (omega arith)) (omega arith) in
      let first = moved c.views from left a at ma in
      let second = moved debited to (lamports_of k + amount) k kt mb in
      let first' = kept_baseline c.views from left a at in
      let second' = kept_baseline debited to (lamports_of k + amount) k kt in
      subst (IsSound sha256) (ok-injective e5) (record {
        honest = set-All (IsHonest sha256 c.program_id) debited to _ all_paid received;
        in_views =
            rw
              (
                length-set debited to (set_lamports k (lamports_of k + amount)),
                length-set c.views from (set_lamports a left),
              )
              s.in_views;
        balanced = omega (arith, s.balanced);
      })

  pub transfer_lamports-IsSound :
      (d : Context) (from to amount : ℕ)
      → transfer_lamports c from to amount ≡ ok d
      → IsSound sha256 d
  unfolding transfer_lamports
  transfer_lamports-IsSound d from to amount h =
      let (f, required, e1) = >>=-eq-ok (require_account c from only_writable) _ h in
      let (a, at, aslot, ca, same) =
        require_account-passed sha256 c f.1 from f.0 only_writable s required in
      let (g, required', e2) = >>=-eq-ok (require_account f.1 to only_writable) _ e1 in
      let (b, bt, bslot, cb, same') =
        require_account-passed sha256 c g.1 to g.0 only_writable s
          (subst (λ (x : Context). require_account x to only_writable ≡ ok g) same required') in
      transfer-IsSound d f.0 g.0 amount a b at bt (checked_writable sha256 a ca)
        (checked_writable sha256 b cb)
        (unseen-visits [] c.account_slots f.0 (get_elem?-contains c.account_slots from f.0 aslot)
          (unfold contains in refl))
        (unseen-visits [] c.account_slots g.0 (get_elem?-contains c.account_slots to g.0 bslot)
          (unfold contains in refl))
        (subst (λ (x : Context). transfer x f.0 g.0 amount ≡ ok d) same' e2)
