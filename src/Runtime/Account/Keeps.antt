-- ===== src/Runtime/Account/Keeps.antt =====
-- What the operations keep of an invocation.
use solanago.Base.{ℕ, ◌<◌, ◌≡◌, refl, sym, ap, ◌∙◌, Bool, true, false, not, arith}
use solanago.Base.{
  List, [], length, get_elem?, get_elem?-All, set-All, set-same, length-set, some, All,
}
use solanago.Base.{ok, fail_if, >>=-eq-ok, ok-injective, take, length-take}
use solanago.Base.Bytes.{all_zero}
use mathlib.Core.Path.{subst}
use solanago.Sdk.Pubkey.{Pubkey}
use solanago.Runtime.ProgramError.{program_error_invalid_account_data}
use solanago.Runtime.Account.{
  AccountView, Error, builtin, live_data, require_writable, require_owner, resize_data,
  writable_data, set_owner,
}
use solanago.Runtime.Account.Context.{
  Context, AccountRequirement, only_writable, view, store, account_at, check_requirement,
  require_account, assign_owner, resize_account, copy_data,
}
use solanago.Runtime.Account.Validate.{unseen}
use solanago.Runtime.Account.Guarded.{writable}
use solanago.Runtime.Account.Honest.{
  IsSynced, IsHonest, sync_same, set_owner-IsHonest, resize_data-IsHonest, write-IsHonest,
  owner_passed, writable_passed,
}
use solanago.Runtime.Account.Totals.{total, total-set_same}

abbrev pub balance : AccountView → ℕ
balance a = a.lamports

abbrev pub baseline : AccountView → ℕ
baseline a = a.baseline_lamports

-- The accounts of an invocation, each once.
abbrev pub members : Context → List ℕ
members c = unseen [] c.account_slots

module _ (sha256 : List ℕ → List ℕ) where
  -- Every account is in order, every slot has one, and the balances sum up to the baselines.
  pub record IsSound (c : Context) : Type 0 where
    pub honest : All (IsHonest sha256 c.program_id) c.views
    pub in_views : All (λ (p : ℕ). p < length c.views) c.account_slots
    pub balanced : total balance c.views (members c) ≡ total baseline c.views (members c)

  pub view-found :
      (c : Context) (p : ℕ) (a : AccountView) → view c p ≡ ok a → get_elem? c.views p ≡ some a
  unfolding view
  view-found c p a h = ground arith

  pub found-view :
      (c : Context) (p : ℕ) (a : AccountView) → get_elem? c.views p ≡ some a → view c p ≡ ok a
  unfolding view
  found-view c p a h = rw (h, view)

  pub account_at-found :
      (c : Context) (i p : ℕ) → account_at c i ≡ ok p → get_elem? c.account_slots i ≡ some p
  unfolding account_at
  account_at-found c i p h = ground arith

  -- The account of a view that was found.
  pub view-IsHonest :
      (c : Context) (p : ℕ) (a : AccountView)
      → IsSound c
      → get_elem? c.views p ≡ some a
      → IsHonest sha256 c.program_id a
  view-IsHonest c p a s e = get_elem?-All (IsHonest sha256 c.program_id) c.views p a s.honest e

  -- A new view of the same balance.
  store-IsSound :
      (c : Context) (p : ℕ) (a b : AccountView)
      → IsSound c
      → get_elem? c.views p ≡ some a
      → IsHonest sha256 c.program_id b
      → a.lamports ≡ b.lamports
      → a.baseline_lamports ≡ b.baseline_lamports
      → IsSound (store c p b)
  unfolding store
  store-IsSound c p a b s e h l n = record {
    honest = set-All (IsHonest sha256 c.program_id) c.views p b s.honest h;
    in_views = rw (length-set c.views p b) s.in_views;
    balanced =
        total-set_same balance c.views p a b e l (members c)
        ∙ s.balanced
        ∙ sym (total-set_same baseline c.views p a b e n (members c));
  }

  -- On such an invocation `RequireAccount` changes nothing.
  pub require_account-passed :
      (c d : Context) (i p : ℕ) (r : AccountRequirement)
      → IsSound c
      → require_account c i r ≡ ok (p, d)
      → (a : AccountView) × (get_elem? c.views p ≡ some a)
        × (get_elem? c.account_slots i ≡ some p)
        × (check_requirement a r ≡ ok tt)
        × (d ≡ c)
  unfolding require_account store
  require_account-passed c d i p r s h =
      let (q, slot, e1) = >>=-eq-ok (account_at c i) _ h in
      let (found, seen, e2) = >>=-eq-ok (view c q) _ e1 in
      let at = view-found c q found seen in
      let same = sync_same found (view-IsHonest c q found s at).synced in
      let e3 = rw same at e2 in
      let (_, checked, e4) = >>=-eq-ok (check_requirement found r) _ e3 in
      let pair = ok-injective e4 in
      let same_pointer : q ≡ p = ap (λ (x : ℕ × Context). x.0) pair in
      let same_context : store c q found ≡ d = ap (λ (x : ℕ × Context). x.1) pair in
      (
        found,
        rw (← same_pointer) at,
        rw (← same_pointer) (account_at-found c i q slot),
        checked,
        sym same_context ∙ stored_back c q found at,
      )
    where
      stored_back :
          (c : Context) (q : ℕ) (a : AccountView) → get_elem? c.views q ≡ some a → store c q a ≡ c
      stored_back c q a e = ap (λ v. record c { views = v }) (set-same c.views q a e)

  pub checked_writable :
      (a : AccountView) → check_requirement a only_writable ≡ ok tt → writable a ≡ true
  unfolding check_requirement
  checked_writable a h =
      let (_, w, _) = >>=-eq-ok (require_writable a) _ h in writable_passed sha256 a.owner a w

  checked_own :
      (a : AccountView) (owner : Pubkey)
      → IsSynced a
      → check_requirement a (record only_writable { owner = some owner }) ≡ ok tt
      → (writable a ≡ true) × (a.owner ≡ owner)
  unfolding check_requirement
  checked_own a owner s h =
      let (_, w, e1) = >>=-eq-ok (require_writable a) _ h in
      let (_, o, _) = >>=-eq-ok (require_owner a owner) _ e1 in
      (writable_passed sha256 a.owner a w, owner_passed sha256 owner a owner s o)

  pub assign_owner-IsSound :
      (c d : Context) (i : ℕ) (owner : Pubkey)
      → IsSound c
      → assign_owner c i owner ≡ ok d
      → IsSound d
  unfolding assign_owner
  assign_owner-IsSound c d i owner s h =
      let (found, required, e1) =
        >>=-eq-ok (require_account c i (record only_writable { owner = some c.program_id })) _ h in
      let (a, at, _, checked, same) = require_account-passed c found.1 i found.0 _ s required in
      let good = view-IsHonest c found.0 a s at in
      let (w, own) = checked_own a c.program_id good.synced checked in
      let (b, seen, e2) = >>=-eq-ok (view found.1 found.0) _ e1 in
      let same_view : a ≡ b =
        ok-injective
          (sym (found-view c found.0 a at) ∙ sym (ap (λ x. view x found.0) same) ∙ seen) in
      let (_, zeros, e3) =
        >>=-eq-ok
          (fail_if (not (all_zero (live_data b))) (builtin program_error_invalid_account_data)) _
          e2 in
      let given =
        set_owner-IsHonest sha256 c.program_id a owner good w own
          (rw same_view (passed_zero (all_zero (live_data b)) _ zeros)) in
      let stored_in =
        store-IsSound c found.0 a (set_owner a owner) s at given (unfold set_owner in refl)
          (unfold set_owner in refl) in
      subst IsSound
        (ap (λ x. store x found.0 (set_owner a owner)) (sym same)
          ∙ ap (λ x. store found.1 found.0 (set_owner x owner)) same_view
          ∙ ok-injective e3)
        stored_in
    where
      passed_zero : (b : Bool) (e : Error) → fail_if (not b) e ≡ ok tt → b ≡ true
      passed_zero true e h = refl
      passed_zero false e h = cc

  pub resize_account-IsSound :
      (c d : Context) (i n : ℕ) → IsSound c → resize_account c i c.program_id n ≡ ok d → IsSound d
  unfolding resize_account
  resize_account-IsSound c d i n s h =
      let (p, slot, e1) = >>=-eq-ok (account_at c i) _ h in
      let (a, seen, e2) = >>=-eq-ok (view c p) _ e1 in
      let (b, resized, e3) = >>=-eq-ok (resize_data a c.program_id n) _ e2 in
      let at = view-found c p a seen in
      let (good, l, k) =
        resize_data-IsHonest sha256 c.program_id a b n (view-IsHonest c p a s at) resized in
      subst IsSound (ok-injective e3) (store-IsSound c p a b s at good (sym l) (sym k))

  pub copy_data-IsSound :
      (c d : Context) (i : ℕ) (new : List ℕ)
      → IsSound c
      → copy_data c i c.program_id new ≡ ok d
      → IsSound d
  unfolding copy_data writable_data
  copy_data-IsSound c d i new s h =
      let (p, slot, e1) = >>=-eq-ok (account_at c i) _ h in
      let (a, seen, e2) = >>=-eq-ok (view c p) _ e1 in
      let (live, got, e3) = >>=-eq-ok (writable_data a c.program_id) _ e2 in
      let (_, w, g1) = >>=-eq-ok (require_writable a) _ got in
      let (_, o, g2) = >>=-eq-ok (require_owner a c.program_id) _ g1 in
      let at = view-found c p a seen in
      let good = view-IsHonest c p a s at in
      let same_length : length (live_data a) ≡ length live = ap length (ok-injective g2) in
      let written =
        write-IsHonest sha256 c.program_id a (take (length live) new) good
          (writable_passed sha256 a.owner a w)
          (owner_passed sha256 c.program_id a c.program_id good.synced o)
          (omega (arith, same_length, length-take (length live) new)) in
      subst IsSound (ok-injective e3) (store-IsSound c p a _ s at written refl refl)
