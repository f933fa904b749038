-- ===== src/Runtime/Account/Sound.antt =====
-- An invocation as a sequence of operations, and what `ValidateProgramChanges` says at its end.
use solanago.Base.{ℕ, ◌+◌, ◌<◌, ◌≡◌, refl, ap, ◌∙◌, not, ◌||◌, ◌⊎◌, inl, inr, arith}
use solanago.Base.{
  List, [], ◌∷◌, length, set-same, All, Result, ok, err, fail_if, ◌>>=◌, ◌==◌, get_elem?-below,
}
use solanago.Sdk.Pubkey.{Pubkey}
use mathlib.Core.Path.{subst}
use solanago.Base.{◌-◌, ◌^◌, sym, some, ltb, >>=-eq-ok, ok-injective}
use solanago.Base.Bytes.{equal, all_zero}
use solanago.Runtime.ProgramError.{
  program_error_illegal_owner, program_error_insufficient_funds, program_error_arithmetic_overflow,
  program_error_invalid_account_data,
}
use solanago.Runtime.Account.{
  Error, unbalanced_lamports, builtin, owner_of, lamports_of, set_lamports, live_data, sync,
  resize_data, writable_data,
}
use solanago.Runtime.Account.Context
use solanago.Runtime.Account.Context.{
  Context, AccountRequirement, only_writable, view, store, account_at, check_requirement,
  require_account, transfer_lamports, assign_owner, resize_account, copy_data,
}
use solanago.Runtime.Account.Validate.{
  sync_each, sync_accounts, Wide, check_views, validate_program_changes,
}
use solanago.Runtime.Account.Guarded.{check_view-IsGuarded}
use solanago.Runtime.Account.Honest.{sync_same}
use solanago.Runtime.Account.Keeps.{
  IsSound, balance, baseline, members, found-view, view-IsHonest, assign_owner-IsSound,
  resize_account-IsSound, copy_data-IsSound,
}
use solanago.Runtime.Account.Totals.{total, wide, add-wide, unseen-All}
use solanago.Runtime.Account.Transfer.{transfer_lamports-IsSound}

-- A call that a program makes on its context. The program ids of `ResizeData` and `WritableData` are
-- its choice, and it writes to a slice before its next call.
pub data Operation : Type 0 where
  transfer : ℕ → ℕ → ℕ → Operation
  assign : ℕ → Pubkey → Operation
  grow : ℕ → Pubkey → ℕ → Operation
  write : ℕ → Pubkey → List ℕ → Operation

-- The program gives its own id.
abbrev pub IsOwn : Pubkey → Operation → Type 0
IsOwn program_id (transfer from to amount) = Unit {0}
IsOwn program_id (assign index owner) = Unit {0}
IsOwn program_id (grow index k n) = k ≡ program_id
IsOwn program_id (write index k bytes) = k ≡ program_id

unfoldable pub attempt : Context → Operation → Result Error Context
attempt c (transfer from to amount) = transfer_lamports c from to amount
attempt c (assign index owner) = assign_owner c index owner
attempt c (grow index k n) = resize_account c index k n
attempt c (write index k bytes) = copy_data c index k bytes

-- A program goes on after a call that failed.
unfoldable pub run_operations : Context → List Operation → Context
run_operations c [] = c
run_operations c (o ∷ rest) = elim (attempt c o) [
  | ok d ↦ run_operations d rest
  | err e ↦ run_operations c rest
]

-- No call changes the program of an invocation.
require_account-program :
    (c d : Context) (i p : ℕ) (r : AccountRequirement)
    → require_account c i r ≡ ok (p, d)
    → d.program_id ≡ c.program_id
unfolding require_account store
require_account-program c d i p r h =
    let (q, _, e1) = >>=-eq-ok (account_at c i) _ h in
    let (found, _, e2) = >>=-eq-ok (view c q) _ e1 in
    let (a, _, e3) = >>=-eq-ok (sync found) _ e2 in
    let (_, _, e4) = >>=-eq-ok (check_requirement a r) _ e3 in
    ap (λ (x : ℕ × Context). x.1.program_id) (sym (ok-injective e4))

transfer-program :
    (c d : Context) (from to amount : ℕ)
    → Context.transfer c from to amount ≡ ok d
    → d.program_id ≡ c.program_id
unfolding Context.transfer store
transfer-program c d from to amount h =
    let (a, _, e1) = >>=-eq-ok (view c from) _ h in
    let (b, _, e2) = >>=-eq-ok (view c to) _ e1 in
    let (_, _, e3) =
      >>=-eq-ok
        (fail_if (not (equal (owner_of a) c.program_id)) (builtin program_error_illegal_owner)) _
        e2 in
    let (_, _, e4) =
      >>=-eq-ok (fail_if (ltb (lamports_of a) amount) (builtin program_error_insufficient_funds)) _
        e3 in
    let (_, _, e5) =
      >>=-eq-ok
        (fail_if (ltb (2 ^ 64 - 1 - amount) (lamports_of b))
          (builtin program_error_arithmetic_overflow))
        _ e4 in
    let (k, _, e6) =
      >>=-eq-ok (view (store c from (set_lamports a (lamports_of a - amount))) to) _ e5 in
    ap (λ (x : Context). x.program_id) (sym (ok-injective e6))

attempt-program : (c d : Context) (o : Operation) → attempt c o ≡ ok d → d.program_id ≡ c.program_id
unfolding attempt transfer_lamports assign_owner resize_account copy_data store
attempt-program c d (transfer from to amount) h =
    let (f, first, e1) = >>=-eq-ok (require_account c from only_writable) _ h in
    let (g, second, e2) = >>=-eq-ok (require_account f.1 to only_writable) _ e1 in
    transfer-program g.1 d f.0 g.0 amount e2
    ∙ require_account-program f.1 g.1 to g.0 only_writable second
    ∙ require_account-program c f.1 from f.0 only_writable first
attempt-program c d (assign index owner) h =
    let (f, first, e1) =
      >>=-eq-ok (require_account c index (record only_writable { owner = some c.program_id })) _
        h in
    let (a, _, e2) = >>=-eq-ok (view f.1 f.0) _ e1 in
    let (_, _, e3) =
      >>=-eq-ok
        (fail_if (not (all_zero (live_data a))) (builtin program_error_invalid_account_data)) _
        e2 in
    ap (λ (x : Context). x.program_id) (sym (ok-injective e3))
    ∙ require_account-program c f.1 index f.0 _ first
attempt-program c d (grow index k n) h =
    let (p, _, e1) = >>=-eq-ok (account_at c index) _ h in
    let (a, _, e2) = >>=-eq-ok (view c p) _ e1 in
    let (b, _, e3) = >>=-eq-ok (resize_data a k n) _ e2 in
    ap (λ (x : Context). x.program_id) (sym (ok-injective e3))
attempt-program c d (write index k bytes) h =
    let (p, _, e1) = >>=-eq-ok (account_at c index) _ h in
    let (a, _, e2) = >>=-eq-ok (view c p) _ e1 in
    let (live, _, e3) = >>=-eq-ok (writable_data a k) _ e2 in
    ap (λ (x : Context). x.program_id) (sym (ok-injective e3))

module _ (sha256 : List ℕ → List ℕ) where
  attempt-IsSound :
      (c d : Context) (o : Operation)
      → IsSound sha256 c
      → IsOwn c.program_id o
      → attempt c o ≡ ok d
      → IsSound sha256 d
  unfolding attempt
  attempt-IsSound c d (transfer from to amount) s own h =
      transfer_lamports-IsSound sha256 c s d from to amount h
  attempt-IsSound c d (assign index owner) s own h = assign_owner-IsSound sha256 c d index owner s h
  attempt-IsSound c d (grow index k n) s own h =
      resize_account-IsSound sha256 c d index n s
        (ap (λ (x : Pubkey). resize_account c index x n) (sym own) ∙ h)
  attempt-IsSound c d (write index k bytes) s own h =
      copy_data-IsSound sha256 c d index bytes s
        (ap (λ (x : Pubkey). copy_data c index x bytes) (sym own) ∙ h)

  pub run_operations-IsSound :
      (c : Context) (os : List Operation)
      → IsSound sha256 c
      → All (IsOwn c.program_id) os
      → IsSound sha256 (run_operations c os)
  unfolding run_operations
  run_operations-IsSound c [] s own = s
  run_operations-IsSound c (o ∷ rest) s (first, own) = elim (result_cases (attempt c o)) [
    | inl (d, e) ↦
        rw (run_operations, e)
          (run_operations-IsSound d rest (attempt-IsSound c d o s first e)
            (subst (λ (k : Pubkey). All (IsOwn k) rest) (sym (attempt-program c d o e)) own))
    | inr (f, e) ↦ rw (run_operations, e) (run_operations-IsSound c rest s own)
  ]
    where
      result_cases :
          (r : Result Error Context) → ((d : Context) × (r ≡ ok d)) ⊎ ((f : Error) × (r ≡ err f))
      result_cases (ok d) = inl (d, refl)
      result_cases (err f) = inr (f, refl)

  sync_each_same :
      (c : Context) (ps : List ℕ)
      → IsSound sha256 c
      → All (λ (p : ℕ). p < length c.views) ps
      → sync_each c ps ≡ ok c
  unfolding sync_each store
  sync_each_same c [] s h = refl
  sync_each_same c (p ∷ ps) s (here, later) =
      let (a, at) = get_elem?-below c.views p here in
      let same = sync_same a (view-IsHonest sha256 c p a s at).synced in
      rw (found-view sha256 c p a at, same, set-same c.views p a at) (sync_each_same c ps s later)

  abbrev sums : ℕ → ℕ → Result Error (Wide × Wide)
  sums m n = ok (wide m, wide n)

  same_sums : (m n m' n' : ℕ) → m ≡ m' → n ≡ n' → sums m n ≡ sums m' n'
  same_sums m n m' n' e f = ap (λ x. sums x n) e ∙ ap (λ x. sums m' x) f

  check_views_sound :
      (c : Context) (ps : List ℕ) (m n : ℕ)
      → IsSound sha256 c
      → All (λ (p : ℕ). p < length c.views) ps
      → check_views sha256 c ps (wide m) (wide n)
        ≡ ok (wide (m + total baseline c.views ps), wide (n + total balance c.views ps))
  unfolding check_views
  check_views_sound c [] m n s h = same_sums m n _ _ (omega arith) (omega arith)
  check_views_sound c (p ∷ ps) m n s (here, later) =
      let (a, at) = get_elem?-below c.views p here in
      let good = view-IsHonest sha256 c p a s at in
      rw
        (
          found-view sha256 c p a at,
          check_view-IsGuarded sha256 c.program_id a good.guarded,
          add-wide m a.baseline_lamports,
          add-wide n a.lamports,
          at,
        )
        (check_views_sound c ps (m + a.baseline_lamports) (n + a.lamports) s later
          ∙ same_sums _ _ _ _ (omega arith) (omega arith))

  validate_sound : (c : Context) → IsSound sha256 c → validate_program_changes sha256 c ≡ ok c
  unfolding validate_program_changes sync_accounts
  validate_sound c s =
      let members_in = unseen-All (λ (p : ℕ). p < length c.views) [] c.account_slots s.in_views in
      let summed = check_views_sound c (members c) 0 0 s members_in in
      rw (sync_each_same c (members c) s members_in, summed)
        (balanced (0 + total balance c.views (members c)) (0 + total baseline c.views (members c))
          (omega (arith, s.balanced)))
    where
      balanced :
          (n m : ℕ)
          → n ≡ m
          → (fail_if
                (not ((wide m).low == (wide n).low) || not ((wide m).high == (wide n).high))
                unbalanced_lamports
              >>= λ (_ : Unit {0}). ok c)
            ≡ ok c
      balanced n m e = rw e (ground arith)

  pub validate-run_operations :
      (c : Context) (os : List Operation)
      → IsSound sha256 c
      → All (IsOwn c.program_id) os
      → validate_program_changes sha256 (run_operations c os) ≡ ok (run_operations c os)
  validate-run_operations c os s own =
      validate_sound (run_operations c os) (run_operations-IsSound c os s own)
