-- ===== src/Runtime/Account/Caught.antt =====
-- What `ValidateProgramChanges` shows of an invocation when it passes, against the state that its
-- baselines were taken of.
use solanago.Base.{ℕ, ◌+◌, ◌^◌, ◌≤◌, ◌<◌, ◌≡◌, refl, sym, ap, ◌∙◌, true, not, ◌||◌, inl, inr, arith}
use solanago.Base.{
  List, [], ◌∷◌, length, get_elem?, some, Bool-cases, All, ok, fail_if, >>=-eq-ok, ok-injective,
  ◌==◌,
}
use mathlib.Core.Path.{subst}
use native.Mathlib.Decide.{ℕ_discrete}
use solanago.Base.{◌⊎◌, Option, none, some, false, ◌≢◌, set, get_elem?-set, get_elem?-set-other}
use solanago.Base.Bytes.{equal, all_zero, equal-eq, equal-false}
use solanago.Sdk.Pubkey.{Pubkey}
use solanago.Runtime.ProgramError.{program_error_invalid_realloc}
use solanago.Base.{ltb}
use solanago.Runtime.Account.{
  builtin, max_permitted_data_length, max_permitted_data_increase, live_data, sync, sync_length,
  owner_of, lamports_of,
}
use solanago.Runtime.Account.Context.{store}
use solanago.Runtime.Account.Validate.{sync_each}
use solanago.Runtime.Account.Guarded.{writable}
use solanago.Sbpf.Validate.{contains}
use solanago.Runtime.Account.{AccountView, unbalanced_lamports}
use solanago.Runtime.Account.Context.{Context, view}
use solanago.Runtime.Account.Validate.{
  unseen, sync_accounts, Wide, zero_sum, check_views, validate_program_changes,
}
use solanago.Runtime.Account.Guarded.{IsGuarded}
use solanago.Runtime.Account.Keeps.{balance, baseline, members, view-found}
use solanago.Runtime.Account.Totals.{total, part, unseen-visits, get_elem?-contains}
use solanago.Runtime.Account.Visited.{
  IsSeen, check_views-passed, visited-IsGuarded, total-bound, length-unseen, equal_sums,
}

module _ (sha256 : List ℕ → List ℕ) where
  -- The data was kept, or sha256 does not tell the old and the new apart.
  abbrev pub KeptData : AccountView → AccountView → Type 0
  KeptData b a =
      (live_data a ≡ live_data b)
      ⊎ ((live_data a ≢ live_data b) × (sha256 (live_data a) ≡ sha256 (live_data b)))

  -- The baselines of a view `a` are what the view `b` had.
  pub record IsRecorded (b a : AccountView) : Type 0 where
    pub same_owner : a.baseline_owner ≡ b.owner
    pub same_lamports : a.baseline_lamports ≡ b.lamports
    pub same_length : a.baseline_data_len ≡ b.data_len
    pub same_hash : a.baseline_data_hash ≡ sha256 (live_data b)

  -- The baselines of an invocation `c` were taken of `before`.
  pub record Records (before c : Context) : Type 0 where
    pub program_same : c.program_id ≡ before.program_id
    pub recorded :
        (p : ℕ) (a : AccountView)
        → get_elem? c.views p ≡ some a
        → (b : AccountView) × (get_elem? before.views p ≡ some b) × IsRecorded b a

  -- What the program may have made of an account `b`.
  pub record IsRespected (program_id : Pubkey) (b a : AccountView) : Type 0 where
    pub locked : writable a ≡ false → (a.owner ≡ b.owner) × (a.lamports ≡ b.lamports) × KeptData b a
    pub foreign :
        b.owner ≢ program_id → (a.owner ≡ b.owner) × (b.lamports ≤ a.lamports) × KeptData b a
    pub given_away : b.owner ≡ program_id → a.owner ≢ b.owner → all_zero (live_data a) ≡ true

  kept_data : (b a : AccountView) → sha256 (live_data a) ≡ sha256 (live_data b) → KeptData b a
  kept_data b a h = elim (Bool-cases (equal (live_data a) (live_data b))) [
    | inl e ↦ inl (equal-eq (live_data a) (live_data b) e)
    | inr n ↦ inr (equal-false (live_data a) (live_data b) n, h)
  ]

  IsGuarded-IsRespected :
      (program_id : Pubkey) (b a : AccountView)
      → IsRecorded b a
      → IsGuarded sha256 program_id a
      → IsRespected program_id b a
  IsGuarded-IsRespected program_id b a r g = record {
    locked = λ n.
        let (o, l, (_, h)) = g.locked n in
        (o ∙ r.same_owner, l ∙ r.same_lamports, kept_data b a (h ∙ r.same_hash));
    foreign = λ other.
        let (o, l, (_, h)) = g.foreign (λ e. other (sym r.same_owner ∙ e)) in
        (o ∙ r.same_owner, omega (arith, l, r.same_lamports), kept_data b a (h ∙ r.same_hash));
    given_away = λ own moved. g.given_away (r.same_owner ∙ own) (λ e. moved (e ∙ r.same_owner));
  }

  -- `Sync` keeps the baselines.
  sync_length-IsRecorded :
      (b a d : AccountView) (size : Option ℕ)
      → IsRecorded b a
      → sync_length a size ≡ ok d
      → IsRecorded b d
  unfolding sync_length
  sync_length-IsRecorded b a d none r h = subst (IsRecorded b) (ok-injective h) r
  sync_length-IsRecorded b a d (some size) r h =
      let (_, _, e) =
        >>=-eq-ok
          (fail_if
            (ltb (length a.bytes) size
              || ltb max_permitted_data_length size
              || ltb (a.original_len + max_permitted_data_increase) size)
            (builtin program_error_invalid_realloc))
          _ h in
      subst (IsRecorded b) {x = record a { data_len = size }} (ok-injective e) (record {
        same_owner = r.same_owner;
        same_lamports = r.same_lamports;
        same_length = r.same_length;
        same_hash = r.same_hash;
      })

  sync-IsRecorded : (b a d : AccountView) → IsRecorded b a → sync a ≡ ok d → IsRecorded b d
  unfolding sync
  sync-IsRecorded b a d r h =
      sync_length-IsRecorded b (record a { owner = owner_of a; lamports = lamports_of a }) d
        a.data_len_storage
        (record {
          same_owner = r.same_owner;
          same_lamports = r.same_lamports;
          same_length = r.same_length;
          same_hash = r.same_hash;
        })
        h

  store-Records :
      (before c : Context) (p : ℕ) (a d : AccountView)
      → Records before c
      → get_elem? c.views p ≡ some a
      → sync a ≡ ok d
      → Records before (store c p d)
  unfolding store
  store-Records before c p a d r at h = record {
    program_same = r.program_same;
    recorded = λ q x e. elim (ℕ_discrete p q) [
      | yes same ↦
          let (b, found, good) = r.recorded p a at in
          let here : some d ≡ some x =
            sym (get_elem?-set c.views p a d at) ∙ ap (get_elem? (set c.views p d)) same ∙ e in
          (
            b,
            ap (get_elem? before.views) (sym same) ∙ found,
            subst (IsRecorded b) (cc here) (sync-IsRecorded b a d good h),
          )
      | no other ↦ r.recorded q x (sym (get_elem?-set-other c.views p q d other) ∙ e)
    ];
  }

  sync_each-Records :
      (before c d : Context) (ps : List ℕ)
      → Records before c
      → sync_each c ps ≡ ok d
      → Records before d
  unfolding sync_each
  sync_each-Records before c d [] r h = subst (Records before) (ok-injective h) r
  sync_each-Records before c d (p ∷ ps) r h =
      let (a, seen, e1) = >>=-eq-ok (view c p) _ h in
      let (synced, same, e2) = >>=-eq-ok (sync a) _ e1 in
      sync_each-Records before (store c p synced) d ps
        (store-Records before c p a synced r (view-found sha256 c p a seen) same) e2

  total-Records :
      (before d : Context) (ps : List ℕ)
      → Records before d
      → All (IsSeen sha256 d) ps
      → total baseline d.views ps ≡ total balance before.views ps
  unfolding IsSeen
  total-Records before d [] r h = refl
  total-Records before d (p ∷ ps) r ((a, at, _), rest) =
      let (b, found, good) = r.recorded p a at in
      omega (
        arith,
        ap (part baseline) at,
        ap (part balance) found,
        good.same_lamports,
        total-Records before d ps r rest,
      )

  total-wide :
      (views : List AccountView) (d : Context)
      → All (λ (a : AccountView). balance a < 2 ^ 64) views
      → length d.account_slots ≤ 2 ^ 64
      → total balance views (members d) < 2 ^ 128
  total-wide views d h few = omega (
    arith,
    total-bound sha256 balance views (members d) h,
    length-unseen sha256 [] d.account_slots,
    few,
  )

  -- When `ValidateProgramChanges` passes on an invocation whose baselines were taken of `before`, with
  -- balances of 64 bits and at most 2^64 slots: the account of each slot, by its state before and
  -- after, has the same owner, lamports and data if it is not writable; the same owner and data and no
  -- fewer lamports if another program owned it; and data of zeros if this program gave it away. Data
  -- is the same, or other bytes of the same hash. And the balances of the accounts, each counted once,
  -- have the sum that they had before.
  pub validate_program_changes-IsRespected :
      (before c d : Context)
      → Records before c
      → validate_program_changes sha256 c ≡ ok d
      → All (λ (a : AccountView). balance a < 2 ^ 64) d.views
      → All (λ (a : AccountView). balance a < 2 ^ 64) before.views
      → length d.account_slots ≤ 2 ^ 64
      → ((i p : ℕ) (a : AccountView)
          → get_elem? d.account_slots i ≡ some p
          → get_elem? d.views p ≡ some a
          → (b : AccountView) × (get_elem? before.views p ≡ some b)
            × IsRespected before.program_id b a)
        × (total balance d.views (members d) ≡ total balance before.views (members d))
  unfolding validate_program_changes sync_accounts
  validate_program_changes-IsRespected before c d records h words old_words few =
      let (synced, e, e1) = >>=-eq-ok (sync_each c (unseen [] c.account_slots)) _ h in
      let (sums, checked, e2) =
        >>=-eq-ok (check_views sha256 synced (unseen [] synced.account_slots) zero_sum zero_sum) _
          e1 in
      let (_, balanced, e3) =
        >>=-eq-ok
          (fail_if (not (sums.0.low == sums.1.low) || not (sums.0.high == sums.1.high))
            unbalanced_lamports)
          _ e2 in
      let same : synced ≡ d = ok-injective e3 in
      let kept = subst (Records before) same (sync_each-Records before c synced _ records e) in
      let (guarded, summed) = check_views-passed sha256 d (members d) 0 0 sums (
        subst (λ (x : Context). check_views sha256 x (members x) zero_sum zero_sum ≡ ok sums) same
          checked) in
      let balanced' =
        subst
          (λ (x : Wide × Wide).
            fail_if (not (x.0.low == x.1.low) || not (x.0.high == x.1.high)) unbalanced_lamports
            ≡ ok tt)
          summed balanced in
      let recorded = total-Records before d (members d) kept guarded in
      (
        λ i p a slot at.
            let (b, found, good) = kept.recorded p a at in
            let here =
              visited-IsGuarded sha256 d (members d) p a guarded
                (unseen-visits [] d.account_slots p (get_elem?-contains d.account_slots i p slot)
                  (unfold contains in refl))
                at in
            (
              b,
              found,
              subst (λ (k : Pubkey). IsRespected k b a) kept.program_same
                  (IsGuarded-IsRespected d.program_id b a good here),
            ),
        omega (
          arith,
          recorded,
          equal_sums sha256 (0 + total baseline d.views (members d))
              (0 + total balance d.views (members d))
              (omega (arith, recorded, total-wide before.views d old_words few))
              (omega (arith, total-wide d.views d words few)) balanced',
        ),
      )
