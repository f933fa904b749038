-- ===== src/Runtime/Account/Guarded.antt =====
-- What `ValidateProgramChanges` asks of one account.
use solanago.Base.{
  ℕ, ◌≤◌, ◌≡◌, ◌≢◌, ◌↔◌, refl, sym, ◌∙◌, Bool, true, false, not, ◌&&◌, arith, inl, inr,
}
use solanago.Base.{List, ok, ltb, Bool-cases}
use solanago.Base.Bytes.{equal, all_zero, equal_refl, equal-eq, equal-false}
use mathlib.Core.Bool.{false≢true}
use solanago.Sdk.Pubkey.{Pubkey}
use solanago.Runtime.Account.{AccountView, live_data}
use solanago.Runtime.Account.Validate.{
  owner_changed, data_changed, lamports_changed, check_view, check_external, check_own,
}

-- What `RequireWritable` tests.
abbrev pub writable : AccountView → Bool
writable a = a.is_writable && not a.executable

module _ (sha256 : List ℕ → List ℕ) (program_id : Pubkey) where
  abbrev pub SameData : AccountView → Type 0
  SameData a = (a.data_len ≡ a.baseline_data_len) × (sha256 (live_data a) ≡ a.baseline_data_hash)

  -- What the program may have done to an account since the baseline: nothing to one that is not
  -- writable; to one of another program, it may have paid; and it gives away only zeros.
  pub record IsGuarded (a : AccountView) : Type 0 where
    pub locked :
        writable a ≡ false
        → (a.owner ≡ a.baseline_owner) × (a.lamports ≡ a.baseline_lamports) × SameData a
    pub foreign :
        a.baseline_owner ≢ program_id
        → (a.owner ≡ a.baseline_owner) × (a.baseline_lamports ≤ a.lamports) × SameData a
    pub given_away :
        a.baseline_owner ≡ program_id → a.owner ≢ a.baseline_owner → all_zero (live_data a) ≡ true

  same_owner : (a : AccountView) → (owner_changed sha256 a ≡ false) ↔ (a.owner ≡ a.baseline_owner)
  unfolding owner_changed
  same_owner a = (
    λ h. equal-eq a.owner a.baseline_owner (ground arith),
    λ e.
        let same : equal a.baseline_owner a.baseline_owner ≡ true = equal_refl a.baseline_owner in
        rw (e, same) refl,
  )

  same_data : (a : AccountView) → (data_changed sha256 a ≡ false) ↔ SameData a
  unfolding data_changed
  same_data a = (
    λ h. (ground arith, equal-eq (sha256 (live_data a)) a.baseline_data_hash (ground arith)),
    λ (l, e). rw (e, equal_refl a.baseline_data_hash) (ground arith),
  )

  abbrev PassesTests : AccountView → Type 0
  PassesTests a =
      (writable a ≡ false
        → (owner_changed sha256 a ≡ false)
          × (data_changed sha256 a ≡ false)
          × (lamports_changed sha256 a ≡ false))
      × (equal a.baseline_owner program_id ≡ false
          → (owner_changed sha256 a ≡ false)
            × (data_changed sha256 a ≡ false)
            × (ltb a.lamports a.baseline_lamports ≡ false))
      × (equal a.baseline_owner program_id ≡ true
          → owner_changed sha256 a ≡ true
          → all_zero (live_data a) ≡ true)

  same_lamports :
      (a : AccountView) → (lamports_changed sha256 a ≡ false) ↔ (a.lamports ≡ a.baseline_lamports)
  unfolding lamports_changed
  same_lamports a = (λ h. ground arith, λ e. ground arith)

  check_view-PassesTests :
      (a : AccountView) → PassesTests a → check_view sha256 program_id a ≡ ok tt
  unfolding check_view check_external check_own
  check_view-PassesTests a (locked, foreign, given) = elim (Bool-cases (writable a)) [
    | inl w ↦ elim (Bool-cases (equal a.baseline_owner program_id)) [
      | inl own ↦ elim (Bool-cases (owner_changed sha256 a)) [
        | inl moved ↦ ground (arith, given own moved)
        | inr kept ↦ ground arith
      ]
      | inr other ↦ ground (arith, foreign other)
    ]
    | inr n ↦ elim (Bool-cases (equal a.baseline_owner program_id)) [
      | inl own ↦ ground (arith, locked n)
      | inr other ↦ ground (arith, locked n, foreign other)
    ]
  ]

  PassesTests-check_view :
      (a : AccountView) → check_view sha256 program_id a ≡ ok tt → PassesTests a
  unfolding check_view check_external check_own
  PassesTests-check_view a h = (λ n. ground arith, λ o. ground arith, λ o m. ground arith)

  -- The tests of an account pass exactly when it is guarded.
  pub check_view-IsGuarded :
      (a : AccountView) → IsGuarded a → check_view sha256 program_id a ≡ ok tt
  check_view-IsGuarded a h = check_view-PassesTests a (
    λ n.
        let (o, l, d) = h.locked n in
        ((same_owner a).1 o, (same_data a).1 d, (same_lamports a).1 l),
    λ other.
        let (o, l, d) = h.foreign (equal-false a.baseline_owner program_id other) in
        ((same_owner a).1 o, (same_data a).1 d, ground arith),
    λ own moved.
        h.given_away (equal-eq a.baseline_owner program_id own)
          (λ e. false≢true (sym ((same_owner a).1 e) ∙ moved)),
  )

  pub IsGuarded-check_view :
      (a : AccountView) → check_view sha256 program_id a ≡ ok tt → IsGuarded a
  IsGuarded-check_view a h =
      let (locked, foreign, given) = PassesTests-check_view a h in
      record {
        locked = λ n.
            let (o, d, l) = locked n in
            ((same_owner a).0 o, (same_lamports a).0 l, (same_data a).0 d);
        foreign = λ ne.
            let (o, d, l) = foreign (differs a.baseline_owner program_id ne) in
            ((same_owner a).0 o, ground arith, (same_data a).0 d);
        given_away = λ own moved. given (rw own (equal_refl program_id)) (changed a moved);
      }
    where
      differs : (xs ys : List ℕ) → xs ≢ ys → equal xs ys ≡ false
      differs xs ys ne = elim (Bool-cases (equal xs ys)) [
        | inl e ↦ absurd (ne (equal-eq xs ys e))
        | inr n ↦ n
      ]

      changed : (a : AccountView) → a.owner ≢ a.baseline_owner → owner_changed sha256 a ≡ true
      changed a moved = elim (Bool-cases (owner_changed sha256 a)) [
        | inl e ↦ e
        | inr n ↦ absurd (moved ((same_owner a).0 n))
      ]
