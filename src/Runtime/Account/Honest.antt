-- ===== src/Runtime/Account/Honest.antt =====
-- What each operation keeps of one account.
use solanago.Base.{
  ℕ, zero, ◌+◌, ◌-◌, ◌≤◌, ◌<◌, ◌^◌, ◌≡◌, ◌⊎◌, refl, sym, ap, ◌∙◌, true, ◌||◌, arith, inl, inr,
}
use solanago.Base.Splice.{splice, length-splice}
use solanago.Base.{>>=-eq-ok, ok-injective, replicate, length-replicate}
use solanago.Base.{List, length, length-take, Option, none, some, ok, fail_if, ltb, Bool-cases}
use solanago.Base.Bytes.{equal, all_zero, equal-eq, equal-false}
use solanago.Runtime.ProgramError.{program_error_invalid_realloc}
use solanago.Sdk.Pubkey.{Pubkey}
use solanago.Runtime.Account.{
  builtin, require_writable, require_owner, resize_data, cleared, AccountView, live_data, stored,
  overwrite, owner_of, lamports_of, sync, sync_length, set_lamports, set_owner,
  max_permitted_data_length, max_permitted_data_increase,
}
use solanago.Runtime.Account.Guarded.{IsGuarded, writable}

-- The view and the program's memory agree, and the length is within its limits.
pub record IsSynced (a : AccountView) : Type 0 where
  pub owner_agrees : stored a.owner_storage a.owner ≡ a.owner
  pub lamports_agree : stored a.lamports_storage a.lamports ≡ a.lamports
  pub length_agrees : stored a.data_len_storage a.data_len ≡ a.data_len
  pub in_data : a.data_len ≤ length a.bytes
  pub in_limit : a.data_len ≤ max_permitted_data_length
  pub in_growth : a.data_len ≤ a.original_len + max_permitted_data_increase

sync_length-agrees :
    (a : AccountView) (s : Option ℕ)
    → stored s a.data_len ≡ a.data_len
    → a.data_len ≤ length a.bytes
    → a.data_len ≤ max_permitted_data_length
    → a.data_len ≤ a.original_len + max_permitted_data_increase
    → sync_length a s ≡ ok a
unfolding sync_length stored
sync_length-agrees a none e d l g = refl
sync_length-agrees a (some n) e d l g = ground arith

-- `Sync` leaves such a view alone.
pub sync_same : (a : AccountView) → IsSynced a → sync a ≡ ok a
unfolding sync owner_of lamports_of
sync_same a h =
    ap
      (λ o.
        sync_length (record a { owner = o; lamports = stored a.lamports_storage a.lamports })
          a.data_len_storage)
      h.owner_agrees
    ∙ ap (λ n. sync_length (record a { lamports = n }) a.data_len_storage) h.lamports_agree
    ∙ sync_length-agrees a a.data_len_storage h.length_agrees h.in_data h.in_limit h.in_growth

pub overwrite-stored {ℓ} : {A : Type ℓ} (s : Option A) (v : A) → stored (overwrite s v) v ≡ v
unfolding stored overwrite
overwrite-stored none v = refl
overwrite-stored (some old) v = refl

module _ (sha256 : List ℕ → List ℕ) (program_id : Pubkey) where
  -- A view that operations left in order.
  pub record IsHonest (a : AccountView) : Type 0 where
    pub synced : IsSynced a
    pub guarded : IsGuarded sha256 program_id a
    pub lamports_word : a.lamports < 2 ^ 64

  own_account :
      (a : AccountView)
      → IsGuarded sha256 program_id a
      → a.owner ≡ program_id
      → a.baseline_owner ≡ program_id
  own_account a h e = elim (Bool-cases (equal a.baseline_owner program_id)) [
    | inl own ↦ equal-eq a.baseline_owner program_id own
    | inr other ↦
        let (o, _, _) = h.foreign (equal-false a.baseline_owner program_id other) in sym o ∙ e
  ]

  -- An account that is writable and of this program, before and now, is guarded.
  own-IsGuarded :
      (a : AccountView)
      → writable a ≡ true
      → a.owner ≡ program_id
      → a.baseline_owner ≡ program_id
      → IsGuarded sha256 program_id a
  own-IsGuarded a w e b = record {
    locked = λ n. cc;
    foreign = λ ne. absurd (ne b);
    given_away = λ own moved. absurd (moved (e ∙ sym b));
  }

  -- A credit to a writable account, and a debit of one of this program.
  pub set_lamports-IsHonest :
      (a : AccountView) (value : ℕ)
      → IsHonest a
      → writable a ≡ true
      → (a.owner ≡ program_id) ⊎ (a.lamports ≤ value)
      → value < 2 ^ 64
      → IsHonest (set_lamports a value)
  unfolding set_lamports
  set_lamports-IsHonest a value h w may small = record {
    synced = record {
      owner_agrees = h.synced.owner_agrees;
      lamports_agree = overwrite-stored a.lamports_storage value;
      length_agrees = h.synced.length_agrees;
      in_data = h.synced.in_data;
      in_limit = h.synced.in_limit;
      in_growth = h.synced.in_growth;
    };
    guarded = record {
      locked = λ n. cc;
      foreign = λ ne.
          let (o, l, d) = h.guarded.foreign ne in
          (
            o,
            elim may [ inl e ↦ absurd (ne (own_account a h.guarded e)) | inr more ↦ omega arith ],
            unfold live_data in d,
          );
      given_away = λ own moved. unfold live_data in h.guarded.given_away own moved;
    };
    lamports_word = small;
  }

  -- An account of this program whose data is zeros is given away.
  pub set_owner-IsHonest :
      (a : AccountView) (owner : Pubkey)
      → IsHonest a
      → writable a ≡ true
      → a.owner ≡ program_id
      → all_zero (live_data a) ≡ true
      → IsHonest (set_owner a owner)
  unfolding set_owner
  set_owner-IsHonest a owner h w e zeros = record {
    synced = record {
      owner_agrees = overwrite-stored a.owner_storage owner;
      lamports_agree = h.synced.lamports_agree;
      length_agrees = h.synced.length_agrees;
      in_data = h.synced.in_data;
      in_limit = h.synced.in_limit;
      in_growth = h.synced.in_growth;
    };
    guarded = record {
      locked = λ n. cc;
      foreign = λ ne. absurd (ne (own_account a h.guarded e));
      given_away = λ own moved. unfold live_data in zeros;
    };
    lamports_word = h.lamports_word;
  }

  pub owner_of_same : (a : AccountView) → IsSynced a → owner_of a ≡ a.owner
  unfolding owner_of
  owner_of_same a h = h.owner_agrees

  pub writable_passed : (a : AccountView) → require_writable a ≡ ok tt → writable a ≡ true
  unfolding require_writable
  writable_passed a h = ground arith

  pub owner_passed :
      (a : AccountView) (owner : Pubkey)
      → IsSynced a
      → require_owner a owner ≡ ok tt
      → a.owner ≡ owner
  unfolding require_owner owner_of
  owner_passed a owner h e =
      sym h.owner_agrees ∙ equal-eq (stored a.owner_storage a.owner) owner (ground arith)

  length-cleared :
      (a : AccountView) (n : ℕ)
      → a.data_len ≤ length a.bytes
      → n ≤ length a.bytes
      → length (cleared a n) ≡ length a.bytes
  unfolding cleared
  length-cleared a n h k = elim (Bool-cases (ltb a.data_len n)) [
    | inl more ↦ rw more (
        length-splice a.bytes a.data_len (replicate (n - a.data_len) zero)
          (ground (arith, length-replicate (n - a.data_len) zero)))
    | inr less ↦ rw less (
        length-splice a.bytes n (replicate (a.data_len - n) zero)
          (ground (arith, length-replicate (a.data_len - n) zero)))
  ]

  resize_limits :
      (a : AccountView) (n : ℕ)
      → fail_if
          (ltb max_permitted_data_length n
            || ltb (a.original_len + max_permitted_data_increase) n
            || ltb (length a.bytes) n)
          (builtin program_error_invalid_realloc)
        ≡ ok tt
      → (n ≤ max_permitted_data_length)
        × (n ≤ a.original_len + max_permitted_data_increase)
        × (n ≤ length a.bytes)
  resize_limits a n h = (ground arith, ground arith, ground arith)

  pub resize_data-IsHonest :
      (a b : AccountView) (n : ℕ)
      → IsHonest a
      → resize_data a program_id n ≡ ok b
      → IsHonest b × (b.lamports ≡ a.lamports) × (b.baseline_lamports ≡ a.baseline_lamports)
  unfolding resize_data
  resize_data-IsHonest a b n h done =
      let e1 = rw (sync_same a h.synced) at done in
      let (_, w, e2) = >>=-eq-ok (require_writable a) _ e1 in
      let (_, o, e3) = >>=-eq-ok (require_owner a program_id) _ e2 in
      let (_, fits, e4) =
        >>=-eq-ok
          (fail_if
            (ltb max_permitted_data_length n
              || ltb (a.original_len + max_permitted_data_increase) n
              || ltb (length a.bytes) n)
            (builtin program_error_invalid_realloc))
          _ e3 in
      let own = owner_passed a program_id h.synced o in
      let (limit, growth, room) = resize_limits a n fits in
      rw (← (ok-injective e4)) (
        record {
          synced = record {
            owner_agrees = h.synced.owner_agrees;
            lamports_agree = h.synced.lamports_agree;
            length_agrees = overwrite-stored a.data_len_storage n;
            in_data = omega (arith, length-cleared a n h.synced.in_data room);
            in_limit = limit;
            in_growth = growth;
          };
          guarded = own-IsGuarded _ (writable_passed a w) own (own_account a h.guarded own);
          lamports_word = h.lamports_word;
        },
        refl,
        refl,
      )

  -- New bytes over the live data of a writable account of this program.
  pub write-IsHonest :
      (a : AccountView) (new : List ℕ)
      → IsHonest a
      → writable a ≡ true
      → a.owner ≡ program_id
      → length new ≤ length (live_data a)
      → IsHonest (record a { bytes = splice a.bytes 0 new })
  unfolding live_data
  write-IsHonest a new h w own same = record {
    synced = record {
      owner_agrees = h.synced.owner_agrees;
      lamports_agree = h.synced.lamports_agree;
      length_agrees = h.synced.length_agrees;
      in_data = omega (
        arith,
        h.synced.in_data,
        length-take a.data_len a.bytes,
        length-splice a.bytes 0 new (omega (arith, length-take a.data_len a.bytes)),
      );
      in_limit = h.synced.in_limit;
      in_growth = h.synced.in_growth;
    };
    guarded = own-IsGuarded _ w own (own_account a h.guarded own);
    lamports_word = h.lamports_word;
  }
