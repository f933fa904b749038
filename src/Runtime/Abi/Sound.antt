-- ===== src/Runtime/Abi/Sound.antt =====
-- The context of a serialized input, under the operations of a program.
use solanago.Base.{ℕ, suc, zero, ◌+◌, ◌≤◌, ◌<◌, ◌≡◌, inl, inr, refl, sym, ap, Bool, arith}
use solanago.Base.{
  List, [], ◌∷◌, ◌++◌, length, length-append, replicate, get_elem?, get_or, All, All-append, ok,
}
use mathlib.Core.Path.{subst}
use solanago.Base.Splice.{take-append}
use solanago.Sdk.Pubkey.{Pubkey}
use solanago.Runtime.Account.{Account, AccountView, live_data, stored, max_permitted_data_increase}
use solanago.Runtime.Account.Context.{Context}
use solanago.Runtime.Account.Validate.{validate_program_changes}
use solanago.Runtime.Account.Honest.{IsHonest}
use solanago.Runtime.Account.Keeps.{balance, baseline}
use solanago.Runtime.Account.Totals.{total, part}
use solanago.Runtime.Account.Sound.{Operation, IsOwn, run_operations, validate-run_operations}
use solanago.Runtime.Abi.Serialize.{SerializedInput, serialize_input_v1_with_options}
use solanago.Runtime.Abi.Parse.{ParsedInput, parse_input_v1_with_options}
use solanago.Runtime.Abi.RoundTrip.{parse_input-serialize_input}
use solanago.Runtime.Abi.{
  max_accounts_per_instruction, max_instruction_data_len, InputAccount, unique_input_account,
  duplicate_input_account,
}
use solanago.Runtime.Abi.Layout.{IsInputAccount, IsSlot, IsSlots}
use solanago.Runtime.Abi.Back.{Mapped, mapped_view, mapped_slot, mapped_slots}

module _ (sha256 : List ℕ → List ℕ) (program_id : Pubkey) where
  mapped_view-IsHonest :
      (a : Account) → IsInputAccount a → IsHonest sha256 program_id (mapped_view sha256 a)
  unfolding stored live_data
  mapped_view-IsHonest a (key, owner, small, short) =
      let same_data = ap sha256 (take-append a.bytes (replicate max_permitted_data_increase 0)) in
      record {
        synced = record {
          owner_agrees = refl;
          lamports_agree = refl;
          length_agrees = refl;
          in_data = omega (arith, length-append a.bytes (replicate max_permitted_data_increase 0));
          in_limit = short;
          in_growth = omega arith;
        };
        guarded = record {
          locked = λ n. (refl, refl, (refl, same_data));
          foreign = λ ne. (refl, omega arith, (refl, same_data));
          given_away = λ own moved. absurd (moved refl);
        };
        lamports_word = small;
      }

  -- Views in order, with the balances of their baselines, and slots that have one.
  record IsFresh (m : Mapped) : Type 0 where
    honest : All (IsHonest sha256 program_id) m.0
    unpaid : All (λ (a : AccountView). balance a ≡ baseline a) m.0
    in_views : All (λ (p : ℕ). p < length m.0) m.1

  more_room :
      (slots : List ℕ) (k n : ℕ)
      → k ≤ n
      → All (λ (p : ℕ). p < k) slots
      → All (λ (p : ℕ). p < n) slots
  more_room [] k n h a = tt
  more_room (s ∷ slots) k n h (b, bs) = (omega (arith, h, b), more_room slots k n h bs)

  get_or-below :
      (slots : List ℕ) (i k : ℕ)
      → i < length slots
      → All (λ (p : ℕ). p < k) slots
      → get_or slots i 0 < k
  get_or-below [] i k h a = absurd (omega (arith, h))
  get_or-below (s ∷ slots) zero k h (b, bs) = b
  get_or-below (s ∷ slots) (suc i) k h (b, bs) = get_or-below slots i k (omega (arith, h)) bs

  mapped_slot-IsFresh :
      (m : Mapped) (input : InputAccount)
      → IsSlot (length m.1) input
      → IsFresh m
      → IsFresh (mapped_slot sha256 m input)
        × (length (mapped_slot sha256 m input).1 ≡ length m.1 + 1)
  unfolding unique_input_account duplicate_input_account
  mapped_slot-IsFresh m input s h = elim s [
    | inl (a, same, good) ↦ rw same (
      record {
        honest =
            All-append (IsHonest sha256 program_id) m.0 _ h.honest
              (mapped_view-IsHonest a good, tt);
        unpaid = All-append (λ (a : AccountView). balance a ≡ baseline a) m.0 _ h.unpaid (refl, tt);
        in_views =
            All-append (λ (p : ℕ). p < length (m.0 ++ (mapped_view sha256 a ∷ []))) m.1 _
              (more_room m.1 (length m.0) _
                (omega (arith, length-append m.0 (mapped_view sha256 a ∷ []))) h.in_views)
              (omega (arith, length-append m.0 (mapped_view sha256 a ∷ [])), tt);
      },
      length-append m.1 (length m.0 ∷ []),
    )
    | inr (target, same, earlier) ↦ rw same (
      record {
        honest = h.honest;
        unpaid = h.unpaid;
        in_views =
            All-append (λ (p : ℕ). p < length m.0) m.1 _ h.in_views
              (get_or-below m.1 target (length m.0) earlier h.in_views, tt);
      },
      length-append m.1 (get_or m.1 target 0 ∷ []),
    )
  ]

  mapped_slots-IsFresh :
      (index : ℕ) (m : Mapped) (inputs : List InputAccount)
      → length m.1 ≡ index
      → IsSlots index inputs
      → IsFresh m
      → IsFresh (mapped_slots sha256 m inputs)
  mapped_slots-IsFresh index m [] e s h = h
  mapped_slots-IsFresh index m (input ∷ inputs) e (s, later) h =
      let (fresh, count) =
        mapped_slot-IsFresh m input (subst (λ (k : ℕ). IsSlot k input) (sym e) s) h in
      mapped_slots-IsFresh (index + 1) (mapped_slot sha256 m input) inputs (omega (arith, count, e))
        later fresh

  same_part :
      (views : List AccountView) (p : ℕ)
      → All (λ (a : AccountView). balance a ≡ baseline a) views
      → part balance (get_elem? views p) ≡ part baseline (get_elem? views p)
  same_part [] p h = refl
  same_part (a ∷ rest) zero (h, hs) = h
  same_part (a ∷ rest) (suc p) (h, hs) = same_part rest p hs

  same_total :
      (views : List AccountView) (ps : List ℕ)
      → All (λ (a : AccountView). balance a ≡ baseline a) views
      → total balance views ps ≡ total baseline views ps
  same_total views [] h = refl
  same_total views (p ∷ ps) h = omega (arith, same_part views p h, same_total views ps h)

  validate-run_parsed :
      (inputs : List InputAccount) (instruction_data : List ℕ) (os : List Operation)
      → IsSlots 0 inputs
      → All (IsOwn program_id) os
      → let c : Context = record {
        program_id = program_id;
        instruction_data = instruction_data;
        views = (mapped_slots sha256 ([], []) inputs).0;
        account_slots = (mapped_slots sha256 ([], []) inputs).1;
      } in
        validate_program_changes sha256 (run_operations c os) ≡ ok (run_operations c os)
  validate-run_parsed inputs instruction_data os s own =
      let fresh =
        mapped_slots-IsFresh 0 ([], []) inputs refl s
          (record { honest = tt; unpaid = tt; in_views = tt }) in
      validate-run_operations sha256 _ os
        (record {
          honest = fresh.honest;
          in_views = fresh.in_views;
          balanced = same_total (mapped_slots sha256 ([], []) inputs).0 _ fresh.unpaid;
        })
        own

  -- Slots, a program's key and instruction data within their limits are serialized, with and without
  -- the pointers to the records; the parser accepts the bytes; and on the context that it returns,
  -- whatever sequence of TransferLamports, AssignOwner, ResizeData and copies into the slice of
  -- WritableData the program makes, on copies of a slot too, where it gives its own id to the
  -- latter two and copies before its next call, and whichever of them fail, `ValidateProgramChanges`
  -- passes at the end.
  pub validate-run_input :
      (direct strict : Bool) (inputs : List InputAccount) (instruction_data : List ℕ)
      (os : List Operation)
      → length program_id ≡ 32
      → length inputs ≤ max_accounts_per_instruction
      → length instruction_data ≤ max_instruction_data_len
      → IsSlots 0 inputs
      → All (IsOwn program_id) os
      → (out : SerializedInput) × (parsed : ParsedInput) × (serialize_input_v1_with_options
            program_id inputs instruction_data
            (record { direct_account_pointers = direct })
          ≡ ok out)
        × (parse_input_v1_with_options sha256 out.buffer
              (record { direct_account_pointers = direct; reject_non_canonical_bools = strict })
            ≡ ok parsed)
        × (validate_program_changes sha256 (run_operations parsed.context os)
            ≡ ok (run_operations parsed.context os))
  validate-run_input direct strict inputs instruction_data os key few short s own =
      let (out, raw, e, f) =
        parse_input-serialize_input sha256 strict program_id inputs instruction_data key few short s
          direct in
      (out, _, e, f, validate-run_parsed inputs instruction_data os s own)
