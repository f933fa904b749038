-- ===== src/Runtime/Abi/RoundTrip.antt =====
-- The parser gives back what the serializer was given.
use solanago.Base.{
  ℕ, ◌+◌, ◌*◌, ◌≡◌, ◌≤◌, ◌<◌, refl, sym, ap, ◌∙◌, Bool, true, false, arith, if◌then◌else◌,
}
use solanago.Base.{
  List, [], ◌++◌, length, replicate, length-append, length-replicate, none, some, ok, ltb, ◌==◌,
}
use mathlib.Core.List.{append_assoc, append-nil}
use solanago.Base.Bytes.{put_le}
use solanago.Sdk.Pubkey.{Pubkey}
use solanago.Runtime.Account.Context.{Context}
use solanago.Runtime.Abi.{
  InputAccount, alignment_padding, append_u64, max_accounts_per_instruction,
  max_instruction_data_len, input_address,
}
use solanago.Runtime.Abi.Serialize.{
  SerializeOptions, SerializedInput, Written, or_invalid, input_size, write_slots, write_pointers,
  serialize_input_v1_with_options,
}
use solanago.Runtime.Abi.Parse.{
  AbiCursor, ParseOptions, ParsedInput, read_u64, take_slice, parse_slots,
  parse_input_v1_with_options,
}
use solanago.Runtime.Abi.Layout.{IsSlots, slots_bytes}
use solanago.Runtime.Abi.Cursor.{IsAt, take_slice-IsAt, read_u64-IsAt}
use solanago.Runtime.Abi.Pointers.{
  pointer_bytes, write_pointers-bytes, length-pointer_bytes, check_pointers-IsAt,
  write_slots-HasWord,
}
use solanago.Runtime.Abi.Slots.{slots_written}
use solanago.Runtime.Abi.Back.{mapped_slots, parsed_of, slots_back}
use solanago.Runtime.Abi.Sizes.{
  slots_length, slot_sizes-below, checked_mul_int-below, checked_add_int-below,
}

module _ (sha256 : List ℕ → List ℕ) (strict : Bool) (program_id : Pubkey)
    (inputs : List InputAccount) (instruction_data : List ℕ) (key : length program_id ≡ 32)
    (few : length inputs ≤ max_accounts_per_instruction)
    (short : length instruction_data ≤ max_instruction_data_len) (slots : IsSlots 0 inputs) where
  abbrev start : Written
  start = record { buffer = append_u64 [] (length inputs); regions = [] }

  abbrev tail : List ℕ → List ℕ
  tail rest = put_le 8 (length instruction_data) ++ (instruction_data ++ (program_id ++ rest))

  -- The context that is parsed.
  abbrev pub mapped_context : Context
  mapped_context = record {
    program_id = program_id;
    instruction_data = instruction_data;
    views = (mapped_slots sha256 ([], []) inputs).0;
    account_slots = (mapped_slots sha256 ([], []) inputs).1;
  }

  -- The parser up to the pointers.
  parse_head :
      (w : Written) (rest : List ℕ)
      → write_slots start inputs ≡ ok w
      → (c1 c2 c3 c4 c5 : AbiCursor) × (read_u64 (record {
        bytes = put_le 8 (length inputs) ++ slots_bytes inputs (tail rest);
        offset = 0;
      })
          ≡ ok (length inputs, c1))
        × (parse_slots sha256 strict (length inputs) 0 c1 (parsed_of sha256 ([], []) [])
            ≡ ok (c2, parsed_of sha256 (mapped_slots sha256 ([], []) inputs) w.regions))
        × (read_u64 c2 ≡ ok (length instruction_data, c3))
        × (take_slice c3 (length instruction_data) ≡ ok (instruction_data, c4))
        × (take_slice c4 32 ≡ ok (program_id, c5))
        × IsAt (length w.buffer + 8 + length instruction_data + 32) rest c5
  unfolding append_u64
  parse_head w rest e =
      let first : IsAt 0 (put_le 8 (length inputs) ++ slots_bytes inputs (tail rest)) _ = record {
        offset_same = refl;
        rest_same = refl;
        inside = omega arith;
      } in
      let (c1, e1, h1) =
        read_u64-IsAt 0 (length inputs) (slots_bytes inputs (tail rest)) _ (omega (arith, few))
          first in
      let (c2, e2, h2) =
        slots_back sha256 strict 0 ([], []) inputs start w (tail rest) c1 slots (omega (arith, few))
          refl refl e h1 in
      let (c3, e3, h3) =
        read_u64-IsAt (length w.buffer) (length instruction_data)
          (instruction_data ++ (program_id ++ rest)) c2 (omega (arith, short)) h2 in
      let (c4, e4, h4) =
        take_slice-IsAt _ (length instruction_data) instruction_data (program_id ++ rest) c3 refl
          h3 in
      let (c5, e5, h5) = take_slice-IsAt _ 32 program_id rest c4 key h4 in
      (c1, c2, c3, c4, c5, e1, e2, e3, e4, e5, h5)

  abbrev options : Bool → SerializeOptions
  options direct = record { direct_account_pointers = direct }

  abbrev parse_options : Bool → ParseOptions
  parse_options direct = record {
    direct_account_pointers = direct;
    reject_non_canonical_bools = strict;
  }

  abbrev parsed : Written → AbiCursor → ParsedInput
  parsed w c = record { context = mapped_context; regions = w.regions; raw = c.bytes }

  -- What stands behind the program's key.
  abbrev trailer : Bool → Written → List ℕ
  trailer false w = []
  trailer true w =
      replicate (alignment_padding (length w.buffer + 8 + length instruction_data + 32)) 0
      ++ pointer_bytes w.regions

  -- The input that the parser accepts.
  abbrev input : List ℕ → List ℕ
  input rest = put_le 8 (length inputs) ++ slots_bytes inputs (tail rest)

  parse_tail :
      (direct : Bool) (w : Written)
      → write_slots start inputs ≡ ok w
      → length (input (trailer direct w))
        ≡ length w.buffer + 8 + length instruction_data + 32 + length (trailer direct w)
      → (c : AbiCursor) × (parse_input_v1_with_options sha256
            (input (trailer direct w))
            (parse_options direct)
          ≡ ok (parsed w c))
  unfolding parse_input_v1_with_options
  parse_tail false w e size =
      let (c1, c2, c3, c4, c5, e1, e2, e3, e4, e5, h5) = parse_head w [] e in
      let many : ltb max_accounts_per_instruction (length inputs) ≡ false = ground arith in
      let large : ltb max_instruction_data_len (length instruction_data) ≡ false = ground arith in
      let end : (c5.offset == length (input [])) ≡ true = ground (arith, size, h5.offset_same) in
      (c5, rw (e1, many, e2, e3, large, e4, e5, end) refl)
  parse_tail true w e size =
      let n = length w.buffer + 8 + length instruction_data + 32 in
      let (c1, c2, c3, c4, c5, e1, e2, e3, e4, e5, h5) = parse_head w (trailer true w) e in
      let many : ltb max_accounts_per_instruction (length inputs) ≡ false = ground arith in
      let large : ltb max_instruction_data_len (length instruction_data) ≡ false = ground arith in
      let pad = alignment_padding n in
      let (c6, e6, h6) =
        take_slice-IsAt n pad (replicate pad 0) (pointer_bytes w.regions) c5
          (length-replicate {A = ℕ} pad 0) h5 in
      let (c7, e7, h7) =
        check_pointers-IsAt (n + pad) w.regions c6 (write_slots-HasWord start w inputs tt e) h6 in
      let l1 = length-append (replicate pad 0) (pointer_bytes w.regions) in
      let l2 = length-replicate {A = ℕ} pad 0 in
      let l3 = length-pointer_bytes w.regions in
      let end : (c7.offset == length (input (trailer true w))) ≡ true =
        ground (arith, size, h7.offset_same, l1, l2, l3) in
      let e6' = ap (λ (k : ℕ). take_slice c5 (alignment_padding k)) h5.offset_same ∙ e6 in
      (c7, rw (e1, many, e2, e3, large, e4, e5, e6', e7, end) refl)

  abbrev size : ℕ
  size = 8 + slots_length inputs + (8 + length instruction_data + 32)

  input_size-false : input_size (options false) inputs instruction_data ≡ ok (size, 0)
  unfolding input_size or_invalid
  input_size-false =
      let (e, limit, _) = slot_sizes-below 0 8 inputs slots (omega (arith, few)) in
      let e1 =
        checked_add_int-below (8 + slots_length inputs) (8 + length instruction_data + 32)
          (omega (arith, limit, few, short)) in
      rw (e, e1) refl

  padding-lt : (n : ℕ) → alignment_padding n < 8
  unfolding alignment_padding
  padding-lt n = omega arith

  input_size-true :
      input_size (options true) inputs instruction_data
      ≡ ok (size + (alignment_padding size + length inputs * 8), alignment_padding size)
  unfolding input_size or_invalid
  input_size-true =
      let (e, limit, _) = slot_sizes-below 0 8 inputs slots (omega (arith, few)) in
      let e1 =
        checked_add_int-below (8 + slots_length inputs) (8 + length instruction_data + 32)
          (omega (arith, limit, few, short)) in
      let e2 =
        checked_add_int-below size (alignment_padding size + length inputs * 8)
          (omega (arith, limit, few, short, padding-lt size)) in
      rw (e, e1, checked_mul_int-below (length inputs) few, e2) refl

  -- The buffer of the slots, and the whole input behind it.
  slots_same :
      (w : Written)
      → ((rest : List ℕ) → w.buffer ++ rest ≡ start.buffer ++ slots_bytes inputs rest)
      → (rest : List ℕ) → w.buffer ++ tail rest ≡ input rest
  unfolding append_u64
  slots_same w same rest = same (tail rest)

  length-slots :
      (w : Written)
      → ((rest : List ℕ) → w.buffer ++ rest ≡ start.buffer ++ slots_bytes inputs rest)
      → length w.buffer ≡ 8 + slots_length inputs
  unfolding append_u64
  length-slots w same =
      let (_, _, lengths) = slot_sizes-below 0 8 inputs slots (omega (arith, few)) in
      let l1 = length-append w.buffer [] in
      let l2 = length-append (put_le 8 (length inputs)) (slots_bytes inputs []) in
      omega (arith, ap length (same []), l1, l2, lengths [])

  length-tail :
      (w : Written) (rest : List ℕ)
      → length (w.buffer ++ tail rest)
        ≡ length w.buffer + 8 + length instruction_data + 32 + length rest
  length-tail w rest =
      let l1 = length-append w.buffer (tail rest) in
      let l2 = length-append instruction_data (program_id ++ rest) in
      let l3 = length-append program_id rest in omega (arith, l1, l2, l3, key)

  flat : (b n d p rest : List ℕ) → (((b ++ n) ++ d) ++ p) ++ rest ≡ b ++ (n ++ (d ++ (p ++ rest)))
  flat b n d p rest = simp append_assoc refl

  abbrev head : Written → List ℕ
  head w = w.buffer ++ put_le 8 (length instruction_data)

  abbrev contiguous : Written → List ℕ
  contiguous w = (head w ++ instruction_data) ++ program_id

  abbrev padded : Written → List ℕ
  padded w = contiguous w ++ replicate (alignment_padding size) 0

  abbrev output : Bool → Written → SerializedInput
  output direct w = record {
    buffer = if direct then write_pointers (padded w) w.regions else contiguous w;
    account_regions = w.regions;
    instruction_data_offset = length (head w);
    direct_account_pointers_offset = if direct then some (length (padded w)) else none;
    instruction_data_address = input_address (length (head w));
  }

  abbrev buffer_of : Bool → Written → List ℕ
  buffer_of false w = contiguous w
  buffer_of true w = write_pointers (padded w) w.regions

  buffer_same :
      (direct : Bool) (w : Written)
      → length w.buffer ≡ 8 + slots_length inputs
      → buffer_of direct w ≡ w.buffer ++ tail (trailer direct w)
  buffer_same false w e =
      sym (append-nil (contiguous w))
      ∙ flat w.buffer (put_le 8 (length instruction_data)) instruction_data program_id []
  buffer_same true w e =
      let same_size : size ≡ length w.buffer + 8 + length instruction_data + 32 =
        omega (arith, e) in
      write_pointers-bytes (padded w) w.regions
      ∙ append_assoc (contiguous w) (replicate (alignment_padding size) 0) (pointer_bytes w.regions)
      ∙ ap
          (λ (n : ℕ).
            contiguous w ++ (replicate (alignment_padding n) 0 ++ pointer_bytes w.regions))
          same_size
      ∙ flat w.buffer (put_le 8 (length instruction_data)) instruction_data program_id
          (trailer true w)

  serialized :
      (direct : Bool) (w : Written)
      → write_slots start inputs ≡ ok w
      → length w.regions ≡ length inputs
      → ((rest : List ℕ) → w.buffer ++ rest ≡ start.buffer ++ slots_bytes inputs rest)
      → serialize_input_v1_with_options program_id inputs instruction_data (options direct)
        ≡ ok (output direct w)
  unfolding serialize_input_v1_with_options append_u64
  serialized false w e count same =
      let many : ltb max_accounts_per_instruction (length inputs) ≡ false = ground arith in
      let large : ltb max_instruction_data_len (length instruction_data) ≡ false = ground arith in
      let whole = ap length (buffer_same false w (length-slots w same)) in
      let fits : (length (contiguous w) == size) ≡ true =
        ground (arith, whole, length-tail w [], length-slots w same) in
      rw (many, large, input_size-false, e, fits) refl
  serialized true w e count same =
      let many : ltb max_accounts_per_instruction (length inputs) ≡ false = ground arith in
      let large : ltb max_instruction_data_len (length instruction_data) ≡ false = ground arith in
      let l0 = length-slots w same in
      let whole = ap length (buffer_same true w l0) in
      let pad : alignment_padding (length w.buffer + 8 + length instruction_data + 32)
          ≡ alignment_padding size =
        ap alignment_padding (omega (arith, l0)) in
      let l1 =
        length-append
          (replicate (alignment_padding (length w.buffer + 8 + length instruction_data + 32)) 0)
          (pointer_bytes w.regions) in
      let l2 =
        length-replicate {A = ℕ}
          (alignment_padding (length w.buffer + 8 + length instruction_data + 32)) 0 in
      let l3 = length-pointer_bytes w.regions in
      let fits : (length (write_pointers (padded w) w.regions)
            == size + (alignment_padding size + length inputs * 8))
          ≡ true =
        ground (arith, whole, length-tail w (trailer true w), l0, pad, l1, l2, l3, count) in
      rw (many, large, input_size-true, e, fits) refl

  -- Any list of at most 255 slots, each an account with keys of 32 bytes, a balance of 64 bits and at
  -- most 10 MiB of data, or a copy of an earlier slot, with a program's key of 32 bytes and at most
  -- 10 KiB of instruction data, is serialized, with and without the pointers to the records; and
  -- from the bytes the parser, strict on Booleans or not, gives the context back: the key, the
  -- instruction data, a view of each account with its fields, its data with the room behind them and
  -- its baseline, shared by the copies of its slot; and the regions that the serializer returned.
  pub parse_input-serialize_input :
      (direct : Bool)
      → (out : SerializedInput) × (raw : List ℕ) × (serialize_input_v1_with_options program_id
            inputs instruction_data
            (options direct)
          ≡ ok out)
        × (parse_input_v1_with_options sha256 out.buffer (parse_options direct)
            ≡ ok (record { context = mapped_context; regions = out.account_regions; raw = raw }))
  parse_input-serialize_input direct =
      let (w, e, count, same) = slots_written 0 inputs start slots refl in
      let whole : w.buffer ++ tail (trailer direct w) ≡ input (trailer direct w) =
        slots_same w same (trailer direct w) in
      let (c, parsed) =
        parse_tail direct w e (ap length (sym whole) ∙ length-tail w (trailer direct w)) in
      (
        output direct w,
        c.bytes,
        serialized direct w e (omega (arith, count)) same,
        ap (λ (bytes : List ℕ). parse_input_v1_with_options sha256 bytes (parse_options direct))
              (output_buffer direct w ∙ buffer_same direct w (length-slots w same) ∙ whole)
            ∙ parsed_regions direct w c parsed,
      )
    where
      output_buffer : (direct : Bool) (w : Written) → (output direct w).buffer ≡ buffer_of direct w
      output_buffer false w = refl
      output_buffer true w = refl

      parsed_regions :
          (direct : Bool) (w : Written) (c : AbiCursor)
          → parse_input_v1_with_options sha256 (input (trailer direct w)) (parse_options direct)
            ≡ ok (parsed w c)
          → parse_input_v1_with_options sha256 (input (trailer direct w)) (parse_options direct)
            ≡ ok (record {
              context = mapped_context;
              regions = (output direct w).account_regions;
              raw = c.bytes;
            })
      parsed_regions direct w c e = e
