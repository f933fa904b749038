-- ===== src/Sbpf/Syscall.antt =====
-- sbpf/syscall.go: `HashSymbolName`. A name is the list of its bytes, and a hash a 32-bit word.
use solanago.Base.{
  ℕ, zero, suc, ◌+◌, ◌-◌, ◌*◌, ◌/◌, ◌%◌, ◌^◌, ◌≡◌, refl, bit_or, bit_xor, List, [], ◌∷◌, length,
  take, drop,
}
use solanago.Base.Bytes.{get_le}

abbrev mix1 : ℕ
mix1 = 0xcc9e2d51

abbrev mix2 : ℕ
mix2 = 0x1b873593

-- `a * b` of 32-bit words.
unfoldable multiply : ℕ → ℕ → ℕ
multiply a b = a * b % 2 ^ 32

-- `value<<n | value>>(32-n)`.
unfoldable rotate : ℕ → ℕ → ℕ
rotate n value = bit_or (value * 2 ^ n % 2 ^ 32) (value / 2 ^ (32 - n))

unfoldable mix : ℕ → ℕ
mix value = multiply (rotate 15 (multiply value mix1)) mix2

-- The body of the loop over the blocks.
unfoldable hash_block : ℕ → ℕ → ℕ
hash_block hash value = (rotate 13 (bit_xor hash (mix value)) * 5 + 0xe6546b64) % 2 ^ 32

-- The loop, over so many blocks of the bytes.
unfoldable hash_blocks : ℕ → ℕ → List ℕ → ℕ
hash_blocks zero hash bytes = hash
hash_blocks (suc blocks) hash bytes =
    hash_blocks blocks (hash_block hash (get_le (take 4 bytes))) (drop 4 bytes)

-- The `switch`, on the bytes after the blocks: one to three of them make a word.
unfoldable hash_tail : ℕ → List ℕ → ℕ
hash_tail hash (a ∷ []) = bit_xor hash (mix a)
hash_tail hash (a ∷ b ∷ []) = bit_xor hash (mix (bit_xor (b * 2 ^ 8) a))
hash_tail hash (a ∷ b ∷ c ∷ []) = bit_xor hash (mix (bit_xor (bit_xor (c * 2 ^ 16) (b * 2 ^ 8)) a))
hash_tail hash _ = hash

-- `hash ^= hash >> n`.
unfoldable fold_shift : ℕ → ℕ → ℕ
fold_shift n hash = bit_xor hash (hash / 2 ^ n)

pub hash_symbol_name : List ℕ → ℕ
hash_symbol_name name =
    let blocks = length name / 4 in
    let hash = hash_tail (hash_blocks blocks 0 name) (drop (blocks * 4) name) in
    let sized = bit_xor hash (length name % 2 ^ 32) in
    let once = multiply (fold_shift 16 sized) 0x85ebca6b in
    fold_shift 16 (multiply (fold_shift 13 once) 0xc2b2ae35)

-- The hashes of "abort" and "sol_log_".
abort_hash : hash_symbol_name (0x61 ∷ 0x62 ∷ 0x6f ∷ 0x72 ∷ 0x74 ∷ []) ≡ 0xb6fc1a11
unfolding multiply rotate mix hash_block hash_blocks hash_tail fold_shift hash_symbol_name
abort_hash = refl

log_hash :
    hash_symbol_name (0x73 ∷ 0x6f ∷ 0x6c ∷ 0x5f ∷ 0x6c ∷ 0x6f ∷ 0x67 ∷ 0x5f ∷ []) ≡ 0x207559bd
unfolding multiply rotate mix hash_block hash_blocks hash_tail fold_shift hash_symbol_name
log_hash = refl
