-- ===== src/Merkle/Hash.antt =====
-- internal/merkle/merkle.go: hashing, the split of a range, and the Merkle tree hash.
-- SHA-256 is crypto/sha256's, a parameter `sha256` of the model: any function on byte strings.
-- Go's `int64` positions are natural numbers here: negative ones are sent away, or treated like 0,
-- where a function takes a ℤ. `fuel` bounds the depth of a recursion; 64 calls reach any int64 size.
use ca_extension_mtc_playgro.Prelude.{
  ℕ, zero, suc, ◌+◌, ◌-◌, ◌^◌, List, [], ◌∷◌, ◌++◌, true, false, length, take, drop, ltb, ◌==◌,
  if◌then◌else◌,
}
use ca_extension_mtc_playgro.Prelude.Pow.{bit_len}
use ca_extension_mtc_playgro.Prelude.Result.{Result, ok, panic, stuck, ◌>>=◌}
use ca_extension_mtc_playgro.Bytes.{Bytes}

-- The errors of this package. `proof_exhausted` is the `false` of `verifyConsistencyRec`.
pub data Error : Type 0 where
  index_out_of_range invalid_tree_size invalid_sizes proof_exhausted : Error

-- The depth that every call from outside starts with: an int64 size has at most 63 bits.
abbrev pub max_depth : ℕ
max_depth = 64

-- The largest power of two below `n`; it panics below 2. The shift is at most 62, and cannot wrap.
unfoldable pub split_point : ℕ → Result Error ℕ
split_point n = if ltb n 2 then panic else ok (2 ^ (bit_len 64 (n - 1) - 1))

module _ (sha256 : Bytes → Bytes) where
  unfoldable pub leaf_hash : Bytes → Bytes
  leaf_hash entry = sha256 (0 ∷ entry)

  unfoldable pub interior_hash : Bytes → Bytes → Bytes
  interior_hash left right = sha256 (1 ∷ (left ++ right))

  -- `MTH`: the recursion on the halves of a list of entries.
  unfoldable pub mth : ℕ → List Bytes → Result Error Bytes
  mth zero entries = stuck
  mth (suc fuel) [] = ok (sha256 [])
  mth (suc fuel) (entry ∷ []) = ok (leaf_hash entry)
  mth (suc fuel) (a ∷ b ∷ rest) = do
    let entries = a ∷ b ∷ rest
    k ← split_point (length entries)
    left ← mth fuel (take k entries)
    right ← mth fuel (drop k entries)
    ok (interior_hash left right)

  module _ (hash_at : ℕ → Bytes) where
    -- `computeSubtreeHash`, of the entries from `start` up to `end`.
    unfoldable pub compute_subtree_hash : ℕ → ℕ → ℕ → Result Error Bytes
    compute_subtree_hash zero start end = stuck
    compute_subtree_hash (suc fuel) start end = elim (end - start == 1) [
      | true ↦ ok (hash_at start)
      | false ↦ do
        k ← split_point (end - start)
        left ← compute_subtree_hash fuel start (start + k)
        right ← compute_subtree_hash fuel (start + k) end
        ok (interior_hash left right)
    ]

    -- `SubtreeHash`
    unfoldable pub subtree_hash : ℕ → ℕ → Result Error Bytes
    subtree_hash start end = compute_subtree_hash max_depth start end
