-- ===== src/Merkle/Nodes.antt =====
-- internal/merkle/merkle.go: the same proofs and roots, from the stored hashes of tree nodes.
pub mod Perfect
pub mod Equal
use Prim.Native.Nat.{bit_and}
use ca_extension_mtc_playgro.Prelude.{
  ℕ, zero, suc, ◌+◌, ◌-◌, ◌/◌, ◌^◌, List, [], ◌∷◌, ◌++◌, Bool, true, false, ◌||◌, ltb, leb, ◌==◌,
  if◌then◌else◌,
}
use ca_extension_mtc_playgro.Prelude.Int.{ℤ, pos, pos_part, ltb_ℤ, leb_ℤ}
use ca_extension_mtc_playgro.Prelude.Pow.{trailing_zeros}
use ca_extension_mtc_playgro.Prelude.Result.{Result, ok, stuck, ◌>>=◌, ◌>>◌, reject}
use ca_extension_mtc_playgro.Bytes.{Bytes}
use ca_extension_mtc_playgro.Merkle.Hash.{
  Error, index_out_of_range, invalid_tree_size, invalid_sizes, max_depth, split_point,
  interior_hash,
}

-- `n&(n-1) == 0`
unfoldable pub is_power : ℕ → Bool
is_power n = bit_and n (n - 1) == 0

module _ (sha256 : Bytes → Bytes) (node_at : ℕ → ℕ → Bytes) where
  -- `subtreeHashFromNodes`
  unfoldable pub subtree_hash_from_nodes : ℕ → ℕ → ℕ → ℕ → Result Error Bytes
  subtree_hash_from_nodes zero start end level = stuck
  subtree_hash_from_nodes (suc fuel) start end level = elim (end - start == 1) [
    | true ↦ ok (node_at level start)
    | false ↦ elim (is_power (end - start)) [
      | true ↦ let h = trailing_zeros 64 (end - start) in ok (node_at (level + h) (start / 2 ^ h))
      | false ↦ do
        k ← split_point (end - start)
        left ← subtree_hash_from_nodes fuel start (start + k) level
        right ← subtree_hash_from_nodes fuel (start + k) end level
        ok (interior_hash sha256 left right)
    ]
  ]

  -- `inclusionProofFromNodes`, the recursion.
  unfoldable pub inclusion_from_nodes_rec : ℕ → ℕ → ℕ → ℕ → ℕ → Result Error (List Bytes)
  inclusion_from_nodes_rec zero index start end level = stuck
  inclusion_from_nodes_rec (suc fuel) index start end level = elim (end - start == 1) [
    | true ↦ ok []
    | false ↦ do
      k ← split_point (end - start)
      elim (ltb (index - start) k) [
        | true ↦ do
          proof ← inclusion_from_nodes_rec fuel index start (start + k) level
          sibling ← subtree_hash_from_nodes fuel (start + k) end level
          ok (proof ++ (sibling ∷ []))
        | false ↦ do
          proof ← inclusion_from_nodes_rec fuel index (start + k) end level
          sibling ← subtree_hash_from_nodes fuel start (start + k) level
          ok (proof ++ (sibling ∷ []))
      ]
  ]

  -- `InclusionProofFromNodes`
  unfoldable pub inclusion_proof_from_nodes : ℤ → ℤ → Result Error (List Bytes)
  inclusion_proof_from_nodes index size = do
    reject (ltb_ℤ index (pos 0) || leb_ℤ size index) index_out_of_range
    reject (leb_ℤ size (pos 0)) invalid_tree_size
    inclusion_from_nodes_rec max_depth (pos_part index) 0 (pos_part size) 0

  -- `consistencyProofFromNodes`, the recursion.
  unfoldable pub consistency_from_nodes_rec : ℕ → ℕ → ℕ → ℕ → ℕ → Bool → Result Error (List Bytes)
  consistency_from_nodes_rec zero m n start level open_right = stuck
  consistency_from_nodes_rec (suc fuel) m n start level open_right = elim (m == n) [
    | true ↦ elim open_right [
      | true ↦ ok []
      | false ↦ do hash ← subtree_hash_from_nodes (suc fuel) start (start + n) level; ok (hash ∷ [])
    ]
    | false ↦ do
      k ← split_point n
      elim (leb m k) [
        | true ↦ do
          proof ← consistency_from_nodes_rec fuel m k start level open_right
          hash ← subtree_hash_from_nodes fuel (start + k) (start + n) level
          ok (proof ++ (hash ∷ []))
        | false ↦ do
          proof ← consistency_from_nodes_rec fuel (m - k) (n - k) (start + k) level false
          hash ← subtree_hash_from_nodes fuel start (start + k) level
          ok (proof ++ (hash ∷ []))
      ]
  ]

  -- `ConsistencyProofFromNodes`
  unfoldable pub consistency_proof_from_nodes : ℤ → ℤ → Result Error (List Bytes)
  consistency_proof_from_nodes old_size new_size = do
    reject (ltb_ℤ old_size (pos 0) || ltb_ℤ new_size old_size) invalid_sizes
    if pos_part old_size == 0
        then ok []
        else if pos_part old_size == pos_part new_size
        then ok []
        else consistency_from_nodes_rec max_depth (pos_part old_size) (pos_part new_size) 0 0 true

  -- `RootFromNodes`
  unfoldable pub root_from_nodes : ℤ → Result Error Bytes
  root_from_nodes size =
      if leb_ℤ size (pos 0)
      then ok (sha256 [])
      else subtree_hash_from_nodes max_depth 0 (pos_part size) 0
