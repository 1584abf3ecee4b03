-- ===== src/Merkle/Consistency.antt =====
-- internal/merkle/merkle.go: consistency proofs and their verification.
pub mod Prefix
pub mod Complete
pub mod Sound
use ca_extension_mtc_playgro.Prelude.{
  ℕ, zero, suc, ◌+◌, ◌-◌, List, [], ◌∷◌, ◌++◌, Option, none, some, Bool, true, false, ◌&&◌, ◌||◌,
  length, get_elem?, leb, ◌==◌, if◌then◌else◌,
}
use ca_extension_mtc_playgro.Prelude.Int.{ℤ, pos, pos_part, ltb_ℤ, leb_ℤ}
use ca_extension_mtc_playgro.Prelude.Result.{Result, ok, err, panic, stuck, ◌>>=◌, ◌>>◌, reject}
use ca_extension_mtc_playgro.Bytes.{Bytes, bytes_eq}
use ca_extension_mtc_playgro.Merkle.Hash.{
  Error, invalid_sizes, proof_exhausted, max_depth, split_point, interior_hash,
  compute_subtree_hash,
}

-- `proof[*pIdx]; *pIdx++`, behind the test of the bound.
unfoldable pub next_hash : List Bytes → ℕ → Result Error (Bytes × ℕ)
next_hash proof at = elim (get_elem? proof at) [
  | none ↦ err proof_exhausted
  | some hash ↦ ok (hash, at + 1)
]

-- The last line of `VerifyConsistency`, on what the recursion returned.
unfoldable pub accept :
    Bytes → Bytes → List Bytes → Result Error (Bytes × Bytes × ℕ) → Result Error Bool
accept old_root new_root proof (ok (old, new, at)) =
    ok (at == length proof && bytes_eq old old_root && bytes_eq new new_root)
accept old_root new_root proof (err e) = ok false
accept old_root new_root proof panic = panic
accept old_root new_root proof stuck = stuck

module _ (sha256 : Bytes → Bytes) where
  module _ (hash_at : ℕ → Bytes) where
    -- `consistencyProof`, the recursion on `m` old and `n` new entries behind `start`.
    unfoldable pub consistency_proof_rec : ℕ → ℕ → ℕ → ℕ → Bool → Result Error (List Bytes)
    consistency_proof_rec zero m n start open_right = stuck
    consistency_proof_rec (suc fuel) m n start open_right = elim (m == n) [
      | true ↦ elim open_right [
        | true ↦ ok []
        | false ↦ do
          hash ← compute_subtree_hash sha256 hash_at (suc fuel) start (start + n)
          ok (hash ∷ [])
      ]
      | false ↦ do
        k ← split_point n
        elim (leb m k) [
          | true ↦ do
            proof ← consistency_proof_rec fuel m k start open_right
            hash ← compute_subtree_hash sha256 hash_at fuel (start + k) (start + n)
            ok (proof ++ (hash ∷ []))
          | false ↦ do
            proof ← consistency_proof_rec fuel (m - k) (n - k) (start + k) false
            hash ← compute_subtree_hash sha256 hash_at fuel start (start + k)
            ok (proof ++ (hash ∷ []))
        ]
    ]

    -- `ConsistencyProof`
    unfoldable pub consistency_proof : ℤ → ℤ → Result Error (List Bytes)
    consistency_proof old_size new_size = do
      reject (ltb_ℤ old_size (pos 0) || ltb_ℤ new_size old_size) invalid_sizes
      if pos_part old_size == 0
          then ok []
          else if pos_part old_size == pos_part new_size
          then ok []
          else consistency_proof_rec max_depth (pos_part old_size) (pos_part new_size) 0 true

  -- `verifyConsistencyRec`: the old and the new hash of a subtree, and the position in the proof after
  -- it. The zero hash that the source passes on beside a closed right edge is never read.
  unfoldable pub verify_consistency_rec :
      ℕ → ℕ → ℕ → Bool → Bytes → List Bytes → ℕ → Result Error (Bytes × Bytes × ℕ)
  verify_consistency_rec zero m n open_right pass proof at = stuck
  verify_consistency_rec (suc fuel) m n open_right pass proof at = elim (m == n) [
    | true ↦ elim open_right [
      | true ↦ ok (pass, pass, at)
      | false ↦ do (hash, at') ← next_hash proof at; ok (hash, hash, at')
    ]
    | false ↦ do
      k ← split_point n
      elim (leb m k) [
        | true ↦ do
          (old, new, at') ← verify_consistency_rec fuel m k open_right pass proof at
          (right, at'') ← next_hash proof at'
          ok (old, interior_hash sha256 new right, at'')
        | false ↦ do
          (old, new, at') ← verify_consistency_rec fuel (m - k) (n - k) false [] proof at
          (left, at'') ← next_hash proof at'
          ok (interior_hash sha256 left old, interior_hash sha256 left new, at'')
      ]
  ]

  -- `VerifyConsistency`
  unfoldable pub verify_consistency : ℤ → ℤ → List Bytes → Bytes → Bytes → Result Error Bool
  verify_consistency old_size new_size proof old_root new_root =
      if ltb_ℤ new_size old_size || ltb_ℤ old_size (pos 0) || ltb_ℤ new_size (pos 0)
      then ok false
      else if pos_part old_size == pos_part new_size
      then ok (length proof == 0 && bytes_eq old_root new_root)
      else if pos_part old_size == 0
      then ok (length proof == 0)
      else if length proof == 0
      then ok false
      else accept old_root new_root proof (
          verify_consistency_rec max_depth (pos_part old_size) (pos_part new_size) true old_root
            proof 0)
