-- ===== src/Merkle/Inclusion.antt =====
-- internal/merkle/merkle.go: inclusion proofs, the two ways to check one, and the path length.
pub mod Complete
pub mod Sound
pub mod Walk
use ca_extension_mtc_playgro.Prelude.{
  ℕ, zero, suc, ◌+◌, ◌-◌, ◌/◌, ◌%◌, List, [], ◌∷◌, ◌++◌, Option, none, some, Bool, true, false,
  ◌||◌, length, get_elem?, ltb, leb, ◌==◌, if◌then◌else◌,
}
use ca_extension_mtc_playgro.Prelude.Int.{ℤ, pos, pos_part, ltb_ℤ, leb_ℤ}
use ca_extension_mtc_playgro.Prelude.Result.{Result, ok, err, stuck, ◌>>=◌, ◌>>◌, reject}
use ca_extension_mtc_playgro.Bytes.{Bytes, bytes_eq}
use ca_extension_mtc_playgro.Merkle.Hash.{
  Error, index_out_of_range, invalid_tree_size, max_depth, split_point, interior_hash,
  compute_subtree_hash,
}

-- `pathLen`: the length of the path to the leaf `index` in a tree of `size` leaves.
unfoldable pub path_len : ℕ → ℕ → ℕ → Result Error ℕ
path_len zero index size = stuck
path_len (suc fuel) index size = elim (leb size 1) [
  | true ↦ ok 0
  | false ↦ do
    k ← split_point size
    elim (ltb index k) [
      | true ↦ do rest ← path_len fuel index k; ok (rest + 1)
      | false ↦ do rest ← path_len fuel (index - k) (size - k); ok (rest + 1)
    ]
]

module _ (sha256 : Bytes → Bytes) where
  module _ (hash_at : ℕ → Bytes) where
    -- `inclusionProof`, the recursion: the sibling of each step, from the leaf up.
    unfoldable pub inclusion_proof_rec : ℕ → ℕ → ℕ → ℕ → Result Error (List Bytes)
    inclusion_proof_rec zero index start end = stuck
    inclusion_proof_rec (suc fuel) index start end = elim (end - start == 1) [
      | true ↦ ok []
      | false ↦ do
        k ← split_point (end - start)
        elim (ltb (index - start) k) [
          | true ↦ do
            proof ← inclusion_proof_rec fuel index start (start + k)
            sibling ← compute_subtree_hash sha256 hash_at fuel (start + k) end
            ok (proof ++ (sibling ∷ []))
          | false ↦ do
            proof ← inclusion_proof_rec fuel index (start + k) end
            sibling ← compute_subtree_hash sha256 hash_at fuel start (start + k)
            ok (proof ++ (sibling ∷ []))
        ]
    ]

    -- `InclusionProof`
    unfoldable pub inclusion_proof : ℤ → ℤ → Result Error (List Bytes)
    inclusion_proof index size = do
      reject (ltb_ℤ index (pos 0) || leb_ℤ size index) index_out_of_range
      reject (leb_ℤ size (pos 0)) invalid_tree_size
      inclusion_proof_rec max_depth (pos_part index) 0 (pos_part size)

  -- The hash above a subtree, where the proof still holds the sibling, and its own hash where not.
  unfoldable pub join_left : Bytes → Option Bytes → Bytes
  join_left own none = own
  join_left own (some sibling) = interior_hash sha256 own sibling

  unfoldable pub join_right : Bytes → Option Bytes → Bytes
  join_right own none = own
  join_right own (some sibling) = interior_hash sha256 sibling own

  -- `rootFromProof`. Each call passes `proofIdx` on unchanged, so it is 0 throughout.
  unfoldable pub root_from_proof : ℕ → ℕ → ℕ → ℕ → Bytes → List Bytes → Result Error Bytes
  root_from_proof zero index start end leaf proof = stuck
  root_from_proof (suc fuel) index start end leaf proof =
      elim (end - start == 1 || leb (length proof) 0) [
        | true ↦ ok leaf
        | false ↦ do
          k ← split_point (end - start)
          elim (ltb (index - start) k) [
            | true ↦ do
              own ← root_from_proof fuel index start (start + k) leaf proof
              at ← path_len fuel (index - start) k
              ok (join_left own (get_elem? proof at))
            | false ↦ do
              own ← root_from_proof fuel index (start + k) end leaf proof
              at ← path_len fuel (index - start - k) (end - start - k)
              ok (join_right own (get_elem? proof at))
          ]
      ]

  -- `RootFromInclusionProof`. At a negative index the source's tests take the way of index 0, and at a
  -- negative size that of size 0.
  unfoldable pub root_from_inclusion_proof : ℤ → ℤ → Bytes → List Bytes → Result Error Bytes
  root_from_inclusion_proof index size leaf proof =
      root_from_proof max_depth (pos_part index) 0 (pos_part size) leaf proof

  -- The loop of `VerifyInclusion`.
  unfoldable pub walk_up : ℕ → Bytes → List Bytes → Bytes
  walk_up index hash [] = hash
  walk_up index hash (sibling ∷ rest) =
      walk_up (index / 2)
        (if index % 2 == 0
          then interior_hash sha256 hash sibling
          else interior_hash sha256 sibling hash)
        rest

  -- `VerifyInclusion`
  unfoldable pub verify_inclusion : Bytes → ℤ → ℤ → List Bytes → Bytes → Bool
  verify_inclusion leaf index size proof root =
      if ltb_ℤ index (pos 0) || leb_ℤ size index
      then false
      else bytes_eq (walk_up (pos_part index) leaf proof) root
