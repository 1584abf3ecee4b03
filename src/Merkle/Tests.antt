-- ===== src/Merkle/Tests.antt =====
-- The tree of merkle.go at small sizes: runs, and the theorems at concrete inputs.
use ca_extension_mtc_playgro.Prelude.Int.{abs}
use ca_extension_mtc_playgro.Prelude.{◌-◌}
use ca_extension_mtc_playgro.Prelude.Int.{as_int64}
use ca_extension_mtc_playgro.Prelude.Int.{negsuc}
use mathlib.Core.List.{Mem}
use ca_extension_mtc_playgro.Prelude.{
  ℕ, ◌+◌, ◌*◌, ◌^◌, ◌≤◌, ◌<◌, ◌≡◌, refl, ◌⊎◌, List, [], ◌∷◌, true, replicate, get_or, arith,
}
use ca_extension_mtc_playgro.Prelude.Int.{pos}
use ca_extension_mtc_playgro.Prelude.Result.{ok}
use ca_extension_mtc_playgro.Prelude.Pow.{bit_len}
use ca_extension_mtc_playgro.Bytes.{Bytes, bytes_eq}
use ca_extension_mtc_playgro.Merkle.Hash.{
  max_depth, split_point, leaf_hash, interior_hash, mth, compute_subtree_hash, subtree_hash,
}
use ca_extension_mtc_playgro.Merkle.Collision.{Collision, Is32}
use ca_extension_mtc_playgro.Merkle.TreeHash.{mth-eq_subtree_hash}
use ca_extension_mtc_playgro.Merkle.Inclusion.{
  inclusion_proof, inclusion_proof_rec, path_len, join_left, join_right, root_from_proof,
  root_from_inclusion_proof, walk_up, verify_inclusion,
}
use ca_extension_mtc_playgro.Merkle.Inclusion.Complete.{root_from_inclusion_proof-inclusion_proof}
use ca_extension_mtc_playgro.Merkle.Inclusion.Sound.{root_from_inclusion_proof_sound}
use ca_extension_mtc_playgro.Merkle.Inclusion.Walk.{
  verify_inclusion-inclusion_proof, verify_inclusion_last_leaf,
}
use ca_extension_mtc_playgro.Merkle.Consistency.{
  consistency_proof, verify_consistency, verify_consistency_rec, next_hash, accept,
}
use ca_extension_mtc_playgro.Merkle.Consistency.Complete.{verify_consistency-consistency_proof}
use ca_extension_mtc_playgro.Merkle.Consistency.Sound.{verify_consistency_sound}
use ca_extension_mtc_playgro.Merkle.Nodes.{
  subtree_hash_from_nodes, inclusion_proof_from_nodes, consistency_proof_from_nodes,
  root_from_nodes,
}
use ca_extension_mtc_playgro.Merkle.Nodes.Perfect.{perfect}
use ca_extension_mtc_playgro.Merkle.Nodes.Equal.{
  HasNodes, inclusion_proof_from_nodes-eq_inclusion_proof,
  consistency_proof_from_nodes-eq_consistency_proof, root_from_nodes-eq_subtree_hash,
}
use ca_extension_mtc_playgro.Merkle.Tiles.{
  tile_for_entry, tiles_for_range, bit_ceil, is_valid_subtree,
}
use ca_extension_mtc_playgro.Merkle.Tiles.Cover.{
  tiles_for_range-tile_for_entry, bit_ceil_lem, subtree_hash_from_nodes-is_valid_subtree,
}

-- A stand-in for SHA-256: 32 bytes, from a weighted sum of the input.
weigh : ℕ → Bytes → ℕ
weigh acc [] = acc
weigh acc (x ∷ xs) = weigh (acc * 31 + x + 1) xs

abbrev toy : Bytes → Bytes
toy input = replicate 32 (weigh 7 input)

abbrev toy_leaf : ℕ → Bytes
toy_leaf i = replicate 32 (i * i + 5)

toy-Is32 : (input : Bytes) → Is32 (toy input)
toy-Is32 input = refl

toy_leaf-Is32 : (i : ℕ) → Is32 (toy_leaf i)
toy_leaf-Is32 i = refl

abbrev join : Bytes → Bytes → Bytes
join = unfold interior_hash in interior_hash toy

split_13 : split_point 13 ≡ ok 8
unfolding split_point bit_len
split_13 = refl

abbrev proof_1_of_3 : List Bytes
proof_1_of_3 = toy_leaf 0 ∷ toy_leaf 2 ∷ []

proof_1_of_3_made : inclusion_proof toy toy_leaf (pos 1) (pos 3) ≡ ok proof_1_of_3
unfolding inclusion_proof inclusion_proof_rec split_point bit_len compute_subtree_hash
proof_1_of_3_made = refl

abbrev root_of_3 : Bytes
root_of_3 = join (join (toy_leaf 0) (toy_leaf 1)) (toy_leaf 2)

root_of_3_lem : subtree_hash toy toy_leaf 0 3 ≡ ok root_of_3
unfolding subtree_hash split_point bit_len compute_subtree_hash interior_hash
root_of_3_lem = refl

path_1_of_3 : path_len max_depth 1 3 ≡ ok 2
unfolding path_len split_point bit_len
path_1_of_3 = refl

leads_1_of_3 :
    root_from_inclusion_proof toy (pos 1) (pos 3) (toy_leaf 1) proof_1_of_3 ≡ ok root_of_3
unfolding root_from_inclusion_proof root_from_proof path_len split_point bit_len join_left
    join_right interior_hash
leads_1_of_3 = refl

abbrev root_of_2 : Bytes
root_of_2 = join (toy_leaf 0) (toy_leaf 1)

root_of_2-Is32 : Is32 root_of_2
unfolding interior_hash
root_of_2-Is32 = refl

root_from_inclusion_proof-inclusion_proof_example :
    (proof : List Bytes) × (root : Bytes) × (inclusion_proof toy toy_leaf (pos 1) (pos 3)
      ≡ ok proof)
    × (subtree_hash toy toy_leaf 0 3 ≡ ok root)
    × (root_from_inclusion_proof toy (pos 1) (pos 3) (toy_leaf 1) proof ≡ ok root)
root_from_inclusion_proof-inclusion_proof_example =
    root_from_inclusion_proof-inclusion_proof toy toy_leaf 1 3 (omega arith) (omega arith)

root_from_inclusion_proof_sound_example : (toy_leaf 1 ≡ toy_leaf 1) ⊎ Collision toy
root_from_inclusion_proof_sound_example =
    root_from_inclusion_proof_sound toy toy_leaf 1 3 2 (toy_leaf 1) root_of_3 proof_1_of_3 toy-Is32
      toy_leaf-Is32 (omega arith) (omega arith) refl (refl, (refl, tt)) path_1_of_3 (omega arith)
      root_of_3_lem leads_1_of_3

verify_consistency-consistency_proof_example :
    (proof : List Bytes) × (old_root : Bytes) × (new_root : Bytes) × (consistency_proof toy toy_leaf
        (pos 2)
        (pos 3)
      ≡ ok proof)
    × (subtree_hash toy toy_leaf 0 2 ≡ ok old_root)
    × (subtree_hash toy toy_leaf 0 3 ≡ ok new_root)
    × (verify_consistency toy (pos 2) (pos 3) proof old_root new_root ≡ ok true)
verify_consistency-consistency_proof_example =
    verify_consistency-consistency_proof toy toy_leaf 2 3 (omega arith) (omega arith) (omega arith)

accepted_2_of_3 :
    verify_consistency toy (pos 2) (pos 3) (toy_leaf 2 ∷ []) root_of_2 root_of_3 ≡ ok true
unfolding verify_consistency verify_consistency_rec next_hash accept split_point bit_len
    interior_hash bytes_eq weigh
accepted_2_of_3 = refl

verify_consistency_sound_example : (subtree_hash toy toy_leaf 0 2 ≡ ok root_of_2) ⊎ Collision toy
verify_consistency_sound_example =
    verify_consistency_sound toy toy_leaf 2 3 (toy_leaf 2 ∷ []) root_of_2 root_of_3 toy-Is32
      toy_leaf-Is32 (refl, tt) root_of_2-Is32 (omega arith) (omega arith) (omega arith)
      root_of_3_lem accepted_2_of_3

mth-eq_subtree_hash_example :
    (hash : Bytes) × (mth toy max_depth ((1 ∷ []) ∷ (2 ∷ []) ∷ []) ≡ ok hash)
    × (subtree_hash toy (λ i. leaf_hash toy (get_or ((1 ∷ []) ∷ (2 ∷ []) ∷ []) i [])) 0 2 ≡ ok hash)
mth-eq_subtree_hash_example =
    mth-eq_subtree_hash toy ((1 ∷ []) ∷ (2 ∷ []) ∷ []) (omega arith) (omega arith)

verify_inclusion-inclusion_proof_example :
    (proof : List Bytes) × (root : Bytes) × (inclusion_proof toy toy_leaf (pos 3) (pos (2 ^ 2))
      ≡ ok proof)
    × (subtree_hash toy toy_leaf 0 (2 ^ 2) ≡ ok root)
    × (verify_inclusion toy (toy_leaf 3) (pos 3) (pos (2 ^ 2)) proof root ≡ true)
verify_inclusion-inclusion_proof_example =
    verify_inclusion-inclusion_proof toy toy_leaf 2 3 (omega arith) (omega arith)

-- A hash that maps all to one value, under which the order of two hashes goes unseen.
abbrev zeros_32 : Bytes
zeros_32 = replicate 32 0

abbrev flat : Bytes → Bytes
flat input = zeros_32

abbrev flat_leaf : ℕ → Bytes
flat_leaf i = zeros_32

flat-Is32 : (input : Bytes) → Is32 (flat input)
flat-Is32 input = refl

flat_leaf-Is32 : (i : ℕ) → Is32 (flat_leaf i)
flat_leaf-Is32 i = refl

flat_proof_2_of_3 : inclusion_proof flat flat_leaf (pos 2) (pos 3) ≡ ok (zeros_32 ∷ [])
unfolding inclusion_proof inclusion_proof_rec split_point bit_len compute_subtree_hash interior_hash
flat_proof_2_of_3 = refl

flat_root_3 : subtree_hash flat flat_leaf 0 3 ≡ ok zeros_32
unfolding subtree_hash split_point bit_len compute_subtree_hash interior_hash
flat_root_3 = refl

flat_root_2 : subtree_hash flat flat_leaf 0 2 ≡ ok zeros_32
unfolding subtree_hash split_point bit_len compute_subtree_hash interior_hash
flat_root_2 = refl

flat_accepted : verify_inclusion flat zeros_32 (pos 2) (pos 3) (zeros_32 ∷ []) zeros_32 ≡ true
unfolding verify_inclusion walk_up interior_hash bytes_eq
flat_accepted = refl

verify_inclusion_last_leaf_example : (flat_leaf 2 ≡ zeros_32) ⊎ Collision flat
verify_inclusion_last_leaf_example =
    verify_inclusion_last_leaf flat flat_leaf 1 (zeros_32 ∷ []) zeros_32 zeros_32 flat-Is32
      flat_leaf-Is32 (omega arith) (omega arith) flat_root_2 flat_root_3 flat_proof_2_of_3
      flat_accepted

-- The nodes of a tree of 4 leaves: those of the levels 0 to 2.
abbrev toy_node : ℕ → ℕ → Bytes
toy_node = perfect toy toy_leaf

toy-HasNodes : HasNodes toy toy_leaf toy_node 4
toy-HasNodes h c fits = refl

inclusion_proof_from_nodes-eq_inclusion_proof_example :
    inclusion_proof_from_nodes toy toy_node (pos 1) (pos 3)
    ≡ inclusion_proof toy toy_leaf (pos 1) (pos 3)
inclusion_proof_from_nodes-eq_inclusion_proof_example =
    inclusion_proof_from_nodes-eq_inclusion_proof toy toy_leaf toy_node 4 toy-HasNodes (pos 1) 3
      (omega arith) (omega arith)

consistency_proof_from_nodes-eq_consistency_proof_example :
    consistency_proof_from_nodes toy toy_node (pos 2) (pos 3)
    ≡ consistency_proof toy toy_leaf (pos 2) (pos 3)
consistency_proof_from_nodes-eq_consistency_proof_example =
    consistency_proof_from_nodes-eq_consistency_proof toy toy_leaf toy_node 4 toy-HasNodes (pos 2) 3
      (omega arith) (omega arith)

root_from_nodes-eq_subtree_hash_example :
    root_from_nodes toy toy_node (pos 3) ≡ subtree_hash toy toy_leaf 0 3
root_from_nodes-eq_subtree_hash_example =
    root_from_nodes-eq_subtree_hash toy toy_leaf toy_node 4 toy-HasNodes 3 (omega arith)
      (omega arith) (omega arith)

tiles_for_range-tile_for_entry_example : Mem (tile_for_entry 300) (tiles_for_range 200 600)
tiles_for_range-tile_for_entry_example =
    tiles_for_range-tile_for_entry 200 600 300 (omega arith) (omega arith)

bit_ceil_lem_example :
    ((5 ≤ 2 ^ 62) × ((h : ℕ) × (bit_ceil 5 ≡ pos (2 ^ h)) × (5 ≤ 2 ^ h) × (2 ^ h < 2 * 5)))
    ⊎ ((2 ^ 62 < 5) × (bit_ceil 5 ≡ negsuc (2 ^ 63 - 1)))
bit_ceil_lem_example = bit_ceil_lem 5 (omega arith) (omega arith)

valid_2_4 : is_valid_subtree 2 4 ≡ true
unfolding is_valid_subtree bit_ceil bit_len as_int64 abs
valid_2_4 = refl

subtree_hash_from_nodes-is_valid_subtree_example :
    subtree_hash_from_nodes toy toy_node max_depth 2 4 0 ≡ subtree_hash toy toy_leaf 2 4
subtree_hash_from_nodes-is_valid_subtree_example =
    subtree_hash_from_nodes-is_valid_subtree toy toy_leaf toy_node 4 2 4 toy-HasNodes (omega arith)
      (omega arith) valid_2_4
