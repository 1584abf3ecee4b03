-- ===== src/Batch/Proof.antt =====
-- The proof that `BuildProof` makes of a well-formed log.
use ca_extension_mtc_playgro.Prelude.{
  ℕ, ◌^◌, ◌≤◌, ◌<◌, ◌≡◌, refl, List, false, ◌||◌, length, ltb, leb, arith,
}
use ca_extension_mtc_playgro.Prelude.Int.{pos}
use ca_extension_mtc_playgro.Prelude.Result.{ok, ◌>>=◌}
use ca_extension_mtc_playgro.Bytes.{Bytes}
use ca_extension_mtc_playgro.Merkle.Hash.{subtree_hash}
use ca_extension_mtc_playgro.Merkle.Inclusion.{root_from_inclusion_proof}
use ca_extension_mtc_playgro.Merkle.Inclusion.Complete.{root_from_inclusion_proof-inclusion_proof}
use ca_extension_mtc_playgro.Merkle.Nodes.Equal.{inclusion_proof_from_nodes-eq_inclusion_proof}
use ca_extension_mtc_playgro.Log.Tables.{Store}
use ca_extension_mtc_playgro.Log.WellFormed.{IsLog, leaf_at}
use ca_extension_mtc_playgro.Log.Root.{node_at, HasNodes-IsLog}
use ca_extension_mtc_playgro.Batch.{BatchResult, build_proof, wrap_proof}

-- Take a well-formed log of at most 2 ^ 63 entries, a batch that ends within it, and a leaf of the
-- batch. `BuildProof` returns a proof with the batch's range and signatures. Its hashes lead, by
-- `RootFromInclusionProof`, from the leaf's hash to the root of the whole tree up to the batch's end.
pub build_proof_lem :
    (sha256 : Bytes → Bytes) (s : Store) (batch : BatchResult) (leaf : ℕ)
    → IsLog sha256 s
    → length s.entries ≤ 2 ^ 63
    → batch.end ≤ length s.entries
    → batch.start ≤ leaf
    → leaf < batch.end
    → (hashes : List Bytes) × (root : Bytes) × (build_proof sha256 s.nodes leaf batch
        ≡ ok (record {
          start = batch.start;
          end = batch.end;
          inclusion_proof = hashes;
          signatures = batch.signatures;
        }))
      × (subtree_hash sha256 (leaf_at sha256 s.entries) 0 batch.end ≡ ok root)
      × (root_from_inclusion_proof sha256
            (pos leaf)
            (pos batch.end)
            (leaf_at sha256 s.entries leaf)
            hashes
          ≡ ok root)
unfolding build_proof wrap_proof
build_proof_lem sha256 s batch leaf is_log fits ends lo hi =
    let (hashes, root, proved, is_root, leads) =
      root_from_inclusion_proof-inclusion_proof sha256 (leaf_at sha256 s.entries) leaf batch.end hi
        (omega arith) in
    let same =
      inclusion_proof_from_nodes-eq_inclusion_proof sha256 (leaf_at sha256 s.entries)
        (node_at s.nodes) (length s.entries) (HasNodes-IsLog sha256 s is_log fits) (pos leaf)
        batch.end ends fits in
    (hashes, root, rw (build_proof, inside, ◌>>=◌, same, proved) refl, is_root, leads)
  where
    inside : (ltb leaf batch.start || leb batch.end leaf) ≡ false
    inside = ground arith
