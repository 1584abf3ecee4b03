-- ===== src/Batch.antt =====
-- internal/batch/batch.go: a batch of log entries is signed as one subtree, and gives its leaves their
-- proofs. internal/cosigner/cosigner.go: the signature of a subtree.
pub mod SubtreeHash
pub mod Signed
pub mod Proof
mod Tests
use ca_extension_mtc_playgro.Prelude.{
  ℕ, zero, suc, ◌+◌, ◌-◌, List, [], ◌∷◌, Bool, true, false, ◌&&◌, ◌||◌, Option, none, some, map,
  length, ltb, leb, ◌==◌, if◌then◌else◌,
}
use ca_extension_mtc_playgro.Prelude.Int.{ℤ, pos}
use ca_extension_mtc_playgro.Prelude.Result.{Result, ok, err, panic, stuck, ◌>>=◌, ◌>>◌, reject}
use ca_extension_mtc_playgro.Bytes.{Bytes}
use ca_extension_mtc_playgro.Merkle.Hash.{interior_hash}
use ca_extension_mtc_playgro.Merkle.Hash as Hash
use ca_extension_mtc_playgro.Merkle.Nodes.{inclusion_proof_from_nodes}
use ca_extension_mtc_playgro.Format.Signatures.{MtcSignature}
use ca_extension_mtc_playgro.Format.Proof.{MtcProof, build_subtree_signature_input}
use ca_extension_mtc_playgro.Log.{double_below, require}
use ca_extension_mtc_playgro.Log.Tables.{Store, Nodes, StoreError, tree_size, get_tree_node}
use ca_extension_mtc_playgro.Log.Root.{node_at}

-- `Cosigner`: its id, and what crypto/ed25519 or circl's ML-DSA does with its keys, which are
-- parameters. `none` is an error of the signing.
pub record Cosigner : Type 0 where
  pub cosigner_id : Bytes
  pub sign : Bytes → Option Bytes
  pub verify : Bytes → Bytes → Bool

pub data BatchError : Type 0 where
  empty_batch no_node all_failed not_in_batch no_proof : BatchError

pub record BatchResult : Type 0 where
  pub start : ℕ
  pub end : ℕ
  pub subtree_hash : Bytes
  pub signatures : List MtcSignature

-- `SignSubtreeMTC`; `none` is its error.
unfoldable pub sign_subtree_mtc : Cosigner → Bytes → ℕ → ℕ → Bytes → Option MtcSignature
sign_subtree_mtc c log_id start end hash =
    elim (build_subtree_signature_input c.cosigner_id log_id start end hash) [
      | ok input ↦ elim (c.sign input) [
        | some sig ↦ some (record { cosigner_id = c.cosigner_id; signature = sig })
        | none ↦ none
      ]
      | err e ↦ none
      | panic ↦ none
      | stuck ↦ none
    ]

-- `VerifySubtreeMTC`
unfoldable pub verify_subtree_mtc : Cosigner → Bytes → ℕ → ℕ → Bytes → MtcSignature → Bool
verify_subtree_mtc c log_id start end hash sig =
    elim (build_subtree_signature_input sig.cosigner_id log_id start end hash) [
      | ok input ↦ c.verify input sig.signature
      | err e ↦ false
      | panic ↦ false
      | stuck ↦ false
    ]

-- The loop of `ProcessBatch` over the cosigners: one that fails is passed over.
unfoldable pub sign_all : List Cosigner → Bytes → ℕ → ℕ → Bytes → List MtcSignature
sign_all [] log_id start end hash = []
sign_all (c ∷ cs) log_id start end hash =
    let rest = sign_all cs log_id start end hash in
    elim (sign_subtree_mtc c log_id start end hash) [ some sig ↦ sig ∷ rest | none ↦ rest ]

module _ (sha256 : Bytes → Bytes) where
  -- `computeSubtreeHash` of batch.go. An error of the store is `no_node`.
  unfoldable pub compute_subtree_hash : Nodes → ℕ → ℕ → ℕ → Result StoreError Bytes
  compute_subtree_hash nodes zero start end = stuck
  compute_subtree_hash nodes (suc fuel) start end = elim (end - start) [
    | zero ↦ err StoreError.empty_range
    | suc m ↦ elim (m == 0) [
      | true ↦ require (get_tree_node nodes 0 start)
      | false ↦ do
        k ← double_below 64 1 (end - start)
        left ← compute_subtree_hash nodes fuel start (start + k)
        right ← compute_subtree_hash nodes fuel (start + k) end
        ok (interior_hash sha256 left right)
    ]
  ]

  -- The error of a failed read, as `ProcessBatch` passes it on.
  unfoldable pub wrap : Result StoreError Bytes → Result BatchError Bytes
  wrap (ok h) = ok h
  wrap (err e) = err BatchError.no_node
  wrap panic = panic
  wrap stuck = stuck

  -- `ProcessBatch`
  unfoldable pub process_batch : List Cosigner → Bytes → Store → ℕ → Result BatchError BatchResult
  process_batch cosigners log_id s batch_start = do
    let size = tree_size s.entries
    reject (leb size batch_start) BatchError.empty_batch
    hash ← wrap (compute_subtree_hash s.nodes 64 batch_start size)
    let sigs = sign_all cosigners log_id batch_start size hash
    reject (length sigs == 0 && ltb 0 (length cosigners)) BatchError.all_failed
    ok (record { start = batch_start; end = size; subtree_hash = hash; signatures = sigs })

  -- The error of a failed proof, as `BuildProof` passes it on.
  unfoldable pub wrap_proof : Result Hash.Error (List Bytes) → Result BatchError (List Bytes)
  wrap_proof (ok h) = ok h
  wrap_proof (err e) = err BatchError.no_proof
  wrap_proof panic = panic
  wrap_proof stuck = stuck

  -- `BuildProof`; a hash is an array of 32 bytes, and is copied whole.
  unfoldable pub build_proof : Nodes → ℕ → BatchResult → Result BatchError MtcProof
  build_proof nodes leaf batch = do
    reject (ltb leaf batch.start || leb batch.end leaf) BatchError.not_in_batch
    hashes ←
        wrap_proof (inclusion_proof_from_nodes sha256 (node_at nodes) (pos leaf) (pos batch.end))
    ok (record {
      start = batch.start;
      end = batch.end;
      inclusion_proof = hashes;
      signatures = batch.signatures;
    })
