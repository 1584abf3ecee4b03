-- ===== src/Batch/Tests.antt =====
-- A batch of a small log: the theorems at concrete inputs.
use ca_extension_mtc_playgro.Prelude.{
  ◌+◌, ◌≡◌, refl, List, [], ◌∷◌, ◌++◌, All, none, some, true, length, replicate, arith,
}
use ca_extension_mtc_playgro.Prelude.Int.{pos}
use ca_extension_mtc_playgro.Prelude.Result.{ok}
use ca_extension_mtc_playgro.Bytes.{Bytes}
use ca_extension_mtc_playgro.Merkle.Hash.{leaf_hash, subtree_hash}
use ca_extension_mtc_playgro.Merkle.Inclusion.{root_from_inclusion_proof}
use ca_extension_mtc_playgro.Format.Proof.{build_subtree_signature_input}
use ca_extension_mtc_playgro.Log.{recompute_interior, require, recompute_levels, level_nodes}
use ca_extension_mtc_playgro.Log.Tables.{
  LogEntry, Nodes, Store, tree_size, get_tree_node, set_tree_node, set_tree_nodes,
}
use ca_extension_mtc_playgro.Log.WellFormed.{IsLog, leaf_at}
use ca_extension_mtc_playgro.Log.Append.{grown_IsLog}
use ca_extension_mtc_playgro.Log.Root.{first_log, first_log-IsLog}
use ca_extension_mtc_playgro.Batch.{
  Cosigner, BatchResult, sign_subtree_mtc, sign_all, compute_subtree_hash, wrap, process_batch,
  build_proof,
}
use ca_extension_mtc_playgro.Batch.Signed.{IsSound, Accepted, process_batch_lem}
use ca_extension_mtc_playgro.Batch.Proof.{build_proof_lem}

-- A stand-in for SHA-256.
abbrev toy : Bytes → Bytes
toy input = replicate 32 (length input)

abbrev no_nodes : Nodes
no_nodes level index = none

abbrev one_entry : Store
one_entry = first_log toy no_nodes

abbrev second : LogEntry
second = record {
  index = 1;
  entry_type = 2;
  entry_data = 2 ∷ 0 ∷ 7 ∷ [];
  cert_sha256 = [];
  serial_hex = [];
  ca_cert_id = [];
}

abbrev two_entries : Store
two_entries = record {
  entries = one_entry.entries ++ (second ∷ []);
  nodes =
      recompute_interior toy 1 (1 + 1)
        (set_tree_node 0 1 (leaf_hash toy second.entry_data) one_entry.nodes);
}

two_entries-IsLog : IsLog toy two_entries
two_entries-IsLog =
    grown_IsLog toy one_entry second (first_log-IsLog toy no_nodes (λ l i. refl)) refl

-- A cosigner whose signature is the message, and which accepts all.
abbrev echo : Cosigner
echo = record { cosigner_id = 4 ∷ []; sign = λ msg. some msg; verify = λ msg sig. true }

echo-IsSound : IsSound echo
echo-IsSound msg sig h = refl

abbrev batch : BatchResult
batch = record {
  start = 1;
  end = 2;
  subtree_hash = leaf_hash toy second.entry_data;
  signatures = sign_all (echo ∷ []) [] 1 2 (leaf_hash toy second.entry_data);
}

batch_made : process_batch toy (echo ∷ []) [] two_entries 1 ≡ ok batch
unfolding process_batch compute_subtree_hash wrap sign_all sign_subtree_mtc
    build_subtree_signature_input require tree_size get_tree_node set_tree_node set_tree_nodes
    recompute_interior recompute_levels level_nodes leaf_hash
batch_made = refl

process_batch_lem_example :
    (batch.start ≡ 1)
    × (batch.end ≡ length two_entries.entries)
    × (subtree_hash toy (leaf_at toy two_entries.entries) batch.start batch.end
        ≡ ok batch.subtree_hash)
    × All (Accepted (echo ∷ []) [] batch.start batch.end batch.subtree_hash) batch.signatures
process_batch_lem_example =
    process_batch_lem toy (echo ∷ []) [] two_entries 1 batch two_entries-IsLog (omega arith)
      (echo-IsSound, tt) batch_made

build_proof_lem_example :
    (hashes : List Bytes) × (root : Bytes) × (build_proof toy two_entries.nodes 1 batch
      ≡ ok (record {
        start = batch.start;
        end = batch.end;
        inclusion_proof = hashes;
        signatures = batch.signatures;
      }))
    × (subtree_hash toy (leaf_at toy two_entries.entries) 0 batch.end ≡ ok root)
    × (root_from_inclusion_proof toy
          (pos 1)
          (pos batch.end)
          (leaf_at toy two_entries.entries 1)
          hashes
        ≡ ok root)
build_proof_lem_example =
    build_proof_lem toy two_entries batch 1 two_entries-IsLog (omega arith) (omega arith)
      (omega arith) (omega arith)
