-- ===== src/Log/Tests.antt =====
-- A small log: the theorems at concrete inputs.
use ca_extension_mtc_playgro.Prelude.{
  ◌+◌, ◌≡◌, refl, List, [], ◌∷◌, ◌++◌, none, length, replicate, arith,
}
use ca_extension_mtc_playgro.Prelude.Result.{ok}
use ca_extension_mtc_playgro.Bytes.{Bytes}
use ca_extension_mtc_playgro.Merkle.Hash.{leaf_hash, subtree_hash}
use ca_extension_mtc_playgro.Log.{
  Certificate, at_index, build_entries, append_certificates, append_direct_entry, compute_root_hash,
  initialize, null_entry, recompute_interior,
}
use ca_extension_mtc_playgro.Log.Tables.{LogEntry, Nodes, Store, tree_size, set_tree_node}
use ca_extension_mtc_playgro.Log.WellFormed.{IsLog, leaf_at}
use ca_extension_mtc_playgro.Log.Append.{
  append_direct_entry-IsLog, append_certificates-IsLog, grown_IsLog,
}
use ca_extension_mtc_playgro.Log.Root.{
  first_log, first_log-IsLog, initialize-IsLog, compute_root_hash-eq_subtree_hash,
}

-- A stand-in for SHA-256.
abbrev toy : Bytes → Bytes
toy input = replicate 32 (length input)

abbrev no_nodes : Nodes
no_nodes level index = none

abbrev one_entry : Store
one_entry = first_log toy no_nodes

one_entry-IsLog : IsLog toy one_entry
one_entry-IsLog = first_log-IsLog toy no_nodes (λ l i. refl)

abbrev second : LogEntry
second = record {
  index = 1;
  entry_type = 2;
  entry_data = 2 ∷ 0 ∷ 7 ∷ [];
  cert_sha256 = [];
  serial_hex = [];
  ca_cert_id = [];
}

abbrev two_entries : Store
two_entries = record {
  entries = one_entry.entries ++ (second ∷ []);
  nodes =
      recompute_interior toy 1 (1 + 1)
        (set_tree_node 0 1 (leaf_hash toy second.entry_data) one_entry.nodes);
}

two_entries-IsLog : IsLog toy two_entries
two_entries-IsLog = grown_IsLog toy one_entry second one_entry-IsLog refl

initialize-IsLog_example :
    (after : Store) × (initialize toy (record { entries = []; nodes = no_nodes }) ≡ ok after)
    × (after.entries ≡ null_entry ∷ [])
    × IsLog toy after
initialize-IsLog_example =
    initialize-IsLog toy (record { entries = []; nodes = no_nodes }) refl (λ l i. refl)

append_direct_entry-IsLog_example :
    (after : Store) × (append_direct_entry toy second one_entry
      ≡ ok (length one_entry.entries, after))
    × (after.entries ≡ one_entry.entries ++ (at_index (length one_entry.entries) second ∷ []))
    × IsLog toy after
append_direct_entry-IsLog_example = append_direct_entry-IsLog toy one_entry second one_entry-IsLog

abbrev two_certificates : List Certificate
two_certificates =
    record { cert_blob = 7 ∷ []; serial_number = 1 ∷ []; issuer_id = [] }
    ∷ record { cert_blob = 8 ∷ 9 ∷ []; serial_number = 2 ∷ []; issuer_id = [] }
    ∷ []

append_certificates-IsLog_example :
    (after : Store) × (append_certificates toy two_certificates one_entry
      ≡ ok (length two_certificates, length one_entry.entries + length two_certificates, after))
    × (after.entries
        ≡ one_entry.entries ++ build_entries toy (length one_entry.entries) two_certificates)
    × IsLog toy after
append_certificates-IsLog_example =
    append_certificates-IsLog toy one_entry two_certificates one_entry-IsLog

compute_root_hash-eq_subtree_hash_example :
    (hash : Bytes) × (compute_root_hash toy two_entries.nodes (tree_size two_entries.entries)
      ≡ ok hash)
    × (subtree_hash toy (leaf_at toy two_entries.entries) 0 (length two_entries.entries) ≡ ok hash)
compute_root_hash-eq_subtree_hash_example =
    compute_root_hash-eq_subtree_hash toy two_entries two_entries-IsLog (omega arith) (omega arith)
