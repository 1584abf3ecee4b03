-- ===== src/Log.antt =====
-- internal/issuancelog/issuancelog.go: entries are appended, the hashes of the tree's nodes follow, and
-- the root is read off them.
pub mod Tables
pub mod Ragged
pub mod Recompute
pub mod WellFormed
pub mod Extend
pub mod Append
pub mod Root
pub mod Checkpoint
pub mod Prefix
mod Tests
use ca_extension_mtc_playgro.Prelude.{
  ℕ, zero, suc, ◌+◌, ◌-◌, ◌*◌, ◌/◌, ◌^◌, List, [], ◌∷◌, ◌++◌, Bool, true, false, ◌||◌, Option, none,
  some, length, ltb, leb, ◌==◌, if◌then◌else◌,
}
use ca_extension_mtc_playgro.Prelude.Result.{Result, ok, err, stuck, ◌>>=◌}
use ca_extension_mtc_playgro.Bytes.{Bytes, le}
use ca_extension_mtc_playgro.Merkle.Hash.{leaf_hash, interior_hash}
use ca_extension_mtc_playgro.Format.Entry.{entry_type_null}
use ca_extension_mtc_playgro.Log.Tables.{
  LogEntry, TreeNode, Nodes, Store, StoreError, tree_size, append_entry, append_entries,
  get_tree_node, set_tree_node, set_tree_nodes,
}

-- `EntryTypeCertificate` and `EntryTypePrecert`
abbrev pub entry_type_certificate : ℕ
entry_type_certificate = 1

abbrev pub entry_type_precert : ℕ
entry_type_precert = 2

-- `cadb.Certificate`, as far as an entry is built from it.
pub record Certificate : Type 0 where
  pub cert_blob : Bytes
  pub serial_number : Bytes
  pub issuer_id : Bytes

-- "local-ca"
abbrev pub local_ca : Bytes
local_ca = 108 ∷ 111 ∷ 99 ∷ 97 ∷ 108 ∷ 45 ∷ 99 ∷ 97 ∷ []

-- `mtcformat.NullEntryBytes`
abbrev pub null_entry_bytes : Bytes
null_entry_bytes = 0 ∷ 0 ∷ []

-- The entry that `Initialize` appends.
abbrev pub null_entry : LogEntry
null_entry = record {
  index = 0;
  entry_type = entry_type_null;
  entry_data = null_entry_bytes;
  cert_sha256 = [];
  serial_hex = [];
  ca_cert_id = [];
}

-- `entry.Index = i`
unfoldable pub at_index : ℕ → LogEntry → LogEntry
at_index i e = record {
  index = i;
  entry_type = e.entry_type;
  entry_data = e.entry_data;
  cert_sha256 = e.cert_sha256;
  serial_hex = e.serial_hex;
  ca_cert_id = e.ca_cert_id;
}

-- `for n := treeSize; n > 1; n = (n + 1) / 2 { maxLevel++ }`: the number of rounds. 64 rounds
-- are fuel enough for an int64.
unfoldable pub max_level : ℕ → ℕ → Result StoreError ℕ
max_level zero n = stuck
max_level (suc fuel) n = elim (leb n 1) [
  | true ↦ ok 0
  | false ↦ do rest ← max_level fuel ((n + 1) / 2); ok (suc rest)
]

-- A row that has to be there.
unfoldable pub require : Option Bytes → Result StoreError Bytes
require (some h) = ok h
require none = err StoreError.no_node

-- `for k*2 < n { k *= 2 }`
unfoldable pub double_below : ℕ → ℕ → ℕ → Result StoreError ℕ
double_below zero k n = stuck
double_below (suc fuel) k n = elim (ltb (k * 2) n) [
  | true ↦ double_below fuel (k * 2) n
  | false ↦ ok k
]

module _ (sha256 : Bytes → Bytes) where
  -- `BuildEntry`; the index is set when the entry is appended.
  unfoldable pub build_entry : Certificate → LogEntry
  build_entry cert = record {
    index = 0;
    entry_type = entry_type_certificate;
    entry_data = le 2 entry_type_certificate ++ (le 4 (length cert.cert_blob) ++ cert.cert_blob);
    cert_sha256 = sha256 cert.cert_blob;
    serial_hex = cert.serial_number;
    ca_cert_id = cert.issuer_id;
  }

  -- `BuildPrecertEntry`
  unfoldable pub build_precert_entry : Bytes → Bytes → LogEntry
  build_precert_entry tbs_der serial_hex = record {
    index = 0;
    entry_type = entry_type_precert;
    entry_data = le 2 entry_type_precert ++ (le 4 (length tbs_der) ++ tbs_der);
    cert_sha256 = sha256 tbs_der;
    serial_hex = serial_hex;
    ca_cert_id = local_ca;
  }

  -- The inner loop of `recomputeInterior`: the nodes of one level, from the children stored below.
  unfoldable pub level_nodes : Nodes → ℕ → ℕ → ℕ → List TreeNode
  level_nodes nodes level zero idx = []
  level_nodes nodes level (suc rounds) idx =
      let rest = level_nodes nodes level rounds (suc idx) in
      elim (get_tree_node nodes (level - 1) (idx * 2)) [
        | none ↦ rest
        | some left ↦ elim (get_tree_node nodes (level - 1) (idx * 2 + 1)) [
          | none ↦ record { level = level; position = idx; hash = left } ∷ rest
          | some right ↦
              record { level = level; position = idx; hash = interior_hash sha256 left right }
              ∷ rest
        ]
      ]

  -- The loop of `recomputeInterior` over the levels, with the rounds that are left.
  unfoldable pub recompute_levels : ℕ → ℕ → ℕ → ℕ → Nodes → Nodes
  recompute_levels zero level old_size new_size nodes = nodes
  recompute_levels (suc rounds) level old_size new_size nodes =
      let first = old_size / 2 ^ level in
      let last = (new_size - 1) / 2 ^ level in
      elim (new_size == 0 || ltb last first) [
        | true ↦ nodes
        | false ↦ elim (level_nodes nodes level (suc last - first) first) [
          | [] ↦ nodes
          | n ∷ ns ↦
              recompute_levels rounds (suc level) old_size new_size (set_tree_nodes (n ∷ ns) nodes)
        ]
      ]

  -- `recomputeInterior`: the levels from 1 to 63.
  unfoldable pub recompute_interior : ℕ → ℕ → Nodes → Nodes
  recompute_interior old_size new_size nodes = recompute_levels 63 1 old_size new_size nodes

  -- `Initialize`
  unfoldable pub initialize : Store → Result StoreError Store
  initialize s = if ltb 0 (tree_size s.entries) then ok s else do
    s ← append_entry null_entry s
    ok (record {
      entries = s.entries;
      nodes = set_tree_node 0 0 (leaf_hash sha256 null_entry_bytes) s.nodes;
    })

  -- `AppendDirectEntry`: the index of the entry, and the store behind it.
  unfoldable pub append_direct_entry : LogEntry → Store → Result StoreError (ℕ × Store)
  append_direct_entry entry s = do
    let size = tree_size s.entries
    s ← append_entry (at_index size entry) s
    let nodes = set_tree_node 0 size (leaf_hash sha256 entry.entry_data) s.nodes
    ok (size, record { entries = s.entries; nodes = recompute_interior size (size + 1) nodes })

  -- The loop of `AppendCertificates` that builds the entries.
  unfoldable pub build_entries : ℕ → List Certificate → List LogEntry
  build_entries next [] = []
  build_entries next (cert ∷ certs) =
      at_index next (build_entry cert) ∷ build_entries (suc next) certs

  -- The loop of `AppendCertificates` that builds the leaves' nodes.
  unfoldable pub leaf_nodes : List LogEntry → List TreeNode
  leaf_nodes [] = []
  leaf_nodes (e ∷ es) =
      record { level = 0; position = e.index; hash = leaf_hash sha256 e.entry_data } ∷ leaf_nodes es

  -- `AppendCertificates`: how many were appended, the new size, and the store behind it.
  unfoldable pub append_certificates : List Certificate → Store → Result StoreError (ℕ × ℕ × Store)
  append_certificates [] s = ok (0, tree_size s.entries, s)
  append_certificates (cert ∷ certs) s = do
    let size = tree_size s.entries
    let entries = build_entries size (cert ∷ certs)
    s ← append_entries entries s
    let new_size = size + length (cert ∷ certs)
    let nodes = set_tree_nodes (leaf_nodes entries) s.nodes
    ok (
      length (cert ∷ certs),
      new_size,
      record { entries = s.entries; nodes = recompute_interior size new_size nodes },
    )

  -- `computeMTH`
  unfoldable pub compute_mth : Nodes → ℕ → ℕ → ℕ → Result StoreError Bytes
  compute_mth nodes zero start n = stuck
  compute_mth nodes (suc fuel) start zero = ok (sha256 [])
  compute_mth nodes (suc fuel) start (suc zero) = require (get_tree_node nodes 0 start)
  compute_mth nodes (suc fuel) start (suc (suc m)) = do
    let n = suc (suc m)
    k ← double_below 64 1 n
    left ← compute_mth nodes fuel start k
    right ← compute_mth nodes fuel (start + k) (n - k)
    ok (interior_hash sha256 left right)

  -- `computeRootHash`
  unfoldable pub compute_root_hash : Nodes → ℕ → Result StoreError Bytes
  compute_root_hash nodes size = elim (size == 0) [
    | true ↦ ok (sha256 [])
    | false ↦ elim (size == 1) [
      | true ↦ require (get_tree_node nodes 0 0)
      | false ↦ do
        level ← max_level 64 size
        elim (get_tree_node nodes level 0) [ some h ↦ ok h | none ↦ compute_mth nodes 64 0 size ]
    ]
  ]
