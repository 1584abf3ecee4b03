-- ===== src/Log/Tables.antt =====
-- internal/store/store.go: the tables of log entries and of tree nodes, with the statements that the
-- issuance log runs on them. The database itself is taken to be up: a statement fails only where its
-- table's contents make it fail.
use ca_extension_mtc_playgro.Prelude.{
  ℕ, suc, List, [], ◌∷◌, ◌++◌, Bool, false, ◌&&◌, ◌||◌, Option, some, ltb, ◌==◌, if◌then◌else◌,
}
use ca_extension_mtc_playgro.Prelude.Result.{Result, ok, err, ◌>>=◌}
use ca_extension_mtc_playgro.Bytes.{Bytes}

-- `LogEntry`, less the time that the database adds.
pub record LogEntry : Type 0 where
  pub index : ℕ
  pub entry_type : ℕ
  pub entry_data : Bytes
  pub cert_sha256 : Bytes
  pub serial_hex : Bytes
  pub ca_cert_id : Bytes

-- `TreeNode`
pub record TreeNode : Type 0 where
  pub level : ℕ
  pub position : ℕ
  pub hash : Bytes

-- The table of nodes has one row for a level and an index at most.
abbrev pub Nodes : Type 0
Nodes = ℕ → ℕ → Option Bytes

pub record Store : Type 0 where
  pub entries : List LogEntry
  pub nodes : Nodes

pub data StoreError : Type 0 where
  duplicate_index no_node empty_range : StoreError

-- `TreeSize`: the greatest index plus one, or 0 for the empty table.
unfoldable pub tree_size : List LogEntry → ℕ
tree_size [] = 0
tree_size (e ∷ es) = let rest = tree_size es in if ltb e.index rest then rest else suc e.index

-- The primary key that an insert meets.
unfoldable pub has_index : ℕ → List LogEntry → Bool
has_index i [] = false
has_index i (e ∷ es) = e.index == i || has_index i es

-- `AppendEntry`
unfoldable pub append_entry : LogEntry → Store → Result StoreError Store
append_entry e s =
    if has_index e.index s.entries
    then err StoreError.duplicate_index
    else ok (record { entries = s.entries ++ (e ∷ []); nodes = s.nodes })

-- `AppendEntries`, one transaction: an insert that fails undoes those before it.
unfoldable pub append_entries : List LogEntry → Store → Result StoreError Store
append_entries [] s = ok s
append_entries (e ∷ es) s = append_entry e s >>= append_entries es

-- `GetTreeNode`: no row is an error.
unfoldable pub get_tree_node : Nodes → ℕ → ℕ → Option Bytes
get_tree_node nodes level index = nodes level index

-- `SetTreeNode`: an insert, or an update of the row that is there.
unfoldable pub set_tree_node : ℕ → ℕ → Bytes → Nodes → Nodes
set_tree_node level index hash nodes l i =
    if (l == level && i == index) then some hash else nodes l i

-- `SetTreeNodes`
unfoldable pub set_tree_nodes : List TreeNode → Nodes → Nodes
set_tree_nodes [] nodes = nodes
set_tree_nodes (n ∷ ns) nodes = set_tree_nodes ns (set_tree_node n.level n.position n.hash nodes)
