-- ===== src/Log/Extend.antt =====
-- Entries that follow on the log's own are appended to the two tables, as `AppendDirectEntry` and
-- `AppendCertificates` do it: the rows, the leaves' nodes, then the nodes above them.
use ca_extension_mtc_playgro.Prelude.{
  ℕ, zero, suc, ◌+◌, ◌-◌, ◌*◌, ◌<◌, ◌≡◌, refl, sym, ap, ◌∙◌, List, [], ◌∷◌, ◌++◌, Bool, true, false,
  ◌&&◌, Bool-cases, inl, inr, some, none, length, length-append, ltb, leb, ◌==◌, if◌then◌else◌,
  arith,
}
use mathlib.Core.Path.{subst}
use mathlib.Core.List.{append-nil, append_assoc}
use ca_extension_mtc_playgro.Prelude.Result.{ok, ◌>>=◌}
use ca_extension_mtc_playgro.Log.Ragged.{ragged}
use ca_extension_mtc_playgro.Log.WellFormed.{
  Numbered, Numbered-append, has_index_past, leaf-Settled, leaf_at, leaf_at-append, leaf_at_past,
  expected_cong, IsLog,
}
use ca_extension_mtc_playgro.Log.{leaf_nodes, recompute_interior}
use ca_extension_mtc_playgro.Log.Tables.{
  LogEntry, Nodes, Store, append_entry, append_entries, set_tree_node, set_tree_nodes,
}
use ca_extension_mtc_playgro.Log.Ragged.{expected}
use ca_extension_mtc_playgro.Log.Recompute.{Stored, Settled, recompute_interior_lem}
use ca_extension_mtc_playgro.Bytes.{Bytes}

-- Rows that follow on those of the table meet no row that is there.
pub append_entries_lem :
    (more : List LogEntry) (s : Store)
    → Numbered 0 s.entries
    → Numbered (length s.entries) more
    → append_entries more s ≡ ok (record { entries = s.entries ++ more; nodes = s.nodes })
unfolding append_entries append_entry
append_entries_lem [] s old new =
    ap (λ (es : List LogEntry). ok (record { entries = es; nodes = s.nodes }))
      (sym (append-nil s.entries))
append_entries_lem (e ∷ more) s old new =
    rw (append_entry, has_index_past 0 e.index s.entries old (omega (arith, new.0)), ◌>>=◌)
      (append_entries_lem more (record { entries = s.entries ++ (e ∷ []); nodes = s.nodes })
          (Numbered-append 0 s.entries (e ∷ []) old (new.0 ∙ omega arith, tt))
          (subst (λ (m : ℕ). Numbered m more) (sym longer) new.1)
        ∙ ap (λ (es : List LogEntry). ok (record { entries = es; nodes = s.nodes }))
            (append_assoc s.entries (e ∷ []) more))
  where
    longer : length (s.entries ++ (e ∷ [])) ≡ suc (length s.entries)
    longer = length-append s.entries (e ∷ []) ∙ omega arith

module _ (sha256 : Bytes → Bytes) where
  -- The nodes that the leaves do not touch.
  leaf_nodes_other :
      (es : List LogEntry) (nodes : Nodes) (n l i : ℕ)
      → Numbered n es
      → (l == 0 && (leb n i && ltb i (n + length es))) ≡ false
      → set_tree_nodes (leaf_nodes sha256 es) nodes l i ≡ nodes l i
  unfolding leaf_nodes set_tree_nodes set_tree_node
  leaf_nodes_other [] nodes n l i h other = refl
  leaf_nodes_other (e ∷ es) nodes n l i h other =
      leaf_nodes_other es _ (suc n) l i h.1 (ground arith) ∙ rw (set_tree_node, missed) refl
    where
      missed : (l == 0 && i == e.index) ≡ false
      missed = ground (arith, h.0)

  leaf_nodes_row :
      (es : List LogEntry) (nodes : Nodes) (n j : ℕ)
      → Numbered n es
      → j < length es
      → set_tree_nodes (leaf_nodes sha256 es) nodes 0 (n + j) ≡ some (leaf_at sha256 es j)
  unfolding leaf_nodes set_tree_nodes leaf_at set_tree_node
  leaf_nodes_row [] nodes n j h lt = absurd (omega arith)
  leaf_nodes_row (e ∷ es) nodes n zero h lt =
      leaf_nodes_other es _ (suc n) 0 (n + 0) h.1 (ground arith) ∙ rw (set_tree_node, hit) refl
    where
      hit : (n + 0 == e.index) ≡ true
      hit = ground (arith, h.0)
  leaf_nodes_row (e ∷ es) nodes n (suc j) h lt =
      ap (set_tree_nodes (leaf_nodes sha256 es) _ 0) (omega arith)
      ∙ leaf_nodes_row es _ (suc n) j h.1 (omega arith)

  -- A row of the leaves that two sizes agree on.
  expected_same :
      (f : ℕ → Bytes) (old new i : ℕ)
      → ltb i old ≡ ltb i new
      → expected sha256 f old 0 i ≡ expected sha256 f new 0 i
  unfolding expected ragged
  expected_same f old new i e = ap (λ (b : Bool). if b then some (f i) else none) same
    where
      same : ltb (i * 1) old ≡ ltb (i * 1) new
      same = ground (arith, e)

  expected_leaf : (f : ℕ → Bytes) (n i : ℕ) → i < n → expected sha256 f n 0 i ≡ some (f i)
  unfolding expected ragged
  expected_leaf f n i lt = let fits : ltb (i * 1) n ≡ true = ground arith in rw fits refl

  module _ (s : Store) (more : List LogEntry) (is_log : IsLog sha256 s)
      (next : Numbered (length s.entries) more) where
    abbrev longer : List LogEntry
    longer = s.entries ++ more

    abbrev with_leaves : Nodes
    with_leaves = set_tree_nodes (leaf_nodes sha256 more) s.nodes

    abbrev size : ℕ
    size = length s.entries + length more

    row_before :
        (l i : ℕ)
        → l < 64
        → Settled (length s.entries) l i
        → s.nodes l i ≡ expected sha256 (leaf_at sha256 longer) (length s.entries) l i
    row_before l i small still =
        is_log.settled l i small still
        ∙ sym (
            expected_cong sha256 (leaf_at sha256 longer) (leaf_at sha256 s.entries)
              (length s.entries) (λ j lt. leaf_at-append sha256 s.entries more j lt) l i)

    other_leaf :
        (i : ℕ)
        → (leb (length s.entries) i && ltb i size) ≡ false
        → with_leaves 0 i ≡ expected sha256 (leaf_at sha256 longer) size 0 i
    other_leaf i other =
        leaf_nodes_other more s.nodes (length s.entries) 0 i next other
        ∙ row_before 0 i (omega arith) (leaf-Settled (length s.entries) i)
        ∙ expected_same (leaf_at sha256 longer) (length s.entries) size i (ground arith)

    new_leaf :
        (j : ℕ)
        → j < length more
        → with_leaves 0 (length s.entries + j)
          ≡ expected sha256 (leaf_at sha256 longer) size 0 (length s.entries + j)
    new_leaf j lt =
        leaf_nodes_row more s.nodes (length s.entries) j next lt
        ∙ ap some (sym (leaf_at_past sha256 s.entries more j))
        ∙ sym
            (expected_leaf (leaf_at sha256 longer) size (length s.entries + j) (omega (arith, lt)))

    leaf_row : (i : ℕ) → with_leaves 0 i ≡ expected sha256 (leaf_at sha256 longer) size 0 i
    leaf_row i = elim (Bool-cases (leb (length s.entries) i && ltb i size)) [
      | inl this ↦
          let at : length s.entries + (i - length s.entries) ≡ i = ground arith in
          subst (λ (k : ℕ). with_leaves 0 k ≡ expected sha256 (leaf_at sha256 longer) size 0 k) at
            (new_leaf (i - length s.entries) (ground arith))
      | inr other ↦ other_leaf i other
    ]

    above_row :
        (l i : ℕ)
        → 0 < l
        → l < 64
        → Settled (length s.entries) l i
        → with_leaves l i ≡ expected sha256 (leaf_at sha256 longer) (length s.entries) l i
    above_row l i pos small still =
        leaf_nodes_other more s.nodes (length s.entries) l i next (ground arith)
        ∙ row_before l i small still

    pub extended_IsLog :
        0 < length more
        → IsLog sha256 (record {
          entries = longer;
          nodes = recompute_interior sha256 (length s.entries) size with_leaves;
        })
    extended_IsLog some_more =
        let rows : Stored sha256 (leaf_at sha256 longer)
            (recompute_interior sha256 (length s.entries) size with_leaves) (length longer) =
          rw (length-append s.entries more) (
            recompute_interior_lem sha256 (leaf_at sha256 longer) with_leaves (length s.entries)
              size (omega arith) leaf_row above_row) in
        record {
          numbered =
              Numbered-append 0 s.entries more is_log.numbered
                (subst (λ (m : ℕ). Numbered m more) (omega arith) next);
          settled = λ l i small still. rows l i small;
          stored = λ many. rows;
        }
