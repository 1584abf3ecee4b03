-- ===== src/Log/Root.antt =====
-- The root that `computeRootHash` reads off the stored nodes is the tree's, and so are the stored
-- hashes of its complete subtrees.
use mathlib.Core.Path.{subst}
use native.Mathlib.Nat.{pow-le-pow_right}
use ca_extension_mtc_playgro.Prelude.{
  ℕ, zero, suc, ◌+◌, ◌*◌, ◌/◌, ◌^◌, ◌≤◌, ◌<◌, ◌≡◌, refl, ap, ◌∙◌, sym, false, Bool-cases, inl, inr,
  none, some, List, [], ◌∷◌, length, leb, ltb, ◌&&◌, ◌==◌, arith,
}
use ca_extension_mtc_playgro.Prelude.Pow.{pow_pos, pow_suc}
use ca_extension_mtc_playgro.Prelude.Result.{ok, ◌>>=◌}
use ca_extension_mtc_playgro.Bytes.{Bytes}
use ca_extension_mtc_playgro.Merkle.Hash.{leaf_hash, subtree_hash}
use ca_extension_mtc_playgro.Merkle.Shape.{Shape, build, root, compute_subtree_hash-root}
use ca_extension_mtc_playgro.Merkle.Nodes.Equal.{HasNodes}
use ca_extension_mtc_playgro.Log.{
  max_level, require, compute_root_hash, initialize, null_entry, null_entry_bytes,
}
use ca_extension_mtc_playgro.Log.Tables.{
  Nodes, Store, LogEntry, tree_size, has_index, append_entry, get_tree_node, set_tree_node,
}
use ca_extension_mtc_playgro.Log.Ragged.{ragged, expected, ragged-perfect, ragged-root}
use ca_extension_mtc_playgro.Log.Recompute.{expected-there, Settled}
use ca_extension_mtc_playgro.Log.WellFormed.{IsLog, leaf_at, tree_size_lem}

-- Enough doublings: the level that the loop stops at covers the tree, and no row above 63 is asked for.
max_level_lem :
    (fuel bound n : ℕ)
    → n ≤ 2 ^ bound
    → bound < fuel
    → (m : ℕ) × (max_level fuel n ≡ ok m) × (n ≤ 2 ^ m) × (m ≤ bound)
unfolding max_level
max_level_lem zero bound n h lt = absurd (omega arith)
max_level_lem (suc fuel) bound n h lt = elim (Bool-cases (leb n 1)) [
  | inl done ↦ (0, rw (max_level, done) refl, ground arith, omega arith)
  | inr more ↦ halved fuel bound n h lt more (max_level_lem fuel)
]
  where
    halved :
        (fuel bound n : ℕ)
        → n ≤ 2 ^ bound
        → bound < suc fuel
        → leb n 1 ≡ false
        → ((bound n : ℕ)
            → n ≤ 2 ^ bound
            → bound < fuel
            → (m : ℕ) × (max_level fuel n ≡ ok m) × (n ≤ 2 ^ m) × (m ≤ bound))
        → (m : ℕ) × (max_level (suc fuel) n ≡ ok m) × (n ≤ 2 ^ m) × (m ≤ bound)
    halved fuel zero n h lt more ih = absurd (ground arith)
    halved fuel (suc bound) n h lt more ih =
        let (m, e, covers, low) =
          ih bound ((n + 1) / 2) (omega (arith, pow_suc bound)) (omega arith) in
        (suc m, rw (max_level, more, ◌>>=◌, e) refl, omega (arith, pow_suc m), omega arith)

low_level : (h c size : ℕ) → (c + 1) * 2 ^ h ≤ size → size ≤ 2 ^ 63 → h < 64
low_level h c size le fits = elim (Bool-cases (leb 64 h)) [
  | inl high ↦ absurd (
      omega
        (arith, pow-le-pow_right {n = 2} (omega arith) {i = 64} {j = h} (ground arith), le, fits))
  | inr low ↦ ground arith
]

-- A Go array that nothing has been written to.
unfoldable pub zeros : ℕ → Bytes
zeros zero = []
zeros (suc n) = 0 ∷ zeros n

-- The callback through which the proofs read the table: the zero hash where there is no row.
unfoldable pub node_at : Nodes → ℕ → ℕ → Bytes
node_at nodes level index = elim (get_tree_node nodes level index) [ some h ↦ h | none ↦ zeros 32 ]

module _ (sha256 : Bytes → Bytes) where
  -- The store that `Initialize` leaves.
  abbrev pub first_log : Nodes → Store
  first_log nodes = record {
    entries = null_entry ∷ [];
    nodes = set_tree_node 0 0 (leaf_hash sha256 null_entry_bytes) nodes;
  }

  pub first_log-IsLog :
      (nodes : Nodes) → ((l i : ℕ) → nodes l i ≡ none) → IsLog sha256 (first_log nodes)
  unfolding set_tree_node leaf_at expected ragged
  first_log-IsLog nodes h = record {
    numbered = (refl, tt);
    settled = rows;
    stored = λ many. absurd (omega arith);
  }
    where
      rows :
          (l i : ℕ)
          → l < 64
          → Settled 1 l i
          → set_tree_node 0 0 (leaf_hash sha256 null_entry_bytes) nodes l i
            ≡ expected sha256 (leaf_at sha256 (null_entry ∷ [])) 1 l i
      rows zero zero small still = refl
      rows l (suc i) small still =
          let elsewhere : (l == 0 && suc i == 0) ≡ false = ground arith in
          let past : ltb (suc i * 2 ^ l) 1 ≡ false = ground (arith, pow_pos l) in
          rw (elsewhere, past) (h l (suc i))
      rows (suc l) zero small (inl low) = absurd (omega (arith, low, pow_suc l, pow_pos l))
      rows (suc l) zero small (inr low) = absurd (omega arith)

  -- On tables with no row, `Initialize` succeeds, and leaves a well-formed log of the null entry alone.
  pub initialize-IsLog :
      (s : Store)
      → s.entries ≡ []
      → ((l i : ℕ) → s.nodes l i ≡ none)
      → (after : Store) × (initialize sha256 s ≡ ok after)
        × (after.entries ≡ null_entry ∷ [])
        × IsLog sha256 after
  unfolding initialize append_entry tree_size has_index
  initialize-IsLog s no_entry no_node = (
    first_log s.nodes,
    subst
        (λ (es : List LogEntry).
          initialize sha256 (record { entries = es; nodes = s.nodes }) ≡ ok (first_log s.nodes))
        (sym no_entry) refl,
    refl,
    first_log-IsLog s.nodes no_node,
  )

  module _ (s : Store) (is_log : IsLog sha256 s) (fits : length s.entries ≤ 2 ^ 63) where
    -- On a well-formed log of 1 to 2 ^ 63 entries, `computeRootHash` at the log's size returns the
    -- RFC 9162 hash of the tree over its entries' leaf hashes.
    pub compute_root_hash-eq_subtree_hash :
        0 < length s.entries
        → (hash : Bytes) × (compute_root_hash sha256 s.nodes (tree_size s.entries) ≡ ok hash)
          × (subtree_hash sha256 (leaf_at sha256 s.entries) 0 (length s.entries) ≡ ok hash)
    unfolding compute_root_hash subtree_hash get_tree_node require
    compute_root_hash-eq_subtree_hash some_there = (
      root sha256 (leaf_at sha256 s.entries) 0 t,
      rw (tree_size_lem s.entries is_log.numbered) read,
      compute_subtree_hash-root sha256 (leaf_at sha256 s.entries) t 0 (length s.entries)
          (omega arith),
    )
      where
        t : Shape 64 (length s.entries)
        t = build 63 (length s.entries) some_there fits (omega arith)

        not_empty : (length s.entries == 0) ≡ false
        not_empty = ground arith

        read :
            compute_root_hash sha256 s.nodes (length s.entries)
            ≡ ok (root sha256 (leaf_at sha256 s.entries) 0 t)
        read = elim (Bool-cases (length s.entries == 1)) [
          | inl one ↦
              let at : length s.entries ≡ 1 = ground arith in
              rw
                (
                  compute_root_hash,
                  not_empty,
                  one,
                  is_log.settled 0 0 (omega arith) (inl (omega arith)),
                  expected-there sha256 (leaf_at sha256 s.entries) (length s.entries) 0 0
                      (omega arith),
                )
                (ap ok (
                  ragged-root sha256 (leaf_at sha256 s.entries) t 0 0 0 (length s.entries)
                    (omega arith) (omega arith) (omega arith)))
          | inr more ↦
              let (m, e, covers, low) = max_level_lem 64 63 (length s.entries) fits (omega arith) in
              rw
                (
                  compute_root_hash,
                  not_empty,
                  more,
                  e,
                  ◌>>=◌,
                  is_log.stored (ground arith) m 0 (omega arith),
                  expected-there sha256 (leaf_at sha256 s.entries) (length s.entries) m 0
                      (omega arith),
                )
                (ap ok (
                  ragged-root sha256 (leaf_at sha256 s.entries) t m 0 0 (length s.entries)
                    (omega arith) (omega arith) covers))
        ]

    -- The stored nodes of a well-formed log serve the proofs that are made from them.
    pub HasNodes-IsLog :
        HasNodes sha256 (leaf_at sha256 s.entries) (node_at s.nodes) (length s.entries)
    unfolding node_at get_tree_node
    HasNodes-IsLog h c le =
        rw
          (
            node_at,
            is_log.settled h c (low_level h c (length s.entries) le fits) (inl le)
                ∙ expected-there sha256 (leaf_at sha256 s.entries) (length s.entries) h c
                    (omega (arith, le, pow_pos h)),
          )
          (ragged-perfect sha256 (leaf_at sha256 s.entries) (length s.entries) h c le)
