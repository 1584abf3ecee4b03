-- ===== src/Log/Append.antt =====
-- `AppendDirectEntry` and `AppendCertificates` of internal/issuancelog/issuancelog.go: they append at
-- the next index, and the log stays well formed.
use ca_extension_mtc_playgro.Prelude.{
  ℕ, suc, ◌+◌, ◌≡◌, refl, sym, ap, List, [], ◌∷◌, ◌++◌, length, arith,
}
use mathlib.Core.Path.{subst}
use mathlib.Core.List.{append-nil}
use ca_extension_mtc_playgro.Prelude.Result.{ok, ◌>>=◌}
use ca_extension_mtc_playgro.Merkle.Hash.{leaf_hash}
use ca_extension_mtc_playgro.Bytes.{Bytes}
use ca_extension_mtc_playgro.Log.{
  Certificate, at_index, build_entries, leaf_nodes, recompute_interior, append_direct_entry,
  append_certificates,
}
use ca_extension_mtc_playgro.Log.Tables.{
  LogEntry, Store, append_entry, set_tree_node, set_tree_nodes,
}
use ca_extension_mtc_playgro.Log.WellFormed.{Numbered, IsLog, tree_size_lem, has_index_past}
use ca_extension_mtc_playgro.Log.Extend.{append_entries_lem, extended_IsLog}

module _ (sha256 : Bytes → Bytes) where
  pub grown_IsLog :
      (s : Store) (e : LogEntry)
      → IsLog sha256 s
      → e.index ≡ length s.entries
      → IsLog sha256 (record {
        entries = s.entries ++ (e ∷ []);
        nodes =
            recompute_interior sha256
              (length s.entries)
              (length s.entries + 1)
              (set_tree_node 0 (length s.entries) (leaf_hash sha256 e.entry_data) s.nodes);
      })
  grown_IsLog s e is_log next =
      subst
        (λ (k : ℕ). IsLog sha256 (record {
          entries = s.entries ++ (e ∷ []);
          nodes =
              recompute_interior sha256 (length s.entries) (length s.entries + 1)
                (set_tree_node 0 k (leaf_hash sha256 e.entry_data) s.nodes);
        }))
        next
        (unfold set_tree_nodes leaf_nodes in
          extended_IsLog sha256 s (e ∷ []) is_log (next, tt) (omega arith))

  -- On a well-formed log, `AppendDirectEntry` succeeds: it returns the log's size as the entry's index,
  -- stores the entry under that index behind the others, and leaves a well-formed log.
  pub append_direct_entry-IsLog :
      (s : Store) (e : LogEntry)
      → IsLog sha256 s
      → (after : Store) × (append_direct_entry sha256 e s ≡ ok (length s.entries, after))
        × (after.entries ≡ s.entries ++ (at_index (length s.entries) e ∷ []))
        × IsLog sha256 after
  unfolding append_direct_entry append_entry at_index
  append_direct_entry-IsLog s e is_log = (
    record {
      entries = s.entries ++ (at_index (length s.entries) e ∷ []);
      nodes =
          recompute_interior sha256 (length s.entries) (length s.entries + 1)
            (set_tree_node 0 (length s.entries) (leaf_hash sha256 e.entry_data) s.nodes);
    },
    rw
        (
          append_direct_entry,
          tree_size_lem s.entries is_log.numbered,
          ◌>>=◌,
          append_entry,
          has_index_past 0 (length s.entries) s.entries is_log.numbered (omega arith),
        )
        refl,
    refl,
    grown_IsLog s (at_index (length s.entries) e) is_log refl,
  )

  build_entries-Numbered :
      (n : ℕ) (certs : List Certificate)
      → Numbered n (build_entries sha256 n certs)
        × (length (build_entries sha256 n certs) ≡ length certs)
  unfolding build_entries at_index
  build_entries-Numbered n [] = (tt, refl)
  build_entries-Numbered n (c ∷ certs) =
      let rest = build_entries-Numbered (suc n) certs in ((refl, rest.0), ap suc rest.1)

  -- On a well-formed log, `AppendCertificates` succeeds for any list of certificates: it returns how
  -- many there are and the log's new size, stores an entry for each, in their order and under the next
  -- indices, behind the others, and leaves a well-formed log.
  pub append_certificates-IsLog :
      (s : Store) (certs : List Certificate)
      → IsLog sha256 s
      → (after : Store) × (append_certificates sha256 certs s
          ≡ ok (length certs, length s.entries + length certs, after))
        × (after.entries ≡ s.entries ++ build_entries sha256 (length s.entries) certs)
        × IsLog sha256 after
  unfolding append_certificates
  append_certificates-IsLog s [] is_log = (
    s,
    rw (append_certificates, tree_size_lem s.entries is_log.numbered)
        (ap (λ (n : ℕ). ok (0, n, s)) (omega arith)),
    unfold build_entries in sym (append-nil s.entries),
    is_log,
  )
  append_certificates-IsLog s (cert ∷ certs) is_log =
      let entries = build_entries sha256 (length s.entries) (cert ∷ certs) in
      let built = build_entries-Numbered (length s.entries) (cert ∷ certs) in
      let size : length s.entries + length entries ≡ length s.entries + length (cert ∷ certs) =
        ap (λ (n : ℕ). length s.entries + n) built.1 in
      let nodes = set_tree_nodes (leaf_nodes sha256 entries) s.nodes in
      (
        record {
          entries = s.entries ++ entries;
          nodes =
              recompute_interior sha256 (length s.entries)
                (length s.entries + length (cert ∷ certs)) nodes;
        },
        rw
            (
              append_certificates,
              tree_size_lem s.entries is_log.numbered,
              append_entries_lem entries s is_log.numbered built.0,
              ◌>>=◌,
            )
            refl,
        refl,
        subst
            (λ (n : ℕ). IsLog sha256 (record {
              entries = s.entries ++ entries;
              nodes = recompute_interior sha256 (length s.entries) n nodes;
            }))
            size (extended_IsLog sha256 s entries is_log built.0 (omega (arith, built.1))),
      )
