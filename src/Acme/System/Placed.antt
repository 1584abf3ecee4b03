-- ===== src/Acme/System/Placed.antt =====
-- The log under the server: an entry stays where its thread has put it, and a checkpoint stays one of
-- the log, whatever other threads append.
use mathlib.Core.List.{Memᴰ, append-nil}
use mathlib.Core.List.Memᴰ
use mathlib.Core.Path.{subst}
use ca_extension_mtc_playgro.Prelude.{
  ℕ, ◌^◌, ◌≤◌, ◌<◌, ◌≡◌, refl, sym, ap, ◌∙◌, List, [], ◌∷◌, ◌++◌, false, All, length, length-append,
  ◌==◌, Option-cases, Option, none, some, inl, inr, arith,
}
use ca_extension_mtc_playgro.Prelude.Result.{ok, err}
use ca_extension_mtc_playgro.Bytes.{Bytes}
use ca_extension_mtc_playgro.Merkle.Hash.{leaf_hash, subtree_hash}
use ca_extension_mtc_playgro.Log.{at_index, append_direct_entry, compute_root_hash}
use ca_extension_mtc_playgro.Log.Tables.{LogEntry, Store, tree_size}
use ca_extension_mtc_playgro.Log.WellFormed.{
  IsLog, leaf_at, leaf_at_new, tree_size_lem, leaf_at-append,
}
use ca_extension_mtc_playgro.Log.Append.{append_direct_entry-IsLog}
use ca_extension_mtc_playgro.Log.Root.{compute_root_hash-eq_subtree_hash}
use ca_extension_mtc_playgro.Log.Checkpoint.{Checkpoint, not_signed, create_checkpoint}
use ca_extension_mtc_playgro.Acme.Tables.{Identifier}
use ca_extension_mtc_playgro.Acme.Outside.{Outside, Csr}
use ca_extension_mtc_playgro.Acme.Thread.{Thread, Kind, Shared, Stepped, checkpoint, prove}
use ca_extension_mtc_playgro.Acme.Handlers.Finalize.{append_to_log, make_checkpoint}
use ca_extension_mtc_playgro.Log.Prefix.{subtree_hash_cong}

module _ (sha256 : Bytes → Bytes) where
  -- An entry's leaf is the log's at an index.
  pub record StoredAt (entry : LogEntry) (index : ℕ) (log : Store) : Type 0 where
    pub inside : index < length log.entries
    pub leaf_there : leaf_at sha256 log.entries index ≡ leaf_hash sha256 entry.entry_data

  -- A saved checkpoint is one of the log, and is behind an index.
  pub record Certified (index : ℕ) (cp : Checkpoint) (s : Shared) : Type 0 where
    pub covers : index < cp.tree_size
    pub within : cp.tree_size ≤ length s.log.entries
    pub rooted : subtree_hash sha256 (leaf_at sha256 s.log.entries) 0 cp.tree_size ≡ ok cp.root_hash
    pub saved : Memᴰ cp s.checkpoints

  -- What a thread relies on of the log.
  unfoldable pub Rests : Thread → Shared → Type 0
  Rests (checkpoint id csr is kind entry index) s = StoredAt entry index s.log
  Rests (prove id csr is kind entry index cp) s = StoredAt entry index s.log × Certified index cp s
  Rests _ s = Unit {0}

  -- Entries and checkpoints are only added.
  pub record Grown (s s' : Shared) : Type 0 where
    pub more : List LogEntry
    pub entries_are : s'.log.entries ≡ s.log.entries ++ more
    pub checkpoints_stay : (cp : Checkpoint) → Memᴰ cp s.checkpoints → Memᴰ cp s'.checkpoints

  pub Grown-le : (s s' : Shared) → Grown s s' → length s.log.entries ≤ length s'.log.entries
  Grown-le s s' grown =
      omega (arith, ap length grown.entries_are, length-append s.log.entries grown.more)

  leaf_at-Grown :
      (s s' : Shared) (i : ℕ)
      → Grown s s'
      → i < length s.log.entries
      → leaf_at sha256 s'.log.entries i ≡ leaf_at sha256 s.log.entries i
  leaf_at-Grown s s' i grown h =
      ap (λ es. leaf_at sha256 es i) grown.entries_are
      ∙ leaf_at-append sha256 s.log.entries grown.more i h

  StoredAt-Grown :
      (s s' : Shared) (entry : LogEntry) (index : ℕ)
      → Grown s s'
      → StoredAt entry index s.log
      → StoredAt entry index s'.log
  StoredAt-Grown s s' entry index grown h = record {
    inside = omega (arith, h.inside, Grown-le s s' grown);
    leaf_there = leaf_at-Grown s s' index grown h.inside ∙ h.leaf_there;
  }

  Certified-Grown :
      (s s' : Shared) (index : ℕ) (cp : Checkpoint)
      → Grown s s'
      → length s.log.entries ≤ 2 ^ 63
      → Certified index cp s
      → Certified index cp s'
  Certified-Grown s s' index cp grown fits h = record {
    covers = h.covers;
    within = omega (arith, h.within, Grown-le s s' grown);
    rooted =
        subtree_hash_cong sha256 (leaf_at sha256 s'.log.entries) (leaf_at sha256 s.log.entries)
          cp.tree_size (omega (arith, h.covers)) (omega (arith, h.within, fits))
          (λ i lt. leaf_at-Grown s s' i grown (omega (arith, lt, h.within)))
        ∙ h.rooted;
    saved = grown.checkpoints_stay cp h.saved;
  }

  pub Rests-Grown :
      (s s' : Shared) (t : Thread)
      → Grown s s'
      → length s.log.entries ≤ 2 ^ 63
      → Rests t s
      → Rests t s'
  unfolding Rests
  Rests-Grown s s' (checkpoint id csr is kind entry index) grown fits h =
      StoredAt-Grown s s' entry index grown h
  Rests-Grown s s' (prove id csr is kind entry index cp) grown fits h =
      (StoredAt-Grown s s' entry index grown h.0, Certified-Grown s s' index cp grown fits h.1)
  Rests-Grown s s' _ grown fits h = tt

  -- What an access leaves of the log.
  pub record Kept (s : Shared) (r : Stepped) : Type 0 where
    pub is_log : IsLog sha256 r.shared.log
    pub grown : Grown s r.shared
    pub rests : All (λ t. Rests t r.shared) r.threads

  pub Grown-refl : (s s' : Shared) → s'.log ≡ s.log → s'.checkpoints ≡ s.checkpoints → Grown s s'
  Grown-refl s s' same_log same_checkpoints = record {
    more = [];
    entries_are = ap (λ (l : Store). l.entries) same_log ∙ sym (append-nil s.log.entries);
    checkpoints_stay = λ cp at. subst (λ l. Memᴰ cp l) (sym same_checkpoints) at;
  }

  module _ (o : Outside) (same : o.sha256 ≡ sha256) (s : Shared) (is_log : IsLog sha256 s.log) where
    pub append_to_log-Kept :
        (id : Bytes) (csr : Csr) (is : List Identifier) (kind : Kind) (entry : LogEntry)
        → Kept s (append_to_log o id csr is kind entry s)
    unfolding append_to_log at_index Rests
    append_to_log-Kept id csr is kind entry =
        let (after, made, entries_are, is_log') =
          append_direct_entry-IsLog sha256 s.log entry is_log in
        let made' : append_direct_entry o.sha256 entry s.log ≡ ok (length s.log.entries, after) =
          rw same made in
        rw (append_to_log, made')
          (record {
            is_log = is_log';
            grown = record {
              more = at_index (length s.log.entries) entry ∷ [];
              entries_are = entries_are;
              checkpoints_stay = λ cp at. at;
            };
            rests = (stored after entries_are, tt);
          })
      where
        stored :
            (after : Store)
            → after.entries ≡ s.log.entries ++ (at_index (length s.log.entries) entry ∷ [])
            → StoredAt entry (length s.log.entries) after
        stored after are = record {
          inside = omega (
            arith,
            ap length are,
            length-append s.log.entries (at_index (length s.log.entries) entry ∷ []),
          );
          leaf_there =
              ap (λ es. leaf_at sha256 es (length s.log.entries)) are
              ∙ leaf_at_new sha256 s.log.entries (at_index (length s.log.entries) entry);
        }

    abbrev checkpoint_of : Bytes → Bytes × Bytes → Checkpoint
    checkpoint_of top text = record {
      tree_size = tree_size s.log.entries;
      root_hash = top;
      timestamp = o.clock 0;
      signature = text.1;
      body = text.0;
    }

    -- A log that is not empty: what comes of its checkpoint is up to the signature.
    create_checkpoint_lem :
        (text : Option (Bytes × Bytes)) (top : Bytes)
        → 0 < length s.log.entries
        → compute_root_hash sha256 s.log.nodes (tree_size s.log.entries) ≡ ok top
        → o.sign_checkpoint (tree_size s.log.entries) top (o.clock 0) ≡ text
        → create_checkpoint o.sha256 o.sign_checkpoint (o.clock 0) s.log
          ≡ (elim text [ none ↦ err not_signed | some n ↦ ok (checkpoint_of top n) ])
    unfolding create_checkpoint
    create_checkpoint_lem text top nonempty read signed =
        let full : (tree_size s.log.entries == 0) ≡ false =
          ground (arith, tree_size_lem s.log.entries is_log.numbered) in
        rw (create_checkpoint, same, full, read, signed) refl

    pub make_checkpoint-Kept :
        (id : Bytes) (csr : Csr) (is : List Identifier) (kind : Kind) (entry : LogEntry) (index : ℕ)
        → length s.log.entries ≤ 2 ^ 63
        → StoredAt entry index s.log
        → Kept s (make_checkpoint o id csr is kind entry index s)
    unfolding make_checkpoint Rests
    make_checkpoint-Kept id csr is kind entry index fits stored =
        let (top, read, is_root) =
          compute_root_hash-eq_subtree_hash sha256 s.log is_log fits
            (omega (arith, stored.inside)) in
        elim (Option-cases (o.sign_checkpoint (tree_size s.log.entries) top (o.clock 0))) [
          | inl unsigned ↦
              rw
                (
                  make_checkpoint,
                  create_checkpoint_lem none top (omega (arith, stored.inside)) read unsigned,
                )
                (record { is_log = is_log; grown = Grown-refl s s refl refl; rests = (tt, tt) })
          | inr (text, signed) ↦
              let cp = checkpoint_of top text in
              rw
                (
                  make_checkpoint,
                  create_checkpoint_lem (some text) top (omega (arith, stored.inside)) read signed,
                )
                (record {
                  is_log = is_log;
                  grown = record {
                    more = [];
                    entries_are = sym (append-nil s.log.entries);
                    checkpoints_stay = λ c at. Memᴰ.append_left (cp ∷ []) at;
                  };
                  rests = (
                    (
                      stored,
                      record {
                        covers = omega (arith, size, stored.inside);
                        within = omega (arith, size);
                        rooted = rw size is_root;
                        saved = Memᴰ.append_right s.checkpoints (Memᴰ.head refl);
                      },
                    ),
                    tt,
                  );
                })
        ]
      where
        size : tree_size s.log.entries ≡ length s.log.entries
        size = tree_size_lem s.log.entries is_log.numbered
