-- ===== src/Log/Checkpoint.antt =====
-- internal/issuancelog/issuancelog.go: an entry for an MTC certificate, and the checkpoint of the log.
-- ASN.1 decoding and the signature over the checkpoint's note are parameters.
use ca_extension_mtc_playgro.Prelude.{ℕ, Option, none, some, ◌==◌, if◌then◌else◌}
use ca_extension_mtc_playgro.Prelude.Result.{Result, ok, err, panic, stuck}
use ca_extension_mtc_playgro.Bytes.{Bytes}
use ca_extension_mtc_playgro.Format.Entry.{entry_type_tbs_cert, marshal_entry}
use ca_extension_mtc_playgro.Log.{local_ca, compute_root_hash}
use ca_extension_mtc_playgro.Log.Tables.{LogEntry, Store, StoreError, tree_size}

-- `EntryTypeMTC`
abbrev pub entry_type_mtc : ℕ
entry_type_mtc = 3

-- `Checkpoint`, without the columns that the database sets by itself.
pub record Checkpoint : Type 0 where
  pub tree_size : ℕ
  pub root_hash : Bytes
  pub timestamp : ℕ
  pub signature : Bytes
  pub body : Bytes

pub data LogError : Type 0 where
  not_der not_marshalled log_is_empty not_signed : LogError
  from_store : StoreError → LogError

-- `BuildMTCEntry`; the index is set when the entry is appended.
unfoldable pub build_mtc_entry :
    (Bytes → Bytes) → (Bytes → Option Bytes) → Bytes → Bytes → Result LogError LogEntry
build_mtc_entry sha256 contents_octets log_entry_der serial_hex =
    elim (contents_octets log_entry_der) [
      | none ↦ err not_der
      | some contents ↦
          elim (marshal_entry (record { type = entry_type_tbs_cert; payload = contents })) [
            | ok wire ↦ ok (record {
              index = 0;
              entry_type = entry_type_mtc;
              entry_data = wire;
              cert_sha256 = sha256 log_entry_der;
              serial_hex = serial_hex;
              ca_cert_id = local_ca;
            })
            | err e ↦ err not_marshalled
            | panic ↦ panic
            | stuck ↦ stuck
          ]
    ]

-- `CreateCheckpoint`: the new row of the table of checkpoints. `sign` is given the size, the root and
-- the time, and returns the note and the signature.
unfoldable pub create_checkpoint :
    (Bytes → Bytes)
    → (ℕ → Bytes → ℕ → Option (Bytes × Bytes))
    → ℕ
    → Store
    → Result LogError Checkpoint
create_checkpoint sha256 sign now s =
    let size = tree_size s.entries in
    if size == 0 then err log_is_empty else (elim (compute_root_hash sha256 s.nodes size) [
      | err e ↦ err (from_store e)
      | panic ↦ panic
      | stuck ↦ stuck
      | ok root ↦ elim (sign size root now) [
        | none ↦ err not_signed
        | some note ↦ ok (record {
          tree_size = size;
          root_hash = root;
          timestamp = now;
          signature = note.1;
          body = note.0;
        })
      ]
    ])
