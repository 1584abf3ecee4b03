-- ===== src/Revocation/Tests.antt =====
-- A few revocations: the theorems at concrete inputs.
use ca_extension_mtc_playgro.Prelude.{◌≡◌, List, [], ◌∷◌, ◌||◌, arith}
use ca_extension_mtc_playgro.Log.Tables.{LogEntry}
use ca_extension_mtc_playgro.Revocation.{
  RevokedIndex, RevocationEvent, is_revoked, process_revocations, build_revocation_bitmap,
}
use ca_extension_mtc_playgro.Revocation.Bitmap.{
  bit_at, names_entry, build_revocation_bitmap-bit, process_revocations-bit,
}

abbrev revoked : List RevokedIndex
revoked = record { entry_idx = 9; serial_hex = 65 ∷ []; revoked_at = 1; reason = 0 } ∷ []

abbrev entries : List LogEntry
entries =
    record {
      index = 3;
      entry_type = 1;
      entry_data = [];
      cert_sha256 = [];
      serial_hex = 66 ∷ [];
      ca_cert_id = [];
    }
    ∷ []

abbrev events : List RevocationEvent
events =
    record { cert_id = []; serial_number = 67 ∷ []; revoked_date = 2; revoked_reason = 1 }
    ∷ record { cert_id = []; serial_number = 66 ∷ []; revoked_date = 2; revoked_reason = 1 }
    ∷ []

build_revocation_bitmap-bit_example :
    bit_at (build_revocation_bitmap 20 revoked) 9 ≡ is_revoked 9 revoked
build_revocation_bitmap-bit_example = build_revocation_bitmap-bit 20 9 revoked (omega arith)

process_revocations-bit_example :
    bit_at (build_revocation_bitmap 20 (process_revocations events entries revoked).1) 3
    ≡ (is_revoked 3 revoked || names_entry 3 events entries)
process_revocations-bit_example = process_revocations-bit 20 3 events entries revoked (omega arith)
