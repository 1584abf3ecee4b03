-- ===== src/Revocation.antt =====
-- internal/revocation/revocation.go, with its statements of internal/store/store.go: revoked entries, and
-- the bitmap of them that is served. The statements are taken to succeed.
pub mod Bitmap
mod Tests
use Prim.Native.Nat.{bit_or}
use ca_extension_mtc_playgro.Prelude.{
  ℕ, zero, suc, ◌+◌, ◌-◌, ◌/◌, ◌%◌, ◌^◌, List, [], ◌∷◌, ◌++◌, map, Bool, true, false, ◌||◌, Option,
  none, some, leb, ◌==◌, if◌then◌else◌, get_or, set, replicate,
}
use ca_extension_mtc_playgro.Bytes.{Bytes, bytes_eq}
use ca_extension_mtc_playgro.Log.Tables.{LogEntry}

-- `RevokedIndex`
pub record RevokedIndex : Type 0 where
  pub entry_idx : ℕ
  pub serial_hex : Bytes
  pub revoked_at : ℕ
  pub reason : ℕ

-- `cadb.RevocationEvent`
pub record RevocationEvent : Type 0 where
  pub cert_id : Bytes
  pub serial_number : Bytes
  pub revoked_date : ℕ
  pub revoked_reason : ℕ

-- `FindEntryBySerial`: the index of a row with the serial number, here the first one.
unfoldable pub find_entry_by_serial : Bytes → List LogEntry → Option ℕ
find_entry_by_serial serial [] = none
find_entry_by_serial serial (e ∷ es) =
    let rest = find_entry_by_serial serial es in
    if bytes_eq e.serial_hex serial then some e.index else rest

-- The primary key that `AddRevocation` meets.
unfoldable pub is_revoked : ℕ → List RevokedIndex → Bool
is_revoked i [] = false
is_revoked i (r ∷ rs) = r.entry_idx == i || is_revoked i rs

-- `AddRevocation`: nothing where the entry has been revoked before.
unfoldable pub add_revocation : RevokedIndex → List RevokedIndex → List RevokedIndex
add_revocation r rs = if is_revoked r.entry_idx rs then rs else rs ++ (r ∷ [])

-- `ProcessRevocations`: how many events it has recorded, and the table behind them. The reason is cut to
-- an `int16`, here its 16-bit pattern.
unfoldable pub process_revocations :
    List RevocationEvent → List LogEntry → List RevokedIndex → ℕ × List RevokedIndex
process_revocations [] es rs = (0, rs)
process_revocations (ev ∷ evs) es rs = elim (find_entry_by_serial ev.serial_number es) [
  | none ↦ process_revocations evs es rs
  | some i ↦
      let rest = process_revocations evs es (
        add_revocation
          (record {
            entry_idx = i;
            serial_hex = ev.serial_number;
            revoked_at = ev.revoked_date;
            reason = ev.revoked_reason % 2 ^ 16;
          })
          rs) in
      (suc rest.0, rest.1)
]

-- `ORDER BY entry_idx`, and `sort.Slice`.
unfoldable pub insert_sorted : ℕ → List ℕ → List ℕ
insert_sorted i [] = i ∷ []
insert_sorted i (j ∷ js) = let rest = insert_sorted i js in if leb i j then i ∷ j ∷ js else j ∷ rest

unfoldable pub sort : List ℕ → List ℕ
sort [] = []
sort (i ∷ is) = insert_sorted i (sort is)

-- `GetRevokedIndices` of the store, and of the manager.
unfoldable pub stored_indices : List RevokedIndex → List ℕ
stored_indices rs = sort (map (λ r. r.entry_idx) rs)

unfoldable pub get_revoked_indices : List RevokedIndex → List ℕ
get_revoked_indices rs = sort (stored_indices rs)

-- `bitmap[byteIdx] |= 1 << bitIdx`
unfoldable pub set_bit : ℕ → Bytes → Bytes
set_bit i bitmap = set bitmap (i / 8) (bit_or (get_or bitmap (i / 8) 0) (2 ^ (7 - i % 8)))

-- The loop of `BuildRevocationBitmap`.
unfoldable pub set_bits : ℕ → List ℕ → Bytes → Bytes
set_bits size [] bitmap = bitmap
set_bits size (i ∷ is) bitmap =
    if leb size i then set_bits size is bitmap else set_bits size is (set_bit i bitmap)

-- `BuildRevocationBitmap`
unfoldable pub build_revocation_bitmap : ℕ → List RevokedIndex → Bytes
build_revocation_bitmap size rs =
    if size == 0 then [] else set_bits size (get_revoked_indices rs) (replicate ((size + 7) / 8) 0)
