-- ===== src/Format/Entry.antt =====
-- internal/mtcformat/encoding.go: MerkleTreeCertEntry, the leaf that is hashed into the tree.
-- A `[]byte` that the source cuts by an offset is read here from the front, as the bytes not yet read.
pub mod RoundTrip
use ca_extension_mtc_playgro.Prelude.{
  ℕ, ◌+◌, ◌*◌, ◌/◌, ◌%◌, ◌^◌, [], ◌∷◌, ◌++◌, Bool, true, false, length, take, ltb, ◌==◌,
  if◌then◌else◌,
}
use ca_extension_mtc_playgro.Prelude.Result.{Result, ok, err}
use ca_extension_mtc_playgro.Bytes.{Bytes, be, un_be}

pub data Error : Type 0 where
  empty_data data_too_large unknown_type no_type null_trailing no_length zero_length : Error
  truncated trailing_data : Error

-- `EntryTypeNull` and `EntryTypeTBSCert`
abbrev pub entry_type_null : ℕ
entry_type_null = 0

abbrev pub entry_type_tbs_cert : ℕ
entry_type_tbs_cert = 1

pub record MerkleTreeCertEntry : Type 0 where
  pub type : ℕ
  pub payload : Bytes

-- `MarshalEntry`
unfoldable pub marshal_entry : MerkleTreeCertEntry → Result Error Bytes
marshal_entry e =
    if e.type == entry_type_null
    then ok (be 2 entry_type_null)
    else if e.type == entry_type_tbs_cert
    then (if length e.payload == 0
        then err empty_data
        else if ltb 0xffffff (length e.payload)
        then err data_too_large
        else ok (be 2 entry_type_tbs_cert ++ (be 3 (length e.payload) ++ e.payload)))
    else err unknown_type

-- `UnmarshalEntry` behind the type field of a tbs_cert_entry.
unfoldable pub unmarshal_tbs : Bytes → Result Error MerkleTreeCertEntry
unmarshal_tbs (x ∷ y ∷ z ∷ body) =
    let n = un_be 0 (x ∷ y ∷ z ∷ []) in
    if n == 0
    then err zero_length
    else if ltb (length body) n
    then err truncated
    else if ltb n (length body)
    then err trailing_data
    else ok (record { type = entry_type_tbs_cert; payload = take n body })
unmarshal_tbs _ = err no_length

-- `UnmarshalEntry`
unfoldable pub unmarshal_entry : Bytes → Result Error MerkleTreeCertEntry
unmarshal_entry (x ∷ y ∷ rest) =
    let t = un_be 0 (x ∷ y ∷ []) in
    if t == entry_type_null
    then (if length rest == 0
        then ok (record { type = entry_type_null; payload = [] })
        else err null_trailing)
    else if t == entry_type_tbs_cert
    then unmarshal_tbs rest
    else err unknown_type
unmarshal_entry _ = err no_type
