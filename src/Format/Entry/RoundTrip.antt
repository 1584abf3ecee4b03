-- ===== src/Format/Entry/RoundTrip.antt =====
-- What `MarshalEntry` writes is what `UnmarshalEntry` reads, both ways.
use ca_extension_mtc_playgro.Prelude.{
  ◌≡◌, refl, ap, [], ◌∷◌, All, length, take, ◌==◌, if◌then◌else◌, arith,
}
use ca_extension_mtc_playgro.Prelude.Result.{ok}
use ca_extension_mtc_playgro.Bytes.{Bytes, IsByte, be, un_be}
use ca_extension_mtc_playgro.Format.Entry.{
  MerkleTreeCertEntry, entry_type_null, marshal_entry, unmarshal_tbs, unmarshal_entry,
}

-- What the wire keeps of an entry: a null entry has no payload.
unfoldable pub on_wire : MerkleTreeCertEntry → MerkleTreeCertEntry
on_wire e = if e.type == entry_type_null then record { type = entry_type_null; payload = [] } else e

take_all : (xs : Bytes) → take (length xs) xs ≡ xs
take_all [] = refl
take_all (x ∷ xs) = ap (λ ys. x ∷ ys) (take_all xs)

-- Every entry that `MarshalEntry` writes is read back by `UnmarshalEntry`, with the payload of a null
-- entry dropped.
pub unmarshal_entry-marshal_entry :
    (e : MerkleTreeCertEntry) (wire : Bytes)
    → marshal_entry e ≡ ok wire
    → unmarshal_entry wire ≡ ok (on_wire e)
unfolding marshal_entry unmarshal_entry unmarshal_tbs on_wire be un_be
unmarshal_entry-marshal_entry e wire h = ground (arith, take_all e.payload)

-- Every byte string that `UnmarshalEntry` accepts is what `MarshalEntry` writes for the entry it
-- returned.
pub marshal_entry-unmarshal_entry :
    (wire : Bytes) (e : MerkleTreeCertEntry)
    → All IsByte wire
    → unmarshal_entry wire ≡ ok e
    → marshal_entry e ≡ ok wire
unfolding marshal_entry unmarshal_entry unmarshal_tbs be un_be
marshal_entry-unmarshal_entry [] e bytes h = cc
marshal_entry-unmarshal_entry (x ∷ []) e bytes h = cc
marshal_entry-unmarshal_entry (x ∷ y ∷ []) e bytes h = ground arith
marshal_entry-unmarshal_entry (x ∷ y ∷ a ∷ []) e bytes h = ground arith
marshal_entry-unmarshal_entry (x ∷ y ∷ a ∷ b ∷ []) e bytes h = ground arith
marshal_entry-unmarshal_entry (x ∷ y ∷ a ∷ b ∷ c ∷ body) e bytes h = ground (arith, take_all body)
