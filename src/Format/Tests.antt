-- ===== src/Format/Tests.antt =====
-- Small encodings: the theorems at concrete inputs.
use ca_extension_mtc_playgro.Prelude.{◌%◌}
use ca_extension_mtc_playgro.Format.Proof.{write_hashes}
use ca_extension_mtc_playgro.Prelude.{◌*◌}
use ca_extension_mtc_playgro.Prelude.{
  ℕ, ◌<◌, ◌≡◌, refl, [], ◌∷◌, ◌++◌, List, length, length-append, length-replicate, replicate, arith,
}
use ca_extension_mtc_playgro.Prelude.Result.{ok, err}
use ca_extension_mtc_playgro.Bytes.{Bytes, be, un_be}
use ca_extension_mtc_playgro.Format.Entry.{
  MerkleTreeCertEntry, entry_type_tbs_cert, marshal_entry, unmarshal_entry, unmarshal_tbs,
}
use ca_extension_mtc_playgro.Format.Entry.RoundTrip.{
  on_wire, unmarshal_entry-marshal_entry, marshal_entry-unmarshal_entry,
}
use ca_extension_mtc_playgro.Format.Signatures.{
  MtcSignature, cut, check_signatures, write_signatures, marshal_signatures, read_signatures,
}
use ca_extension_mtc_playgro.Format.Signatures as Signatures
use ca_extension_mtc_playgro.Format.Signatures.RoundTrip.{
  read_signatures-write_signatures, write_signatures-read_signatures,
}
use ca_extension_mtc_playgro.Format.Proof.{
  MtcProof, check_hashes, layout, marshal_proof, unmarshal_proof,
}
use ca_extension_mtc_playgro.Format.Proof.RoundTrip.{
  unmarshal_proof-marshal_proof, marshal_proof_wraps,
}

abbrev entry : MerkleTreeCertEntry
entry = record { type = entry_type_tbs_cert; payload = 5 ∷ 6 ∷ [] }

abbrev entry_wire : Bytes
entry_wire = 0 ∷ 1 ∷ 0 ∷ 0 ∷ 2 ∷ 5 ∷ 6 ∷ []

entry_written : marshal_entry entry ≡ ok entry_wire
unfolding marshal_entry be
entry_written = refl

entry_read : unmarshal_entry entry_wire ≡ ok entry
unfolding unmarshal_entry unmarshal_tbs un_be
entry_read = refl

unmarshal_entry-marshal_entry_example : unmarshal_entry entry_wire ≡ ok (on_wire entry)
unmarshal_entry-marshal_entry_example = unmarshal_entry-marshal_entry entry entry_wire entry_written

marshal_entry-unmarshal_entry_example : marshal_entry entry ≡ ok entry_wire
marshal_entry-unmarshal_entry_example =
    marshal_entry-unmarshal_entry entry_wire entry
      (
        omega arith,
        (
          omega arith,
          (omega arith, (omega arith, (omega arith, (omega arith, (omega arith, tt))))),
        ),
      )
      entry_read

abbrev sigs : List MtcSignature
sigs = record { cosigner_id = 3 ∷ []; signature = 8 ∷ 9 ∷ [] } ∷ []

abbrev sigs_wire : Bytes
sigs_wire = 1 ∷ 3 ∷ 0 ∷ 2 ∷ 8 ∷ 9 ∷ []

sigs_checked : check_signatures sigs ≡ ok tt
unfolding check_signatures
sigs_checked = refl

sigs_written : length (write_signatures sigs) ≡ 6
unfolding write_signatures be
sigs_written = refl

sigs_read : read_signatures 6 sigs_wire ≡ ok sigs
unfolding read_signatures cut un_be
sigs_read = refl

read_signatures-write_signatures_example : read_signatures 6 (write_signatures sigs) ≡ ok sigs
read_signatures-write_signatures_example =
    read_signatures-write_signatures sigs 6 sigs_checked (omega (arith, sigs_written))

write_signatures-read_signatures_example :
    (check_signatures sigs ≡ ok tt) × (write_signatures sigs ≡ sigs_wire)
write_signatures-read_signatures_example =
    write_signatures-read_signatures 6 sigs_wire sigs
      (omega arith, (omega arith, (omega arith, (omega arith, (omega arith, (omega arith, tt))))))
      sigs_read

abbrev proof : MtcProof
proof = record { start = 0; end = 2; inclusion_proof = replicate 32 9 ∷ []; signatures = sigs }

proof_written : marshal_proof proof ≡ ok (layout proof (write_signatures sigs))
unfolding marshal_proof check_hashes marshal_signatures check_signatures
proof_written = refl

unmarshal_proof-marshal_proof_example :
    unmarshal_proof (layout proof (write_signatures sigs)) ≡ ok proof
unmarshal_proof-marshal_proof_example =
    unmarshal_proof-marshal_proof proof (layout proof (write_signatures sigs)) (omega arith)
      proof_written (omega (arith, sigs_written))

-- Two signatures of 40000 bytes each.
abbrev big : MtcSignature
big = record { cosigner_id = 3 ∷ []; signature = replicate 40000 7 }

abbrev big_proof : MtcProof
big_proof = record { start = 0; end = 2; inclusion_proof = []; signatures = big ∷ big ∷ [] }

checked_lem :
    (s : MtcSignature)
    → length s.cosigner_id ≡ 1
    → length s.signature ≡ 40000
    → check_signatures (s ∷ s ∷ []) ≡ ok tt
unfolding check_signatures
checked_lem s a b = rw (check_signatures, a, b) refl

long_lem :
    (s : MtcSignature) → length s.signature ≡ 40000 → 65535 < length (write_signatures (s ∷ s ∷ []))
unfolding write_signatures
long_lem s b = omega (
  arith,
  b,
  length-append (be 1 (length s.cosigner_id))
      (s.cosigner_id ++ (be 2 (length s.signature) ++ (s.signature ++ tail))),
  length-append s.cosigner_id (be 2 (length s.signature) ++ (s.signature ++ tail)),
  length-append (be 2 (length s.signature)) (s.signature ++ tail),
  length-append s.signature tail,
  length-append (be 1 (length s.cosigner_id))
      (s.cosigner_id ++ (be 2 (length s.signature) ++ (s.signature ++ []))),
  length-append s.cosigner_id (be 2 (length s.signature) ++ (s.signature ++ [])),
  length-append (be 2 (length s.signature)) (s.signature ++ []),
  length-append s.signature [],
)
  where
    tail : Bytes
    tail = write_signatures (s ∷ [])

written_lem :
    (p : MtcProof)
    → p.start ≡ 0
    → p.end ≡ 2
    → p.inclusion_proof ≡ []
    → check_signatures p.signatures ≡ ok tt
    → marshal_proof p ≡ ok (layout p (write_signatures p.signatures))
unfolding marshal_proof check_hashes marshal_signatures
written_lem p a b c d = rw (marshal_proof, a, b, c, d) refl

big_size : length big.signature ≡ 40000
big_size = length-replicate {A = ℕ} 40000 7

marshal_proof_wraps_example :
    (layout big_proof (write_signatures (big ∷ big ∷ []))
      ≡ be 8 big_proof.start
        ++ (be 8 big_proof.end
            ++ (be 2 (length big_proof.inclusion_proof * 32)
                ++ (write_hashes big_proof.inclusion_proof
                    ++ (be 2 (length (write_signatures (big ∷ big ∷ [])) % 65536)
                        ++ write_signatures (big ∷ big ∷ []))))))
    × (unmarshal_proof (layout big_proof (write_signatures (big ∷ big ∷ [])))
        ≡ err Signatures.Error.trailing_data)
marshal_proof_wraps_example =
    marshal_proof_wraps big_proof (layout big_proof (write_signatures (big ∷ big ∷ [])))
      (omega arith) (written_lem big_proof refl refl refl (checked_lem big refl big_size))
      (long_lem big big_size)
