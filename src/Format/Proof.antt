-- ===== src/Format/Proof.antt =====
-- internal/mtcformat/encoding.go: MTCProof, the value of a certificate's signature field, and the
-- message that a cosigner signs.
pub mod RoundTrip
use ca_extension_mtc_playgro.Prelude.{
  ℕ, zero, suc, ◌+◌, ◌*◌, ◌/◌, ◌%◌, List, [], ◌∷◌, ◌++◌, Bool, true, false, not, length, take, drop,
  ltb, leb, ◌==◌, if◌then◌else◌,
}
use ca_extension_mtc_playgro.Prelude.Result.{Result, ok, err, ◌>>=◌, ◌>>◌, reject}
use ca_extension_mtc_playgro.Bytes.{Bytes, be, un_be}
use ca_extension_mtc_playgro.Format.Signatures.{
  Error, MtcSignature, cut, marshal_signatures, unmarshal_signatures,
}

-- `HashSize`
abbrev pub hash_size : ℕ
hash_size = 32

pub record MtcProof : Type 0 where
  pub start : ℕ
  pub end : ℕ
  pub inclusion_proof : List Bytes
  pub signatures : List MtcSignature

-- The loop of `MarshalProof` that checks each hash's size.
unfoldable pub check_hashes : List Bytes → Result Error (Unit {0})
check_hashes [] = ok tt
check_hashes (h ∷ rest) = do
  reject (not (length h == hash_size)) Error.wrong_hash_size
  check_hashes rest

-- The loop that copies the hashes.
unfoldable pub write_hashes : List Bytes → Bytes
write_hashes [] = []
write_hashes (h ∷ rest) = h ++ write_hashes rest

-- The buffer that `MarshalProof` fills, for the bytes of the signatures: both length prefixes are
-- the low 16 bits of the length, as the conversion to `uint16` leaves them.
unfoldable pub layout : MtcProof → Bytes → Bytes
layout p sigs =
    be 8 p.start
    ++ (be 8 p.end
        ++ (be 2 (length p.inclusion_proof * hash_size)
            ++ (write_hashes p.inclusion_proof ++ (be 2 (length sigs) ++ sigs))))

-- `MarshalProof`
unfoldable pub marshal_proof : MtcProof → Result Error Bytes
marshal_proof p = do
  reject (leb p.end p.start) Error.invalid_range
  reject (ltb 0xffff (length p.inclusion_proof * hash_size)) Error.proof_too_large
  check_hashes p.inclusion_proof
  sigs ← marshal_signatures p.signatures
  ok (layout p sigs)

-- The loop of `UnmarshalProof` that reads the hashes, behind the test that their bytes are there.
unfoldable pub read_hashes : ℕ → Bytes → List Bytes
read_hashes zero input = []
read_hashes (suc n) input = take hash_size input ∷ read_hashes n (drop hash_size input)

-- `UnmarshalProof` behind the two-byte length of the signatures.
unfoldable pub unmarshal_tail : ℕ → ℕ → List Bytes → ℕ → Bytes → Result Error MtcProof
unmarshal_tail start end hashes sigs_len rest = do
  reject (ltb (length rest) sigs_len) Error.truncated_signatures
  reject (ltb sigs_len (length rest)) Error.trailing_data
  sigs ← unmarshal_signatures rest
  ok (record { start = start; end = end; inclusion_proof = hashes; signatures = sigs })

-- `UnmarshalProof` behind the subtree's range.
unfoldable pub unmarshal_body : ℕ → ℕ → Bytes → Result Error MtcProof
unmarshal_body start end input = do
  (proof_len, rest) ← cut Error.truncated_length 2 input
  reject (not (un_be 0 proof_len % hash_size == 0)) Error.proof_not_aligned
  (hashes, rest) ← cut Error.truncated_proof (un_be 0 proof_len) rest
  (sigs_len, rest) ← cut Error.truncated_length 2 rest
  unmarshal_tail start end (read_hashes (un_be 0 proof_len / hash_size) hashes) (un_be 0 sigs_len)
      rest

-- `UnmarshalProof`
unfoldable pub unmarshal_proof : Bytes → Result Error MtcProof
unmarshal_proof input = do
  reject (ltb (length input) 20) Error.too_short
  let start = un_be 0 (take 8 input)
  let end = un_be 0 (take 8 (drop 8 input))
  reject (leb end start) Error.invalid_range
  unmarshal_body start end (drop 8 (drop 8 input))

-- `MTCSubtreeLabel`: "mtc-subtree/v1\n\0"
abbrev pub subtree_label : Bytes
subtree_label =
    109 ∷ 116 ∷ 99 ∷ 45 ∷ 115 ∷ 117 ∷ 98 ∷ 116 ∷ 114 ∷ 101 ∷ 101 ∷ 47 ∷ 118 ∷ 49 ∷ 10 ∷ 0 ∷ []

-- `BuildSubtreeSignatureInput`
unfoldable pub build_subtree_signature_input : Bytes → Bytes → ℕ → ℕ → Bytes → Result Error Bytes
build_subtree_signature_input cosigner_id log_id start end hash = do
  reject (not (length hash == hash_size)) Error.wrong_hash_size
  reject (length cosigner_id == 0) Error.bad_cosigner_id
  ok (subtree_label ++ (cosigner_id ++ (log_id ++ (be 8 start ++ (be 8 end ++ hash)))))
