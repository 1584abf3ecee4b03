-- ===== src/Format/Signatures.antt =====
-- internal/mtcformat/encoding.go: the list of cosigner signatures behind a proof.
-- Slices that the source cuts by an offset are read from the front, as the bytes not yet read.
pub mod RoundTrip
use ca_extension_mtc_playgro.Prelude.{
  ℕ, zero, suc, ◌+◌, List, [], ◌∷◌, ◌++◌, Bool, true, false, ◌||◌, length, take, drop, ltb, ◌==◌,
  if◌then◌else◌,
}
use ca_extension_mtc_playgro.Prelude.Result.{Result, ok, err, stuck, ◌>>=◌, ◌>>◌, reject}
use ca_extension_mtc_playgro.Bytes.{Bytes, be, un_be}

-- The errors of `MarshalProof`, `UnmarshalProof` and the two functions here.
pub data Error : Type 0 where
  invalid_range proof_too_large wrong_hash_size bad_cosigner_id signature_too_large : Error
  too_short proof_not_aligned truncated_proof truncated_length truncated_signatures : Error
  trailing_data zero_length_id truncated_id truncated_sig_length truncated_sig : Error

pub record MtcSignature : Type 0 where
  pub cosigner_id : Bytes
  pub signature : Bytes

-- `data[off : off+n]` and what follows it, behind the test that it is there.
unfoldable pub cut : Error → ℕ → Bytes → Result Error (Bytes × Bytes)
cut e n input = if ltb (length input) n then err e else ok (take n input, drop n input)

-- The loop of `marshalSignatures` that checks the sizes: the first bad one ends it.
unfoldable pub check_signatures : List MtcSignature → Result Error (Unit {0})
check_signatures [] = ok tt
check_signatures (s ∷ rest) = do
  reject (length s.cosigner_id == 0 || ltb 255 (length s.cosigner_id)) bad_cosigner_id
  reject (ltb 0xffff (length s.signature)) signature_too_large
  check_signatures rest

-- The loop that writes them.
unfoldable pub write_signatures : List MtcSignature → Bytes
write_signatures [] = []
write_signatures (s ∷ rest) =
    be 1 (length s.cosigner_id)
    ++ (s.cosigner_id ++ (be 2 (length s.signature) ++ (s.signature ++ write_signatures rest)))

-- `marshalSignatures`
unfoldable pub marshal_signatures : List MtcSignature → Result Error Bytes
marshal_signatures sigs = do check_signatures sigs; ok (write_signatures sigs)

-- The loop of `unmarshalSignatures`. A round reads 3 bytes at least, so the input's length is fuel
-- enough.
unfoldable pub read_signatures : ℕ → Bytes → Result Error (List MtcSignature)
read_signatures fuel [] = ok []
read_signatures zero (b ∷ rest) = stuck
read_signatures (suc fuel) (id_len ∷ rest) = do
  reject (id_len == 0) zero_length_id
  (cosigner_id, rest) ← cut truncated_id id_len rest
  (sig_len, rest) ← cut truncated_sig_length 2 rest
  (signature, rest) ← cut truncated_sig (un_be 0 sig_len) rest
  sigs ← read_signatures fuel rest
  ok (record { cosigner_id = cosigner_id; signature = signature } ∷ sigs)

-- `unmarshalSignatures`
unfoldable pub unmarshal_signatures : Bytes → Result Error (List MtcSignature)
unmarshal_signatures input = read_signatures (length input) input
