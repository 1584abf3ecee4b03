-- ===== src/Cert/Tests.antt =====
-- A certificate of a tree of two leaves: the theorems at concrete inputs.
use ca_extension_mtc_playgro.Prelude.{
  ℕ, ◌≡◌, refl, ◌∷◌, [], ◌&&◌, Option, none, some, leb, ltb, length, replicate, true, arith,
}
use ca_extension_mtc_playgro.Prelude.Pow.{bit_len}
use ca_extension_mtc_playgro.Prelude.Result.{ok}
use ca_extension_mtc_playgro.Bytes.{Bytes}
use ca_extension_mtc_playgro.Merkle.Hash.{split_point, interior_hash}
use ca_extension_mtc_playgro.Merkle.Inclusion.{
  root_from_inclusion_proof, root_from_proof, path_len, join_left, join_right,
}
use ca_extension_mtc_playgro.Format.Proof.{MtcProof}
use ca_extension_mtc_playgro.Cert.Verify.{
  VerifyResult, signatureless, to_int64, sub_64, to_hash, choose_mode, in_range, start_locals,
  verify_locals, verify_mtc_cert,
}
use ca_extension_mtc_playgro.Cert.Verify.Outcome.{
  verify_mtc_cert_any_landmarks, verify_mtc_cert-proof_valid,
}

-- A stand-in for SHA-256.
abbrev toy : Bytes → Bytes
toy input = replicate 32 (length input)

abbrev leaf : Bytes
leaf = replicate 32 1

abbrev proof : MtcProof
proof = record { start = 4; end = 6; inclusion_proof = replicate 32 9 ∷ []; signatures = [] }

-- The landmark of tree size 6 is no hash of that tree.
abbrev wrong_landmarks : Option (ℕ → Option Bytes)
wrong_landmarks = some (λ size. some (replicate 32 255))

verify_mtc_cert_any_landmarks_example :
    verify_mtc_cert toy none 5 proof leaf ≡ verify_mtc_cert toy wrong_landmarks 5 proof leaf
verify_mtc_cert_any_landmarks_example =
    verify_mtc_cert_any_landmarks toy none wrong_landmarks 5 proof leaf

abbrev result : VerifyResult
result = record {
  leaf_index = 5;
  subtree_start = 4;
  subtree_end = 6;
  proof_valid = true;
  signatures_verified = 0;
  mode = signatureless;
}

returned : verify_mtc_cert toy wrong_landmarks 5 proof leaf ≡ ok result
unfolding verify_mtc_cert verify_locals to_int64 sub_64 to_hash choose_mode in_range start_locals
    root_from_inclusion_proof root_from_proof path_len join_left join_right split_point bit_len
    interior_hash
returned = refl

verify_mtc_cert-proof_valid_example : result.proof_valid ≡ (leb proof.start 5 && ltb 5 proof.end)
verify_mtc_cert-proof_valid_example =
    verify_mtc_cert-proof_valid toy wrong_landmarks 5 proof leaf result (omega arith) (omega arith)
      (omega arith) returned
