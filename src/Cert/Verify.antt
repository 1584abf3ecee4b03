-- ===== src/Cert/Verify.antt =====
-- internal/mtccert/verify.go: `VerifyMTCCert`, behind the steps that parse the certificate and build the
-- entry's leaf hash. An `int64` is its 64-bit pattern, a number below 2 ^ 64, where it is computed with.
pub mod Outcome
use ca_extension_mtc_playgro.Prelude.{
  ℕ, zero, suc, ◌+◌, ◌-◌, ◌%◌, ◌^◌, ◌≤◌, ◌<◌, ◌≡◌, ◌≢◌, refl, ap, ◌∙◌, sym, List, [], ◌∷◌, ◌++◌,
  map, Bool, true, false, not, ◌&&◌, Option, none, some, Option-cases, length, take, ltb, leb, ◌==◌,
  if◌then◌else◌, Bool-cases, inl, inr, arith,
}
use ca_extension_mtc_playgro.Prelude.Int.{ℤ, pos, negsuc, ltb_ℤ, leb_ℤ}
use ca_extension_mtc_playgro.Prelude.Result.{
  Result, ok, err, panic, stuck, ◌>>=◌, >>=-eq-ok, ok_inj,
}
use ca_extension_mtc_playgro.Bytes.{Bytes, bytes_eq, bytes_eq→eq}
use ca_extension_mtc_playgro.Merkle.Hash.{Error}
use ca_extension_mtc_playgro.Merkle.Inclusion.{root_from_inclusion_proof}
use ca_extension_mtc_playgro.Format.Proof.{MtcProof}
use ca_extension_mtc_playgro.Log.Root.{zeros}

pub data Mode : Type 0 where
  signed signatureless : Mode

pub record VerifyResult : Type 0 where
  pub leaf_index : ℕ
  pub subtree_start : ℕ
  pub subtree_end : ℕ
  pub proof_valid : Bool
  pub signatures_verified : ℕ
  pub mode : Mode

-- What `VerifyMTCCert` holds in the end: the local variable `proofValid`, and the result it returns.
pub record Locals : Type 0 where
  pub valid : Bool
  pub result : VerifyResult

-- The conversion of a 64-bit pattern to the number that it stands for as an `int64`.
unfoldable pub to_int64 : ℕ → ℤ
to_int64 n = if ltb n (2 ^ 63) then pos n else negsuc (2 ^ 64 - 1 - n)

-- Subtraction on 64-bit patterns.
unfoldable pub sub_64 : ℕ → ℕ → ℕ
sub_64 a b = (a + 2 ^ 64 - b) % 2 ^ 64

-- `copy` into a 32-byte array of zeros.
unfoldable pub to_hash : Bytes → Bytes
to_hash h = take 32 (h ++ zeros 32)

-- The part of `VerifyMTCCert` that chooses the mode. `landmarks` is `none` where the option is nil.
unfoldable pub choose_mode : Option (ℕ → Option Bytes) → MtcProof → Bytes → Locals → Locals
choose_mode landmarks proof root l = elim (ltb 0 (length proof.signatures)) [
  | true ↦ record {
    valid = l.valid;
    result = record {
      leaf_index = l.result.leaf_index;
      subtree_start = l.result.subtree_start;
      subtree_end = l.result.subtree_end;
      proof_valid = l.result.proof_valid;
      signatures_verified = length proof.signatures;
      mode = Mode.signed;
    };
  }
  | false ↦
      let result : VerifyResult = record {
        leaf_index = l.result.leaf_index;
        subtree_start = l.result.subtree_start;
        subtree_end = l.result.subtree_end;
        proof_valid = l.result.proof_valid;
        signatures_verified = l.result.signatures_verified;
        mode = Mode.signatureless;
      } in
      elim landmarks [
        | none ↦ record { valid = l.valid; result = result }
        | some table ↦ elim (table proof.end) [
          | none ↦ record { valid = l.valid; result = result }
          | some expected_root ↦ record {
            valid = if bytes_eq root expected_root then l.valid else false;
            result = result;
          }
        ]
      ]
]

-- The test of the relative index that the certificate's serial number comes to, and the result
-- before the mode is chosen.
unfoldable pub in_range : ℤ → ℤ → Bool
in_range relative size =
    not (leb_ℤ size (pos 0)) && (not (ltb_ℤ relative (pos 0)) && ltb_ℤ relative size)

unfoldable pub start_locals : ℕ → MtcProof → Locals
start_locals serial proof =
    let valid =
      in_range (to_int64 (sub_64 serial proof.start)) (to_int64 (sub_64 proof.end proof.start)) in
    record {
      valid = valid;
      result = record {
        leaf_index = serial;
        subtree_start = proof.start;
        subtree_end = proof.end;
        proof_valid = valid;
        signatures_verified = 0;
        mode = Mode.signatureless;
      };
    }

module _ (sha256 : Bytes → Bytes) where
  -- `VerifyMTCCert` from step 5 on: the proof, the serial number and the leaf hash are at hand.
  unfoldable pub verify_locals :
      Option (ℕ → Option Bytes) → ℕ → MtcProof → Bytes → Result Error Locals
  verify_locals landmarks serial proof leaf = do
    let size = to_int64 (sub_64 proof.end proof.start)
    let relative = to_int64 (sub_64 serial proof.start)
    root ← root_from_inclusion_proof sha256 relative size leaf (map to_hash proof.inclusion_proof)
    ok (choose_mode landmarks proof root (start_locals serial proof))

  unfoldable pub verify_mtc_cert :
      Option (ℕ → Option Bytes) → ℕ → MtcProof → Bytes → Result Error VerifyResult
  verify_mtc_cert landmarks serial proof leaf = do
    locals ← verify_locals landmarks serial proof leaf
    ok locals.result
