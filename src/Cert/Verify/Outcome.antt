-- ===== src/Cert/Verify/Outcome.antt =====
-- What `VerifyMTCCert` returns.
use ca_extension_mtc_playgro.Prelude.{
  ℕ, ◌+◌, ◌-◌, ◌%◌, ◌^◌, ◌≤◌, ◌<◌, ◌≡◌, refl, ap, ◌∙◌, sym, map, true, false, ◌&&◌, Option, none,
  some, Option-cases, length, ltb, leb, Bool-cases, inl, inr, arith,
}
use ca_extension_mtc_playgro.Prelude.Int.{pos, negsuc}
use ca_extension_mtc_playgro.Prelude.Result.{
  Result, ok, err, panic, stuck, ◌>>=◌, >>=-eq-ok, ok_inj,
}
use ca_extension_mtc_playgro.Bytes.{Bytes}
use ca_extension_mtc_playgro.Merkle.Hash.{Error}
use ca_extension_mtc_playgro.Merkle.Inclusion.{root_from_inclusion_proof}
use ca_extension_mtc_playgro.Format.Proof.{MtcProof}
use ca_extension_mtc_playgro.Cert.Verify.{
  Mode, VerifyResult, Locals, to_int64, sub_64, to_hash, choose_mode, in_range, start_locals,
  verify_locals, verify_mtc_cert,
}

-- The signatureless result, whatever the landmarks.
unsigned_result : MtcProof → Locals → VerifyResult
unsigned_result proof l = record {
  leaf_index = l.result.leaf_index;
  subtree_start = l.result.subtree_start;
  subtree_end = l.result.subtree_end;
  proof_valid = l.result.proof_valid;
  signatures_verified = l.result.signatures_verified;
  mode = Mode.signatureless;
}

choose_mode_unsigned :
    (a : Option (ℕ → Option Bytes)) (proof : MtcProof) (root : Bytes) (l : Locals)
    → ltb 0 (length proof.signatures) ≡ false
    → (choose_mode a proof root l).result ≡ unsigned_result proof l
unfolding choose_mode unsigned_result
choose_mode_unsigned none proof root l h = rw (choose_mode, h) refl
choose_mode_unsigned (some table) proof root l h = elim (Option-cases (table proof.end)) [
  | inl e ↦ rw (choose_mode, h, e) refl
  | inr (expected_root, e) ↦ rw (choose_mode, h, e) refl
]

choose_mode-result :
    (a b : Option (ℕ → Option Bytes)) (proof : MtcProof) (root : Bytes) (l : Locals)
    → (choose_mode a proof root l).result ≡ (choose_mode b proof root l).result
unfolding choose_mode
choose_mode-result a b proof root l = elim (Bool-cases (ltb 0 (length proof.signatures))) [
  | inl some_there ↦ rw (choose_mode, some_there) refl
  | inr none_there ↦
      choose_mode_unsigned a proof root l none_there
      ∙ sym (choose_mode_unsigned b proof root l none_there)
]

choose_mode-proof_valid :
    (a : Option (ℕ → Option Bytes)) (proof : MtcProof) (root : Bytes) (l : Locals)
    → (choose_mode a proof root l).result.proof_valid ≡ l.result.proof_valid
unfolding choose_mode unsigned_result
choose_mode-proof_valid a proof root l = elim (Bool-cases (ltb 0 (length proof.signatures))) [
  | inl some_there ↦ rw (choose_mode, some_there) refl
  | inr none_there ↦
      ap (λ (r : VerifyResult). r.proof_valid) (choose_mode_unsigned a proof root l none_there)
]

after_root : Option (ℕ → Option Bytes) → ℕ → MtcProof → Bytes → Result Error Locals
after_root landmarks serial proof root =
    ok (choose_mode landmarks proof root (start_locals serial proof))

any_landmarks :
    (a b : Option (ℕ → Option Bytes)) (serial : ℕ) (proof : MtcProof) (root : Result Error Bytes)
    → ((root >>= after_root a serial proof) >>= λ l. ok l.result)
      ≡ ((root >>= after_root b serial proof) >>= λ l. ok l.result)
unfolding after_root
any_landmarks a b serial proof (ok root) =
    ap ok (choose_mode-result a b proof root (start_locals serial proof))
any_landmarks a b serial proof (err e) = refl
any_landmarks a b serial proof panic = refl
any_landmarks a b serial proof stuck = refl

-- The difference of two positions, as an `int64`.
diff_up : (a b : ℕ) → a ≤ b → b < 2 ^ 63 → to_int64 (sub_64 b a) ≡ pos (b - a)
unfolding to_int64 sub_64
diff_up a b le small =
    let d : (b + 2 ^ 64 - a) % 2 ^ 64 ≡ b - a = omega arith in
    let low : ltb (b - a) (2 ^ 63) ≡ true = ground arith in rw (d, low) refl

diff_down : (a b : ℕ) → b < a → a < 2 ^ 63 → to_int64 (sub_64 b a) ≡ negsuc (a - b - 1)
unfolding to_int64 sub_64
diff_down a b lt small =
    let d : (b + 2 ^ 64 - a) % 2 ^ 64 ≡ 2 ^ 64 - (a - b) = omega arith in
    let high : ltb (2 ^ 64 - (a - b)) (2 ^ 63) ≡ false = ground arith in
    rw (d, high) (ap negsuc (omega arith))

in_range-diff :
    (serial start end : ℕ)
    → serial < 2 ^ 63
    → start < end
    → end < 2 ^ 63
    → in_range (to_int64 (sub_64 serial start)) (to_int64 (sub_64 end start))
      ≡ (leb start serial && ltb serial end)
unfolding in_range
in_range-diff serial start end hs lt he = elim (Bool-cases (leb start serial)) [
  | inl up ↦
      rw (diff_up start serial (ground arith) hs, diff_up start end (omega arith) he) (ground arith)
  | inr down ↦
      rw (diff_down start serial (ground arith) (omega arith), diff_up start end (omega arith) he)
        (ground arith)
]

-- The result of `VerifyMTCCert` is the same for any two tables of landmarks: a root that differs from
-- the landmark of the proof's end changes nothing.
pub verify_mtc_cert_any_landmarks :
    (sha256 : Bytes → Bytes) (a b : Option (ℕ → Option Bytes)) (serial : ℕ) (proof : MtcProof)
    (leaf : Bytes)
    → verify_mtc_cert sha256 a serial proof leaf ≡ verify_mtc_cert sha256 b serial proof leaf
unfolding verify_mtc_cert verify_locals after_root
verify_mtc_cert_any_landmarks sha256 a b serial proof leaf = any_landmarks a b serial proof (
    root_from_inclusion_proof sha256 (to_int64 (sub_64 serial proof.start))
      (to_int64 (sub_64 proof.end proof.start)) leaf (map to_hash proof.inclusion_proof))

-- Take a serial number, and a range that is not empty, all below 2 ^ 63. Where `VerifyMTCCert` returns
-- a result, `proof_valid` is true exactly if the serial number lies in the range.
pub verify_mtc_cert-proof_valid :
    (sha256 : Bytes → Bytes) (landmarks : Option (ℕ → Option Bytes)) (serial : ℕ) (proof : MtcProof)
    (leaf : Bytes) (r : VerifyResult)
    → serial < 2 ^ 63
    → proof.start < proof.end
    → proof.end < 2 ^ 63
    → verify_mtc_cert sha256 landmarks serial proof leaf ≡ ok r
    → r.proof_valid ≡ (leb proof.start serial && ltb serial proof.end)
unfolding verify_mtc_cert verify_locals after_root start_locals
verify_mtc_cert-proof_valid sha256 landmarks serial proof leaf r hs nonempty he returns =
    let (l, found, is_r) =
      >>=-eq-ok (verify_locals sha256 landmarks serial proof leaf) (λ l. ok l.result) returns in
    let (root, made, is_l) =
      >>=-eq-ok
        (root_from_inclusion_proof sha256 (to_int64 (sub_64 serial proof.start))
          (to_int64 (sub_64 proof.end proof.start)) leaf (map to_hash proof.inclusion_proof))
        (after_root landmarks serial proof) found in
    ap (λ (x : VerifyResult). x.proof_valid) (sym (ok_inj _ _ is_r))
    ∙ ap (λ (x : Locals). x.result.proof_valid) (sym (ok_inj _ _ is_l))
    ∙ choose_mode-proof_valid landmarks proof root (start_locals serial proof)
    ∙ in_range-diff serial proof.start proof.end hs nonempty he
