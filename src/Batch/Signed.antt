-- ===== src/Batch/Signed.antt =====
-- What `ProcessBatch` signs, the cosigners that are asked accept.
use mathlib.Core.Path.{subst}
use ca_extension_mtc_playgro.Prelude.{
  ℕ, ◌-◌, ◌^◌, ◌≤◌, ◌<◌, ◌≡◌, refl, ap, ◌∙◌, sym, List, [], ◌∷◌, true, ◌&&◌, inl, inr, ◌⊎◌, Option,
  none, some, Option-cases, All, length, ltb, leb, ◌==◌, arith,
}
use ca_extension_mtc_playgro.Prelude.Result.{
  Result, ok, err, panic, stuck, ◌>>=◌, ◌>>◌, reject, >>=-eq-ok, ok_inj,
}
use ca_extension_mtc_playgro.Bytes.{Bytes}
use ca_extension_mtc_playgro.Merkle.Hash.{subtree_hash}
use ca_extension_mtc_playgro.Merkle.Shape.{build, root, compute_subtree_hash-root}
use ca_extension_mtc_playgro.Format.Signatures.{MtcSignature}
use ca_extension_mtc_playgro.Format.Signatures as Signatures
use ca_extension_mtc_playgro.Format.Proof.{build_subtree_signature_input}
use ca_extension_mtc_playgro.Log.Tables.{Store}
use ca_extension_mtc_playgro.Log.WellFormed.{IsLog, leaf_at, tree_size_lem}
use ca_extension_mtc_playgro.Log.Ragged.{ragged}
use ca_extension_mtc_playgro.Log.Recompute.{expected-there}
use ca_extension_mtc_playgro.Batch.{
  Cosigner, BatchError, BatchResult, sign_subtree_mtc, verify_subtree_mtc, sign_all, process_batch,
  wrap,
}
use ca_extension_mtc_playgro.Batch as Batch
use ca_extension_mtc_playgro.Batch.SubtreeHash as SubtreeHash

-- A cosigner whose verification accepts what its signing returns.
abbrev pub IsSound : Cosigner → Type 0
IsSound c = (msg sig : Bytes) → c.sign msg ≡ some sig → c.verify msg sig ≡ true

-- One of the cosigners accepts the signature.
abbrev pub Accepted : List Cosigner → Bytes → ℕ → ℕ → Bytes → MtcSignature → Type 0
Accepted [] log_id start end hash sig = ⊥
Accepted (c ∷ cs) log_id start end hash sig =
    (verify_subtree_mtc c log_id start end hash sig ≡ true) ⊎ Accepted cs log_id start end hash sig

some_inj : (a b : MtcSignature) → some a ≡ some b → a ≡ b
some_inj a b h = cc

-- The signature of an input that could be built.
attach : Cosigner → Bytes → Option MtcSignature
attach c input = elim (c.sign input) [
  | some sig ↦ some (record { cosigner_id = c.cosigner_id; signature = sig })
  | none ↦ none
]

attach-eq-some :
    (c : Cosigner) (input : Bytes) (sig : MtcSignature)
    → attach c input ≡ some sig
    → (sig.cosigner_id ≡ c.cosigner_id) × (c.sign input ≡ some sig.signature)
unfolding attach
attach-eq-some c input sig h = elim (Option-cases (c.sign input)) [
  | inl e ↦ cc (rw (attach, e) at h)
  | inr (made, e) ↦
      let same : record { cosigner_id = c.cosigner_id; signature = made } ≡ sig =
        some_inj _ sig (rw (attach, e) at h) in
      (
        ap (λ (x : MtcSignature). x.cosigner_id) (sym same),
        e ∙ ap (λ (x : MtcSignature). some x.signature) same,
      )
]

sign_subtree_mtc-verify_subtree_mtc :
    (c : Cosigner) (log_id : Bytes) (start end : ℕ) (hash : Bytes) (sig : MtcSignature)
    → IsSound c
    → sign_subtree_mtc c log_id start end hash ≡ some sig
    → verify_subtree_mtc c log_id start end hash sig ≡ true
unfolding sign_subtree_mtc verify_subtree_mtc attach
sign_subtree_mtc-verify_subtree_mtc c log_id start end hash sig sound made =
    go (build_subtree_signature_input c.cosigner_id log_id start end hash) refl
  where
    go :
        (m : Result Signatures.Error Bytes)
        → build_subtree_signature_input c.cosigner_id log_id start end hash ≡ m
        → verify_subtree_mtc c log_id start end hash sig ≡ true
    go (ok input) e =
        let (same, signed) = attach-eq-some c input sig (rw (sign_subtree_mtc, e) at made) in
        rw (verify_subtree_mtc, same, e) (sound input sig.signature signed)
    go (err x) e = cc (rw (sign_subtree_mtc, e) at made)
    go panic e = cc (rw (sign_subtree_mtc, e) at made)
    go stuck e = cc (rw (sign_subtree_mtc, e) at made)

module _ (log_id : Bytes) (start end : ℕ) (hash : Bytes) where
  Accepted-more :
      (c : Cosigner) (cs : List Cosigner) (sigs : List MtcSignature)
      → All (Accepted cs log_id start end hash) sigs
      → All (Accepted (c ∷ cs) log_id start end hash) sigs
  Accepted-more c cs [] h = tt
  Accepted-more c cs (s ∷ sigs) h = (inr h.0, Accepted-more c cs sigs h.1)

  sign_all-Accepted :
      (cs : List Cosigner)
      → All IsSound cs
      → All (Accepted cs log_id start end hash) (sign_all cs log_id start end hash)
  unfolding sign_all
  sign_all-Accepted [] sound = tt
  sign_all-Accepted (c ∷ cs) sound =
      let rest =
        Accepted-more c cs (sign_all cs log_id start end hash) (sign_all-Accepted cs sound.1) in
      elim (Option-cases (sign_subtree_mtc c log_id start end hash)) [
        | inl failed ↦ rw (sign_all, failed) rest
        | inr (sig, made) ↦
            rw (sign_all, made)
              (
                inl (sign_subtree_mtc-verify_subtree_mtc c log_id start end hash sig sound.0 made),
                rest,
              )
      ]

-- The leaves' rows of a well-formed log.
leaf_rows :
    (sha256 : Bytes → Bytes) (s : Store)
    → IsLog sha256 s
    → (i : ℕ) → i < length s.entries
    → s.nodes 0 i ≡ some (leaf_at sha256 s.entries i)
unfolding ragged
leaf_rows sha256 s is_log i lt =
    is_log.settled 0 i (omega arith) (inl (omega arith))
    ∙ expected-there sha256 (leaf_at sha256 s.entries) (length s.entries) 0 i (omega arith)

-- `ProcessBatch` behind the subtree's hash.
after_hash : List Cosigner → Bytes → ℕ → ℕ → Bytes → Result BatchError BatchResult
after_hash cosigners log_id from size hash = do
  let sigs = sign_all cosigners log_id from size hash
  reject (length sigs == 0 && ltb 0 (length cosigners)) BatchError.all_failed
  ok (record { start = from; end = size; subtree_hash = hash; signatures = sigs })

-- Take a well-formed log of at most 2 ^ 63 entries, and cosigners whose verification accepts what they
-- sign. A batch that `ProcessBatch` returns runs from the given start to the log's size, its subtree
-- hash is the RFC 9162 hash of those leaves, and every signature in it is accepted by one of the
-- cosigners for that range and that hash.
pub process_batch_lem :
    (sha256 : Bytes → Bytes) (cosigners : List Cosigner) (log_id : Bytes) (s : Store) (from : ℕ)
    (r : BatchResult)
    → IsLog sha256 s
    → length s.entries ≤ 2 ^ 63
    → All IsSound cosigners
    → process_batch sha256 cosigners log_id s from ≡ ok r
    → (r.start ≡ from)
      × (r.end ≡ length s.entries)
      × (subtree_hash sha256 (leaf_at sha256 s.entries) r.start r.end ≡ ok r.subtree_hash)
      × All (Accepted cosigners log_id r.start r.end r.subtree_hash) r.signatures
unfolding process_batch after_hash wrap subtree_hash
process_batch_lem sha256 cosigners log_id s from r is_log fits sound returns =
    let size = length s.entries in
    let (_, tested, h1) =
      >>=-eq-ok (reject (leb size from) BatchError.empty_batch)
        (λ _.
          wrap sha256 (Batch.compute_subtree_hash sha256 s.nodes 64 from size)
          >>= after_hash cosigners log_id from size)
        (rw (tree_size_lem s.entries is_log.numbered) at returns) in
    let t = build 63 (size - from) (ground arith) (omega arith) (omega arith) in
    let hashed =
      SubtreeHash.compute_subtree_hash-root sha256 (leaf_at sha256 s.entries) s.nodes size
        (leaf_rows sha256 s is_log) t from size (ground arith) (omega arith) (omega arith) in
    let (_, _, made) =
      >>=-eq-ok
        (reject
          (length (
                sign_all cosigners log_id from size (root sha256 (leaf_at sha256 s.entries) from t))
              == 0
            && ltb 0 (length cosigners))
          BatchError.all_failed)
        (λ _. ok (record {
          start = from;
          end = size;
          subtree_hash = root sha256 (leaf_at sha256 s.entries) from t;
          signatures =
              sign_all cosigners log_id from size (root sha256 (leaf_at sha256 s.entries) from t);
        }))
        (rw hashed at h1) in
    subst
      (λ (x : BatchResult).
        (x.start ≡ from)
        × (x.end ≡ length s.entries)
        × (subtree_hash sha256 (leaf_at sha256 s.entries) x.start x.end ≡ ok x.subtree_hash)
        × All (Accepted cosigners log_id x.start x.end x.subtree_hash) x.signatures)
      (ok_inj _ _ made)
      (
        refl,
        refl,
        compute_subtree_hash-root sha256 (leaf_at sha256 s.entries) t from size (ground arith),
        sign_all-Accepted log_id from size (root sha256 (leaf_at sha256 s.entries) from t) cosigners
            sound,
      )
