-- ===== src/Merkle/Consistency/Complete.antt =====
-- A consistency proof is accepted for the roots of the two trees.
use mathlib.Core.List.{append_assoc, append-nil}
use native.Mathlib.Nat.{add-zero, add_assoc}
use ca_extension_mtc_playgro.Prelude.{
  ℕ, suc, ◌+◌, ◌-◌, ◌^◌, ◌≤◌, ◌<◌, ◌≡◌, refl, sym, ◌∙◌, List, [], ◌∷◌, ◌++◌, inl, inr, Bool, true,
  false, ◌||◌, length, length-append, ltb, leb, ◌==◌, arith, if◌then◌else◌, Bool-cases,
}
use ca_extension_mtc_playgro.Prelude.Int.{pos}
use ca_extension_mtc_playgro.Prelude.Result.{ok, ◌>>=◌}
use ca_extension_mtc_playgro.Bytes.{Bytes, bytes_eq_refl}
use ca_extension_mtc_playgro.Merkle.Hash.{split_point, subtree_hash, compute_subtree_hash}
use ca_extension_mtc_playgro.Merkle.Shape.{
  Shape, leaf, node, root, build, compute_subtree_hash-root,
}
use ca_extension_mtc_playgro.Merkle.Inclusion.Complete.{get_elem?-middle}
use ca_extension_mtc_playgro.Merkle.Consistency.{
  next_hash, consistency_proof_rec, consistency_proof, verify_consistency_rec, accept,
  verify_consistency,
}
use ca_extension_mtc_playgro.Merkle.Consistency.Prefix.{
  prefix_root, prefix_root_all, prefix_root_inside, prefix_root_beyond, prefix_root-root,
  root_unique,
}

next_hash-middle :
    (proof front back : List Bytes) (hash : Bytes) (at : ℕ)
    → proof ≡ front ++ (hash ∷ back)
    → at ≡ length front
    → next_hash proof at ≡ ok (hash, at + 1)
unfolding next_hash
next_hash-middle proof front back hash at p q =
    rw (next_hash, p, q, get_elem?-middle front back hash, q)

module _ (sha256 : Bytes → Bytes) (hash_at : ℕ → Bytes) where
  -- The hashes of `SUBPROOF`, for the first `m` leaves of a shape.
  between : {fuel n : ℕ} → ℕ → ℕ → Bool → Shape fuel n → List Bytes
  between m start open_right (leaf e) = if open_right then [] else hash_at start ∷ []
  between {n = n} m start open_right (node j e lo hi left right) =
      let whole = root sha256 hash_at start (node j e lo hi left right) in
      let inner =
        between m start open_right left ++ (root sha256 hash_at (start + 2 ^ j) right ∷ []) in
      let across =
        between (m - 2 ^ j) (start + 2 ^ j) false right ++ (root sha256 hash_at start left ∷ []) in
      if m == n
      then (if open_right then [] else whole ∷ [])
      else if leb m (2 ^ j)
      then inner
      else across

  consistency_proof_rec_all :
      {fuel n : ℕ} (t : Shape (suc fuel) n) (m start : ℕ) (open_right : Bool)
      → (m == n) ≡ true
      → consistency_proof_rec sha256 hash_at (suc fuel) m n start open_right
        ≡ ok (if open_right then [] else root sha256 hash_at start t ∷ [])
  unfolding consistency_proof_rec
  consistency_proof_rec_all t m start true all = rw (consistency_proof_rec, all)
  consistency_proof_rec_all {n = n} t m start false all = rw (
    consistency_proof_rec,
    all,
    compute_subtree_hash-root sha256 hash_at t start (start + n) refl,
  )

  consistency_proof_rec-between :
      {fuel n : ℕ} (t : Shape fuel n) (m start : ℕ) (open_right : Bool)
      → 0 < m
      → m ≤ n
      → consistency_proof_rec sha256 hash_at fuel m n start open_right
        ≡ ok (between m start open_right t)
  unfolding consistency_proof_rec between root
  consistency_proof_rec-between (leaf {fuel = f} e) m start open_right p q =
      consistency_proof_rec_all (leaf {fuel = f} e) m start open_right (ground arith)
  consistency_proof_rec-between {n = n} (node j e lo hi left right) m start open_right p q =
      elim (Bool-cases (m == n)) [
        | inl all ↦
            rw all (consistency_proof_rec_all (node j e lo hi left right) m start open_right all)
        | inr part ↦ elim (Bool-cases (leb m (2 ^ j))) [
          | inl inside ↦ rw (
            consistency_proof_rec,
            part,
            e,
            ◌>>=◌,
            inside,
            consistency_proof_rec-between left m start open_right p (ground arith),
            compute_subtree_hash-root sha256 hash_at right (start + 2 ^ j) (start + n)
                (omega arith),
          )
          | inr beyond ↦ rw (
            consistency_proof_rec,
            part,
            e,
            ◌>>=◌,
            beyond,
            consistency_proof_rec-between right (m - 2 ^ j) (start + 2 ^ j) false (ground arith)
                (omega arith),
            compute_subtree_hash-root sha256 hash_at left start (start + 2 ^ j) refl,
          )
        ]
      ]

  verify_consistency_rec_all :
      {fuel n : ℕ} (t : Shape (suc fuel) n) (m start : ℕ) (open_right : Bool) (pass : Bytes)
      (front back proof : List Bytes) (at : ℕ)
      → (m == n) ≡ true
      → (open_right ≡ true → pass ≡ prefix_root sha256 hash_at m start t)
      → proof ≡ front ++ ((if open_right then [] else root sha256 hash_at start t ∷ []) ++ back)
      → at ≡ length front
      → verify_consistency_rec sha256 (suc fuel) m n open_right pass proof at
        ≡ ok (
          prefix_root sha256 hash_at m start t,
          root sha256 hash_at start t,
          at + length (if open_right then [] else root sha256 hash_at start t ∷ []),
        )
  unfolding verify_consistency_rec
  verify_consistency_rec_all t m start true pass front back proof at all agree e ea = rw (
    verify_consistency_rec,
    all,
    prefix_root_all sha256 hash_at t m start all,
    agree refl,
    prefix_root_all sha256 hash_at t m start all,
    add-zero,
  )
  verify_consistency_rec_all t m start false pass front back proof at all agree e ea = rw (
    verify_consistency_rec,
    all,
    prefix_root_all sha256 hash_at t m start all,
    next_hash-middle proof front back _ at e ea,
  )

  -- The verifier reads exactly those hashes, and rebuilds both roots from them.
  between_all :
      {fuel n : ℕ} (t : Shape fuel n) (m start : ℕ) (open_right : Bool)
      → (m == n) ≡ true
      → between m start open_right t ≡ (if open_right then [] else root sha256 hash_at start t ∷ [])
  unfolding between root
  between_all (leaf e) m start open_right all = refl
  between_all (node j e lo hi left right) m start open_right all = rw all

  module _ {fuel n : ℕ} (j : ℕ) (e : split_point n ≡ ok (2 ^ j)) (lo : 2 ^ j < n)
      (hi : n ≤ 2 ^ j + 2 ^ j) (left : Shape fuel (2 ^ j)) (right : Shape fuel (n - 2 ^ j))
      (m start : ℕ) (part : (m == n) ≡ false) where
    between_inside :
        (open_right : Bool)
        → leb m (2 ^ j) ≡ true
        → between m start open_right (node {n = n} j e lo hi left right)
          ≡ between m start open_right left ++ (root sha256 hash_at (start + 2 ^ j) right ∷ [])
    unfolding between
    between_inside open_right inside = rw (part, inside)

    between_beyond :
        (open_right : Bool)
        → leb m (2 ^ j) ≡ false
        → between m start open_right (node {n = n} j e lo hi left right)
          ≡ between (m - 2 ^ j) (start + 2 ^ j) false right ++ (root sha256 hash_at start left ∷ [])
    unfolding between
    between_beyond open_right beyond = rw (part, beyond)

  verify_consistency_rec-between :
      {fuel n : ℕ} (t : Shape fuel n) (m start : ℕ) (open_right : Bool) (pass : Bytes)
      (front back proof : List Bytes) (at : ℕ)
      → 0 < m
      → m ≤ n
      → (open_right ≡ true → pass ≡ prefix_root sha256 hash_at m start t)
      → proof ≡ front ++ (between m start open_right t ++ back)
      → at ≡ length front
      → verify_consistency_rec sha256 fuel m n open_right pass proof at
        ≡ ok (
          prefix_root sha256 hash_at m start t,
          root sha256 hash_at start t,
          at + length (between m start open_right t),
        )
  unfolding verify_consistency_rec root
  verify_consistency_rec-between {n = n} (leaf {fuel = f} e) m start open_right pass front back
        proof at p q agree ep ea =
      rw (between_all (leaf {fuel = f} e) m start open_right all) (
        verify_consistency_rec_all (leaf {fuel = f} e) m start open_right pass front back proof at
          all agree (rw (between_all (leaf {fuel = f} e) m start open_right all) at ep) ea)
    where
      all : (m == n) ≡ true
      all = ground arith
  verify_consistency_rec-between {n = n} (node {fuel = f} j e lo hi left right) m start open_right
        pass front back proof at p q agree ep ea =
      elim (Bool-cases (m == n)) [
        | inl all ↦ rw (between_all (node j e lo hi left right) m start open_right all) (
            verify_consistency_rec_all (node j e lo hi left right) m start open_right pass front
              back proof at all agree
              (rw (between_all (node j e lo hi left right) m start open_right all) at ep) ea)
        | inr part ↦ elim (Bool-cases (leb m (2 ^ j))) [
          | inl inside ↦
              let split = between_inside j e lo hi left right m start part open_right inside in
              let prefix =
                prefix_root_inside sha256 hash_at j e lo hi left right m start part inside in
              let list : proof
                  ≡ front
                    ++ (between m start open_right left
                        ++ (root sha256 hash_at (start + 2 ^ j) right ∷ back)) =
                ep ∙ rw (split, append_assoc) in
              let ih =
                verify_consistency_rec-between left m start open_right pass front _ proof at p
                  (ground arith) (λ o. agree o ∙ prefix) list ea in
              rw (
                split,
                prefix,
                verify_consistency_rec,
                part,
                e,
                ◌>>=◌,
                inside,
                ih,
                next_hash-middle proof (front ++ between m start open_right left) back
                    (root sha256 hash_at (start + 2 ^ j) right)
                    (at + length (between m start open_right left)) (list ∙ rw append_assoc)
                    (rw (length-append, ea)),
                length-append,
                add_assoc,
              )
          | inr beyond ↦
              let split = between_beyond j e lo hi left right m start part open_right beyond in
              let prefix =
                prefix_root_beyond sha256 hash_at j e lo hi left right m start part beyond in
              let list : proof
                  ≡ front
                    ++ (between (m - 2 ^ j) (start + 2 ^ j) false right
                        ++ (root sha256 hash_at start left ∷ back)) =
                ep ∙ rw (split, append_assoc) in
              let ih =
                verify_consistency_rec-between right (m - 2 ^ j) (start + 2 ^ j) false [] front _
                  proof at (ground arith) (omega arith) (λ o. cc) list ea in
              rw (
                split,
                prefix,
                verify_consistency_rec,
                part,
                e,
                ◌>>=◌,
                beyond,
                ih,
                next_hash-middle proof (front ++ between (m - 2 ^ j) (start + 2 ^ j) false right)
                    back (root sha256 hash_at start left)
                    (at + length (between (m - 2 ^ j) (start + 2 ^ j) false right))
                    (list ∙ rw append_assoc) (rw (length-append, ea)),
                length-append,
                add_assoc,
              )
        ]
      ]

  between_nonempty :
      {fuel n : ℕ} (t : Shape fuel n) (m start : ℕ) (open_right : Bool)
      → 0 < m
      → m ≤ n
      → (m == n) ≡ false
      → (length (between m start open_right t) == 0) ≡ false
  unfolding between
  between_nonempty (leaf e) m start open_right p q part = absurd (ground arith)
  between_nonempty (node j e lo hi left right) m start open_right p q part =
      elim (Bool-cases (leb m (2 ^ j))) [
        | inl inside ↦ rw (part, inside) (more _ _)
        | inr beyond ↦ rw (part, beyond) (more _ _)
      ]
    where
      more : (xs : List Bytes) (y : Bytes) → (length (xs ++ (y ∷ [])) == 0) ≡ false
      more xs y = ground (arith, length-append xs (y ∷ []))

  -- Both entry points on sizes in order, for any shapes of the two trees.
  module _ {m n : ℕ} (old : Shape 64 m) (new : Shape 64 n) (p : 0 < m) (q : m ≤ n) where
    abbrev RootsAccepted : List Bytes → Type 0
    RootsAccepted proof =
        verify_consistency sha256 (pos m) (pos n) proof (root sha256 hash_at 0 old)
          (root sha256 hash_at 0 new)
        ≡ ok true

    in_order : (ltb (m + 0) 0 || ltb (n + 0) (m + 0)) ≡ false
    in_order = ground arith

    in_order' : (ltb (n + 0) (m + 0) || ltb (m + 0) 0 || ltb (n + 0) 0) ≡ false
    in_order' = ground arith

    positive : (m == 0) ≡ false
    positive = ground arith

    same_size :
        (m == n) ≡ true
        → (consistency_proof sha256 hash_at (pos m) (pos n) ≡ ok []) × RootsAccepted []
    unfolding consistency_proof verify_consistency
    same_size all = (
      rw (in_order, positive, all),
      rw (
        in_order',
        all,
        root_unique sha256 hash_at old new 0 0 (ground arith) refl,
        bytes_eq_refl,
      ),
    )

    larger :
        (m == n) ≡ false
        → (consistency_proof sha256 hash_at (pos m) (pos n) ≡ ok (between m 0 true new))
          × RootsAccepted (between m 0 true new)
    unfolding consistency_proof verify_consistency accept
    larger part = (
      rw (in_order, positive, part) (consistency_proof_rec-between new m 0 true p q),
      rw (
        in_order',
        part,
        positive,
        between_nonempty new m 0 true p q part,
        verify_consistency_rec-between new m 0 true (root sha256 hash_at 0 old) [] []
            (between m 0 true new) 0 p q (λ _. sym prefix) (sym (append-nil _)) refl,
        accept,
        prefix,
        bytes_eq_refl,
        bytes_eq_refl,
        count,
      ),
    )
      where
        prefix : prefix_root sha256 hash_at m 0 new ≡ root sha256 hash_at 0 old
        prefix = prefix_root-root sha256 hash_at new old m 0 refl p q

        count : (0 + length (between m 0 true new) == length (between m 0 true new)) ≡ true
        count = ground arith

-- For all sizes 0 < old ≤ new ≤ 2 ^ 63, `ConsistencyProof` returns a proof, both trees have a root, and
-- `VerifyConsistency` accepts the proof for these two roots.
pub verify_consistency-consistency_proof :
    (sha256 : Bytes → Bytes) (hash_at : ℕ → Bytes) (old_size new_size : ℕ)
    → 0 < old_size
    → old_size ≤ new_size
    → new_size ≤ 2 ^ 63
    → (proof : List Bytes) × (old_root : Bytes) × (new_root : Bytes) × (consistency_proof sha256
          hash_at
          (pos old_size)
          (pos new_size)
        ≡ ok proof)
      × (subtree_hash sha256 hash_at 0 old_size ≡ ok old_root)
      × (subtree_hash sha256 hash_at 0 new_size ≡ ok new_root)
      × (verify_consistency sha256 (pos old_size) (pos new_size) proof old_root new_root ≡ ok true)
unfolding subtree_hash
verify_consistency-consistency_proof sha256 hash_at m n p q fits = elim (Bool-cases (m == n)) [
  | inl all ↦
      let (made, taken) = same_size sha256 hash_at old new p q all in
      ([], root sha256 hash_at 0 old, root sha256 hash_at 0 new, made, is_old, is_new, taken)
  | inr part ↦
      let (made, taken) = larger sha256 hash_at old new p q part in
      (
        between sha256 hash_at m 0 true new,
        root sha256 hash_at 0 old,
        root sha256 hash_at 0 new,
        made,
        is_old,
        is_new,
        taken,
      )
]
  where
    new : Shape 64 n
    new = build 63 n (omega arith) fits (omega arith)

    old : Shape 64 m
    old = build 63 m p (omega arith) (omega arith)

    is_old : compute_subtree_hash sha256 hash_at 64 0 m ≡ ok (root sha256 hash_at 0 old)
    is_old = compute_subtree_hash-root sha256 hash_at old 0 m (omega arith)

    is_new : compute_subtree_hash sha256 hash_at 64 0 n ≡ ok (root sha256 hash_at 0 new)
    is_new = compute_subtree_hash-root sha256 hash_at new 0 n (omega arith)
