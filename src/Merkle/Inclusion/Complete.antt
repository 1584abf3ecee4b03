-- ===== src/Merkle/Inclusion/Complete.antt =====
-- An inclusion proof leads from the leaf to the root of its tree.
use ca_extension_mtc_playgro.Prelude.{
  ℕ, suc, ◌+◌, ◌-◌, ◌^◌, ◌≤◌, ◌<◌, ◌≡◌, refl, sym, ap, ◌∙◌, List, [], ◌∷◌, ◌++◌, inl, inr, some,
  true, false, ◌||◌, length, length-append, get_elem?, ltb, leb, ◌==◌, arith, if◌then◌else◌,
  Bool-cases,
}
use mathlib.Core.List.{append_assoc, append-nil}
use mathlib.Core.Path.{subst}
use ca_extension_mtc_playgro.Prelude.Pow.{pow_pos}
use ca_extension_mtc_playgro.Prelude.Int.{pos}
use ca_extension_mtc_playgro.Prelude.Result.{ok, ◌>>=◌}
use ca_extension_mtc_playgro.Bytes.{Bytes}
use ca_extension_mtc_playgro.Merkle.Hash.{subtree_hash}
use ca_extension_mtc_playgro.Merkle.Shape.{
  Shape, leaf, node, root, build, compute_subtree_hash-root,
}
use ca_extension_mtc_playgro.Merkle.Inclusion.{
  path_len, inclusion_proof_rec, inclusion_proof, join_left, join_right, root_from_proof,
  root_from_inclusion_proof,
}

pub get_elem?-middle {ℓ} :
    {A : Type ℓ} (xs ys : List A) (y : A) → get_elem? (xs ++ (y ∷ ys)) (length xs) ≡ some y
get_elem?-middle [] ys y = refl
get_elem?-middle (x ∷ xs) ys y = get_elem?-middle xs ys y

-- The number of steps from the leaf at `rel` up to the root.
unfoldable pub steps : {fuel n : ℕ} → ℕ → Shape fuel n → ℕ
steps rel (leaf e) = 0
steps rel (node j e lo hi left right) =
    if ltb rel (2 ^ j) then suc (steps rel left) else suc (steps (rel - 2 ^ j) right)

pub path_len-steps :
    {fuel n : ℕ} (t : Shape fuel n) (rel : ℕ) → path_len fuel rel n ≡ ok (steps rel t)
unfolding path_len steps
path_len-steps (leaf e) rel = rw (path_len, e)
path_len-steps {n = n} (node j e lo hi left right) rel = elim (Bool-cases (ltb rel (2 ^ j))) [
  | inl low ↦ rw (path_len, big, e, ◌>>=◌, low, path_len-steps left rel) (ap ok (omega arith))
  | inr high ↦
      rw (path_len, big, e, ◌>>=◌, high, path_len-steps right (rel - 2 ^ j)) (ap ok (omega arith))
]
  where
    big : leb n 1 ≡ false
    big = ground (arith, pow_pos j)

module _ (sha256 : Bytes → Bytes) (hash_at : ℕ → Bytes) where
  -- The siblings on the way up from the leaf at `rel` from the start of a shape.
  unfoldable pub path : {fuel n : ℕ} → ℕ → ℕ → Shape fuel n → List Bytes
  path rel start (leaf e) = []
  path rel start (node j e lo hi left right) =
      let l = path rel start left ++ (root sha256 hash_at (start + 2 ^ j) right ∷ []) in
      let r = path (rel - 2 ^ j) (start + 2 ^ j) right ++ (root sha256 hash_at start left ∷ []) in
      if ltb rel (2 ^ j) then l else r

  length-path :
      {fuel n : ℕ} (t : Shape fuel n) (rel start : ℕ) → length (path rel start t) ≡ steps rel t
  unfolding path steps
  length-path (leaf e) rel start = refl
  length-path (node j e lo hi left right) rel start = elim (Bool-cases (ltb rel (2 ^ j))) [
    | inl low ↦ rw (low, length-append, length-path left rel start) (omega arith)
    | inr high ↦
        rw (high, length-append, length-path right (rel - 2 ^ j) (start + 2 ^ j)) (omega arith)
  ]

  path_len-path :
      {fuel n : ℕ} (t : Shape fuel n) (rel start : ℕ)
      → path_len fuel rel n ≡ ok (length (path rel start t))
  path_len-path t rel start = path_len-steps t rel ∙ ap ok (sym (length-path t rel start))

  pub inclusion_proof_rec-path :
      {fuel n : ℕ} (t : Shape fuel n) (rel start end index : ℕ)
      → start + n ≡ end
      → start + rel ≡ index
      → inclusion_proof_rec sha256 hash_at fuel index start end ≡ ok (path rel start t)
  unfolding path inclusion_proof_rec
  inclusion_proof_rec-path (leaf e) rel start end index he hi =
      let d : end - start ≡ 1 = omega arith in rw (inclusion_proof_rec, d)
  inclusion_proof_rec-path {n = n} (node j e lo hi left right) rel start end index he hr =
      elim (Bool-cases (ltb rel (2 ^ j))) [
        | inl low ↦
            rw
              (
                inclusion_proof_rec,
                d,
                big,
                d,
                e,
                ◌>>=◌,
                r,
                low,
                inclusion_proof_rec-path left rel start (start + 2 ^ j) index refl hr,
                compute_subtree_hash-root sha256 hash_at right (start + 2 ^ j) end (omega arith),
              )
              refl
        | inr high ↦
            rw
              (
                inclusion_proof_rec,
                d,
                big,
                d,
                e,
                ◌>>=◌,
                r,
                high,
                inclusion_proof_rec-path right (rel - 2 ^ j) (start + 2 ^ j) end index (omega arith)
                    (ground arith),
                compute_subtree_hash-root sha256 hash_at left start (start + 2 ^ j) refl,
              )
              refl
      ]
    where
      d : end - start ≡ n
      d = omega arith

      r : index - start ≡ rel
      r = omega arith

      big : (n == 1) ≡ false
      big = ground (arith, pow_pos j)

  -- More proof behind the path does not disturb: the recursion finds each sibling by its position.
  root_from_proof-path :
      {fuel n : ℕ} (t : Shape fuel n) (rel start end index : ℕ) (rest : List Bytes)
      → start + n ≡ end
      → start + rel ≡ index
      → rel < n
      → root_from_proof sha256 fuel index start end (hash_at index) (path rel start t ++ rest)
        ≡ ok (root sha256 hash_at start t)
  unfolding path root root_from_proof join_left join_right
  root_from_proof-path (leaf e) rel start end index rest he hr hn =
      let d : end - start ≡ 1 = omega arith in
      let i : index ≡ start = omega arith in rw (root_from_proof, d, i)
  root_from_proof-path {n = n} (node {fuel = fuel} j e lo hi left right) rel start end index rest he
        hr hn =
      elim (Bool-cases (ltb rel (2 ^ j))) [
        | inl low ↦
            subst
              (λ p.
                root_from_proof sha256 (suc fuel) index start end (hash_at index) p
                ≡ ok (root sha256 hash_at start (node j e lo hi left right)))
              (sym (path_low low))
              (rw (
                root_from_proof,
                d,
                big,
                more,
                d,
                e,
                ◌>>=◌,
                r,
                low,
                root_from_proof-path left rel start (start + 2 ^ j) index _ refl hr (ground arith),
                r,
                path_len-path left rel start,
                get_elem?-middle,
              ))
        | inr high ↦
            subst
              (λ p.
                root_from_proof sha256 (suc fuel) index start end (hash_at index) p
                ≡ ok (root sha256 hash_at start (node j e lo hi left right)))
              (sym (path_high high))
              (rw (
                root_from_proof,
                d,
                big,
                more,
                d,
                e,
                ◌>>=◌,
                r,
                high,
                root_from_proof-path right (rel - 2 ^ j) (start + 2 ^ j) end index _ (omega arith)
                    (ground arith) (omega arith),
                r,
                d,
                path_len-path right (rel - 2 ^ j) (start + 2 ^ j),
                get_elem?-middle,
              ))
      ]
    where
      d : end - start ≡ n
      d = omega arith

      r : index - start ≡ rel
      r = omega arith

      big : (n == 1) ≡ false
      big = ground (arith, pow_pos j)

      more : (x : Bytes) (xs ys : List Bytes) → leb (length (xs ++ (x ∷ ys))) 0 ≡ false
      more x xs ys = ground (arith, length-append xs (x ∷ ys))

      path_low :
          ltb rel (2 ^ j) ≡ true
          → path rel start (node j e lo hi left right) ++ rest
            ≡ path rel start left ++ (root sha256 hash_at (start + 2 ^ j) right ∷ rest)
      path_low low = rw (path, low, append_assoc)

      path_high :
          ltb rel (2 ^ j) ≡ false
          → path rel start (node j e lo hi left right) ++ rest
            ≡ path (rel - 2 ^ j) (start + 2 ^ j) right ++ (root sha256 hash_at start left ∷ rest)
      path_high high = rw (path, high, append_assoc)

-- For every tree size up to 2 ^ 63 and every leaf in it, `InclusionProof` returns a proof, the tree has
-- a root, and `RootFromInclusionProof` computes that root from the leaf's hash and the proof.
pub root_from_inclusion_proof-inclusion_proof :
    (sha256 : Bytes → Bytes) (hash_at : ℕ → Bytes) (index size : ℕ)
    → index < size
    → size ≤ 2 ^ 63
    → (proof : List Bytes) × (root : Bytes) × (inclusion_proof sha256 hash_at (pos index) (pos size)
        ≡ ok proof)
      × (subtree_hash sha256 hash_at 0 size ≡ ok root)
      × (root_from_inclusion_proof sha256 (pos index) (pos size) (hash_at index) proof ≡ ok root)
unfolding inclusion_proof root_from_inclusion_proof subtree_hash
root_from_inclusion_proof-inclusion_proof sha256 hash_at index size h fits =
    let t = build 63 size (omega arith) fits (omega arith) in
    (
      path sha256 hash_at index 0 t,
      root sha256 hash_at 0 t,
      rw (inside, positive)
          (inclusion_proof_rec-path sha256 hash_at t index 0 size index (omega arith)
            (omega arith)),
      compute_subtree_hash-root sha256 hash_at t 0 size (omega arith),
      rw (← append-nil (path sha256 hash_at index 0 t)) (
          root_from_proof-path sha256 hash_at t index 0 size index [] (omega arith) (omega arith)
            h),
    )
  where
    inside : (ltb (index + 0) 0 || leb (size + 0) (index + 0)) ≡ false
    inside = ground arith

    positive : leb (size + 0) 0 ≡ false
    positive = ground arith
