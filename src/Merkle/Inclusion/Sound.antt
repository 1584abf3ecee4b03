-- ===== src/Merkle/Inclusion/Sound.antt =====
-- What a proof that is long enough and leads to the root says of the leaf.
use ca_extension_mtc_playgro.Prelude.{
  ℕ, zero, suc, ◌+◌, ◌-◌, ◌^◌, ◌≤◌, ◌<◌, ◌≡◌, refl, sym, ap, ◌∙◌, List, [], ◌∷◌, ◌⊎◌, inl, inr,
  some, false, All, length, get_elem?, get_or, ltb, leb, ◌==◌, arith, if◌then◌else◌, Bool-cases,
}
use ca_extension_mtc_playgro.Prelude.Pow.{pow_pos}
use ca_extension_mtc_playgro.Prelude.Int.{pos}
use ca_extension_mtc_playgro.Prelude.Result.{ok, ◌>>=◌}
use ca_extension_mtc_playgro.Bytes.{Bytes}
use ca_extension_mtc_playgro.Merkle.Hash.{max_depth, interior_hash, subtree_hash}
use ca_extension_mtc_playgro.Merkle.Collision.{Collision, Is32, interior_hash_inj}
use ca_extension_mtc_playgro.Merkle.Shape.{
  Shape, leaf, node, root, root-Is32, build, compute_subtree_hash-root,
}
use ca_extension_mtc_playgro.Merkle.Inclusion.{
  path_len, join_left, join_right, root_from_proof, root_from_inclusion_proof,
}
use ca_extension_mtc_playgro.Merkle.Inclusion.Complete.{steps, path_len-steps}

get_elem?-some : (xs : List Bytes) (i : ℕ) → i < length xs → get_elem? xs i ≡ some (get_or xs i [])
get_elem?-some [] i h = elim h [ ]
get_elem?-some (x ∷ xs) zero h = refl
get_elem?-some (x ∷ xs) (suc i) h = get_elem?-some xs i (omega arith)

get_or-Is32 : (xs : List Bytes) (i : ℕ) → All Is32 xs → i < length xs → Is32 (get_or xs i [])
get_or-Is32 [] i a h = elim h [ ]
get_or-Is32 (x ∷ xs) zero a h = a.0
get_or-Is32 (x ∷ xs) (suc i) a h = get_or-Is32 xs i a.1 (omega arith)

module _ (sha256 : Bytes → Bytes) where
  -- The hash that a proof leads to from the leaf hash `x` at `rel`.
  climb : {fuel n : ℕ} → ℕ → Bytes → List Bytes → Shape fuel n → Bytes
  climb rel x proof (leaf e) = x
  climb rel x proof (node j e lo hi left right) =
      let l = interior_hash sha256 (climb rel x proof left) (get_or proof (steps rel left) []) in
      let r =
        interior_hash sha256 (get_or proof (steps (rel - 2 ^ j) right) [])
          (climb (rel - 2 ^ j) x proof right) in
      if ltb rel (2 ^ j) then l else r

  -- With a sibling for every step, `rootFromProof` is that hash.
  root_from_proof-climb :
      {fuel n : ℕ} (t : Shape fuel n) (rel start end index : ℕ) (x : Bytes) (proof : List Bytes)
      → start + n ≡ end
      → start + rel ≡ index
      → steps rel t ≤ length proof
      → root_from_proof sha256 fuel index start end x proof ≡ ok (climb rel x proof t)
  unfolding root_from_proof climb steps join_left join_right
  root_from_proof-climb (leaf e) rel start end index x proof he hr hl =
      let d : end - start ≡ 1 = omega arith in rw (root_from_proof, d)
  root_from_proof-climb {n = n} (node j e lo hi left right) rel start end index x proof he hr hl =
      elim (Bool-cases (ltb rel (2 ^ j))) [
        | inl low ↦
            let h : suc (steps rel left) ≤ length proof = rw low at hl in
            rw (
              root_from_proof,
              d,
              big,
              longer h,
              d,
              e,
              ◌>>=◌,
              r,
              low,
              root_from_proof-climb left rel start (start + 2 ^ j) index x proof refl hr
                  (omega arith),
              r,
              path_len-steps left rel,
              get_elem?-some proof (steps rel left) h,
            )
        | inr high ↦
            let h : suc (steps (rel - 2 ^ j) right) ≤ length proof = rw high at hl in
            rw (
              root_from_proof,
              d,
              big,
              longer h,
              d,
              e,
              ◌>>=◌,
              r,
              high,
              root_from_proof-climb right (rel - 2 ^ j) (start + 2 ^ j) end index x proof
                  (omega arith) (ground arith) (omega arith),
              r,
              d,
              path_len-steps right (rel - 2 ^ j),
              get_elem?-some proof (steps (rel - 2 ^ j) right) h,
            )
      ]
    where
      d : end - start ≡ n
      d = omega arith

      r : index - start ≡ rel
      r = omega arith

      big : (n == 1) ≡ false
      big = ground (arith, pow_pos j)

      longer : {k : ℕ} → suc k ≤ length proof → leb (length proof) 0 ≡ false
      longer h = ground arith

  module _ (hash_at : ℕ → Bytes) (wide : (x : Bytes) → Is32 (sha256 x))
      (leaves : (i : ℕ) → Is32 (hash_at i)) where
    climb-Is32 :
        {fuel n : ℕ} (t : Shape fuel n) (rel : ℕ) (x : Bytes) (proof : List Bytes)
        → Is32 x
        → Is32 (climb rel x proof t)
    unfolding climb interior_hash
    climb-Is32 (leaf e) rel x proof h = h
    climb-Is32 (node j e lo hi left right) rel x proof h = elim (Bool-cases (ltb rel (2 ^ j))) [
      | inl low ↦ rw low (wide _)
      | inr high ↦ rw high (wide _)
    ]

    climb_sound :
        {fuel n : ℕ} (t : Shape fuel n) (rel start index : ℕ) (x : Bytes) (proof : List Bytes)
        → start + rel ≡ index
        → rel < n
        → Is32 x
        → All Is32 proof
        → steps rel t ≤ length proof
        → climb rel x proof t ≡ root sha256 hash_at start t
        → (x ≡ hash_at index) ⊎ Collision sha256
    unfolding climb root steps
    climb_sound (leaf e) rel start index x proof hr hn hx hp hl eq =
        let z : start ≡ index = omega arith in inl (eq ∙ ap hash_at z)
    climb_sound {n = n} (node j e lo hi left right) rel start index x proof hr hn hx hp hl eq =
        elim (Bool-cases (ltb rel (2 ^ j))) [
          | inl low ↦
              let same =
                climb-Is32 left rel x proof hx
                ∙ sym (root-Is32 sha256 hash_at wide leaves left start) in
              let h : suc (steps rel left) ≤ length proof = rw low at hl in
              elim (interior_hash_inj sha256 _ _ _ _ same (rw low at eq)) [
                | inl p ↦
                    climb_sound left rel start index x proof hr (ground arith) hx hp (omega arith)
                      p.0
                | inr c ↦ inr c
              ]
          | inr high ↦
              let h : suc (steps (rel - 2 ^ j) right) ≤ length proof = rw high at hl in
              let same =
                get_or-Is32 proof (steps (rel - 2 ^ j) right) hp h
                ∙ sym (root-Is32 sha256 hash_at wide leaves left start) in
              elim (interior_hash_inj sha256 _ _ _ _ same (rw high at eq)) [
                | inl p ↦
                    climb_sound right (rel - 2 ^ j) (start + 2 ^ j) index x proof (ground arith)
                      (omega arith) hx hp (omega arith) p.1
                | inr c ↦ inr c
              ]
        ]

-- Take a tree of at most 2 ^ 63 leaf hashes of 32 bytes and an index in it. If
-- `RootFromInclusionProof` takes a leaf hash and a proof, 32 bytes each and with at least as many
-- hashes as `pathLen` counts for that index, to the tree's root, then the leaf hash is the one that
-- the tree has at the index, or two byte strings with one SHA-256 hash are at hand.
pub root_from_inclusion_proof_sound :
    (sha256 : Bytes → Bytes) (hash_at : ℕ → Bytes) (index size needed : ℕ) (x root : Bytes)
    (proof : List Bytes)
    → ((input : Bytes) → Is32 (sha256 input))
    → ((i : ℕ) → Is32 (hash_at i))
    → index < size
    → size ≤ 2 ^ 63
    → Is32 x
    → All Is32 proof
    → path_len max_depth index size ≡ ok needed
    → needed ≤ length proof
    → subtree_hash sha256 hash_at 0 size ≡ ok root
    → root_from_inclusion_proof sha256 (pos index) (pos size) x proof ≡ ok root
    → (x ≡ hash_at index) ⊎ Collision sha256
unfolding subtree_hash root_from_inclusion_proof
root_from_inclusion_proof_sound sha256 hash_at index size needed x r proof wide leaves inside fits
      hx hp len enough is_root leads =
    climb_sound sha256 hash_at wide leaves t index 0 index x proof (omega arith) inside hx hp long (
      cc (
        is_root,
        leads,
        compute_subtree_hash-root sha256 hash_at t 0 size (omega arith),
        root_from_proof-climb sha256 t index 0 size index x proof (omega arith) (omega arith) long,
      ))
  where
    t : Shape 64 size
    t = build 63 size (omega arith) fits (omega arith)

    counted : needed ≡ steps index t
    counted = cc (len, path_len-steps t index)

    long : steps index t ≤ length proof
    long = omega (arith, counted)
