-- ===== src/Merkle/Inclusion/Walk.antt =====
-- `VerifyInclusion`: it walks up by the bits of the index alone.
use mathlib.Core.Path.{ap₂}
use ca_extension_mtc_playgro.Prelude.{
  ℕ, zero, suc, ◌+◌, ◌-◌, ◌*◌, ◌/◌, ◌%◌, ◌^◌, ◌≤◌, ◌<◌, ◌≡◌, refl, sym, ap, ◌∙◌, List, [], ◌∷◌,
  ◌++◌, ◌⊎◌, inl, inr, true, false, ◌||◌, length, length-append, ltb, leb, ◌==◌, arith,
  if◌then◌else◌, Bool-cases,
}
use ca_extension_mtc_playgro.Prelude.Pow.{pow_pos, pow_suc, pow_mono}
use ca_extension_mtc_playgro.Prelude.Int.{pos}
use ca_extension_mtc_playgro.Prelude.Result.{ok, ok_inj}
use ca_extension_mtc_playgro.Bytes.{Bytes, bytes_eq→eq, bytes_eq_refl}
use ca_extension_mtc_playgro.Merkle.Hash.{interior_hash, subtree_hash}
use ca_extension_mtc_playgro.Merkle.Collision.{Collision, Is32, interior_hash_inj}
use ca_extension_mtc_playgro.Merkle.Shape.{
  Shape, leaf, node, root, root-Is32, build, compute_subtree_hash-root, pow_lt_inv,
}
use ca_extension_mtc_playgro.Merkle.Consistency.Prefix.{root_unique}
use ca_extension_mtc_playgro.Merkle.Inclusion.{inclusion_proof, walk_up, verify_inclusion}
use ca_extension_mtc_playgro.Merkle.Inclusion.Complete.{path, inclusion_proof_rec-path}

length-snoc :
    {i : ℕ} (xs : List Bytes) (y : Bytes) → length xs ≡ i → length (xs ++ (y ∷ [])) ≡ suc i
length-snoc xs y h = omega (arith, length-append xs (y ∷ []))

module _ (sha256 : Bytes → Bytes) where
  one_step : ℕ → Bytes → Bytes → Bytes
  one_step index hash sibling =
      if index % 2 == 0
      then interior_hash sha256 hash sibling
      else interior_hash sha256 sibling hash

  -- After `i` siblings the walk looks at bit `i` of the index.
  walk_up-snoc :
      (i index q r : ℕ) (x s : Bytes) (proof : List Bytes)
      → length proof ≡ i
      → index ≡ q * 2 ^ i + r
      → r < 2 ^ i
      → walk_up sha256 index x (proof ++ (s ∷ [])) ≡ one_step q (walk_up sha256 r x proof) s
  unfolding walk_up one_step
  walk_up-snoc zero index q r x s [] len e lt = let same : index ≡ q = omega arith in rw same
  walk_up-snoc zero index q r x s (p ∷ ps) len e lt = absurd (omega arith)
  walk_up-snoc (suc i) index q r x s [] len e lt = absurd (omega arith)
  walk_up-snoc (suc i) index q r x s (p ∷ ps) len e lt = rw (
    walk_up,
    bit,
    walk_up-snoc i (index / 2) q (r / 2) _ s ps (omega arith) half (omega (arith, pow_suc i)),
  )
    where
      scaled : q * 2 ^ suc i ≡ q * (2 ^ i + 2 ^ i)
      scaled = ap (λ (t : ℕ). q * t) (pow_suc i)

      bit : index % 2 ≡ r % 2
      bit = omega (arith, scaled)

      half : index / 2 ≡ q * 2 ^ i + r / 2
      half = omega (arith, scaled)

  module _ (hash_at : ℕ → Bytes) where
    -- In a tree of 2 ^ i leaves the path has i steps, and the walk ends at the root.
    walk_up-path :
        {fuel n : ℕ} (t : Shape fuel n) (i rel start index : ℕ)
        → n ≡ 2 ^ i
        → rel < n
        → start + rel ≡ index
        → (length (path sha256 hash_at rel start t) ≡ i)
          × (walk_up sha256 rel (hash_at index) (path sha256 hash_at rel start t)
              ≡ root sha256 hash_at start t)
    unfolding path root walk_up one_step
    walk_up-path (leaf e) zero rel start index hn lt hi = (refl, ap hash_at (omega arith))
    walk_up-path (leaf e) (suc i) rel start index hn lt hi =
        absurd (omega (arith, pow_suc i, pow_pos i))
    walk_up-path (node j e lo hi left right) zero rel start index hn lt hr =
        absurd (omega (arith, pow_pos j))
    walk_up-path (node j e lo hi left right) (suc i) rel start index hn lt hr =
        elim (Bool-cases (ltb rel (2 ^ j))) [
          | inl low ↦
              let (len, ih) = walk_up-path left i rel start index same (ground arith) hr in
              rw low (
                length-snoc _ _ len,
                walk_up-snoc i rel 0 rel (hash_at index) (root sha256 hash_at (start + 2 ^ j) right)
                      _ len (omega arith) (ground (arith, same))
                    ∙ ap
                        (λ (h : Bytes).
                          interior_hash sha256 h (root sha256 hash_at (start + 2 ^ j) right))
                        ih,
              )
          | inr high ↦
              let (len, ih) =
                walk_up-path right i (rel - 2 ^ j) (start + 2 ^ j) index
                  (omega (arith, same, pow_suc i)) (omega arith) (ground arith) in
              rw high (
                length-snoc _ _ len,
                walk_up-snoc i rel 1 (rel - 2 ^ j) (hash_at index) (root sha256 hash_at start left)
                      _ len (ground (arith, same)) (omega (arith, same, pow_suc i))
                    ∙ ap (interior_hash sha256 (root sha256 hash_at start left)) ih,
              )
        ]
      where
        same : 2 ^ j ≡ 2 ^ i
        same = omega (arith, pow_suc i, pow_lt_inv j i (omega (arith, hn, lo)))

-- For every tree of 2 ^ i leaves, i up to 63, and every leaf in it, `VerifyInclusion` accepts the proof
-- that `InclusionProof` returns, for the tree's root.
pub verify_inclusion-inclusion_proof :
    (sha256 : Bytes → Bytes) (hash_at : ℕ → Bytes) (i index : ℕ)
    → i ≤ 63
    → index < 2 ^ i
    → (proof : List Bytes) × (root : Bytes) × (inclusion_proof sha256 hash_at
          (pos index)
          (pos (2 ^ i))
        ≡ ok proof)
      × (subtree_hash sha256 hash_at 0 (2 ^ i) ≡ ok root)
      × (verify_inclusion sha256 (hash_at index) (pos index) (pos (2 ^ i)) proof root ≡ true)
unfolding inclusion_proof subtree_hash verify_inclusion
verify_inclusion-inclusion_proof sha256 hash_at i index small h =
    let t = build 63 (2 ^ i) (pow_pos i) (pow_mono i 63 small) (omega arith) in
    (
      path sha256 hash_at index 0 t,
      root sha256 hash_at 0 t,
      rw (inside, positive)
          (inclusion_proof_rec-path sha256 hash_at t index 0 (2 ^ i) index (omega arith)
            (omega arith)),
      compute_subtree_hash-root sha256 hash_at t 0 (2 ^ i) (omega arith),
      rw (inside, (walk_up-path sha256 hash_at t i index 0 index refl h (omega arith)).1)
          (bytes_eq_refl _),
    )
  where
    inside : (ltb (index + 0) 0 || leb (2 ^ i + 0) (index + 0)) ≡ false
    inside = ground arith

    positive : leb (2 ^ i + 0) 0 ≡ false
    positive = ground (arith, pow_pos i)

module _ (sha256 : Bytes → Bytes) (hash_at : ℕ → Bytes) where
  single :
      {fuel m : ℕ} (t : Shape fuel m) (rel start : ℕ)
      → m ≡ 1
      → (root sha256 hash_at start t ≡ hash_at start) × (path sha256 hash_at rel start t ≡ [])
  unfolding root path
  single (leaf e) rel start h = (refl, refl)
  single (node j e lo hi left right) rel start h = absurd (omega (arith, pow_pos j))

  -- The tree of 2 ^ j + 1 leaves: its last leaf stands alone on the right.
  last_leaf :
      {f g n : ℕ} (t : Shape f n) (j : ℕ) (u : Shape g (2 ^ j))
      → n ≡ 2 ^ j + 1
      → (root sha256 hash_at 0 t ≡ interior_hash sha256 (root sha256 hash_at 0 u) (hash_at (2 ^ j)))
        × (path sha256 hash_at (2 ^ j) 0 t ≡ root sha256 hash_at 0 u ∷ [])
  unfolding root path
  last_leaf (leaf e) j u h = absurd (omega (arith, pow_pos j))
  last_leaf (node i e lo hi left right) j u h =
      let (r, p) = single right (2 ^ j - 2 ^ i) (0 + 2 ^ i) (omega (arith, same)) in
      let l = root_unique sha256 hash_at left u 0 0 same refl in
      (ap₂ (interior_hash sha256) l (r ∙ ap hash_at (omega (arith, same))), rw (right_side, p, l))
    where
      same : 2 ^ i ≡ 2 ^ j
      same = omega (
        arith,
        pow_lt_inv j i (omega (arith, pow_suc i)),
        pow_lt_inv i j (omega (arith, pow_suc j, pow_pos j)),
      )

      right_side : ltb (2 ^ j) (2 ^ i) ≡ false
      right_side = ground (arith, same)

even_pow : (j : ℕ) → 1 ≤ j → 2 ^ j % 2 ≡ 0
even_pow zero h = elim h [ ]
even_pow (suc j) h = omega (arith, pow_suc j)

-- Take a tree of 2 ^ j + 1 leaf hashes of 32 bytes, 1 ≤ j ≤ 62, its root, and the root of its first
-- 2 ^ j leaves. If `VerifyInclusion` accepts the proof that `InclusionProof` returns for the last leaf,
-- then the last leaf hash equals that other root, or two byte strings with one SHA-256 hash are at hand.
pub verify_inclusion_last_leaf :
    (sha256 : Bytes → Bytes) (hash_at : ℕ → Bytes) (j : ℕ) (proof : List Bytes)
    (left_root root : Bytes)
    → ((input : Bytes) → Is32 (sha256 input))
    → ((i : ℕ) → Is32 (hash_at i))
    → 1 ≤ j
    → j ≤ 62
    → subtree_hash sha256 hash_at 0 (2 ^ j) ≡ ok left_root
    → subtree_hash sha256 hash_at 0 (2 ^ j + 1) ≡ ok root
    → inclusion_proof sha256 hash_at (pos (2 ^ j)) (pos (2 ^ j + 1)) ≡ ok proof
    → verify_inclusion sha256 (hash_at (2 ^ j)) (pos (2 ^ j)) (pos (2 ^ j + 1)) proof root ≡ true
    → (hash_at (2 ^ j) ≡ left_root) ⊎ Collision sha256
unfolding inclusion_proof subtree_hash verify_inclusion walk_up
verify_inclusion_last_leaf sha256 hash_at j proof left_root r wide leaves p q is_left is_root made
      accepted =
    elim (interior_hash_inj sha256 x l l x widths swapped) [
      | inl same ↦ inl (same.0 ∙ is_l)
      | inr c ↦ inr c
    ]
  where
    x : Bytes
    x = hash_at (2 ^ j)

    u : Shape 64 (2 ^ j)
    u = build 63 (2 ^ j) (pow_pos j) (pow_mono j 63 (omega arith)) (omega arith)

    t : Shape 64 (2 ^ j + 1)
    t = build 63 (2 ^ j + 1) (omega arith) (omega (arith, pow_mono j 62 q)) (omega arith)

    l : Bytes
    l = root sha256 hash_at 0 u

    is_l : l ≡ left_root
    is_l =
        ok_inj _ _
          (sym (compute_subtree_hash-root sha256 hash_at u 0 (2 ^ j) (omega arith)) ∙ is_left)

    shape :
        (root sha256 hash_at 0 t ≡ interior_hash sha256 l x)
        × (path sha256 hash_at (2 ^ j) 0 t ≡ l ∷ [])
    shape = last_leaf sha256 hash_at t j u refl

    is_r : r ≡ interior_hash sha256 l x
    is_r =
        ok_inj _ _
          (sym is_root ∙ compute_subtree_hash-root sha256 hash_at t 0 (2 ^ j + 1) (omega arith))
        ∙ shape.0

    inside : (ltb (2 ^ j + 0) 0 || leb (2 ^ j + 1 + 0) (2 ^ j + 0)) ≡ false
    inside = ground arith

    positive : leb (2 ^ j + 1 + 0) 0 ≡ false
    positive = ground arith

    is_proof : proof ≡ l ∷ []
    is_proof =
        ok_inj _ _ (
          sym (rw (inside, positive) at made)
          ∙ inclusion_proof_rec-path sha256 hash_at t (2 ^ j) 0 (2 ^ j + 1) (2 ^ j) (omega arith)
              (omega arith))
        ∙ shape.1

    even : (2 ^ j % 2 == 0) ≡ true
    even = ground (arith, even_pow j p)

    swapped : interior_hash sha256 x l ≡ interior_hash sha256 l x
    swapped = bytes_eq→eq _ _ (rw (inside, is_proof, even, is_r) at accepted)

    widths : length x ≡ length l
    widths = leaves (2 ^ j) ∙ sym (root-Is32 sha256 hash_at wide leaves u 0)
