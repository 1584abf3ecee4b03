-- ===== src/Merkle/Nodes/Equal.antt =====
-- With the right hash stored for every complete subtree, the functions on nodes return what the
-- functions on leaves return.
use ca_extension_mtc_playgro.Prelude.{
  ℕ, zero, suc, ◌+◌, ◌-◌, ◌*◌, ◌/◌, ◌^◌, ◌≤◌, ◌<◌, ◌≡◌, refl, sym, ap, ◌∙◌, inl, inr, Bool, true,
  false, ltb, leb, ◌==◌, arith, Bool-cases,
}
use Prim.Native.Nat.{bit_and}
use native.Mathlib.Nat.{mul-div_cancel, zero-add}
use ca_extension_mtc_playgro.Prelude.Int.{ℤ, pos, negsuc}
use ca_extension_mtc_playgro.Prelude.Pow.{pow_pos, pow_suc, trailing_zeros}
use ca_extension_mtc_playgro.Prelude.Bits.{pow-trailing_zeros}
use ca_extension_mtc_playgro.Prelude.Result.{ok, ◌>>=◌}
use ca_extension_mtc_playgro.Bytes.{Bytes}
use ca_extension_mtc_playgro.Merkle.Hash.{subtree_hash}
use ca_extension_mtc_playgro.Merkle.Shape.{
  Shape, leaf, node, root, build, compute_subtree_hash-root, pow_lt_inv,
}
use ca_extension_mtc_playgro.Merkle.Inclusion.{inclusion_proof, inclusion_proof_rec}
use ca_extension_mtc_playgro.Merkle.Consistency.{consistency_proof, consistency_proof_rec}
use ca_extension_mtc_playgro.Merkle.Nodes.{
  is_power, subtree_hash_from_nodes, inclusion_from_nodes_rec, inclusion_proof_from_nodes,
  consistency_from_nodes_rec, consistency_proof_from_nodes, root_from_nodes,
}
use ca_extension_mtc_playgro.Merkle.Nodes.Perfect.{perfect, root-perfect}

-- A range starts at a multiple of a power of two that it does not exceed.
pub data Aligned (start n : ℕ) : Type 0 where
  aligned : (h c : ℕ) → start ≡ c * 2 ^ h → n ≤ 2 ^ h → Aligned start n

-- A multiple of a power of two is one of every smaller power.
unit_below : (j h c start : ℕ) → 2 ^ j ≤ 2 ^ h → start ≡ c * 2 ^ h → (b : ℕ) × (start ≡ b * 2 ^ j)
unit_below j zero c start le e =
    (start, let one : 2 ^ j ≡ 1 = omega (arith, pow_pos j) in rw one (omega arith))
unit_below j (suc h) c start le e = elim (Bool-cases (2 ^ j == 2 ^ suc h)) [
  | inl same ↦ let p : 2 ^ j ≡ 2 ^ suc h = ground arith in (c, e ∙ ap (λ (t : ℕ). c * t) (sym p))
  | inr smaller ↦
      unit_below j h (2 * c) start (pow_lt_inv j h (ground arith)) (omega (arith, scaled))
]
  where
    scaled : c * 2 ^ suc h ≡ c * (2 ^ h + 2 ^ h)
    scaled = ap (λ (t : ℕ). c * t) (pow_suc h)

power-bits : (n : ℕ) → is_power n ≡ true → bit_and n (n - 1) ≡ 0
unfolding is_power
power-bits n h = ground arith

-- Both parts of an aligned range are aligned.
both_parts :
    (n j start : ℕ)
    → Aligned start n
    → 2 ^ j < n
    → n ≤ 2 ^ j + 2 ^ j
    → Aligned start (2 ^ j) × Aligned (start + 2 ^ j) (n - 2 ^ j)
both_parts n j start (aligned h c hs hn) lo hi =
    let (b, hb) = unit_below j h c start (omega arith) hs in
    (aligned j b hb (omega arith), aligned j (b + 1) (omega (arith, hb)) (omega arith))

abbrev pub HasNodes : (Bytes → Bytes) → (ℕ → Bytes) → (ℕ → ℕ → Bytes) → ℕ → Type 0
HasNodes sha256 hash_at node_at size =
    (h c : ℕ) → (c + 1) * 2 ^ h ≤ size → node_at h c ≡ perfect sha256 hash_at h c

module _ (sha256 : Bytes → Bytes) (hash_at : ℕ → Bytes) (node_at : ℕ → ℕ → Bytes) (size : ℕ)
    (stored : HasNodes sha256 hash_at node_at size) where
  complete_subtree :
      {fuel n : ℕ} (t : Shape fuel n) (i start b : ℕ)
      → n ≡ 2 ^ i
      → start ≡ b * 2 ^ i
      → start + n ≤ size
      → node_at i (start / 2 ^ i) ≡ root sha256 hash_at start t
  complete_subtree t i start b hn hs fits =
      let at : start / 2 ^ i ≡ b = rw hs (mul-div_cancel b (pow_pos i)) in
      rw at
        (stored i b (omega (arith, hs, hn)) ∙ sym (root-perfect sha256 hash_at t i start b hn hs))

  pub subtree_hash_from_nodes-root :
      {fuel n : ℕ} (t : Shape fuel n) (start end : ℕ)
      → start + n ≡ end
      → end ≤ size
      → Aligned start n
      → n ≤ 2 ^ 63
      → subtree_hash_from_nodes sha256 node_at fuel start end 0 ≡ ok (root sha256 hash_at start t)
  unfolding subtree_hash_from_nodes root perfect
  subtree_hash_from_nodes-root {n = n} (leaf e) start end he fits al small =
      let d : end - start ≡ 1 = omega arith in
      rw (subtree_hash_from_nodes, d) (ap ok (stored 0 start (omega arith)))
  subtree_hash_from_nodes-root {n = n} (node j e lo hi left right) start end he fits
        (aligned h c hs hn) small =
      elim (Bool-cases (is_power n)) [
        | inl power ↦
            let i = trailing_zeros 64 n in
            let whole : n ≡ 2 ^ i =
              pow-trailing_zeros 64 n (omega arith) (omega arith) (power-bits n power) in
            let (b, hb) = unit_below i h c start (omega (arith, whole)) hs in
            rw (subtree_hash_from_nodes, d, big, d, power, d, zero-add)
              (ap ok
                (complete_subtree (node j e lo hi left right) i start b whole hb (omega arith)))
        | inr partial ↦
            let (b, hb) = unit_below j h c start (omega arith) hs in
            rw (
              subtree_hash_from_nodes,
              d,
              big,
              d,
              partial,
              d,
              e,
              ◌>>=◌,
              subtree_hash_from_nodes-root left start (start + 2 ^ j) refl (omega arith)
                  (aligned j b hb (omega arith)) (omega arith),
              subtree_hash_from_nodes-root right (start + 2 ^ j) end (omega arith) fits
                  (aligned j (b + 1) (omega (arith, hb)) (omega arith)) (omega arith),
            )
      ]
    where
      d : end - start ≡ n
      d = omega arith

      big : (n == 1) ≡ false
      big = ground (arith, pow_pos j)

  -- The recursions on nodes and on leaves go the same way.
  inclusion_from_nodes_rec-eq :
      {fuel n : ℕ} (t : Shape fuel n) (index start end : ℕ)
      → start + n ≡ end
      → end ≤ size
      → Aligned start n
      → n ≤ 2 ^ 63
      → inclusion_from_nodes_rec sha256 node_at fuel index start end 0
        ≡ inclusion_proof_rec sha256 hash_at fuel index start end
  unfolding inclusion_from_nodes_rec inclusion_proof_rec
  inclusion_from_nodes_rec-eq (leaf e) index start end he fits al small =
      let d : end - start ≡ 1 = omega arith in rw (inclusion_from_nodes_rec, inclusion_proof_rec, d)
  inclusion_from_nodes_rec-eq {n = n} (node j e lo hi left right) index start end he fits al small =
      let (low_part, high_part) = both_parts n j start al lo hi in
      elim (Bool-cases (ltb (index - start) (2 ^ j))) [
        | inl low ↦ rw (
          inclusion_from_nodes_rec,
          inclusion_proof_rec,
          d,
          big,
          d,
          e,
          ◌>>=◌,
          low,
          inclusion_from_nodes_rec-eq left index start (start + 2 ^ j) refl (omega arith) low_part
              (omega arith),
          subtree_hash_from_nodes-root right (start + 2 ^ j) end (omega arith) fits high_part
              (omega arith),
          compute_subtree_hash-root sha256 hash_at right (start + 2 ^ j) end (omega arith),
        )
        | inr high ↦ rw (
          inclusion_from_nodes_rec,
          inclusion_proof_rec,
          d,
          big,
          d,
          e,
          ◌>>=◌,
          high,
          inclusion_from_nodes_rec-eq right index (start + 2 ^ j) end (omega arith) fits high_part
              (omega arith),
          subtree_hash_from_nodes-root left start (start + 2 ^ j) refl (omega arith) low_part
              (omega arith),
          compute_subtree_hash-root sha256 hash_at left start (start + 2 ^ j) refl,
        )
      ]
    where
      d : end - start ≡ n
      d = omega arith

      big : (n == 1) ≡ false
      big = ground (arith, pow_pos j)

  -- At a range that the old tree covers whole.
  consistency_from_nodes_all :
      {fuel n : ℕ} (t : Shape (suc fuel) n) (m start : ℕ) (open_right : Bool)
      → (m == n) ≡ true
      → start + n ≤ size
      → Aligned start n
      → n ≤ 2 ^ 63
      → consistency_from_nodes_rec sha256 node_at (suc fuel) m n start 0 open_right
        ≡ consistency_proof_rec sha256 hash_at (suc fuel) m n start open_right
  unfolding consistency_from_nodes_rec consistency_proof_rec
  consistency_from_nodes_all t m start true all fits al small =
      rw (consistency_from_nodes_rec, consistency_proof_rec, all)
  consistency_from_nodes_all {n = n} t m start false all fits al small = rw (
    consistency_from_nodes_rec,
    consistency_proof_rec,
    all,
    subtree_hash_from_nodes-root t start (start + n) refl fits al small,
    compute_subtree_hash-root sha256 hash_at t start (start + n) refl,
  )

  consistency_from_nodes_rec-eq :
      {fuel n : ℕ} (t : Shape fuel n) (m start : ℕ) (open_right : Bool)
      → 0 < m
      → m ≤ n
      → start + n ≤ size
      → Aligned start n
      → n ≤ 2 ^ 63
      → consistency_from_nodes_rec sha256 node_at fuel m n start 0 open_right
        ≡ consistency_proof_rec sha256 hash_at fuel m n start open_right
  unfolding consistency_from_nodes_rec consistency_proof_rec
  consistency_from_nodes_rec-eq (leaf {fuel = f} e) m start open_right p q fits al small =
      consistency_from_nodes_all (leaf {fuel = f} e) m start open_right (ground arith) fits al small
  consistency_from_nodes_rec-eq {n = n} (node j e lo hi left right) m start open_right p q fits al
        small =
      let (low_part, high_part) = both_parts n j start al lo hi in
      elim (Bool-cases (m == n)) [
        | inl all ↦
            consistency_from_nodes_all (node j e lo hi left right) m start open_right all fits al
              small
        | inr part ↦ elim (Bool-cases (leb m (2 ^ j))) [
          | inl inside ↦ rw (
            consistency_from_nodes_rec,
            consistency_proof_rec,
            part,
            e,
            ◌>>=◌,
            inside,
            consistency_from_nodes_rec-eq left m start open_right p (ground arith) (omega arith)
                low_part (omega arith),
            subtree_hash_from_nodes-root right (start + 2 ^ j) (start + n) (omega arith) fits
                high_part (omega arith),
            compute_subtree_hash-root sha256 hash_at right (start + 2 ^ j) (start + n)
                (omega arith),
          )
          | inr beyond ↦ rw (
            consistency_from_nodes_rec,
            consistency_proof_rec,
            part,
            e,
            ◌>>=◌,
            beyond,
            consistency_from_nodes_rec-eq right (m - 2 ^ j) (start + 2 ^ j) false (ground arith)
                (omega arith) (omega arith) high_part (omega arith),
            subtree_hash_from_nodes-root left start (start + 2 ^ j) refl (omega arith) low_part
                (omega arith),
            compute_subtree_hash-root sha256 hash_at left start (start + 2 ^ j) refl,
          )
        ]
      ]

  from_zero : (n : ℕ) → n ≤ 2 ^ 63 → Aligned 0 n
  from_zero n small = aligned 63 0 (omega arith) small

  -- With the hash of every complete subtree of the first `size` leaves stored, `RootFromNodes` is the
  -- Merkle hash of the first `n` leaves, for every n from 1 to `size`, where `size` is at most 2 ^ 63.
  pub root_from_nodes-eq_subtree_hash :
      (n : ℕ)
      → 0 < n
      → n ≤ size
      → size ≤ 2 ^ 63
      → root_from_nodes sha256 node_at (pos n) ≡ subtree_hash sha256 hash_at 0 n
  unfolding root_from_nodes subtree_hash
  root_from_nodes-eq_subtree_hash n p q small =
      let t = build 63 n p (omega arith) (omega arith) in
      rw (
        nonempty,
        subtree_hash_from_nodes-root t 0 n (omega arith) q (from_zero n (omega arith))
            (omega arith),
        compute_subtree_hash-root sha256 hash_at t 0 n (omega arith),
      )
    where
      nonempty : leb (n + 0) 0 ≡ false
      nonempty = ground arith

  -- With the hash of every complete subtree of the first `size` leaves stored,
  -- `InclusionProofFromNodes` returns what `InclusionProof` returns, errors included, for every index
  -- and every tree size up to `size`, where `size` is at most 2 ^ 63.
  pub inclusion_proof_from_nodes-eq_inclusion_proof :
      (index : ℤ) (n : ℕ)
      → n ≤ size
      → size ≤ 2 ^ 63
      → inclusion_proof_from_nodes sha256 node_at index (pos n)
        ≡ inclusion_proof sha256 hash_at index (pos n)
  unfolding inclusion_proof_from_nodes inclusion_proof
  inclusion_proof_from_nodes-eq_inclusion_proof (negsuc i) n q small = ground arith
  inclusion_proof_from_nodes-eq_inclusion_proof (pos i) zero q small = ground arith
  inclusion_proof_from_nodes-eq_inclusion_proof (pos i) (suc n) q small = rw (
      inclusion_from_nodes_rec-eq (build 63 (suc n) (omega arith) (omega arith) (omega arith)) i 0
        (suc n) (omega arith) q (from_zero (suc n) (omega arith)) (omega arith))

  -- With the hash of every complete subtree of the first `size` leaves stored,
  -- `ConsistencyProofFromNodes` returns what `ConsistencyProof` returns, errors included, for every
  -- old size and every new size up to `size`, where `size` is at most 2 ^ 63.
  pub consistency_proof_from_nodes-eq_consistency_proof :
      (old_size : ℤ) (n : ℕ)
      → n ≤ size
      → size ≤ 2 ^ 63
      → consistency_proof_from_nodes sha256 node_at old_size (pos n)
        ≡ consistency_proof sha256 hash_at old_size (pos n)
  unfolding consistency_proof_from_nodes consistency_proof
  consistency_proof_from_nodes-eq_consistency_proof (negsuc i) n q small = ground arith
  consistency_proof_from_nodes-eq_consistency_proof (pos zero) n q small = ground arith
  consistency_proof_from_nodes-eq_consistency_proof (pos (suc m)) n q small =
      elim (Bool-cases (ltb (n + 0) (suc m + 0))) [
        | inl less ↦ rw (positive, less)
        | inr enough ↦ rw (
          enough,
          consistency_from_nodes_rec-eq (build 63 n (ground arith) (omega arith) (omega arith))
              (suc m) 0 true (omega arith) (ground arith) (omega arith) (from_zero n (omega arith))
              (omega arith),
        )
      ]
    where
      positive : ltb (suc m + 0) 0 ≡ false
      positive = ground arith
