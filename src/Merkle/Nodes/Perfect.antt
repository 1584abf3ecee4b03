-- ===== src/Merkle/Nodes/Perfect.antt =====
-- The complete subtrees: `perfect hash_at h c` hashes the leaves from c * 2 ^ h on, 2 ^ h of them.
use mathlib.Core.Path.{ap₂}
use ca_extension_mtc_playgro.Prelude.{ℕ, zero, suc, ◌+◌, ◌*◌, ◌^◌, ◌≡◌, ap, arith}
use ca_extension_mtc_playgro.Prelude.Pow.{pow_pos, pow_suc}
use ca_extension_mtc_playgro.Bytes.{Bytes}
use ca_extension_mtc_playgro.Merkle.Hash.{interior_hash}
use ca_extension_mtc_playgro.Merkle.Shape.{Shape, leaf, node, root, pow_lt_inv}

module _ (sha256 : Bytes → Bytes) (hash_at : ℕ → Bytes) where
  unfoldable pub perfect : ℕ → ℕ → Bytes
  perfect zero c = hash_at c
  perfect (suc h) c = interior_hash sha256 (perfect h (2 * c)) (perfect h (2 * c + 1))

  pub root-perfect :
      {fuel n : ℕ} (t : Shape fuel n) (i start c : ℕ)
      → n ≡ 2 ^ i
      → start ≡ c * 2 ^ i
      → root sha256 hash_at start t ≡ perfect i c
  unfolding root perfect
  root-perfect (leaf e) zero start c hn hs = ap hash_at (omega arith)
  root-perfect (leaf e) (suc i) start c hn hs = absurd (omega (arith, pow_suc i, pow_pos i))
  root-perfect (node j e lo hi left right) zero start c hn hs = absurd (omega (arith, pow_pos j))
  root-perfect (node j e lo hi left right) (suc i) start c hn hs =
      ap₂ (interior_hash sha256)
        (root-perfect left i start (2 * c) same (omega (arith, hs, scaled)))
        (root-perfect right i (start + 2 ^ j) (2 * c + 1) (omega (arith, same, pow_suc i))
          (omega (arith, hs, same, scaled)))
    where
      scaled : c * 2 ^ suc i ≡ c * (2 ^ i + 2 ^ i)
      scaled = ap (λ (t : ℕ). c * t) (pow_suc i)

      same : 2 ^ j ≡ 2 ^ i
      same = omega (arith, pow_suc i, pow_lt_inv j i (omega (arith, hn, lo)))
