-- ===== src/Batch/SubtreeHash.antt =====
-- The batch's `computeSubtreeHash` on the stored leaves is the tree's.
use native.Mathlib.Nat.{pow-le-pow_right}
use ca_extension_mtc_playgro.Prelude.{
  ℕ, zero, suc, ◌+◌, ◌-◌, ◌*◌, ◌^◌, ◌≤◌, ◌<◌, ◌≡◌, refl, ap, true, false, Bool-cases, inl, inr,
  some, ltb, ◌==◌, arith,
}
use ca_extension_mtc_playgro.Prelude.Pow.{pow_pos, pow_suc}
use ca_extension_mtc_playgro.Prelude.Result.{ok, ◌>>=◌}
use ca_extension_mtc_playgro.Bytes.{Bytes}
use ca_extension_mtc_playgro.Merkle.Shape.{Shape, leaf, node, root}
use ca_extension_mtc_playgro.Log.{double_below, require}
use ca_extension_mtc_playgro.Log.Tables.{Nodes, get_tree_node}
use ca_extension_mtc_playgro.Batch.{compute_subtree_hash}

-- The doubling stops at the power of two that splits the range.
double_below_lem :
    (fuel d i j n : ℕ)
    → i + d ≡ j
    → d < fuel
    → 2 ^ j < n
    → n ≤ 2 ^ j + 2 ^ j
    → double_below fuel (2 ^ i) n ≡ ok (2 ^ j)
unfolding double_below
double_below_lem zero d i j n e lt lo hi = absurd (omega arith)
double_below_lem (suc fuel) zero i j n e lt lo hi =
    rw (double_below, done) (ap (λ (k : ℕ). ok (2 ^ k)) (omega arith))
  where
    same : 2 ^ i ≡ 2 ^ j
    same = ap (λ (k : ℕ). 2 ^ k) (omega arith)

    done : ltb (2 ^ i * 2) n ≡ false
    done = ground (arith, same, hi)
double_below_lem (suc fuel) (suc d) i j n e lt lo hi =
    rw (double_below, more, doubled)
      (double_below_lem fuel d (suc i) j n (omega arith) (omega arith) lo hi)
  where
    doubled : 2 ^ i * 2 ≡ 2 ^ suc i
    doubled = omega (arith, pow_suc i)

    more : ltb (2 ^ i * 2) n ≡ true
    more = ground (
      arith,
      doubled,
      lo,
      pow-le-pow_right {n = 2} (omega arith) {i = suc i} {j = j} (omega arith),
    )

low_power : (j n : ℕ) → 2 ^ j < n → n ≤ 2 ^ 63 → j < 64
low_power j n lo small = elim (Bool-cases (ltb j 64)) [
  | inl low ↦ ground arith
  | inr high ↦ absurd (
      omega
        (arith, pow-le-pow_right {n = 2} (omega arith) {i = 64} {j = j} (ground arith), lo, small))
]

module _ (sha256 : Bytes → Bytes) (hash_at : ℕ → Bytes) (nodes : Nodes) (size : ℕ) where
  pub compute_subtree_hash-root :
      ((i : ℕ) → i < size → nodes 0 i ≡ some (hash_at i))
      → {fuel n : ℕ} (t : Shape fuel n) (start end : ℕ) → start + n ≡ end
      → end ≤ size
      → n ≤ 2 ^ 63
      → compute_subtree_hash sha256 nodes fuel start end ≡ ok (root sha256 hash_at start t)
  unfolding compute_subtree_hash root get_tree_node require
  compute_subtree_hash-root leaves (leaf e) start end he fits small =
      let d : end - start ≡ 1 = omega arith in
      rw (compute_subtree_hash, d, leaves start (omega arith)) refl
  compute_subtree_hash-root leaves {n = n} (node j e lo hi left right) start end he fits small =
      rw
        (
          compute_subtree_hash,
          d,
          more,
          whole,
          double_below_lem 64 j 0 j n (omega arith) (low_power j n lo small) lo hi,
          ◌>>=◌,
          compute_subtree_hash-root leaves left start (start + 2 ^ j) refl (omega arith)
              (omega arith),
          compute_subtree_hash-root leaves right (start + 2 ^ j) end (omega arith) fits
              (omega arith),
        )
        refl
    where
      d : end - start ≡ suc (n - 1)
      d = omega (arith, pow_pos j)

      whole : end - start ≡ n
      whole = omega arith

      more : (n - 1 == 0) ≡ false
      more = ground (arith, lo, pow_pos j)
