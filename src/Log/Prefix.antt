-- ===== src/Log/Prefix.antt =====
-- A tree, and its root, stay what they are while entries are appended.
use mathlib.Core.Path.{ap₂}
use ca_extension_mtc_playgro.Prelude.{ℕ, ◌+◌, ◌^◌, ◌≤◌, ◌<◌, ◌≡◌, sym, ap, ◌∙◌, arith}
use ca_extension_mtc_playgro.Prelude.Result.{ok}
use ca_extension_mtc_playgro.Bytes.{Bytes}
use ca_extension_mtc_playgro.Merkle.Hash.{interior_hash, subtree_hash}
use ca_extension_mtc_playgro.Merkle.Shape.{
  Shape, leaf, node, build, root, compute_subtree_hash-root,
}

module _ (sha256 : Bytes → Bytes) where
  -- A tree's root depends on its own leaves only.
  root_cong :
      (f g : ℕ → Bytes) {fuel n : ℕ} (t : Shape fuel n) (start : ℕ)
      → ((i : ℕ) → i < start + n → f i ≡ g i)
      → root sha256 f start t ≡ root sha256 g start t
  unfolding root
  root_cong f g (leaf e) start same = same start (omega (arith, e))
  root_cong f g (node j e lo hi left right) start same =
      ap₂ (interior_hash sha256) (root_cong f g left start (λ i lt. same i (omega (arith, lo, lt))))
        (root_cong f g right (start + 2 ^ j) (λ i lt. same i (omega (arith, lo, lt))))

  pub subtree_hash_cong :
      (f g : ℕ → Bytes) (n : ℕ)
      → 0 < n
      → n ≤ 2 ^ 63
      → ((i : ℕ) → i < n → f i ≡ g i)
      → subtree_hash sha256 f 0 n ≡ subtree_hash sha256 g 0 n
  unfolding subtree_hash
  subtree_hash_cong f g n pos fits same =
      let t : Shape 64 n = build 63 n pos fits (omega arith) in
      compute_subtree_hash-root sha256 f t 0 n (omega arith)
      ∙ ap ok (root_cong f g t 0 (λ i lt. same i (omega arith)))
      ∙ sym (compute_subtree_hash-root sha256 g t 0 n (omega arith))
