-- ===== src/Merkle/Shape.antt =====
-- The shape of the tree over a range: what every recursion of merkle.go follows.
use native.Mathlib.Nat.{pow-le-pow_right}
use ca_extension_mtc_playgro.Prelude.{
  false, ℕ, zero, suc, ◌+◌, ◌-◌, ◌^◌, ◌≤◌, ◌<◌, ◌≡◌, refl, inl, inr, arith, Bool-cases, ap, ◌==◌,
}
use ca_extension_mtc_playgro.Prelude.Pow.{bit_len_bounds, pow_suc, pow_pos}
use ca_extension_mtc_playgro.Prelude.Result.{ok, ◌>>=◌}
use ca_extension_mtc_playgro.Bytes.{Bytes}
use ca_extension_mtc_playgro.Merkle.Collision.{Is32}
use ca_extension_mtc_playgro.Merkle.Hash.{split_point, interior_hash, compute_subtree_hash}

-- A tree over `n` leaves that a recursion of depth `fuel` goes through: a leaf, or the split of `n` at
-- a power of two.
pub data Shape : ℕ → ℕ → Type 0 where
  leaf : {fuel n : ℕ} → n ≡ 1 → Shape (suc fuel) n
  node :
      {fuel n : ℕ} (j : ℕ)
      → split_point n ≡ ok (2 ^ j)
      → 2 ^ j < n
      → n ≤ 2 ^ j + 2 ^ j
      → Shape fuel (2 ^ j)
      → Shape fuel (n - 2 ^ j)
      → Shape (suc fuel) n

split_point-eq :
    (n : ℕ)
    → 1 < n
    → n ≤ 2 ^ 64
    → (j : ℕ) × (split_point n ≡ ok (2 ^ j)) × (2 ^ j < n) × (n ≤ 2 ^ j + 2 ^ j)
unfolding split_point
split_point-eq n h fits =
    let (j, e, b, lo, hi) = bit_len_bounds 64 (n - 1) (omega arith) (omega arith) in
    (j, ground (arith, ap (λ (t : ℕ). 2 ^ (t - 1)) e), omega arith, omega (arith, pow_suc j))

pub pow_lt_inv : (j h : ℕ) → 2 ^ j < 2 ^ suc h → 2 ^ j ≤ 2 ^ h
pow_lt_inv zero h p = omega (arith, pow_pos h)
pow_lt_inv (suc j) zero p = absurd (omega (arith, pow_suc j, pow_pos j))
pow_lt_inv (suc j) (suc h) p = omega (
  arith,
  pow_suc j,
  pow_suc h,
  pow_suc (suc h),
  pow_lt_inv j h (omega (arith, pow_suc j, pow_suc h, pow_suc (suc h))),
)

fits_64 : (h n : ℕ) → h ≤ 63 → n ≤ 2 ^ h → n ≤ 2 ^ 64
fits_64 h n small fits =
    omega (arith, pow-le-pow_right {n = 2} (omega arith) {i = h} {j = 64} (omega arith))

-- Every range of 1 to 2 ^ h leaves has its shape, at depth h + 1.
pub build : (h n : ℕ) → 0 < n → n ≤ 2 ^ h → h ≤ 63 → Shape (suc h) n
build zero n pos fits small = leaf (omega arith)
build (suc h) n pos fits small = elim (Bool-cases (n == 1)) [
  | inl one ↦ leaf (ground arith)
  | inr more ↦
      let (j, e, lo, hi) = split_point-eq n (ground arith) (fits_64 (suc h) n small fits) in
      node j e lo hi (build h (2 ^ j) (pow_pos j) (pow_lt_inv j h (omega arith)) (omega arith)) (
        build h (n - 2 ^ j) (omega arith) (omega (arith, pow_lt_inv j h (omega arith)))
          (omega arith))
]

module _ (sha256 : Bytes → Bytes) (hash_at : ℕ → Bytes) where
  -- The RFC 9162 hash of a shape whose leaves count from `start`.
  unfoldable pub root : {fuel n : ℕ} → ℕ → Shape fuel n → Bytes
  root start (leaf e) = hash_at start
  root start (node j e lo hi left right) =
      interior_hash sha256 (root start left) (root (start + 2 ^ j) right)

  pub compute_subtree_hash-root :
      {fuel n : ℕ} (t : Shape fuel n) (start end : ℕ)
      → start + n ≡ end
      → compute_subtree_hash sha256 hash_at fuel start end ≡ ok (root start t)
  unfolding compute_subtree_hash root
  compute_subtree_hash-root {n = n} (leaf e) start end h =
      let d : end - start ≡ 1 = omega arith in rw (d, compute_subtree_hash)
  compute_subtree_hash-root {n = n} (node j e lo hi left right) start end h =
      let d : end - start ≡ n = omega arith in
      rw
        (
          compute_subtree_hash,
          d,
          not_one,
          d,
          e,
          ◌>>=◌,
          compute_subtree_hash-root left start (start + 2 ^ j) refl,
          compute_subtree_hash-root right (start + 2 ^ j) end (omega arith),
        )
        refl
    where
      not_one : (n == 1) ≡ false
      not_one = ground (arith, pow_pos j)

module _ (sha256 : Bytes → Bytes) (hash_at : ℕ → Bytes) (wide : (x : Bytes) → Is32 (sha256 x))
    (leaves : (i : ℕ) → Is32 (hash_at i)) where
  pub root-Is32 : {fuel n : ℕ} (t : Shape fuel n) (start : ℕ) → Is32 (root sha256 hash_at start t)
  unfolding root interior_hash
  root-Is32 (leaf e) start = leaves start
  root-Is32 (node j e lo hi left right) start = wide _
