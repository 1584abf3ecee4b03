-- ===== src/Merkle/Consistency/Prefix.antt =====
-- The tree over the first entries of a log, seen from the tree over all of them.
use ca_extension_mtc_playgro.Prelude.{
  ℕ, ◌+◌, ◌-◌, ◌^◌, ◌≤◌, ◌<◌, ◌≡◌, refl, ap, ◌∙◌, inl, inr, true, false, leb, ◌==◌, arith,
  if◌then◌else◌, Bool-cases,
}
use mathlib.Core.Path.{ap₂}
use ca_extension_mtc_playgro.Prelude.Pow.{pow_pos, pow_suc}
use ca_extension_mtc_playgro.Prelude.Result.{ok}
use ca_extension_mtc_playgro.Bytes.{Bytes}
use ca_extension_mtc_playgro.Merkle.Hash.{split_point, interior_hash}
use ca_extension_mtc_playgro.Merkle.Shape.{Shape, leaf, node, root, pow_lt_inv}

-- A number lies between one power of two and the next in one way.
pow_eq :
    (j i : ℕ) {n : ℕ}
    → 2 ^ j < n
    → n ≤ 2 ^ j + 2 ^ j
    → 2 ^ i < n
    → n ≤ 2 ^ i + 2 ^ i
    → 2 ^ j ≡ 2 ^ i
pow_eq j i a b c d = omega (
  arith,
  pow_suc i,
  pow_suc j,
  pow_lt_inv j i (omega (arith, pow_suc i)),
  pow_lt_inv i j (omega (arith, pow_suc j)),
)

module _ (sha256 : Bytes → Bytes) (hash_at : ℕ → Bytes) where
  -- Two shapes over one range have one root, whatever their depths allow.
  pub root_unique :
      {f g n m : ℕ} (t : Shape f n) (u : Shape g m) (a b : ℕ)
      → n ≡ m
      → a ≡ b
      → root sha256 hash_at a t ≡ root sha256 hash_at b u
  unfolding root
  root_unique (leaf e) (leaf e') a b h s = ap hash_at s
  root_unique (leaf e) (node i e' lo' hi' l' r') a b h s = absurd (omega (arith, pow_pos i))
  root_unique (node j e lo hi l r) (leaf e') a b h s = absurd (omega (arith, pow_pos j))
  root_unique (node j e lo hi l r) (node i e' lo' hi' l' r') a b h s =
      ap₂ (interior_hash sha256) (root_unique l l' a b same s)
        (root_unique r r' (a + 2 ^ j) (b + 2 ^ i) (omega (arith, same)) (omega (arith, same)))
    where
      same : 2 ^ j ≡ 2 ^ i
      same = pow_eq j i lo hi (omega arith) (omega arith)

  -- The hash of the first `m` leaves of a shape, as `SUBPROOF` takes them apart.
  unfoldable pub prefix_root : {fuel n : ℕ} → ℕ → ℕ → Shape fuel n → Bytes
  prefix_root m start (leaf e) = hash_at start
  prefix_root {n = n} m start (node j e lo hi left right) =
      let whole =
        interior_hash sha256 (root sha256 hash_at start left)
          (root sha256 hash_at (start + 2 ^ j) right) in
      let inner = prefix_root m start left in
      let across =
        interior_hash sha256 (root sha256 hash_at start left)
          (prefix_root (m - 2 ^ j) (start + 2 ^ j) right) in
      if m == n then whole else if leb m (2 ^ j) then inner else across

  -- It is the root of the tree over those leaves alone.
  pub prefix_root-root :
      {f g n k : ℕ} (t : Shape f n) (u : Shape g k) (m start : ℕ)
      → m ≡ k
      → 0 < m
      → m ≤ n
      → prefix_root m start t ≡ root sha256 hash_at start u
  unfolding prefix_root root
  prefix_root-root (leaf {fuel = f} e) u m start h p q =
      root_unique (leaf {fuel = f} e) u start start (omega arith) refl
  prefix_root-root {n = n} (node j e lo hi left right) (leaf {fuel = g} e') m start h p q =
      rw (some, inside)
        (prefix_root-root left (leaf {fuel = g} e') m start h p (omega (arith, pow_pos j)))
    where
      some : (m == n) ≡ false
      some = ground (arith, pow_pos j)

      inside : leb m (2 ^ j) ≡ true
      inside = ground (arith, pow_pos j)
  prefix_root-root {n = n} (node j e lo hi left right) (node i e' lo' hi' l' r') m start h p q =
      elim (Bool-cases (m == n)) [
        | inl all ↦ rw all (
            root_unique (node j e lo hi left right) (node i e' lo' hi' l' r') start start
              (ground arith) refl)
        | inr some ↦ elim (Bool-cases (leb m (2 ^ j))) [
          | inl inside ↦
              rw (some, inside)
                (prefix_root-root left (node i e' lo' hi' l' r') m start h p (ground arith))
          | inr beyond ↦
              let same : 2 ^ j ≡ 2 ^ i =
                pow_eq j i {n = m} (ground arith) (omega arith) (omega arith) (omega arith) in
              rw (some, beyond)
                (ap₂ (interior_hash sha256) (root_unique left l' start start same refl) (
                  prefix_root-root right r' (m - 2 ^ j) (start + 2 ^ j) (omega (arith, same))
                    (ground arith) (omega arith)
                  ∙ root_unique r' r' (start + 2 ^ j) (start + 2 ^ i) refl (omega (arith, same))))
        ]
      ]

  pub prefix_root_all :
      {fuel n : ℕ} (t : Shape fuel n) (m start : ℕ)
      → (m == n) ≡ true
      → prefix_root m start t ≡ root sha256 hash_at start t
  unfolding prefix_root root
  prefix_root_all (leaf e) m start all = refl
  prefix_root_all (node j e lo hi left right) m start all = rw all

  module _ {fuel n : ℕ} (j : ℕ) (e : split_point n ≡ ok (2 ^ j)) (lo : 2 ^ j < n)
      (hi : n ≤ 2 ^ j + 2 ^ j) (left : Shape fuel (2 ^ j)) (right : Shape fuel (n - 2 ^ j))
      (m start : ℕ) (part : (m == n) ≡ false) where
    pub prefix_root_inside :
        leb m (2 ^ j) ≡ true
        → prefix_root m start (node {n = n} j e lo hi left right) ≡ prefix_root m start left
    unfolding prefix_root
    prefix_root_inside inside = rw (part, inside)

    pub prefix_root_beyond :
        leb m (2 ^ j) ≡ false
        → prefix_root m start (node {n = n} j e lo hi left right)
          ≡ interior_hash sha256
              (root sha256 hash_at start left)
              (prefix_root (m - 2 ^ j) (start + 2 ^ j) right)
    unfolding prefix_root
    prefix_root_beyond beyond = rw (part, beyond)
