-- ===== src/Log/Ragged.antt =====
-- The hash that belongs to a node of a tree of any size: a node whose right child is past the end
-- takes its left child's hash.
use ca_extension_mtc_playgro.Prelude.{
  ℕ, zero, suc, ◌+◌, ◌*◌, ◌^◌, ◌≤◌, ◌<◌, ◌≡◌, refl, ap, ◌∙◌, sym, true, false, Bool-cases, inl, inr,
  Option, none, some, ltb, leb, if◌then◌else◌, arith,
}
use mathlib.Core.Path.{ap₂}
use ca_extension_mtc_playgro.Prelude.Pow.{pow_pos, pow_suc}
use ca_extension_mtc_playgro.Bytes.{Bytes}
use ca_extension_mtc_playgro.Merkle.Hash.{interior_hash}
use ca_extension_mtc_playgro.Merkle.Shape.{Shape, leaf, node, root, pow_lt_inv}
use ca_extension_mtc_playgro.Merkle.Nodes.Perfect.{perfect, root-perfect}

module _ (sha256 : Bytes → Bytes) (hash_at : ℕ → Bytes) where
  unfoldable pub ragged : ℕ → ℕ → ℕ → Bytes
  ragged size zero i = hash_at i
  ragged size (suc l) i =
      if ltb ((i * 2 + 1) * 2 ^ l) size
      then interior_hash sha256 (ragged size l (i * 2)) (ragged size l (i * 2 + 1))
      else ragged size l (i * 2)

  -- What the table of nodes holds for a tree of that size.
  unfoldable pub expected : ℕ → ℕ → ℕ → Option Bytes
  expected size l i = if ltb (i * 2 ^ l) size then some (ragged size l i) else none

  -- A node whose leaves are all there.
  pub ragged-perfect :
      (size l i : ℕ) → (i + 1) * 2 ^ l ≤ size → ragged size l i ≡ perfect sha256 hash_at l i
  unfolding ragged perfect
  ragged-perfect size zero i h = refl
  ragged-perfect size (suc l) i h = rw (there) (
      ap₂ (interior_hash sha256)
        (ragged-perfect size l (i * 2) (omega (arith, wide, pow_pos l))
          ∙ ap (perfect sha256 hash_at l) (omega arith))
        (ragged-perfect size l (i * 2 + 1) (omega (arith, wide))
          ∙ ap (perfect sha256 hash_at l) (omega arith)))
    where
      wide : (i + 1) * (2 ^ l + 2 ^ l) ≤ size
      wide = rw (pow_suc l) at h

      there : ltb ((i * 2 + 1) * 2 ^ l) size ≡ true
      there = ground (arith, wide, pow_pos l)

  scaled : (l i : ℕ) → i * 2 ^ suc l ≡ i * (2 ^ l + 2 ^ l)
  scaled l i = ap (λ (t : ℕ). i * t) (pow_suc l)

  right_missing :
      (l i start size n : ℕ)
      → start ≡ i * (2 ^ l + 2 ^ l)
      → start + n ≡ size
      → n ≤ 2 ^ l
      → ltb ((i * 2 + 1) * 2 ^ l) size ≡ false
  right_missing l i start size n hs hn le = ground arith

  right_there :
      (l i start size n : ℕ)
      → start ≡ i * (2 ^ l + 2 ^ l)
      → start + n ≡ size
      → 2 ^ l < n
      → ltb ((i * 2 + 1) * 2 ^ l) size ≡ true
  right_there l i start size n hs hn lt = ground arith

  same_power :
      (j l n : ℕ) → 2 ^ j < n → n ≤ 2 ^ j + 2 ^ j → 2 ^ l < n → n ≤ 2 ^ suc l → 2 ^ j ≡ 2 ^ l
  same_power j l n lo hi lo' hi' =
      omega (arith, pow_lt_inv j l (omega arith), pow_lt_inv l j (omega (arith, pow_suc j)))

  ltb_no : (a b : ℕ) → leb a b ≡ false → b < a
  ltb_no a b h = ground arith

  ragged-leaf :
      (l i start size : ℕ) → start ≡ i * 2 ^ l → start + 1 ≡ size → ragged size l i ≡ hash_at start
  unfolding ragged
  ragged-leaf zero i start size hs hn = ap hash_at (omega arith)
  ragged-leaf (suc l) i start size hs hn =
      rw (right_missing l i start size 1 (hs ∙ scaled l i) hn (pow_pos l))
        (ragged-leaf l (i * 2) start size (omega (arith, hs, scaled l i)) hn)

  -- The node at the top of a range that ends at the tree's end.
  pub ragged-root :
      {fuel n : ℕ} (t : Shape fuel n) (l i start size : ℕ)
      → start ≡ i * 2 ^ l
      → start + n ≡ size
      → n ≤ 2 ^ l
      → ragged size l i ≡ root sha256 hash_at start t
  unfolding ragged root
  ragged-root (leaf e) l i start size hs hn le =
      ragged-leaf l i start size hs (omega (arith, e, hn))
  ragged-root (node j e lo hi left right) zero i start size hs hn le =
      absurd (omega (arith, pow_pos j))
  ragged-root {n = n} (node j e lo hi left right) (suc l) i start size hs hn le =
      elim (Bool-cases (leb n (2 ^ l))) [
        | inl low ↦ rw (right_missing l i start size n (hs ∙ scaled l i) hn (ground arith)) (
            ragged-root (node j e lo hi left right) l (i * 2) start size
              (omega (arith, hs, scaled l i)) hn (ground arith))
        | inr high ↦
            let same : 2 ^ j ≡ 2 ^ l = same_power j l n lo hi (ltb_no n (2 ^ l) high) le in
            let at : start ≡ i * (2 ^ l + 2 ^ l) = hs ∙ scaled l i in
            rw (right_there l i start size n at hn (ltb_no n (2 ^ l) high)) (
              ap₂ (interior_hash sha256)
                (ragged-perfect size l (i * 2) (omega (arith, at, hn, lo, same))
                  ∙ sym (root-perfect sha256 hash_at left l start (i * 2) same (omega (arith, at))))
                (ragged-root right l (i * 2 + 1) (start + 2 ^ j) size (omega (arith, at, same))
                  (omega (arith, hn, lo)) (omega (arith, le, same, pow_suc l))))
      ]
