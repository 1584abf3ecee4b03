-- ===== src/Merkle/Tiles/Cover.antt =====
-- The tiles of a range are those of its entries, and an aligned subtree's hash is at hand.
use native.Mathlib.Nat.{div-mul-le_self, mod-eq-sub-div-mul}
use mathlib.Core.List.{Mem, mem-cons_self, mem-cons_of_mem}
use mathlib.Core.Path.{subst}
use ca_extension_mtc_playgro.Prelude.{
  ℕ, zero, suc, ◌+◌, ◌-◌, ◌*◌, ◌/◌, ◌%◌, ◌^◌, ◌≤◌, ◌<◌, ◌≡◌, refl, ap, sym, ◌∙◌, ◌∷◌, true, false,
  Bool-cases, inl, inr, ◌⊎◌, ltb, leb, ◌==◌, if◌then◌else◌, arith,
}
use ca_extension_mtc_playgro.Prelude.Int.{pos, negsuc, as_int64, abs}
use ca_extension_mtc_playgro.Prelude.Pow.{bit_len, bit_len_bounds, pow_suc}
use ca_extension_mtc_playgro.Bytes.{Bytes}
use ca_extension_mtc_playgro.Merkle.Hash.{max_depth, subtree_hash}
use ca_extension_mtc_playgro.Merkle.Shape.{build, pow_lt_inv, compute_subtree_hash-root}
use ca_extension_mtc_playgro.Merkle.Nodes.{subtree_hash_from_nodes}
use ca_extension_mtc_playgro.Merkle.Nodes.Equal.{HasNodes, aligned, subtree_hash_from_nodes-root}
use ca_extension_mtc_playgro.Merkle.Tiles.{
  tile_width, tile_for_entry, tiles_from, tiles_for_range, bit_ceil, is_valid_subtree,
}

tiles_from-Mem :
    (rounds t k : ℕ)
    → t ≤ k
    → k < t + rounds
    → Mem (record { level = pos 0; index = k; width = tile_width }) (tiles_from rounds t)
unfolding tiles_from
tiles_from-Mem zero t k lo hi = absurd (omega arith)
tiles_from-Mem (suc rounds) t k lo hi = elim (Bool-cases (k == t)) [
  | inl this ↦
      let at : t ≡ k = ground arith in
      subst
        (λ (m : ℕ).
          Mem (record { level = pos 0; index = k; width = tile_width })
            (record { level = pos 0; index = m; width = tile_width } ∷ tiles_from rounds (suc t)))
        (sym at) mem-cons_self
  | inr later ↦ mem-cons_of_mem _ (tiles_from-Mem rounds (suc t) k (ground arith) (omega arith))
]

-- `TilesForRange` has the tile of every entry of the range.
pub tiles_for_range-tile_for_entry :
    (start end i : ℕ) → start ≤ i → i < end → Mem (tile_for_entry i) (tiles_for_range start end)
unfolding tile_for_entry tiles_for_range
tiles_for_range-tile_for_entry start end i lo hi =
    let nonempty : leb end start ≡ false = ground arith in
    rw nonempty (
      tiles_from-Mem (suc ((end - 1) / 256) - start / 256) (start / 256) (i / 256) (omega arith)
        (omega arith))

as_int64_small : (x : ℕ) → x < 2 ^ 63 → as_int64 (x % 2 ^ 64) ≡ pos x
unfolding as_int64
as_int64_small x lt =
    let same : x % 2 ^ 64 ≡ x = omega (arith, lt) in
    let small : ltb x (2 ^ 63) ≡ true = ground (arith, lt) in rw (same, as_int64, small) refl

abs-as_int64 : (x : ℕ) → x ≤ 2 ^ 63 → abs (as_int64 (x % 2 ^ 64)) ≡ x
unfolding abs as_int64
abs-as_int64 x le = elim (Bool-cases (ltb x (2 ^ 63))) [
  | inl small ↦ ap abs (as_int64_small x (ground (arith, small)))
  | inr large ↦
      let at : x ≡ 2 ^ 63 = ground (arith, le, large) in
      ap (λ (y : ℕ). abs (as_int64 (y % 2 ^ 64))) at ∙ sym at
]

-- The power of two that is shifted to.
shifted :
    (n : ℕ)
    → 1 < n
    → n ≤ 2 ^ 63
    → (j : ℕ) × (bit_len 64 (n - 1) ≡ suc j) × (2 ^ j < n) × (n ≤ 2 ^ suc j) × (2 ^ suc j ≤ 2 ^ 63)
shifted n many fits =
    let (j, e, b, lo, hi) = bit_len_bounds 64 (n - 1) (omega arith) (omega arith) in
    let low : 2 ^ j ≤ 2 ^ 62 = pow_lt_inv j 62 (omega (arith, lo)) in
    (j, e, omega (arith, lo), omega (arith, hi), omega (arith, low, pow_suc j))

-- For n from 1 to 2 ^ 62, `BitCeil` is a power of two, at least n, and less than twice n. From there to
-- the greatest int64 it is -(2 ^ 63).
pub bit_ceil_lem :
    (n : ℕ)
    → 0 < n
    → n < 2 ^ 63
    → ((n ≤ 2 ^ 62) × ((h : ℕ) × (bit_ceil n ≡ pos (2 ^ h)) × (n ≤ 2 ^ h) × (2 ^ h < 2 * n)))
      ⊎ ((2 ^ 62 < n) × (bit_ceil n ≡ negsuc (2 ^ 63 - 1)))
unfolding bit_ceil
bit_ceil_lem n p fits = elim (Bool-cases (leb n 1)) [
  | inl one ↦ inl (ground arith, (0, rw one refl, ground arith, omega arith))
  | inr more ↦
      let (j, e, lo, hi, top) = shifted n (ground arith) (omega arith) in
      elim (Bool-cases (leb n (2 ^ 62))) [
        | inl low ↦
            let below : 2 ^ suc j < 2 ^ 63 = ground (arith, low, lo, pow_suc j) in
            inl (
              ground (arith, low),
              (
                suc j,
                rw (more, e) (as_int64_small (2 ^ suc j) below),
                hi,
                omega (arith, lo, pow_suc j),
              ),
            )
        | inr high ↦
            let above : 2 ^ 62 ≤ 2 ^ j = pow_lt_inv 62 j (ground (arith, high, hi)) in
            let at : 2 ^ suc j ≡ 2 ^ 63 = omega (arith, above, top, pow_suc j) in
            inr (ground (arith, high), rw (more, e, at) (unfold as_int64 in refl))
      ]
]

-- The divisor of `IsValidSubtree` is a power of two that covers the range.
abs-bit_ceil : (n : ℕ) → 0 < n → n ≤ 2 ^ 63 → (h : ℕ) × (abs (bit_ceil n) ≡ 2 ^ h) × (n ≤ 2 ^ h)
unfolding bit_ceil
abs-bit_ceil n p fits = elim (Bool-cases (leb n 1)) [
  | inl one ↦ (0, rw one (unfold abs in refl), ground arith)
  | inr more ↦
      let (j, e, lo, hi, top) = shifted n (ground arith) fits in
      (suc j, rw (more, e) (abs-as_int64 (2 ^ suc j) top), hi)
]

valid_parts :
    (start end p : ℕ)
    → (if leb end start then false else start % p == 0) ≡ true
    → (start < end) × (start % p ≡ 0)
valid_parts start end p h = ground arith

multiple : (n p : ℕ) → n % p ≡ 0 → n ≡ n / p * p
multiple n p h = omega (arith, h, mod-eq-sub-div-mul n p, div-mul-le_self n p)

-- Take the complete subtrees' hashes stored for the first `size` leaves, at most 2 ^ 63. Over a range
-- of them that `IsValidSubtree` accepts, `subtreeHashFromNodes` returns what `SubtreeHash` returns.
pub subtree_hash_from_nodes-is_valid_subtree :
    (sha256 : Bytes → Bytes) (hash_at : ℕ → Bytes) (node_at : ℕ → ℕ → Bytes) (size start end : ℕ)
    → HasNodes sha256 hash_at node_at size
    → end ≤ size
    → size ≤ 2 ^ 63
    → is_valid_subtree start end ≡ true
    → subtree_hash_from_nodes sha256 node_at max_depth start end 0
      ≡ subtree_hash sha256 hash_at start end
unfolding is_valid_subtree subtree_hash
subtree_hash_from_nodes-is_valid_subtree sha256 hash_at node_at size start end stored fits small
      valid =
    let (lt, even) = valid_parts start end (abs (bit_ceil (end - start))) valid in
    let (h, is_power, covers) = abs-bit_ceil (end - start) (omega arith) (omega arith) in
    let t = build 63 (end - start) (omega arith) (omega arith) (omega arith) in
    subtree_hash_from_nodes-root sha256 hash_at node_at size stored t start end (omega arith) fits
      (aligned h (start / 2 ^ h)
        (multiple start (2 ^ h) (ap (λ (p : ℕ). start % p) (sym is_power) ∙ even)) covers)
      (omega arith)
    ∙ sym (compute_subtree_hash-root sha256 hash_at t start end (omega arith))
