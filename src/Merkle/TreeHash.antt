-- ===== src/Merkle/TreeHash.antt =====
-- `MTH` over a list of entries, and `SubtreeHash` over their leaf hashes.
use ca_extension_mtc_playgro.Prelude.{
  ℕ, zero, suc, ◌+◌, ◌-◌, ◌^◌, ◌≤◌, ◌<◌, ◌≡◌, refl, sym, ap, ◌∙◌, List, [], ◌∷◌, length, take, drop,
  get_or, length-take, length-drop, arith,
}
use ca_extension_mtc_playgro.Prelude.Pow.{pow_pos}
use ca_extension_mtc_playgro.Prelude.Result.{ok, ◌>>=◌}
use ca_extension_mtc_playgro.Bytes.{Bytes}
use ca_extension_mtc_playgro.Merkle.Hash.{max_depth, leaf_hash, mth, subtree_hash}
use ca_extension_mtc_playgro.Merkle.Shape.{
  Shape, leaf, node, root, build, compute_subtree_hash-root,
}

get_or-take : (k i : ℕ) (xs : List Bytes) → i < k → get_or (take k xs) i [] ≡ get_or xs i []
get_or-take zero i xs h = elim h [ ]
get_or-take (suc k) i [] h = refl
get_or-take (suc k) zero (x ∷ xs) h = refl
get_or-take (suc k) (suc i) (x ∷ xs) h = get_or-take k i xs (omega arith)

get_or-drop : (k i : ℕ) (xs : List Bytes) → get_or (drop k xs) i [] ≡ get_or xs (k + i) []
get_or-drop zero i xs = let z : 0 + i ≡ i = omega arith in rw z
get_or-drop (suc k) i [] = refl
get_or-drop (suc k) i (x ∷ xs) =
    let z : suc k + i ≡ suc (k + i) = omega arith in rw z (get_or-drop k i xs)

module _ (sha256 : Bytes → Bytes) (hash_at : ℕ → Bytes) where
  mth-root :
      {fuel n : ℕ} (t : Shape fuel n) (xs : List Bytes) (start : ℕ)
      → length xs ≡ n
      → ((i : ℕ) → i < n → hash_at (start + i) ≡ leaf_hash sha256 (get_or xs i []))
      → mth sha256 fuel xs ≡ ok (root sha256 hash_at start t)
  unfolding mth root
  mth-root (leaf e) [] start len same = absurd (omega arith)
  mth-root (leaf e) (x ∷ []) start len same =
      let z : start + 0 ≡ start = omega arith in ap ok (sym (same 0 (omega arith)) ∙ ap hash_at z)
  mth-root (leaf e) (x ∷ y ∷ xs) start len same = absurd (omega arith)
  mth-root (node j e lo hi l r) [] start len same = absurd (omega arith)
  mth-root (node j e lo hi l r) (x ∷ []) start len same = absurd (omega (arith, pow_pos j))
  mth-root {n = n} (node j e lo hi l r) (x ∷ y ∷ xs) start len same = rw (
    mth,
    len,
    e,
    ◌>>=◌,
    mth-root l (take (2 ^ j) (x ∷ y ∷ xs)) start taken (λ i h.
        same i (omega arith) ∙ ap (leaf_hash sha256) (sym (get_or-take (2 ^ j) i (x ∷ y ∷ xs) h))),
    mth-root r (drop (2 ^ j) (x ∷ y ∷ xs)) (start + 2 ^ j) dropped (λ i h.
        ap hash_at (shift i)
        ∙ same (2 ^ j + i) (omega arith)
        ∙ ap (leaf_hash sha256) (sym (get_or-drop (2 ^ j) i (x ∷ y ∷ xs)))),
  )
    where
      taken : length (take (2 ^ j) (x ∷ y ∷ xs)) ≡ 2 ^ j
      taken = omega (arith, length-take (2 ^ j) (x ∷ y ∷ xs))

      dropped : length (drop (2 ^ j) (x ∷ y ∷ xs)) ≡ n - 2 ^ j
      dropped = omega (arith, length-drop (2 ^ j) (x ∷ y ∷ xs))

      shift : (i : ℕ) → start + 2 ^ j + i ≡ start + (2 ^ j + i)
      shift i = omega arith

-- For every list of 1 to 2 ^ 63 entries, `MTH` of the list and `SubtreeHash` over the whole range of
-- its leaf hashes return one and the same hash.
pub mth-eq_subtree_hash :
    (sha256 : Bytes → Bytes) (entries : List Bytes)
    → 0 < length entries
    → length entries ≤ 2 ^ 63
    → (hash : Bytes) × (mth sha256 max_depth entries ≡ ok hash)
      × (subtree_hash sha256 (λ i. leaf_hash sha256 (get_or entries i [])) 0 (length entries)
          ≡ ok hash)
unfolding subtree_hash
mth-eq_subtree_hash sha256 entries p fits =
    let t = build 63 (length entries) p fits (omega arith) in
    let leaves : ℕ → Bytes = λ i. leaf_hash sha256 (get_or entries i []) in
    (
      root sha256 leaves 0 t,
      mth-root sha256 leaves t entries 0 refl (λ i h. ap leaves (omega arith)),
      compute_subtree_hash-root sha256 leaves t 0 (length entries) (omega arith),
    )
