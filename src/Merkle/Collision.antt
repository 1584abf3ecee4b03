-- ===== src/Merkle/Collision.antt =====
-- What a forged proof costs: two byte strings with one SHA-256 hash. The soundness theorems of this
-- folder return such a pair, and so assume nothing of the hash but its 32 bytes.
use native.Mathlib.Decide.{ℕ_discrete}
use ca_extension_mtc_playgro.Prelude.{◌≡◌, ◌≢◌, ◌⊎◌, inl, inr, refl, [], ◌∷◌, ◌++◌, length, arith}
use ca_extension_mtc_playgro.Bytes.{Bytes}
use ca_extension_mtc_playgro.Merkle.Hash.{leaf_hash, interior_hash}

abbrev pub Collision : (Bytes → Bytes) → Type 0
Collision sha256 = (x : Bytes) × (y : Bytes) × (x ≢ y) × (sha256 x ≡ sha256 y)

abbrev pub Is32 : Bytes → Type 0
Is32 hash = length hash ≡ 32

pub Bytes-discrete : Discrete Bytes
Bytes-discrete = hlevel ℕ_discrete

pub append_inj :
    (xs ys xs' ys' : Bytes)
    → length xs ≡ length xs'
    → xs ++ ys ≡ xs' ++ ys'
    → (xs ≡ xs') × (ys ≡ ys')
append_inj [] ys [] ys' n e = (refl, e)
append_inj [] ys (x' ∷ xs') ys' n e = absurd (omega arith)
append_inj (x ∷ xs) ys [] ys' n e = absurd (omega arith)
append_inj (x ∷ xs) ys (x' ∷ xs') ys' n e =
    let (p, q) = append_inj xs ys xs' ys' (omega arith) (cc) in (cc, q)

module _ (sha256 : Bytes → Bytes) where
  sha256_inj : (x y : Bytes) → sha256 x ≡ sha256 y → (x ≡ y) ⊎ Collision sha256
  sha256_inj x y e = elim (Bytes-discrete x y) [ yes p ↦ inl p | no p ↦ inr (x, y, p, e) ]

  pub leaf_hash_inj :
      (x y : Bytes) → leaf_hash sha256 x ≡ leaf_hash sha256 y → (x ≡ y) ⊎ Collision sha256
  unfolding leaf_hash
  leaf_hash_inj x y e = elim (sha256_inj (0 ∷ x) (0 ∷ y) e) [ inl p ↦ inl (cc) | inr c ↦ inr c ]

  pub interior_hash_inj :
      (l r l' r' : Bytes)
      → length l ≡ length l'
      → interior_hash sha256 l r ≡ interior_hash sha256 l' r'
      → ((l ≡ l') × (r ≡ r')) ⊎ Collision sha256
  unfolding interior_hash
  interior_hash_inj l r l' r' n e = elim (sha256_inj (1 ∷ (l ++ r)) (1 ∷ (l' ++ r')) e) [
    | inl p ↦ inl (append_inj l r l' r' n (cc))
    | inr c ↦ inr c
  ]

  -- A leaf and an interior node are told apart by the byte in front.
  pub leaf_ne_interior :
      (x l r : Bytes) → leaf_hash sha256 x ≡ interior_hash sha256 l r → Collision sha256
  unfolding leaf_hash interior_hash
  leaf_ne_interior x l r e = (0 ∷ x, 1 ∷ (l ++ r), λ p. cc, e)
