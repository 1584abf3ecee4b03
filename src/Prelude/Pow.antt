-- ===== src/Prelude/Pow.antt =====
-- Powers of two, and the functions of Go's math/bits that the program calls.
use native.Mathlib.Nat.{two-pow-succ, pow-le-pow_right}
use ca_extension_mtc_playgro.Prelude.{
  ℕ, zero, suc, ◌+◌, ◌/◌, ◌%◌, ◌^◌, ◌≤◌, ◌<◌, ◌≡◌, refl, arith, ◌==◌, if◌then◌else◌,
}

pub pow_suc : (n : ℕ) → 2 ^ suc n ≡ 2 ^ n + 2 ^ n
pow_suc n = two-pow-succ n

pub pow_pos : (n : ℕ) → 0 < 2 ^ n
pow_pos zero = omega arith
pow_pos (suc n) = omega (arith, pow_suc n, pow_pos n)

pub pow_mono : (i j : ℕ) → i ≤ j → 2 ^ i ≤ 2 ^ j
pow_mono i j h = pow-le-pow_right {n = 2} (omega arith) {i = i} {j = j} h

-- `bits.Len` on a number of at most `f` bits: the count of bits up to the highest that is set.
unfoldable pub bit_len : ℕ → ℕ → ℕ
bit_len zero x = 0
bit_len (suc f) x = let rest = bit_len f (x / 2) in if x == 0 then 0 else suc rest

bit_len-zero : (f : ℕ) → bit_len f 0 ≡ 0
unfolding bit_len
bit_len-zero zero = refl
bit_len-zero (suc f) = refl

-- A positive number has its highest bit below bit `f`, and lies between that power and the next.
pub bit_len_bounds :
    (f x : ℕ)
    → 0 < x
    → x < 2 ^ f
    → (j : ℕ) × (bit_len f x ≡ suc j) × (suc j ≤ f) × (2 ^ j ≤ x) × (x < 2 ^ suc j)
unfolding bit_len
bit_len_bounds zero x h lt = absurd (omega arith)
bit_len_bounds (suc f) zero h lt = elim h [ ]
bit_len_bounds (suc f) (suc zero) h lt =
    (0, ground (arith, bit_len-zero f), omega arith, omega arith, omega arith)
bit_len_bounds (suc f) (suc (suc y)) h lt =
    let (j, e, b, lo, hi) =
      bit_len_bounds f (suc (suc y) / 2) (omega arith) (omega (arith, pow_suc f)) in
    (suc j, ground arith, omega arith, omega (arith, pow_suc j), omega (arith, pow_suc (suc j)))

-- `bits.TrailingZeros64` on a number of at most `f` bits: the count of zeros below the lowest bit
-- that is set, and `f` where no bit is.
unfoldable pub trailing_zeros : ℕ → ℕ → ℕ
trailing_zeros zero x = 0
trailing_zeros (suc f) x = let rest = trailing_zeros f (x / 2) in if x % 2 == 1 then 0 else suc rest

pub trailing_zeros-pow : (f j : ℕ) → j < f → trailing_zeros f (2 ^ j) ≡ j
unfolding trailing_zeros
trailing_zeros-pow zero j h = absurd (omega arith)
trailing_zeros-pow (suc f) zero h = refl
trailing_zeros-pow (suc f) (suc j) h = ground (arith, trailing_zeros-pow f j, pow_suc j, halve)
  where
    halve : 2 ^ suc j / 2 ≡ 2 ^ j
    halve = omega (arith, pow_suc j)
