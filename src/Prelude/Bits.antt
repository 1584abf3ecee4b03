-- ===== src/Prelude/Bits.antt =====
-- `n & (n - 1)`: it is 0 exactly at the powers of two; here, that nothing else passes the test.
use Prim.Native.Nat.{bit_and, bit_and-bitwise, digits, min}
use ca_extension_mtc_playgro.Prelude.{
  ℕ, zero, suc, ◌+◌, ◌-◌, ◌*◌, ◌/◌, ◌%◌, ◌^◌, ◌≤◌, ◌<◌, ◌≡◌, refl, ap, true, false, ◌⊎◌, inl, inr,
  arith, ◌==◌,
}
use ca_extension_mtc_playgro.Prelude.Pow.{trailing_zeros, pow_suc}

-- What the library says the operation stands for, with its fuel.
abbrev conj : ℕ → ℕ → ℕ → ℕ
conj fuel a b = digits (λ b. zero) min fuel a b

conj_fuel : (n m a b : ℕ) → a ≤ n → a ≤ m → conj n a b ≡ conj m a b
conj_fuel zero zero a b h k = refl
conj_fuel (suc n) zero zero b h k = refl
conj_fuel (suc n) zero (suc a) b h k = elim k [ ]
conj_fuel zero (suc m) zero b h k = refl
conj_fuel zero (suc m) (suc a) b h k = elim h [ ]
conj_fuel (suc n) (suc m) zero b h k = refl
conj_fuel (suc n) (suc m) (suc a) b h k =
    omega (arith, conj_fuel n m (suc a / 2) (b / 2) (omega arith) (omega arith))

pub bit_and_zero : (b : ℕ) → bit_and 0 b ≡ 0
bit_and_zero b = bit_and-bitwise 0 b

-- The lowest bit, and the bits above it.
pub bit_and_low : (a b : ℕ) → bit_and a b ≡ 2 * bit_and (a / 2) (b / 2) + min (a % 2) (b % 2)
bit_and_low zero b = omega (arith, bit_and_zero b, bit_and_zero (b / 2))
bit_and_low (suc x) y = omega (
  arith,
  bit_and-bitwise (suc x) y,
  bit_and-bitwise (suc x / 2) (y / 2),
  conj_fuel x (suc x / 2) (suc x / 2) (y / 2) (omega arith) (omega arith),
)

-- With fuel for the bits of `n`.
bit_and_self : (f n : ℕ) → n < 2 ^ f → bit_and n n ≡ n
bit_and_self zero n h = let z : n ≡ 0 = omega arith in rw z
bit_and_self (suc f) n h =
    omega (arith, bit_and_low n n, bit_and_self f (n / 2) (omega (arith, pow_suc f)), pow_suc f)

pub pow-trailing_zeros :
    (f n : ℕ) → 0 < n → n < 2 ^ f → bit_and n (n - 1) ≡ 0 → n ≡ 2 ^ trailing_zeros f n
unfolding trailing_zeros
pow-trailing_zeros zero n p h e = absurd (omega arith)
pow-trailing_zeros (suc f) n p h e = elim (parity n) [
  | inl even ↦
      let test : (n % 2 == 1) ≡ false = ground arith in
      let half : n / 2 ≡ 2 ^ trailing_zeros f (n / 2) =
        pow-trailing_zeros f (n / 2) (omega arith) (omega (arith, pow_suc f))
          (omega (arith, bit_and_low n (n - 1), ap (bit_and (n / 2)) (below even))) in
      rw test (omega (arith, half, pow_suc (trailing_zeros f (n / 2))))
  | inr odd ↦
      let test : (n % 2 == 1) ≡ true = ground arith in
      rw test (
        omega (
          arith,
          bit_and_low n (n - 1),
          ap (bit_and (n / 2)) (same odd),
          bit_and_self f (n / 2) (omega (arith, pow_suc f)),
        ))
]
  where
    below : n % 2 ≡ 0 → (n - 1) / 2 ≡ n / 2 - 1
    below h = omega arith

    same : n % 2 ≡ 1 → (n - 1) / 2 ≡ n / 2
    same h = omega arith

    parity : (n : ℕ) → (n % 2 ≡ 0) ⊎ (n % 2 ≡ 1)
    parity n = omega arith
