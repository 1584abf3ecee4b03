-- ===== src/Prelude/Digits.antt =====
-- The binary digits of a number, and `|` on them.
use Prim.Native.Nat.{bit_or, bit_or-bitwise, digits, max}
use ca_extension_mtc_playgro.Prelude.{
  ℕ, zero, suc, ◌+◌, ◌*◌, ◌/◌, ◌%◌, ◌^◌, ◌≤◌, ◌≡◌, refl, ◌∙◌, Bool, false, ◌||◌, ◌==◌, arith,
}
use ca_extension_mtc_playgro.Prelude.Pow.{pow_suc}

-- The kth bit of a number, from the lowest.
unfoldable pub bit : ℕ → ℕ → Bool
bit n zero = n % 2 == 1
bit n (suc k) = bit (n / 2) k

-- What the library says the operation stands for, with its fuel.
abbrev disj : ℕ → ℕ → ℕ → ℕ
disj fuel a b = digits (λ b. b) max fuel a b

disj_fuel : (n m a b : ℕ) → a ≤ n → a ≤ m → disj n a b ≡ disj m a b
disj_fuel zero zero a b h k = refl
disj_fuel (suc n) zero zero b h k = refl
disj_fuel (suc n) zero (suc a) b h k = elim k [ ]
disj_fuel zero (suc m) zero b h k = refl
disj_fuel zero (suc m) (suc a) b h k = elim h [ ]
disj_fuel (suc n) (suc m) zero b h k = refl
disj_fuel (suc n) (suc m) (suc a) b h k =
    omega (arith, disj_fuel n m (suc a / 2) (b / 2) (omega arith) (omega arith))

bit_or_zero : (b : ℕ) → bit_or 0 b ≡ b
bit_or_zero b = bit_or-bitwise 0 b

-- The lowest bit, and the bits above it.
bit_or_low : (a b : ℕ) → bit_or a b ≡ 2 * bit_or (a / 2) (b / 2) + max (a % 2) (b % 2)
bit_or_low zero b = omega (arith, bit_or_zero b, bit_or_zero (b / 2))
bit_or_low (suc x) y = omega (
  arith,
  bit_or-bitwise (suc x) y,
  bit_or-bitwise (suc x / 2) (y / 2),
  disj_fuel x (suc x / 2) (suc x / 2) (y / 2) (omega arith) (omega arith),
)

pub bit-bit_or : (k a b : ℕ) → bit (bit_or a b) k ≡ (bit a k || bit b k)
unfolding bit
bit-bit_or zero a b = ground (arith, bit_or_low a b)
bit-bit_or (suc k) a b =
    let half : bit_or a b / 2 ≡ bit_or (a / 2) (b / 2) = omega (arith, bit_or_low a b) in
    rw half (bit-bit_or k (a / 2) (b / 2))

pub bit_zero : (k : ℕ) → bit 0 k ≡ false
unfolding bit
bit_zero zero = refl
bit_zero (suc k) = bit_zero k

pub bit_pow : (j k : ℕ) → bit (2 ^ j) k ≡ (j == k)
unfolding bit
bit_pow zero zero = refl
bit_pow zero (suc k) = bit_zero k ∙ ground arith
bit_pow (suc j) zero = ground (arith, pow_suc j)
bit_pow (suc j) (suc k) =
    let half : 2 ^ suc j / 2 ≡ 2 ^ j = omega (arith, pow_suc j) in
    rw half (bit_pow j k ∙ ground arith)
