-- ===== src/Prelude/Int.antt =====
-- Signed integers over the native numbers: what an `int64` of the program stands for.
use ca_extension_mtc_playgro.Prelude.{ℕ, suc, ◌+◌, ◌-◌, ◌^◌, Bool, ltb, leb, if◌then◌else◌}

-- `negsuc n` is -(n + 1).
pub data ℤ : Type 0 where
  pos : ℕ → ℤ
  negsuc : ℕ → ℤ

abbrev pub pos_part : ℤ → ℕ
pos_part (pos n) = n
pos_part (negsuc n) = 0

abbrev pub neg_part : ℤ → ℕ
neg_part (pos n) = 0
neg_part (negsuc n) = suc n

abbrev pub ltb_ℤ : ℤ → ℤ → Bool
ltb_ℤ a b = ltb (pos_part a + neg_part b) (pos_part b + neg_part a)

abbrev pub leb_ℤ : ℤ → ℤ → Bool
leb_ℤ a b = leb (pos_part a + neg_part b) (pos_part b + neg_part a)

-- The `int64` that 64 bits stand for, and its absolute value.
unfoldable pub as_int64 : ℕ → ℤ
as_int64 bits = if ltb bits (2 ^ 63) then pos bits else negsuc (2 ^ 64 - 1 - bits)

unfoldable pub abs : ℤ → ℕ
abs (pos n) = n
abs (negsuc n) = suc n
