-- ===== src/Bytes.antt =====
-- Byte strings: the operations of Go's encoding/binary that the program calls, and equality.
use native.Mathlib.Nat.{pow-suc, pow-succ', div-div-eq-div-mul}
use mathlib.Core.Path.{ap₂}
use ca_extension_mtc_playgro.Prelude.{
  ℕ, zero, suc, ◌+◌, ◌*◌, ◌/◌, ◌%◌, ◌^◌, ◌<◌, ◌≡◌, refl, ap, sym, ◌∙◌, Bool, true, false, ◌&&◌,
  List, [], ◌∷◌, ◌++◌, length, length-append, arith, ◌==◌, All,
}

-- A byte is a number below 256.
abbrev pub Bytes : Type 0
Bytes = List ℕ

abbrev pub IsByte : ℕ → Type 0
IsByte b = b < 256

-- `bytes.Equal`, and `==` on arrays of bytes.
unfoldable pub bytes_eq : Bytes → Bytes → Bool
bytes_eq [] [] = true
bytes_eq [] (y ∷ ys) = false
bytes_eq (x ∷ xs) [] = false
bytes_eq (x ∷ xs) (y ∷ ys) = x == y && bytes_eq xs ys

pub bytes_eq→eq : (xs ys : Bytes) → bytes_eq xs ys ≡ true → xs ≡ ys
unfolding bytes_eq
bytes_eq→eq [] [] h = refl
bytes_eq→eq [] (y ∷ ys) h = cc
bytes_eq→eq (x ∷ xs) [] h = cc
bytes_eq→eq (x ∷ xs) (y ∷ ys) h = ground (arith, bytes_eq→eq xs ys)

pub bytes_eq_refl : (xs : Bytes) → bytes_eq xs xs ≡ true
unfolding bytes_eq
bytes_eq_refl [] = refl
bytes_eq_refl (x ∷ xs) = ground (arith, bytes_eq_refl xs)

-- `binary.BigEndian.PutUint16` and `PutUint64`: the low `8 * width` bits of a number, highest byte
-- first.
unfoldable pub be : ℕ → ℕ → Bytes
be zero x = []
be (suc width) x = be width (x / 256) ++ (x % 256 ∷ [])

-- `binary.BigEndian.Uint16` and `Uint64`, of all the bytes given.
unfoldable pub un_be : ℕ → Bytes → ℕ
un_be acc [] = acc
un_be acc (b ∷ bs) = un_be (acc * 256 + b) bs

pub length-be : (width x : ℕ) → length (be width x) ≡ width
unfolding be
length-be zero x = refl
length-be (suc width) x =
    omega (arith, length-append (be width (x / 256)) (x % 256 ∷ []), length-be width (x / 256))

un_be-append : (acc : ℕ) (xs ys : Bytes) → un_be acc (xs ++ ys) ≡ un_be (un_be acc xs) ys
unfolding un_be
un_be-append acc [] ys = refl
un_be-append acc (x ∷ xs) ys = un_be-append (acc * 256 + x) xs ys

-- A number of at most `width` bytes is read back.
pub un_be-be : (width x : ℕ) → x < 256 ^ width → un_be 0 (be width x) ≡ x
unfolding be un_be
un_be-be zero x h = omega arith
un_be-be (suc width) x h =
    rw
      (
        un_be-append 0 (be width (x / 256)) (x % 256 ∷ []),
        un_be-be width (x / 256) (below width x h),
      )
      (omega arith)
  where
    below : (width x : ℕ) → x < 256 ^ suc width → x / 256 < 256 ^ width
    below width x h = omega (arith, pow-suc 256 width)

be-head : (k x : ℕ) → be (suc k) x ≡ x / 256 ^ k % 256 ∷ be k x
unfolding be
be-head zero x = ap (λ (y : ℕ). y ∷ []) (omega arith)
be-head (suc k) x =
    ap (λ (bs : Bytes). bs ++ (x % 256 ∷ [])) (be-head k (x / 256))
    ∙ ap (λ (y : ℕ). y % 256 ∷ (be k (x / 256) ++ (x % 256 ∷ []))) (deeper k x)
  where
    deeper : (k x : ℕ) → x / 256 / 256 ^ k ≡ x / 256 ^ suc k
    deeper k x = div-div-eq-div-mul x 256 (256 ^ k) ∙ ap (λ (t : ℕ). x / t) (sym (pow-succ' 256 k))

un_be-high : (a : ℕ) (ys : Bytes) → All IsByte ys → un_be a ys / 256 ^ length ys ≡ a
unfolding un_be
un_be-high a [] h = omega arith
un_be-high a (y ∷ ys) h =
    outer (length ys) (un_be (a * 256 + y) ys) (un_be-high (a * 256 + y) ys h.1)
  where
    outer : (k x : ℕ) → x / 256 ^ k ≡ a * 256 + y → x / 256 ^ suc k ≡ a
    outer k x e =
        ap (λ (t : ℕ). x / t) (pow-suc 256 k)
        ∙ sym (div-div-eq-div-mul x (256 ^ k) 256)
        ∙ omega (arith, e, h.0)

be-un_be_acc : (a : ℕ) (xs : Bytes) → All IsByte xs → be (length xs) (un_be a xs) ≡ xs
unfolding un_be
be-un_be_acc a [] h = unfold be in refl
be-un_be_acc a (x ∷ xs) h =
    be-head (length xs) (un_be a (x ∷ xs))
    ∙ ap₂ (λ (y : ℕ) (ys : Bytes). y ∷ ys) top (be-un_be_acc (a * 256 + x) xs h.1)
  where
    top : un_be a (x ∷ xs) / 256 ^ length xs % 256 ≡ x
    top = omega (arith, un_be-high (a * 256 + x) xs h.1, h.0)

-- Bytes are written again from the number that they were read as.
pub be-un_be :
    (width : ℕ) (xs : Bytes) → length xs ≡ width → All IsByte xs → be width (un_be 0 xs) ≡ xs
be-un_be width xs len h = rw (← len) (be-un_be_acc 0 xs h)

-- `binary.LittleEndian.PutUint16` and `PutUint32`: the low `8 * width` bits, lowest byte first.
unfoldable pub le : ℕ → ℕ → Bytes
le zero x = []
le (suc width) x = x % 256 ∷ le width (x / 256)
