-- ===== src/Revocation/Bitmap.antt =====
-- The bitmap has the bits of the revoked entries.
use mathlib.Core.Path.{subst}
use Prim.Native.Nat.{bit_or}
use ca_extension_mtc_playgro.Prelude.{
  ℕ, zero, suc, ◌+◌, ◌-◌, ◌*◌, ◌/◌, ◌%◌, ◌^◌, ◌≤◌, ◌<◌, ◌≡◌, refl, ap, ◌∙◌, List, [], ◌∷◌, ◌++◌,
  map, Bool, true, false, ◌||◌, Bool-cases, none, some, Option-cases, inl, inr, leb, ◌==◌, get_or,
  set, replicate, length, length-set, length-replicate, arith,
}
use ca_extension_mtc_playgro.Bytes.{Bytes}
use ca_extension_mtc_playgro.Log.Tables.{LogEntry}
use ca_extension_mtc_playgro.Revocation.{
  RevokedIndex, RevocationEvent, find_entry_by_serial, is_revoked, add_revocation,
  process_revocations, insert_sorted, sort, stored_indices, get_revoked_indices, set_bit, set_bits,
  build_revocation_bitmap,
}
use ca_extension_mtc_playgro.Prelude.Digits.{bit, bit-bit_or, bit_zero, bit_pow}

-- Bit `i` of a bitmap: the highest bit of a byte comes first.
unfoldable pub bit_at : Bytes → ℕ → Bool
bit_at bitmap i = bit (get_or bitmap (i / 8) 0) (7 - i % 8)

get_or-set_self : (xs : Bytes) (i v d : ℕ) → i < length xs → get_or (set xs i v) i d ≡ v
get_or-set_self [] i v d h = absurd (omega arith)
get_or-set_self (x ∷ xs) zero v d h = refl
get_or-set_self (x ∷ xs) (suc i) v d h = get_or-set_self xs i v d (omega arith)

get_or-set_ne :
    (xs : Bytes) (i j v d : ℕ) → (i == j) ≡ false → get_or (set xs i v) j d ≡ get_or xs j d
get_or-set_ne [] i j v d h = refl
get_or-set_ne (x ∷ xs) zero zero v d h = cc
get_or-set_ne (x ∷ xs) zero (suc j) v d h = refl
get_or-set_ne (x ∷ xs) (suc i) zero v d h = refl
get_or-set_ne (x ∷ xs) (suc i) (suc j) v d h = get_or-set_ne xs i j v d (ground arith)

-- Setting a bit sets that one and no other.
set_bit_lem :
    (bitmap : Bytes) (i j : ℕ)
    → i / 8 < length bitmap
    → bit_at (set_bit i bitmap) j ≡ (bit_at bitmap j || i == j)
unfolding bit_at set_bit
set_bit_lem bitmap i j inside = elim (Bool-cases (i / 8 == j / 8)) [
  | inl same ↦
      let at : j / 8 ≡ i / 8 = ground arith in
      let here : (7 - i % 8 == 7 - j % 8) ≡ (i == j) = ground arith in
      rw
        (
          set_bit,
          bit_at,
          at,
          get_or-set_self bitmap (i / 8) (bit_or (get_or bitmap (i / 8) 0) (2 ^ (7 - i % 8))) 0
              inside,
          bit-bit_or,
          bit_pow,
          here,
        )
        refl
  | inr other ↦
      let apart : (i == j) ≡ false = ground arith in
      rw
        (
          set_bit,
          bit_at,
          get_or-set_ne bitmap (i / 8) (j / 8) (bit_or (get_or bitmap (i / 8) 0) (2 ^ (7 - i % 8)))
              0 other,
          apart,
        )
        (ground arith)
]

-- Whether a list has a number.
unfoldable pub has : ℕ → List ℕ → Bool
has j [] = false
has j (i ∷ is) = i == j || has j is

set_bits_lem :
    (size j : ℕ) (is : List ℕ) (bitmap : Bytes)
    → j < size
    → size ≤ 8 * length bitmap
    → bit_at (set_bits size is bitmap) j ≡ (bit_at bitmap j || has j is)
unfolding set_bits has set_bit
set_bits_lem size j [] bitmap h fits = ground arith
set_bits_lem size j (i ∷ is) bitmap h fits = elim (Bool-cases (leb size i)) [
  | inl past ↦
      let apart : (i == j) ≡ false = ground arith in
      rw (set_bits, past, has, apart) (set_bits_lem size j is bitmap h fits)
  | inr inside ↦
      let room : i / 8 < length bitmap = ground arith in
      rw (set_bits, inside, has)
        (set_bits_lem size j is (set_bit i bitmap) h (
            omega (
              arith,
              fits,
              length-set bitmap (i / 8) (bit_or (get_or bitmap (i / 8) 0) (2 ^ (7 - i % 8))),
            ))
          ∙ ap (λ b. b || has j is) (set_bit_lem bitmap i j room)
          ∙ ground arith)
]

bit_at_zeros : (n j : ℕ) → bit_at (replicate n 0) j ≡ false
unfolding bit_at
bit_at_zeros n j = ap (λ b. bit b (7 - j % 8)) (zeros n (j / 8)) ∙ bit_zero (7 - j % 8)
  where
    zeros : (n i : ℕ) → get_or (replicate {A = ℕ} n 0) i 0 ≡ zero
    zeros zero i = refl
    zeros (suc n) zero = refl
    zeros (suc n) (suc i) = zeros n i

has-insert_sorted : (j i : ℕ) (is : List ℕ) → has j (insert_sorted i is) ≡ (i == j || has j is)
unfolding has insert_sorted
has-insert_sorted j i [] = refl
has-insert_sorted j i (x ∷ is) = elim (Bool-cases (leb i x)) [
  | inl first ↦ rw (insert_sorted, first) refl
  | inr later ↦
      rw (insert_sorted, later, has)
        (ap (λ b. x == j || b) (has-insert_sorted j i is) ∙ ground arith)
]

has-sort : (j : ℕ) (is : List ℕ) → has j (sort is) ≡ has j is
unfolding has sort
has-sort j [] = refl
has-sort j (i ∷ is) = has-insert_sorted j i (sort is) ∙ ap (λ b. i == j || b) (has-sort j is)

has-indices :
    (j : ℕ) (rs : List RevokedIndex)
    → has j (map (λ (r : RevokedIndex). r.entry_idx) rs) ≡ is_revoked j rs
unfolding has is_revoked
has-indices j [] = refl
has-indices j (r ∷ rs) = ap (λ b. r.entry_idx == j || b) (has-indices j rs)

-- Below the tree size, `BuildRevocationBitmap` sets the bit of an entry exactly if the table of revoked
-- indices has the entry; the first entry of a byte is at its highest bit.
pub build_revocation_bitmap-bit :
    (size j : ℕ) (rs : List RevokedIndex)
    → j < size
    → bit_at (build_revocation_bitmap size rs) j ≡ is_revoked j rs
unfolding build_revocation_bitmap get_revoked_indices stored_indices
build_revocation_bitmap-bit size j rs h =
    let some_there : (size == 0) ≡ false = ground arith in
    rw (build_revocation_bitmap, some_there)
      (set_bits_lem size j (get_revoked_indices rs) (replicate ((size + 7) / 8) 0) h
          (omega (arith, length-replicate {A = ℕ} ((size + 7) / 8) 0))
        ∙ ap (λ b. b || has j (get_revoked_indices rs)) (bit_at_zeros ((size + 7) / 8) j)
        ∙ has-sort j (stored_indices rs)
        ∙ has-sort j (map (λ r. r.entry_idx) rs)
        ∙ has-indices j rs)

-- Whether the certificate of one of some events is the log's entry of an index.
unfoldable pub names_entry : ℕ → List RevocationEvent → List LogEntry → Bool
names_entry j [] es = false
names_entry j (ev ∷ evs) es =
    (elim (find_entry_by_serial ev.serial_number es) [ none ↦ false | some i ↦ i == j ])
    || names_entry j evs es

is_revoked-append :
    (j : ℕ) (rs : List RevokedIndex) (r : RevokedIndex)
    → is_revoked j (rs ++ (r ∷ [])) ≡ (is_revoked j rs || r.entry_idx == j)
unfolding is_revoked
is_revoked-append j [] r = ground arith
is_revoked-append j (x ∷ rs) r =
    ap (λ b. x.entry_idx == j || b) (is_revoked-append j rs r) ∙ ground arith

is_revoked-add_revocation :
    (j : ℕ) (r : RevokedIndex) (rs : List RevokedIndex)
    → is_revoked j (add_revocation r rs) ≡ (is_revoked j rs || r.entry_idx == j)
unfolding add_revocation
is_revoked-add_revocation j r rs = elim (Bool-cases (is_revoked r.entry_idx rs)) [
  | inr new ↦ rw (add_revocation, new) (is_revoked-append j rs r)
  | inl known ↦ elim (Bool-cases (r.entry_idx == j)) [
    | inl this ↦
        let at : r.entry_idx ≡ j = ground arith in
        let there : is_revoked j rs ≡ true = subst (λ i. is_revoked i rs ≡ true) at known in
        rw (add_revocation, known, there) refl
    | inr other ↦ rw (add_revocation, known, other) (ground arith)
  ]
]

-- Behind `ProcessRevocations`, the bitmap for a tree size has the bit of an entry below that size set
-- exactly if the entry had been revoked before, or an event names the serial number that
-- `FindEntryBySerial` resolves to the entry.
pub process_revocations-bit :
    (size j : ℕ) (evs : List RevocationEvent) (es : List LogEntry) (rs : List RevokedIndex)
    → j < size
    → bit_at (build_revocation_bitmap size (process_revocations evs es rs).1) j
      ≡ (is_revoked j rs || names_entry j evs es)
unfolding process_revocations names_entry
process_revocations-bit size j evs es rs h =
    build_revocation_bitmap-bit size j (process_revocations evs es rs).1 h ∙ revoked evs rs
  where
    revoked :
        (evs : List RevocationEvent) (rs : List RevokedIndex)
        → is_revoked j (process_revocations evs es rs).1 ≡ (is_revoked j rs || names_entry j evs es)
    revoked [] rs = ground arith
    revoked (ev ∷ evs) rs = elim (Option-cases (find_entry_by_serial ev.serial_number es)) [
      | inl e ↦ rw (process_revocations, names_entry, e) (revoked evs rs)
      | inr (i, e) ↦
          let r : RevokedIndex = record {
            entry_idx = i;
            serial_hex = ev.serial_number;
            revoked_at = ev.revoked_date;
            reason = ev.revoked_reason % 2 ^ 16;
          } in
          rw (process_revocations, names_entry, e)
            (revoked evs (add_revocation r rs)
              ∙ ap (λ b. b || names_entry j evs es) (is_revoked-add_revocation j r rs)
              ∙ ground arith)
    ]
