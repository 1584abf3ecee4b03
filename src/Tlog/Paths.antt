-- ===== src/Tlog/Paths.antt =====
-- What the two functions on a tile's path make of each other.
use ca_extension_mtc_playgro.Tlog.{
  padded, with_rest, encode_rec, encode_tile_index, trim_suffix, cons_first, split, parse_digits,
  parse_unsigned, bounded, parse_int, has_x, trim_x, segment_value, decode_segments, dot_p, dot_pb,
  decode_tile_index,
}
use ca_extension_mtc_playgro.Prelude.{
  ℕ, zero, suc, ◌+◌, ◌-◌, ◌*◌, ◌/◌, ◌%◌, ◌^◌, ◌<◌, ◌≤◌, ◌≡◌, refl, ap, ◌∙◌, List, [], ◌∷◌, ◌++◌,
  true, false, none, some, ltb, if◌then◌else◌, arith, Bool-cases, inl, inr,
}
use ca_extension_mtc_playgro.Bytes.{Bytes, bytes_eq}

IsDigit : ℕ → Type 0
IsDigit c = (48 ≤ c) × (c ≤ 57)

decimal : ℕ → ℕ → ℕ → ℕ
decimal a b c = (a - 48) * 100 + (b - 48) * 10 + (c - 48)

parse_three :
    (a b c : ℕ)
    → IsDigit a
    → IsDigit b
    → IsDigit c
    → segment_value (a ∷ b ∷ c ∷ []) ≡ some (decimal a b c)
unfolding segment_value has_x trim_x parse_int bounded parse_unsigned parse_digits IsDigit decimal
parse_three a b c ha hb hc = ground (arith, ha.0, ha.1, hb.0, hb.1, hc.0, hc.1)

parse_four :
    (a b c : ℕ)
    → IsDigit a
    → IsDigit b
    → IsDigit c
    → segment_value (120 ∷ a ∷ b ∷ c ∷ []) ≡ some (decimal a b c)
unfolding segment_value has_x trim_x parse_int bounded parse_unsigned parse_digits IsDigit decimal
parse_four a b c ha hb hc = ground (arith, ha.0, ha.1, hb.0, hb.1, hc.0, hc.1)

split_three :
    (a b c : ℕ)
    → IsDigit a
    → IsDigit b
    → IsDigit c
    → split (trim_suffix dot_pb (trim_suffix dot_p (a ∷ b ∷ c ∷ []))) ≡ (a ∷ b ∷ c ∷ []) ∷ []
unfolding split cons_first trim_suffix bytes_eq IsDigit
split_three a b c ha hb hc = ground (arith, ha.0, ha.1, hb.0, hb.1, hc.0, hc.1)

split_seven :
    (a b c d e f : ℕ)
    → IsDigit a
    → IsDigit b
    → IsDigit c
    → IsDigit d
    → IsDigit e
    → IsDigit f
    → split (trim_suffix dot_pb (trim_suffix dot_p (120 ∷ a ∷ b ∷ c ∷ 47 ∷ d ∷ e ∷ f ∷ [])))
      ≡ (120 ∷ a ∷ b ∷ c ∷ []) ∷ (d ∷ e ∷ f ∷ []) ∷ []
unfolding split cons_first trim_suffix bytes_eq IsDigit
split_seven a b c d e f ha hb hc hd he hf =
    ground (arith, ha.0, ha.1, hb.0, hb.1, hc.0, hc.1, hd.0, hd.1, he.0, he.1, hf.0, hf.1)

-- The digits of a number below 1000.
padded-digits :
    (n : ℕ)
    → n < 1000
    → IsDigit (48 + n / 100)
      × IsDigit (48 + n / 10 % 10)
      × IsDigit (48 + n % 10)
      × (decimal (48 + n / 100) (48 + n / 10 % 10) (48 + n % 10) ≡ n)
unfolding IsDigit decimal
padded-digits n lt = (
  (omega arith, omega arith),
  (omega arith, omega arith),
  (omega arith, omega arith),
  omega arith,
)

decode_small : (n : ℕ) → n < 1000 → decode_tile_index (padded n) ≡ some n
unfolding decode_tile_index decode_segments padded
decode_small n lt =
    let d = padded-digits n lt in
    let whole : (0 * 1000 + n) % 2 ^ 64 ≡ n = omega (arith, lt) in
    rw (split_three _ _ _ d.0 d.1 d.2, decode_segments, parse_three _ _ _ d.0 d.1 d.2, d.3, whole)
      refl

two_segments :
    (s t : Bytes) (m n : ℕ)
    → segment_value s ≡ some m
    → segment_value t ≡ some n
    → m < 1000
    → n < 1000
    → decode_segments 0 (s ∷ t ∷ []) ≡ some (m * 1000 + n)
unfolding decode_segments
two_segments s t m n hs ht lm ln =
    let value : ((0 * 1000 + m) % 2 ^ 64 * 1000 + n) % 2 ^ 64 ≡ m * 1000 + n =
      omega (arith, lm, ln) in
    rw (hs, decode_segments, ht) (ap some value)

decode_large :
    (m n : ℕ)
    → m < 1000
    → n < 1000
    → decode_tile_index (120 ∷ (padded m ++ (47 ∷ padded n))) ≡ some (m * 1000 + n)
unfolding decode_tile_index padded
decode_large m n lm ln =
    let d = padded-digits m lm in
    let e = padded-digits n ln in
    rw (split_seven _ _ _ _ _ _ d.0 d.1 d.2 e.0 e.1 e.2) (
      two_segments _ _ m n (parse_four _ _ _ d.0 d.1 d.2 ∙ ap some d.3)
        (parse_three _ _ _ e.0 e.1 e.2 ∙ ap some e.3) lm ln)

-- What a number of groups of three digits can hold.
abbrev groups : ℕ → ℕ
groups zero = 1
groups (suc k) = groups k * 1000

encode_rec_lem :
    (fuel n : ℕ) → n < groups (suc fuel) → (path : Bytes) × (encode_rec (suc fuel) n ≡ some path)
unfolding encode_rec with_rest
encode_rec_lem zero n lt =
    let small : ltb n 1000 ≡ true = ground (arith, lt) in (padded n, rw small refl)
encode_rec_lem (suc fuel) n lt = elim (Bool-cases (ltb n 1000)) [
  | inl small ↦ (padded n, rw small refl)
  | inr large ↦
      let rest = encode_rec_lem fuel (n / 1000) (omega (arith, lt)) in
      (120 ∷ (rest.0 ++ (47 ∷ padded (n % 1000))), rw (large, rest.1) refl)
]

encode_rec-x :
    (fuel n : ℕ)
    → 1000 ≤ n
    → n < groups (suc fuel)
    → (path : Bytes) × (encode_rec (suc fuel) n ≡ some (120 ∷ path))
unfolding encode_rec with_rest
encode_rec-x zero n le lt = absurd (omega (arith, le, lt))
encode_rec-x (suc fuel) n le lt =
    let large : ltb n 1000 ≡ false = ground (arith, le) in
    let rest = encode_rec_lem fuel (n / 1000) (omega (arith, lt)) in
    (rest.0 ++ (47 ∷ padded (n % 1000)), rw (large, rest.1) refl)

-- A segment with two x's is no number.
two_x_segments : (ss : List Bytes) → decode_segments 0 (cons_first 120 (cons_first 120 ss)) ≡ none
unfolding decode_segments cons_first segment_value has_x trim_x parse_int parse_unsigned
    parse_digits bounded
two_x_segments [] = refl
two_x_segments (s ∷ ss) = refl

decode_two_x : (path : Bytes) → decode_tile_index (120 ∷ 120 ∷ path) ≡ none
unfolding decode_tile_index trim_suffix split bytes_eq
decode_two_x path = two_x_segments (split (trim_suffix dot_pb (trim_suffix dot_p path)))

-- For every tile index below 2 ^ 63, `encodeTileIndex` returns a path. `decodeTileIndex` reads it back
-- as the same index if that is below 1,000,000, and fails on it otherwise.
pub decode_tile_index-encode_tile_index :
    (n : ℕ)
    → n < 2 ^ 63
    → (path : Bytes) × (encode_tile_index n ≡ some path)
      × (decode_tile_index path ≡ (if ltb n 1000000 then some n else none))
unfolding encode_tile_index encode_rec with_rest
decode_tile_index-encode_tile_index n lt = elim (Bool-cases (ltb n 1000)) [
  | inl one ↦
      let fits : ltb n 1000000 ≡ true = ground (arith, one) in
      (padded n, rw one refl, rw fits (decode_small n (ground (arith, one))))
  | inr more ↦ elim (Bool-cases (ltb n 1000000)) [
    | inl fits ↦
        let high : ltb (n / 1000) 1000 ≡ true = ground (arith, fits) in
        let whole : n / 1000 * 1000 + n % 1000 ≡ n = omega arith in
        (
          120 ∷ (padded (n / 1000) ++ (47 ∷ padded (n % 1000))),
          rw (more, high) refl,
          rw fits (
              decode_large (n / 1000) (n % 1000) (ground (arith, fits)) (omega arith)
              ∙ ap some whole),
        )
    | inr large ↦
        let rest = encode_rec-x 5 (n / 1000) (ground (arith, large)) (omega (arith, lt)) in
        (
          120 ∷ 120 ∷ (rest.0 ++ (47 ∷ padded (n % 1000))),
          rw (more, rest.1) refl,
          rw large (decode_two_x (rest.0 ++ (47 ∷ padded (n % 1000)))),
        )
  ]
]
