-- ===== src/Tlog.antt =====
-- The paths of tiles: `encodeTileIndex` of internal/merkle/merkle.go, which writes a tile's index, and
-- `decodeTileIndex` of internal/tlogtiles/handler.go, which reads it. A path is the bytes of its text.
pub mod Paths
mod Tests
use ca_extension_mtc_playgro.Prelude.{
  ℕ, zero, suc, ◌+◌, ◌-◌, ◌*◌, ◌/◌, ◌%◌, ◌^◌, List, [], ◌∷◌, ◌++◌, Bool, true, false, not, ◌&&◌,
  Option, none, some, length, ltb, leb, ◌==◌, if◌then◌else◌,
}
use ca_extension_mtc_playgro.Bytes.{Bytes, bytes_eq}

-- `fmt.Sprintf("%03d", n)`, of a number below 1000.
unfoldable pub padded : ℕ → Bytes
padded n = (48 + n / 100) ∷ (48 + n / 10 % 10) ∷ (48 + n % 10) ∷ []

-- `fmt.Sprintf("x%s/%03d", rest, n%1000)`
unfoldable pub with_rest : ℕ → Option Bytes → Option Bytes
with_rest n none = none
with_rest n (some rest) = some (120 ∷ (rest ++ (47 ∷ padded (n % 1000))))

-- `encodeTileIndex`, for the calls that are left.
unfoldable pub encode_rec : ℕ → ℕ → Option Bytes
encode_rec zero n = none
encode_rec (suc fuel) n =
    let rest = encode_rec fuel (n / 1000) in
    if ltb n 1000 then some (padded n) else with_rest n rest

-- An int64 that is not negative has 7 groups of three digits at most.
unfoldable pub encode_tile_index : ℕ → Option Bytes
encode_tile_index n = encode_rec 7 n

-- `strings.TrimSuffix`, of a suffix that is not empty.
unfoldable pub trim_suffix : Bytes → Bytes → Bytes
trim_suffix suffix [] = []
trim_suffix suffix (c ∷ cs) =
    let rest = trim_suffix suffix cs in if bytes_eq (c ∷ cs) suffix then [] else c ∷ rest

unfoldable pub cons_first : ℕ → List Bytes → List Bytes
cons_first c [] = (c ∷ []) ∷ []
cons_first c (s ∷ ss) = (c ∷ s) ∷ ss

-- `strings.Split(path, "/")`
unfoldable pub split : Bytes → List Bytes
split [] = [] ∷ []
split (c ∷ cs) = let rest = split cs in if c == 47 then [] ∷ rest else cons_first c rest

-- The decimal digits of `strconv.ParseInt`.
unfoldable pub parse_digits : ℕ → Bytes → Option ℕ
parse_digits n [] = some n
parse_digits n (c ∷ cs) =
    let rest = parse_digits (n * 10 + (c - 48)) cs in if leb 48 c && leb c 57 then rest else none

unfoldable pub parse_unsigned : Bytes → Option ℕ
parse_unsigned [] = none
parse_unsigned (c ∷ cs) = parse_digits 0 (c ∷ cs)

-- A value in the range of an int64, as its 64 bits.
unfoldable pub bounded : Bool → Option ℕ → Option ℕ
bounded negative none = none
bounded true (some n) = if leb n (2 ^ 63) then some ((2 ^ 64 - n) % 2 ^ 64) else none
bounded false (some n) = if ltb n (2 ^ 63) then some n else none

-- `strconv.ParseInt(seg, 10, 64)`
unfoldable pub parse_int : Bytes → Option ℕ
parse_int [] = none
parse_int (c ∷ cs) =
    if c == 45
    then bounded true (parse_unsigned cs)
    else if c == 43
    then bounded false (parse_unsigned cs)
    else bounded false (parse_unsigned (c ∷ cs))

unfoldable pub has_x : Bytes → Bool
has_x [] = false
has_x (c ∷ cs) = c == 120

-- `strings.TrimPrefix(seg, "x")`
unfoldable pub trim_x : Bytes → Bytes
trim_x [] = []
trim_x (c ∷ cs) = if c == 120 then cs else c ∷ cs

-- The number of one segment.
unfoldable pub segment_value : Bytes → Option ℕ
segment_value seg =
    if not (has_x seg) && not (length seg == 3) then parse_int seg else parse_int (trim_x seg)

-- The loop over the segments; `result*1000 + n` wraps.
unfoldable pub decode_segments : ℕ → List Bytes → Option ℕ
decode_segments result [] = some result
decode_segments result (seg ∷ segs) = elim (segment_value seg) [
  | none ↦ none
  | some n ↦ decode_segments ((result * 1000 + n) % 2 ^ 64) segs
]

-- ".p" and ".pb"
abbrev pub dot_p : Bytes
dot_p = 46 ∷ 112 ∷ []

abbrev pub dot_pb : Bytes
dot_pb = 46 ∷ 112 ∷ 98 ∷ []

-- `decodeTileIndex`
unfoldable pub decode_tile_index : Bytes → Option ℕ
decode_tile_index path = decode_segments 0 (split (trim_suffix dot_pb (trim_suffix dot_p path)))
