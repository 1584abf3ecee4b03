-- ===== src/Merkle/Tiles.antt =====
-- internal/merkle/merkle.go: the tiles that hold entries and hashes, and aligned subtrees.
pub mod Cover
use ca_extension_mtc_playgro.Prelude.{
  ℕ, zero, suc, ◌+◌, ◌-◌, ◌*◌, ◌/◌, ◌%◌, ◌^◌, List, [], ◌∷◌, ◌++◌, Bool, true, false, ltb, leb,
  ◌==◌, if◌then◌else◌,
}
use ca_extension_mtc_playgro.Prelude.Int.{ℤ, pos, negsuc, as_int64, abs}
use ca_extension_mtc_playgro.Prelude.Pow.{bit_len}
use ca_extension_mtc_playgro.Bytes.{Bytes}

-- `TileWidth`, and the bits of it.
abbrev pub tile_width : ℕ
tile_width = 256

abbrev pub tile_width_bits : ℕ
tile_width_bits = 8

-- `TileCoord`; level -1 is that of the entries' tiles.
pub record TileCoord : Type 0 where
  pub level : ℤ
  pub index : ℕ
  pub width : ℕ

-- `TileForEntry`, at an index from 0 on.
unfoldable pub tile_for_entry : ℕ → TileCoord
tile_for_entry index = record { level = pos 0; index = index / tile_width; width = tile_width }

-- `EntryTileCoord`
unfoldable pub entry_tile_coord : ℕ → TileCoord
entry_tile_coord index = record { level = negsuc 0; index = index / tile_width; width = tile_width }

-- `HashTileCoord`
unfoldable pub hash_tile_coord : ℕ → ℕ → TileCoord
hash_tile_coord level node_index = record {
  level = pos (level / tile_width_bits);
  index = node_index / tile_width;
  width = tile_width;
}

-- The loop of `TilesForRange`, for the rounds that are left.
unfoldable pub tiles_from : ℕ → ℕ → List TileCoord
tiles_from zero t = []
tiles_from (suc rounds) t =
    record { level = pos 0; index = t; width = tile_width } ∷ tiles_from rounds (suc t)

-- `TilesForRange`
unfoldable pub tiles_for_range : ℕ → ℕ → List TileCoord
tiles_for_range start end =
    if leb end start
    then []
    else (let first_tile = start / tile_width in
        let last_tile = (end - 1) / tile_width in
        tiles_from (suc last_tile - first_tile) first_tile)

-- `BitCeil`, whose shift wraps to a negative `int64` from 2 ^ 62 + 1 on.
unfoldable pub bit_ceil : ℕ → ℤ
bit_ceil n = if leb n 1 then pos 1 else as_int64 (2 ^ bit_len 64 (n - 1) % 2 ^ 64)

-- `IsValidSubtree`, from a start that is not negative: the remainder by a negative divisor is that by
-- its absolute value.
unfoldable pub is_valid_subtree : ℕ → ℕ → Bool
is_valid_subtree start end =
    if leb end start then false else start % abs (bit_ceil (end - start)) == 0
