-- ===== src/Tlog/Tests.antt =====
-- The paths of tiles at concrete indices.
use ca_extension_mtc_playgro.Prelude.{◌≡◌, some, none, if◌then◌else◌, ltb, arith}
use ca_extension_mtc_playgro.Bytes.{Bytes}
use ca_extension_mtc_playgro.Tlog.{encode_tile_index, decode_tile_index}
use ca_extension_mtc_playgro.Tlog.Paths.{decode_tile_index-encode_tile_index}

decode_tile_index-encode_tile_index_example :
    (path : Bytes) × (encode_tile_index 1234 ≡ some path)
    × (decode_tile_index path ≡ (if ltb 1234 1000000 then some 1234 else none))
decode_tile_index-encode_tile_index_example = decode_tile_index-encode_tile_index 1234 (omega arith)
