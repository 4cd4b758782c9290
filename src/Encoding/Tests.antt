-- ===== src/Encoding/Tests.antt =====
-- The theorem on fast_hex.rs, applied.
use raster_h.Encoding.Hex.{fast_hex_u64, parse_hex_u64, parse_hex_u64-fast_hex_u64}
use raster_h.Common.{◌≡◌, some, arith}

parse_hex_u64-fast_hex_u64_example :
    parse_hex_u64 (fast_hex_u64 0x8828308281fffff) ≡ some 0x8828308281fffff
parse_hex_u64-fast_hex_u64_example = parse_hex_u64-fast_hex_u64 0x8828308281fffff (omega arith)
