-- ===== src/Pmtiles/Mvt/Value.antt =====
-- `MvtValue` of crates/raster-h3-core/src/pmtiles/mvt.rs with the helpers that write fields. A
-- string is its bytes, a float its bit pattern.
use raster_h.Columnar.Utf8.{from_utf8, is_utf8}
use raster_h.Common.{
  ℕ, ◌+◌, ◌*◌, ◌-◌, ◌%◌, ◌^◌, ◌≤◌, ◌<◌, ◌≡◌, Bool, true, false, ◌&&◌, none, some, List, [], ◌++◌,
  length, take, drop, replicate, ◌==◌, if◌then◌else◌,
}
use raster_h.Common.Bytes.{to_le_bytes, i64_bits}
use raster_h.Common.Eq.{nat_has_eq, list_beq}
use raster_h.Common.Int.{ℤ, eqb_ℤ, IsI64}
use raster_h.Encoding.Hex.{fast_hex_u64}
use raster_h.Pmtiles.Varint.{write_varint}

-- `(field_number << 3) | wire_type` on u32, for the wire types below 8.
unfoldable pub write_tag : ℕ → ℕ → List ℕ
write_tag field_number wire_type = write_varint ((field_number * 8) % 2 ^ 32 + wire_type)

unfoldable pub write_string_field : ℕ → List ℕ → List ℕ
unfolding write_tag
write_string_field field_number s = (write_tag field_number 2 ++ write_varint (length s)) ++ s

-- A `HexStr` is its 16 bytes and how many of them count.
pub data MvtValue : Type 0 where
  string : List ℕ → MvtValue
  hex_str : List ℕ → ℕ → MvtValue
  float : ℕ → MvtValue
  double : ℕ → MvtValue
  int : ℤ → MvtValue
  uint : ℕ → MvtValue
  bool : Bool → MvtValue

unfoldable pub bool_beq : Bool → Bool → Bool
bool_beq true b = b
bool_beq false true = false
bool_beq false false = true

-- `PartialEq::eq`
unfoldable pub value_eq : MvtValue → MvtValue → Bool
unfolding bool_beq
value_eq (string a) (string b) = list_beq a b
value_eq (hex_str a len_a) (hex_str b len_b) =
    (len_a == len_b) && list_beq (take len_a a) (take len_b b)
value_eq (string a) (hex_str b len_b) = list_beq a (take len_b b)
value_eq (hex_str a len_a) (string b) = list_beq (take len_a a) b
value_eq (float a) (float b) = a == b
value_eq (double a) (double b) = a == b
value_eq (int a) (int b) = eqb_ℤ a b
value_eq (uint a) (uint b) = a == b
value_eq (bool a) (bool b) = bool_beq a b
value_eq _ _ = false

-- `copy_within` moves the digits to the front and leaves the bytes behind them as they are.
unfoldable pub from_hex_u64 : ℕ → MvtValue
from_hex_u64 h3_index =
    let digits = fast_hex_u64 h3_index in
    let len = length digits in
    let buf = replicate (16 - len) 0 ++ digits in hex_str (digits ++ drop len buf) len

unfoldable pub write_to : MvtValue → List ℕ
unfolding write_string_field write_tag
write_to (string s) = write_string_field 1 s
write_to (hex_str bytes len) = elim (from_utf8 (take len bytes)) [
  | none ↦ []
  | some s ↦ write_string_field 1 s
]
write_to (float f) = write_tag 2 5 ++ to_le_bytes 4 f
write_to (double d) = write_tag 3 1 ++ to_le_bytes 8 d
write_to (int i) = write_tag 4 0 ++ write_varint (i64_bits i)
write_to (uint u) = write_tag 5 0 ++ write_varint u
write_to (bool b) = write_tag 7 0 ++ write_varint (if b then 1 else 0)

-- What a Rust value of the type satisfies: a `String` is UTF-8, the slice of a `HexStr` is inside
-- its sixteen bytes (and text, as `from_hex_u64` leaves it), numbers fit their widths.
abbrev pub IsValue : MvtValue → Type 0
IsValue (string s) = is_utf8 s ≡ true
IsValue (hex_str bytes len) = (length bytes ≡ 16) × (len ≤ 16) × (is_utf8 (take len bytes) ≡ true)
IsValue (float f) = f < 2 ^ 32
IsValue (double d) = d < 2 ^ 64
IsValue (int i) = IsI64 i
IsValue (uint u) = u < 2 ^ 64
IsValue (bool b) = Unit {0}
