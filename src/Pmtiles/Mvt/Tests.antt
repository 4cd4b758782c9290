-- ===== src/Pmtiles/Mvt/Tests.antt =====
-- Vector tiles on concrete layers.
use raster_h.Columnar.Utf8.{ascii, eq_ignore_ascii_case, is_utf8_from, expect}
use raster_h.Common.{ℕ, ◌-◌, ◌^◌, ◌≡◌, refl, ◌+◌, arith, All, true, some, List, [], ◌∷◌, length}
use raster_h.Pmtiles.Mvt.Encode.{
  encode, layer_bytes, encode_features, add_properties, key_idx, val_idx, get_value, feature_bytes,
  field_unless_empty, geom_bytes, ring, line_to, zigzag_encode, write_keys, write_values, no_tables,
}
use raster_h.Pmtiles.Mvt.Encoded.{total_properties}
use raster_h.Pmtiles.Mvt.RoundTrip.{IsLayer, layer_view, read_tile-encode}
use raster_h.Pmtiles.Mvt.Geometry.{IsI32Bits, IsPolygon}
use raster_h.Pmtiles.Mvt.Rings.{rings, read_geometry-geom_bytes}
use raster_h.Pmtiles.Mvt.Layer.{
  MvtFeature, MvtLayer, new, with_filter, add_or_merge_feature, add_or_merge_hexagon_mercator,
  count_id, HasUniqueIds, merging-HasUniqueIds, seen,
}
use raster_h.Pmtiles.Mvt.Properties.{
  all, FeatureProperties, continuous, generic, parse, parse_parts, token_flags, for_each_filtered,
  has_continuous, has_categorical, allows_generic,
}
use raster_h.Pmtiles.Mvt.Reader.{read_tile, read_geometry}
use raster_h.Common.Text.{trim, strip_all, strip_any, strip_prefix, split_at}
use raster_h.Encoding.Hex.{fast_hex_u64, hex_loop, hex_char}
use raster_h.Pmtiles.Varint.{write_varint, write_loop}
use raster_h.Pmtiles.Mvt.Value.{
  bool_beq, uint, from_hex_u64, value_eq, write_to, write_string_field, write_tag,
}

abbrev hexagon : MvtFeature
hexagon = record {
  id = 0x8928308280fffff;
  properties = continuous 0x8928308280fffff 9 1 2 3 4 5 6;
  polygon_x = 0 ∷ 10 ∷ 10 ∷ 0 ∷ [];
  polygon_y = 0 ∷ 0 ∷ 10 ∷ (2 ^ 32 - 4) ∷ [];
  num_points = 4;
  wrapped_x_offset = 2 ^ 32 - 4096;
}

abbrev labelled : MvtFeature
labelled = record hexagon {
  id = 0;
  properties = generic ((ascii "m", uint 1) ∷ (ascii "h3_index", uint 7) ∷ []);
}

abbrev shared : MvtFeature
shared = record labelled {
  id = 300;
  properties = generic ((ascii "m", uint 1) ∷ []);
  num_points = 2;
}

abbrev two_features : MvtLayer
two_features = record {
  name = ascii "c";
  extent = 4096;
  features = labelled ∷ shared ∷ [];
  property_filter = all;
  seen_ids = 300 ∷ 0 ∷ [];
}

abbrev project : ℕ → List ℕ → FeatureProperties → MvtFeature
project id vertices properties = record hexagon { id = id; properties = properties }

program : Unit {0}
unfolding add_or_merge_feature count_id bool_beq all new with_filter seen parse parse_parts
    token_flags trim strip_all strip_any strip_prefix split_at eq_ignore_ascii_case
    for_each_filtered has_continuous has_categorical allows_generic from_hex_u64 fast_hex_u64
    hex_loop hex_char is_utf8_from expect encode layer_bytes encode_features add_properties key_idx
    val_idx get_value value_eq feature_bytes field_unless_empty geom_bytes ring line_to
    zigzag_encode write_keys write_values write_to write_string_field write_tag write_varint
    write_loop total_properties
program = tt

four_bits : All IsI32Bits hexagon.polygon_x × All IsI32Bits hexagon.polygon_y
four_bits = (
  (omega arith, (omega arith, (omega arith, (omega arith, tt)))),
  (omega arith, (omega arith, (omega arith, (omega arith, tt)))),
)

labelled-IsPolygon : IsPolygon labelled
labelled-IsPolygon = record {
  x_bits = four_bits.0;
  y_bits = four_bits.1;
  offset_bits = omega arith;
  points_count = omega arith;
}

shared-IsPolygon : IsPolygon shared
shared-IsPolygon = record {
  x_bits = four_bits.0;
  y_bits = four_bits.1;
  offset_bits = omega arith;
  points_count = omega arith;
}

two_features-IsLayer : IsLayer two_features
unfolding program
two_features-IsLayer = record {
  proper_features = (
    record {
      id_u64 = omega arith;
      values_proper = (omega arith, (omega arith, tt));
      polygon = labelled-IsPolygon;
    },
    (
      record {
        id_u64 = omega arith;
        values_proper = (omega arith, tt);
        polygon = shared-IsPolygon;
      },
      tt,
    ),
  );
  extent_u32 = omega arith;
  properties_count = omega arith;
}

length-two_features : length (encode two_features) ≡ 77
unfolding program
length-two_features = refl

-- The second feature shares the key and the value of the first, an index never does.
tables_shared :
    (encode_features all (labelled ∷ shared ∷ []) no_tables).0.values ≡ uint 1 ∷ uint 7 ∷ []
unfolding program
tables_shared = refl

-- Two tokens of three are names, and one is an empty part.
parse_tokens : parse (ascii " Mean,count , x") ≡ record {
  continuous_mask = 2 ^ 3 + 2 ^ 6;
  categorical_mask = 2 ^ 7;
  generic_whitelist = some (ascii "x" ∷ ascii "count" ∷ ascii "mean" ∷ []);
  is_custom = true;
}
unfolding program
parse_tokens = refl

parse-all : parse (ascii " aLL ") ≡ all
unfolding program
parse-all = refl

read_tile-encode_example : read_tile (encode two_features) ≡ some (layer_view two_features ∷ [])
read_tile-encode_example =
    read_tile-encode two_features two_features-IsLayer (rw length-two_features (omega arith))

read_geometry-geom_bytes_example : read_geometry (geom_bytes labelled) ≡ some (rings labelled)
read_geometry-geom_bytes_example = read_geometry-geom_bytes labelled labelled-IsPolygon

no_layer : HasUniqueIds (new (ascii "c"))
unfolding program
no_layer = record { once = λ i. omega arith; noted = λ i unseen. refl }

merging-HasUniqueIds_example :
    HasUniqueIds (with_filter (ascii "c") all)
    × HasUniqueIds (add_or_merge_feature hexagon (new (ascii "c")))
    × HasUniqueIds
        (add_or_merge_hexagon_mercator project 7 (1 ∷ 2 ∷ 3 ∷ []) (generic []) (new (ascii "c")))
merging-HasUniqueIds_example =
    merging-HasUniqueIds project (λ id vertices properties. refl) (ascii "c") all hexagon 7
      (1 ∷ 2 ∷ 3 ∷ []) (generic []) (new (ascii "c")) no_layer
