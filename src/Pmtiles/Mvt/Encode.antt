-- ===== src/Pmtiles/Mvt/Encode.antt =====
-- `MvtLayer::encode` of crates/raster-h3-core/src/pmtiles/mvt.rs: the tables of keys and values, the
-- geometry commands, the messages. Additions and subtractions on i32 wrap around, as those of an
-- optimised build do.
use raster_h.Columnar.Utf8.{ascii}
use raster_h.Common.{
  ℕ, zero, suc, ◌+◌, ◌*◌, ◌-◌, ◌%◌, ◌^◌, ◌||◌, Option, none, some, List, [], ◌∷◌, ◌++◌, length,
  get_or, ltb, leb, ◌==◌, if◌then◌else◌,
}
use raster_h.Common.Eq.{nat_has_eq, list_beq, list_has_eq}
use raster_h.Common.Maps.{lookup, insert}
use raster_h.Pmtiles.Mvt.Layer.{MvtFeature, MvtLayer}
use raster_h.Pmtiles.Mvt.Properties.{Property, PropertyFilter, for_each_filtered}
use raster_h.Pmtiles.Mvt.Value.{MvtValue, value_eq, write_to, write_tag, write_string_field}
use raster_h.Pmtiles.Varint.{write_varint}

-- `((val << 1) ^ (val >> 31)) as u32` on the bits of an i32: the shift fills with the sign, and an
-- exclusive or with ones takes each bit off one.
unfoldable pub zigzag_encode : ℕ → ℕ
zigzag_encode val = if ltb val (2 ^ 31) then (val * 2) % 2 ^ 32 else 2 ^ 32 - 1 - (val * 2) % 2 ^ 32

abbrev pub add_i32 : ℕ → ℕ → ℕ
add_i32 a b = (a + b) % 2 ^ 32

abbrev pub sub_i32 : ℕ → ℕ → ℕ
sub_i32 a b = (a + 2 ^ 32 - b) % 2 ^ 32

pub record Tables : Type 0 where
  pub key_map : List (List ℕ × ℕ)
  pub val_map : List (MvtValue × ℕ)
  pub keys : List (List ℕ)
  pub values : List MvtValue

abbrev pub no_tables : Tables
no_tables = record { key_map = []; val_map = []; keys = []; values = [] }

unfoldable pub key_idx : List ℕ → Tables → ℕ × Tables
key_idx k t = elim (lookup k t.key_map) [
  | some idx ↦ (idx, t)
  | none ↦
      let idx : ℕ = length t.keys % 2 ^ 32 in
      (idx, record t { keys = t.keys ++ (k ∷ []); key_map = insert k idx t.key_map })
]

-- The map of values compares them with their own equality.
unfoldable pub get_value : MvtValue → List (MvtValue × ℕ) → Option ℕ
get_value v [] = none
get_value v ((w, idx) ∷ m) = if value_eq w v then some idx else get_value v m

unfoldable pub val_idx : List ℕ → MvtValue → Tables → ℕ × Tables
unfolding get_value
val_idx k v t =
    let idx : ℕ = length t.values % 2 ^ 32 in
    let pushed : List MvtValue = t.values ++ (v ∷ []) in
    if list_beq k (ascii "h3_index") || list_beq k (ascii "h3_hex")
    then (idx, record t { values = pushed })
    else elim (get_value v t.val_map) [
      | some known ↦ (known, t)
      | none ↦ (idx, record t { values = pushed; val_map = (v, idx) ∷ t.val_map })
    ]

-- The callback of `for_each_filtered`, for each call in turn.
unfoldable pub add_properties : List Property → Tables → List ℕ → Tables × List ℕ
add_properties [] t tag_bytes = (t, tag_bytes)
add_properties ((k, v) ∷ props) t tag_bytes =
    let found = key_idx k t in
    let valued = val_idx k v found.1 in
    add_properties props valued.1 (tag_bytes ++ (write_varint found.0 ++ write_varint valued.0))

-- The points `i`, `i + 1`, … of which `n` are left, from the cursor at `(prev_x, prev_y)`.
unfoldable pub line_to : MvtFeature → ℕ → ℕ → ℕ → ℕ → ℕ → List ℕ
unfolding zigzag_encode
line_to feat offset zero i prev_x prev_y = []
line_to feat offset (suc n) i prev_x prev_y =
    let px = add_i32 (get_or feat.polygon_x i 0) offset in
    let py = get_or feat.polygon_y i 0 in
    (write_varint (zigzag_encode (sub_i32 px prev_x))
      ++ write_varint (zigzag_encode (sub_i32 py prev_y)))
    ++ line_to feat offset n (i + 1) px py

-- MoveTo, LineTo and ClosePath of one ring.
unfoldable pub ring : MvtFeature → ℕ → ℕ → ℕ → List ℕ
unfolding line_to
ring feat offset prev_x prev_y =
    let p0_x = add_i32 (get_or feat.polygon_x 0 0) offset in
    let p0_y = get_or feat.polygon_y 0 0 in
    write_varint (1 + 1 * 8)
    ++ (write_varint (zigzag_encode (sub_i32 p0_x prev_x))
        ++ (write_varint (zigzag_encode (sub_i32 p0_y prev_y))
            ++ (write_varint (2 + (feat.num_points - 1) * 8)
                ++ (line_to feat offset (feat.num_points - 1) 1 p0_x p0_y
                    ++ write_varint (7 + 1 * 8)))))

-- The cursor behind a ring is its last point.
unfoldable pub geom_bytes : MvtFeature → List ℕ
unfolding ring
geom_bytes feat =
    let last = feat.num_points - 1 in
    if leb 3 feat.num_points
    then if feat.wrapped_x_offset == 0
      then ring feat 0 0 0
      else ring feat 0 0 0
        ++ ring feat feat.wrapped_x_offset (add_i32 (get_or feat.polygon_x last 0) 0)
            (get_or feat.polygon_y last 0)
    else []

-- A field of bytes, written unless there are none.
unfoldable pub field_unless_empty : ℕ → List ℕ → List ℕ
field_unless_empty n [] = []
field_unless_empty n (b ∷ bytes) =
    write_tag n 2 ++ (write_varint (length (b ∷ bytes)) ++ (b ∷ bytes))

unfoldable pub feature_bytes : MvtFeature → List ℕ → List ℕ
unfolding field_unless_empty
feature_bytes feat tag_bytes =
    (if feat.id == 0 then [] else write_tag 1 0 ++ write_varint feat.id)
    ++ (field_unless_empty 2 tag_bytes
        ++ ((write_tag 3 0 ++ write_varint 3) ++ field_unless_empty 4 (geom_bytes feat)))

abbrev pub delimited : ℕ → List ℕ → List ℕ
delimited n bytes = write_tag n 2 ++ (write_varint (length bytes) ++ bytes)

-- The loop over the features: the tables and the bytes of all features.
unfoldable pub encode_features : PropertyFilter → List MvtFeature → Tables → Tables × List ℕ
unfolding add_properties
encode_features filter [] t = (t, [])
encode_features filter (feat ∷ feats) t =
    let added = add_properties (for_each_filtered feat.properties filter) t [] in
    let rest = encode_features filter feats added.0 in
    (rest.0, delimited 2 (feature_bytes feat added.1) ++ rest.1)

unfoldable pub write_keys : List (List ℕ) → List ℕ
write_keys [] = []
write_keys (k ∷ ks) = write_string_field 3 k ++ write_keys ks

unfoldable pub write_values : List MvtValue → List ℕ
write_values [] = []
write_values (v ∷ vs) = delimited 4 (write_to v) ++ write_values vs

unfoldable pub layer_bytes : MvtLayer → List ℕ
unfolding encode_features write_keys write_values
layer_bytes layer =
    let done = encode_features layer.property_filter layer.features no_tables in
    (write_tag 15 0 ++ write_varint 2)
    ++ (write_string_field 1 layer.name
        ++ (done.1
            ++ (write_keys done.0.keys
                ++ (write_values done.0.values ++ (write_tag 5 0 ++ write_varint layer.extent)))))

unfoldable pub encode : MvtLayer → List ℕ
unfolding layer_bytes
encode layer = delimited 3 (layer_bytes layer)
