-- ===== src/Pmtiles/Mvt/RoundTrip.antt =====
-- A tile that `MvtLayer::encode` of crates/raster-h3-core/src/pmtiles/mvt.rs writes, read back.
use raster_h.Common.{
  ℕ, ◌^◌, ◌≤◌, ◌<◌, ◌≡◌, refl, ap, sym, ◌∙◌, subst, some, List, [], ◌∷◌, ◌++◌, map, append-nil,
  append_assoc, length, length-append, All, All-append, arith,
}
use raster_h.Pmtiles.Mvt.Decoded.{Decoded, meaning, read_value}
use raster_h.Pmtiles.Mvt.Encode.{
  Tables, no_tables, encode_features, write_keys, write_values, layer_bytes, encode, delimited,
}
use raster_h.Pmtiles.Mvt.Encoded.{total_properties, encode_features-Encoded}
use raster_h.Pmtiles.Mvt.Features.{IsFeature, view}
use raster_h.Pmtiles.Mvt.Layer.{MvtLayer}
use raster_h.Pmtiles.Mvt.Message.{
  Field, varint_field, bytes_field, IsField, field_bytes, fields_bytes, fields_bytes-append,
  read_message, read_message-fields_bytes,
}
use raster_h.Pmtiles.Mvt.Messages.{
  blobs, bytes_of-blobs_append, bytes_of-other, varints_of-blobs, blobs-IsField, write_keys-blobs,
  write_values-blobs, traverse-read_value, length-delimited,
}
use raster_h.Pmtiles.Mvt.Reader.{
  FeatureView, LayerView, read_feature, read_layer, read_tile, bytes_of, varints_of, head_or,
  traverse,
}
use raster_h.Pmtiles.Mvt.Tables.{IsConsistent}
use raster_h.Pmtiles.Mvt.Value.{MvtValue, write_to, write_tag, write_string_field}
use raster_h.Pmtiles.Varint.{write_varint}

-- A layer whose features are proper, with no more properties than a u32 counts.
pub record IsLayer (layer : MvtLayer) : Type 0 where
  pub proper_features : All (IsFeature layer.property_filter) layer.features
  pub extent_u32 : layer.extent < 2 ^ 32
  pub properties_count : total_properties layer.property_filter layer.features ≤ 2 ^ 32

-- A layer as a reader should see it.
unfoldable pub layer_view : MvtLayer → LayerView
layer_view layer = record {
  name = layer.name;
  extent = layer.extent;
  features = map (view layer.property_filter) layer.features;
}

module _ (name : List ℕ) (extent : ℕ) (messages keys : List (List ℕ)) (values : List MvtValue) where
  abbrev after_values : List Field
  after_values = varint_field 5 extent ∷ []

  abbrev after_keys : List Field
  after_keys = blobs 4 (map write_to values) ++ after_values

  abbrev after_messages : List Field
  after_messages = blobs 3 keys ++ after_keys

  abbrev layer_fields : List Field
  layer_fields = varint_field 15 2 ∷ bytes_field 1 name ∷ (blobs 2 messages ++ after_messages)

  layer_fields-bytes :
      (write_tag 15 0 ++ write_varint 2)
        ++ (write_string_field 1 name
            ++ (fields_bytes (blobs 2 messages)
                ++ (write_keys keys
                    ++ (write_values values ++ (write_tag 5 0 ++ write_varint extent)))))
      ≡ fields_bytes layer_fields
  unfolding write_string_field write_tag field_bytes
  layer_fields-bytes =
      rw
        (
          write_keys-blobs keys,
          write_values-blobs values,
          fields_bytes-append (blobs 2 messages) after_messages,
          fields_bytes-append (blobs 3 keys) after_keys,
          fields_bytes-append (blobs 4 (map write_to values)) after_values,
          append_assoc (write_tag 1 2) (write_varint (length name)) name,
          append-nil (write_tag 5 0 ++ write_varint extent),
        )
        refl

  layer_fields-IsField : extent < 2 ^ 32 → All IsField layer_fields
  layer_fields-IsField h = (
    (omega arith, omega arith),
    (
      omega arith,
      All-append IsField (blobs 2 messages) after_messages (blobs-IsField 2 messages (omega arith))
          (All-append IsField (blobs 3 keys) after_keys (blobs-IsField 3 keys (omega arith)) (
            All-append IsField (blobs 4 (map write_to values)) after_values
              (blobs-IsField 4 (map write_to values) (omega arith))
              ((omega arith, omega arith), tt))),
    ),
  )

  values_field : bytes_of 4 layer_fields ≡ map write_to values
  unfolding bytes_of
  values_field =
      bytes_of-other 4 2 messages after_messages refl
      ∙ bytes_of-other 4 3 keys after_keys refl
      ∙ bytes_of-blobs_append 4 (map write_to values) after_values
      ∙ append-nil (map write_to values)

  keys_field : bytes_of 3 layer_fields ≡ keys
  unfolding bytes_of
  keys_field =
      bytes_of-other 3 2 messages after_messages refl
      ∙ bytes_of-blobs_append 3 keys after_keys
      ∙ ap (λ t. keys ++ t) (bytes_of-other 3 4 (map write_to values) after_values refl)
      ∙ append-nil keys

  messages_field : bytes_of 2 layer_fields ≡ messages
  unfolding bytes_of
  messages_field =
      bytes_of-blobs_append 2 messages after_messages
      ∙ ap (λ t. messages ++ t)
          (bytes_of-other 2 3 keys after_keys refl
            ∙ bytes_of-other 2 4 (map write_to values) after_values refl)
      ∙ append-nil messages

  extent_field : varints_of 5 layer_fields ≡ extent ∷ []
  unfolding varints_of
  extent_field =
      varints_of-blobs 5 2 messages after_messages
      ∙ varints_of-blobs 5 3 keys after_keys
      ∙ varints_of-blobs 5 4 (map write_to values) after_values

read_layer-parts :
    (bytes : List ℕ) (fields : List Field) (keys value_bytes messages : List (List ℕ))
    (values : List Decoded) (features : List FeatureView) (name : List ℕ) (extent : ℕ)
    → read_message bytes ≡ some fields
    → bytes_of 4 fields ≡ value_bytes
    → traverse read_value value_bytes ≡ some values
    → bytes_of 3 fields ≡ keys
    → bytes_of 2 fields ≡ messages
    → traverse (read_feature keys values) messages ≡ some features
    → head_or 0 (varints_of 15 fields) ≡ 2
    → head_or [] (bytes_of 1 fields) ≡ name
    → head_or 4096 (varints_of 5 fields) ≡ extent
    → read_layer bytes ≡ some (record { name = name; extent = extent; features = features })
unfolding read_layer
read_layer-parts bytes fields keys value_bytes messages values features name extent e₀ e₁ e₂ e₃ e₄
      e₅ e₆ e₇ e₈ =
    rw (read_layer, e₀, e₁, e₂, e₃, e₄, e₅, e₆, e₇, e₈) refl

read_tile-parts :
    (bytes body : List ℕ) (seen : LayerView)
    → read_message bytes ≡ some (bytes_field 3 body ∷ [])
    → read_layer body ≡ some seen
    → read_tile bytes ≡ some (seen ∷ [])
unfolding read_tile bytes_of
read_tile-parts bytes body seen e₀ e₁ = rw (read_tile, e₀, e₁) refl

module _ (layer : MvtLayer) where
  abbrev done : Tables × List ℕ
  done = encode_features layer.property_filter layer.features no_tables

  -- The parts of a layer's bytes that are read on their own are no longer than the whole.
  length-parts :
      (length done.1 ≤ length (layer_bytes layer))
      × (length (write_values done.0.values) ≤ length (layer_bytes layer))
  unfolding layer_bytes
  length-parts =
      let head : List ℕ = write_tag 15 0 ++ write_varint 2 in
      let titled : List ℕ = write_string_field 1 layer.name in
      let ks : List ℕ = write_keys done.0.keys in
      let vs : List ℕ = write_values done.0.values in
      let end : List ℕ = write_tag 5 0 ++ write_varint layer.extent in
      let a = length-append head (titled ++ (done.1 ++ (ks ++ (vs ++ end)))) in
      let b = length-append titled (done.1 ++ (ks ++ (vs ++ end))) in
      let c = length-append done.1 (ks ++ (vs ++ end)) in
      let d = length-append ks (vs ++ end) in
      let e = length-append vs end in (omega arith, omega arith)

  read_layer-layer_bytes :
      IsLayer layer
      → length (layer_bytes layer) < 2 ^ 64
      → read_layer (layer_bytes layer) ≡ some (layer_view layer)
  unfolding layer_view
  read_layer-layer_bytes ok small =
      let (some_bytes, value_bytes) = length-parts in
      let consistent : IsConsistent no_tables = record {
        keys_at = tt;
        values_at = tt;
        proper = tt;
      } in
      let enc =
        encode_features-Encoded layer.property_filter layer.features no_tables ok.proper_features
          consistent (omega arith) (omega arith) (omega arith) in
      let keys : List (List ℕ) = done.0.keys in
      let values : List MvtValue = done.0.values in
      let fields : List Field = layer_fields layer.name layer.extent enc.messages keys values in
      let written : layer_bytes layer ≡ fields_bytes fields =
        unfold layer_bytes in
        rw enc.bytes_are (layer_fields-bytes layer.name layer.extent enc.messages keys values) in
      read_layer-parts (layer_bytes layer) fields keys (map write_to values) enc.messages
        (map meaning values) (map (view layer.property_filter) layer.features) layer.name
        layer.extent
        (ap read_message written
          ∙ read_message-fields_bytes fields
              (layer_fields-IsField layer.name layer.extent enc.messages keys values ok.extent_u32)
              (subst (λ bytes. length bytes < 2 ^ 64) written small))
        (values_field layer.name layer.extent enc.messages keys values)
        (traverse-read_value values (enc.tables_consistent).proper (omega arith))
        (keys_field layer.name layer.extent enc.messages keys values)
        (messages_field layer.name layer.extent enc.messages keys values) enc.features_read
        (unfold varints_of in refl) (unfold bytes_of in refl)
        (ap (head_or 4096) (extent_field layer.name layer.extent enc.messages keys values))

  -- The tile of a proper layer, if it is shorter than 2 ^ 64 bytes, is read back as that layer: its
  -- name, its extent, and every feature with its id, the properties that pass the filter in their
  -- order, and its rings. A proper layer has an extent that fits a u32, at most 2 ^ 32 properties,
  -- and features whose values and polygons are what their types allow.
  pub read_tile-encode :
      IsLayer layer
      → length (encode layer) < 2 ^ 64
      → read_tile (encode layer) ≡ some (layer_view layer ∷ [])
  read_tile-encode ok small =
      let body : List ℕ = layer_bytes layer in
      let written : encode layer ≡ fields_bytes (bytes_field 3 body ∷ []) =
        unfold encode in
        sym (append-nil (delimited 3 body)) ∙ (unfold field_bytes in unfold write_tag in refl) in
      let shorter : length body ≤ length (encode layer) =
        unfold encode in length-delimited 3 body in
      read_tile-parts (encode layer) body (layer_view layer)
        (ap read_message written
          ∙ read_message-fields_bytes (bytes_field 3 body ∷ []) (omega arith, tt)
              (subst (λ bytes. length bytes < 2 ^ 64) written small))
        (read_layer-layer_bytes ok (omega arith))
