-- ===== src/Pmtiles/Mvt/Encoded.antt =====
-- The loop of `MvtLayer::encode` of crates/raster-h3-core/src/pmtiles/mvt.rs over the features of a
-- layer: every message it writes is read with the tables that the whole loop leaves.
use raster_h.Common.{
  ℕ, ◌+◌, ◌^◌, ◌≤◌, ◌<◌, ◌≡◌, refl, ap, ap₂, sym, ◌∙◌, subst, Option, some, List, [], ◌∷◌, ◌++◌,
  map, length, length-append, All, arith,
}
use raster_h.Pmtiles.Mvt.Decoded.{meaning}
use raster_h.Pmtiles.Mvt.Encode.{Tables, add_properties, encode_features, feature_bytes, delimited}
use raster_h.Pmtiles.Mvt.Features.{IsFeature, view, read_feature-feature_bytes}
use raster_h.Pmtiles.Mvt.Layer.{MvtFeature}
use raster_h.Pmtiles.Mvt.Message.{field_bytes, fields_bytes}
use raster_h.Pmtiles.Mvt.Messages.{blobs, length-delimited}
use raster_h.Pmtiles.Mvt.Properties.{PropertyFilter, for_each_filtered}
use raster_h.Pmtiles.Mvt.Reader.{read_feature, traverse, resolve}
use raster_h.Pmtiles.Mvt.Tables.{
  IsConsistent, Grows, Grows-self, Grows-trans, length-keys, length-values,
}
use raster_h.Pmtiles.Mvt.Tags.{Tagged, add_properties-Tagged, resolve-append, map_append, views}
use raster_h.Pmtiles.Mvt.Value.{write_tag}

-- How many properties the features of a layer have together.
unfoldable pub total_properties : PropertyFilter → List MvtFeature → ℕ
total_properties filter [] = 0
total_properties filter (feat ∷ feats) =
    length (for_each_filtered feat.properties filter) + total_properties filter feats

pub record Encoded (filter : PropertyFilter) (feats : List MvtFeature) (t : Tables)
    (r : Tables × List ℕ) : Type 0 where
  pub messages : List (List ℕ)
  pub bytes_are : r.1 ≡ fields_bytes (blobs 2 messages)
  pub tables_grow : Grows (total_properties filter feats) (total_properties filter feats) t r.0
  pub tables_consistent : IsConsistent r.0
  pub features_read :
      traverse (read_feature r.0.keys (map meaning r.0.values)) messages
      ≡ some (map (view filter) feats)

traverse-cons {ℓ κ} :
    {A : Type ℓ} {B : Type κ} (f : A → Option B) (x : A) (xs : List A) (y : B) (ys : List B)
    → f x ≡ some y
    → traverse f xs ≡ some ys
    → traverse f (x ∷ xs) ≡ some (y ∷ ys)
traverse-cons f x xs y ys p q = rw (p, q) refl

-- The message of one feature in front of those of the features behind it.
encode_feature :
    (filter : PropertyFilter) (feat : MvtFeature) (feats : List MvtFeature) (t : Tables)
    (added r : Tables × List ℕ)
    → IsFeature filter feat
    → Tagged (for_each_filtered feat.properties filter) t [] added
    → length (feature_bytes feat added.1) < 2 ^ 64
    → Encoded filter feats added.0 r
    → Encoded filter (feat ∷ feats) t (r.0, delimited 2 (feature_bytes feat added.1) ++ r.1)
unfolding total_properties view
encode_feature filter feat feats t added r ok tagged small rest = record {
  messages = feature_bytes feat added.1 ∷ rest.messages;
  bytes_are =
      ap (λ x. delimited 2 (feature_bytes feat added.1) ++ x) rest.bytes_are
      ∙ (unfold field_bytes in unfold write_tag in refl);
  tables_grow =
      Grows-trans n n (total_properties filter feats) (total_properties filter feats) t added.0 r.0
        tagged.tags_grow rest.tables_grow;
  tables_consistent = rest.tables_consistent;
  features_read =
      traverse-cons (read_feature r.0.keys (map meaning r.0.values)) (feature_bytes feat added.1)
        rest.messages (view filter feat) (map (view filter) feats) first rest.features_read;
}
  where
    n : ℕ
    n = length (for_each_filtered feat.properties filter)

    grown :
        resolve r.0.keys (map meaning r.0.values) tagged.idxs
        ≡ some (views (for_each_filtered feat.properties filter))
    grown =
        ap₂ (λ ks vs. resolve ks vs tagged.idxs) rest.tables_grow.keys_grow
          (ap (map meaning) rest.tables_grow.values_grow
            ∙ map_append meaning added.0.values rest.tables_grow.more_values)
        ∙ resolve-append added.0.keys (map meaning added.0.values) rest.tables_grow.more_keys
            (map meaning rest.tables_grow.more_values) tagged.idxs _ tagged.resolved

    first :
        read_feature r.0.keys (map meaning r.0.values) (feature_bytes feat added.1)
        ≡ some (view filter feat)
    first =
        subst
          (λ tags.
            length (feature_bytes feat tags) < 2 ^ 64
            → read_feature r.0.keys (map meaning r.0.values) (feature_bytes feat tags)
              ≡ some (view filter feat))
          (sym tagged.tags_are)
          (λ fits.
            read_feature-feature_bytes filter feat r.0.keys (map meaning r.0.values) tagged.idxs
              (views (for_each_filtered feat.properties filter)) ok tagged.idxs-IsU64 grown fits)
          small

pub encode_features-Encoded :
    (filter : PropertyFilter) (feats : List MvtFeature) (t : Tables)
    → All (IsFeature filter) feats
    → IsConsistent t
    → length t.keys + total_properties filter feats ≤ 2 ^ 32
    → length t.values + total_properties filter feats ≤ 2 ^ 32
    → length (encode_features filter feats t).1 < 2 ^ 64
    → Encoded filter feats t (encode_features filter feats t)
unfolding encode_features total_properties
encode_features-Encoded filter [] t h c few_k few_v small = record {
  messages = [];
  bytes_are = refl;
  tables_grow = Grows-self 0 0 t;
  tables_consistent = c;
  features_read = refl;
}
encode_features-Encoded filter (feat ∷ feats) t h c few_k few_v small =
    let props = for_each_filtered feat.properties filter in
    let added : Tables × List ℕ = add_properties props t [] in
    let tagged =
      add_properties-Tagged props t [] (h.0).values_proper c (omega arith) (omega arith) in
    let keys = length-keys (length props) (length props) t added.0 tagged.tags_grow in
    let values = length-values (length props) (length props) t added.0 tagged.tags_grow in
    let rest : Tables × List ℕ = encode_features filter feats added.0 in
    let sum = length-append (delimited 2 (feature_bytes feat added.1)) rest.1 in
    let own = length-delimited 2 (feature_bytes feat added.1) in
    encode_feature filter feat feats t added rest h.0 tagged (omega arith) (
      encode_features-Encoded filter feats added.0 h.1 tagged.tags_consistent (omega arith)
        (omega arith) (omega arith))
