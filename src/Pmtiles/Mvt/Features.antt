-- ===== src/Pmtiles/Mvt/Features.antt =====
-- The message of one feature, as `MvtLayer::encode` of crates/raster-h3-core/src/pmtiles/mvt.rs
-- writes it, read back.
use raster_h.Common.{
  ℕ, suc, ◌+◌, ◌*◌, ◌%◌, ◌^◌, ◌<◌, ◌≡◌, refl, ap, sym, ◌∙◌, subst, Bool, true, false, some, List,
  [], ◌∷◌, ◌++◌, append-nil, length, All, ◌==◌, ==_iff, if◌then◌else◌, arith,
}
use raster_h.Pmtiles.Mvt.Decoded.{Decoded}
use raster_h.Pmtiles.Mvt.Encode.{feature_bytes, field_unless_empty, geom_bytes}
use raster_h.Pmtiles.Mvt.Geometry.{IsPolygon}
use raster_h.Pmtiles.Mvt.Layer.{MvtFeature}
use raster_h.Pmtiles.Mvt.Message.{
  Field, varint_field, bytes_field, IsField, field_bytes, fields_bytes, fields_bytes-append,
  read_message, read_message-fields_bytes,
}
use raster_h.Pmtiles.Mvt.Packed.{IsU64, varints, read_packed-varints}
use raster_h.Pmtiles.Mvt.Properties.{PropertyFilter, for_each_filtered}
use raster_h.Pmtiles.Mvt.Reader.{
  FeatureView, read_feature, read_packed, bytes_of, varints_of, head_or, resolve, read_rings,
}
use raster_h.Pmtiles.Mvt.Rings.{
  rings, geom_params, geom_bytes-varints, geom_params-IsU64, read_rings-rings,
}
use raster_h.Pmtiles.Mvt.Tags.{views, AreValues}
use raster_h.Pmtiles.Mvt.Value.{write_tag}
use raster_h.Pmtiles.Varint.{write_varint}

-- What a layer's feature satisfies: the id is a u64, the properties that pass are proper values,
-- the polygon is inside its arrays.
pub record IsFeature (filter : PropertyFilter) (feat : MvtFeature) : Type 0 where
  pub id_u64 : feat.id < 2 ^ 64
  pub values_proper : AreValues (for_each_filtered feat.properties filter)
  pub polygon : IsPolygon feat

-- A feature as a reader should see it.
unfoldable pub view : PropertyFilter → MvtFeature → FeatureView
view filter feat = record {
  id = feat.id;
  properties = views (for_each_filtered feat.properties filter);
  rings = rings feat;
}

unless_empty : ℕ → List ℕ → List Field
unless_empty n [] = []
unless_empty n (b ∷ bytes) = bytes_field n (b ∷ bytes) ∷ []

id_fields : Bool → ℕ → List Field
id_fields true id = []
id_fields false id = varint_field 1 id ∷ []

feature_fields : Bool → ℕ → List ℕ → List ℕ → List Field
feature_fields no_id id tags geom =
    id_fields no_id id ++ (unless_empty 2 tags ++ (varint_field 3 3 ∷ unless_empty 4 geom))

field_unless_empty-fields :
    (n : ℕ) (bytes : List ℕ)
    → n < 2 ^ 29
    → field_unless_empty n bytes ≡ fields_bytes (unless_empty n bytes)
unfolding field_unless_empty unless_empty field_bytes write_tag
field_unless_empty-fields n [] h = refl
field_unless_empty-fields n (b ∷ bytes) h =
    rw
      (
        low,
        append-nil (write_varint (n * 8 + 2) ++ (write_varint (suc (length bytes)) ++ (b ∷ bytes))),
      )
      refl
  where
    low : (n * 8) % 2 ^ 32 ≡ n * 8
    low = omega arith

id_bytes :
    (no_id : Bool) (id : ℕ)
    → (if no_id then [] else write_tag 1 0 ++ write_varint id) ≡ fields_bytes (id_fields no_id id)
unfolding id_fields field_bytes write_tag
id_bytes true id = refl
id_bytes false id = sym (append-nil (write_varint 8 ++ write_varint id))

feature_bytes-fields :
    (feat : MvtFeature) (tags : List ℕ)
    → feature_bytes feat tags
      ≡ fields_bytes (feature_fields (feat.id == 0) feat.id tags (geom_bytes feat))
unfolding feature_bytes feature_fields
feature_bytes-fields feat tags =
    let geom : List ℕ = geom_bytes feat in
    let behind : List Field = varint_field 3 3 ∷ unless_empty 4 geom in
    rw
      (
        id_bytes (feat.id == 0) feat.id,
        field_unless_empty-fields 2 tags (omega arith),
        field_unless_empty-fields 4 geom (omega arith),
        fields_bytes-append (id_fields (feat.id == 0) feat.id) (unless_empty 2 tags ++ behind),
        fields_bytes-append (unless_empty 2 tags) behind,
      )
      (unfold field_bytes in unfold write_tag in refl)

feature_fields-IsField :
    (no_id : Bool) (id : ℕ) (tags geom : List ℕ)
    → id < 2 ^ 64
    → All IsField (feature_fields no_id id tags geom)
unfolding feature_fields id_fields unless_empty
feature_fields-IsField true id [] [] h = ((omega arith, omega arith), tt)
feature_fields-IsField true id [] (b ∷ bs) h = ground arith
feature_fields-IsField true id (c ∷ cs) [] h = ground arith
feature_fields-IsField true id (c ∷ cs) (b ∷ bs) h = ground arith
feature_fields-IsField false id [] [] h = ground arith
feature_fields-IsField false id [] (b ∷ bs) h = ground arith
feature_fields-IsField false id (c ∷ cs) [] h = ground arith
feature_fields-IsField false id (c ∷ cs) (b ∷ bs) h = ground arith

tags_field :
    (no_id : Bool) (id : ℕ) (tags geom : List ℕ)
    → head_or [] (bytes_of 2 (feature_fields no_id id tags geom)) ≡ tags
unfolding bytes_of feature_fields id_fields unless_empty
tags_field true id [] [] = refl
tags_field true id [] (b ∷ bs) = refl
tags_field false id [] [] = refl
tags_field false id [] (b ∷ bs) = refl
tags_field true id (c ∷ cs) geom = refl
tags_field false id (c ∷ cs) geom = refl

geom_field :
    (no_id : Bool) (id : ℕ) (tags geom : List ℕ)
    → head_or [] (bytes_of 4 (feature_fields no_id id tags geom)) ≡ geom
unfolding bytes_of feature_fields id_fields unless_empty
geom_field true id [] [] = refl
geom_field true id [] (b ∷ bs) = refl
geom_field true id (c ∷ cs) [] = refl
geom_field true id (c ∷ cs) (b ∷ bs) = refl
geom_field false id [] [] = refl
geom_field false id [] (b ∷ bs) = refl
geom_field false id (c ∷ cs) [] = refl
geom_field false id (c ∷ cs) (b ∷ bs) = refl

type_field :
    (no_id : Bool) (id : ℕ) (tags geom : List ℕ)
    → head_or 0 (varints_of 3 (feature_fields no_id id tags geom)) ≡ 3
unfolding varints_of feature_fields id_fields unless_empty
type_field true id [] geom = refl
type_field true id (c ∷ cs) geom = refl
type_field false id [] geom = refl
type_field false id (c ∷ cs) geom = refl

id_field :
    (no_id : Bool) (id : ℕ) (tags geom : List ℕ)
    → (no_id ≡ true → 0 ≡ id)
    → head_or 0 (varints_of 1 (feature_fields no_id id tags geom)) ≡ id
unfolding varints_of feature_fields id_fields unless_empty
id_field true id [] [] h = h refl
id_field true id [] (b ∷ bs) h = h refl
id_field true id (c ∷ cs) [] h = h refl
id_field true id (c ∷ cs) (b ∷ bs) h = h refl
id_field false id tags geom h = refl

read_feature-parts :
    (keys : List (List ℕ)) (values : List Decoded) (bytes : List ℕ) (fields : List Field)
    (tags idxs geom params : List ℕ) (props : List (List ℕ × Decoded)) (id : ℕ)
    (rs : List (List (ℕ × ℕ)))
    → read_message bytes ≡ some fields
    → head_or [] (bytes_of 2 fields) ≡ tags
    → read_packed tags ≡ some idxs
    → resolve keys values idxs ≡ some props
    → head_or [] (bytes_of 4 fields) ≡ geom
    → read_packed geom ≡ some params
    → read_rings (length params) 0 0 params ≡ some rs
    → head_or 0 (varints_of 3 fields) ≡ 3
    → head_or 0 (varints_of 1 fields) ≡ id
    → read_feature keys values bytes ≡ some (record { id = id; properties = props; rings = rs })
unfolding read_feature
read_feature-parts keys values bytes fields tags idxs geom params props id rs e₀ e₁ e₂ e₃ e₄ e₅ e₆
      e₇ e₈ =
    rw (read_feature, e₀, e₁, e₂, e₃, e₄, e₅, e₆, e₇, e₈) refl

-- Reading the message of a feature, with tables in which its tags resolve, gives its id, those
-- properties and its rings.
pub read_feature-feature_bytes :
    (filter : PropertyFilter) (feat : MvtFeature) (keys : List (List ℕ)) (values : List Decoded)
    (idxs : List ℕ) (props : List (List ℕ × Decoded))
    → IsFeature filter feat
    → All IsU64 idxs
    → resolve keys values idxs ≡ some props
    → length (feature_bytes feat (varints idxs)) < 2 ^ 64
    → read_feature keys values (feature_bytes feat (varints idxs))
      ≡ some (record { id = feat.id; properties = props; rings = rings feat })
read_feature-feature_bytes filter feat keys values idxs props ok small found fits =
    let zero_id : Bool = feat.id == 0 in
    let tags : List ℕ = varints idxs in
    let geom : List ℕ = geom_bytes feat in
    let written = feature_bytes-fields feat tags in
    read_feature-parts keys values (feature_bytes feat tags)
      (feature_fields zero_id feat.id tags geom) tags idxs geom (geom_params feat) props feat.id
      (rings feat)
      (ap read_message written
        ∙ read_message-fields_bytes (feature_fields zero_id feat.id tags geom)
            (feature_fields-IsField zero_id feat.id tags geom ok.id_u64)
            (subst (λ bytes. length bytes < 2 ^ 64) written fits))
      (tags_field zero_id feat.id tags geom) (read_packed-varints idxs small) found
      (geom_field zero_id feat.id tags geom)
      (ap read_packed (geom_bytes-varints feat)
        ∙ read_packed-varints (geom_params feat) (geom_params-IsU64 feat ok.polygon))
      (read_rings-rings feat ok.polygon) (type_field zero_id feat.id tags geom)
      (id_field zero_id feat.id tags geom (λ z. sym ((==_iff feat.id 0).0 z)))
