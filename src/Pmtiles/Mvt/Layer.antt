-- ===== src/Pmtiles/Mvt/Layer.antt =====
-- `MvtFeature` and the layer builder `MvtLayer` of crates/raster-h3-core/src/pmtiles/mvt.rs. The
-- coordinates are i32, kept as their 32 bits; a set of ids is the list of what was inserted.
use raster_h.Common.{
  ℕ, ◌≤◌, ◌≡◌, refl, Bool, false, ◌||◌, List, [], ◌∷◌, ◌++◌, length, ltb, ◌==◌, if◌then◌else◌,
  if-elim, ◌+◌, arith,
}
use raster_h.Pmtiles.Mvt.Properties.{PropertyFilter, FeatureProperties, all}

pub record MvtFeature : Type 0 where
  pub id : ℕ
  pub properties : FeatureProperties
  pub polygon_x : List ℕ
  pub polygon_y : List ℕ
  pub num_points : ℕ
  pub wrapped_x_offset : ℕ

pub record MvtLayer : Type 0 where
  pub name : List ℕ
  pub extent : ℕ
  pub features : List MvtFeature
  pub property_filter : PropertyFilter
  pub seen_ids : List ℕ

unfoldable pub with_filter : List ℕ → PropertyFilter → MvtLayer
with_filter name filter = record {
  name = name;
  extent = 4096;
  features = [];
  property_filter = filter;
  seen_ids = [];
}

unfoldable pub new : List ℕ → MvtLayer
new name = record {
  name = name;
  extent = 4096;
  features = [];
  property_filter = all;
  seen_ids = [];
}

unfoldable pub seen : ℕ → List ℕ → Bool
seen id [] = false
seen id (i ∷ is) = (i == id) || seen id is

unfoldable pub add_feature : MvtFeature → MvtLayer → MvtLayer
add_feature feature layer = record layer {
  seen_ids = feature.id ∷ layer.seen_ids;
  features = layer.features ++ (feature ∷ []);
}

unfoldable pub add_or_merge_feature : MvtFeature → MvtLayer → MvtLayer
add_or_merge_feature feature layer =
    if seen feature.id layer.seen_ids then layer else record layer {
      seen_ids = feature.id ∷ layer.seen_ids;
      features = layer.features ++ (feature ∷ []);
    }

-- The projection of a boundary to the tile is floating-point arithmetic: `from_mercator` stands for
-- `MvtFeature::from_mercator` at the tile and the extent of the layer.
module _ {P : Type 0} (from_mercator : ℕ → List P → FeatureProperties → MvtFeature) where
  unfoldable pub add_hexagon_mercator : ℕ → List P → FeatureProperties → MvtLayer → MvtLayer
  add_hexagon_mercator id vertices properties layer =
      if ltb (length vertices) 3 then layer else record layer {
        seen_ids = id ∷ layer.seen_ids;
        features = layer.features ++ (from_mercator id vertices properties ∷ []);
      }

  unfoldable pub add_or_merge_hexagon_mercator :
      ℕ → List P → FeatureProperties → MvtLayer → MvtLayer
  add_or_merge_hexagon_mercator id vertices properties layer =
      if seen id layer.seen_ids
      then layer
      else if ltb (length vertices) 3
      then record layer { seen_ids = id ∷ layer.seen_ids }
      else record layer {
        seen_ids = id ∷ layer.seen_ids;
        features = layer.features ++ (from_mercator id vertices properties ∷ []);
      }

unfoldable pub count_id : ℕ → List MvtFeature → ℕ
count_id id [] = 0
count_id id (feat ∷ feats) = (if feat.id == id then 1 else 0) + count_id id feats

-- No two features have one id, and the ids of all features are among those seen.
pub record HasUniqueIds (layer : MvtLayer) : Type 0 where
  pub once : (id : ℕ) → count_id id layer.features ≤ 1
  pub noted : (id : ℕ) → seen id layer.seen_ids ≡ false → count_id id layer.features ≡ 0

count_id-append :
    (id : ℕ) (feats : List MvtFeature) (feat : MvtFeature)
    → count_id id (feats ++ (feat ∷ [])) ≡ count_id id feats + (if feat.id == id then 1 else 0)
unfolding count_id
count_id-append id [] feat = omega arith
count_id-append id (f ∷ fs) feat = omega (arith, count_id-append id fs feat)

-- A feature under an id that was not seen.
appended :
    (layer : MvtLayer) (id : ℕ) (feat : MvtFeature)
    → feat.id ≡ id
    → seen id layer.seen_ids ≡ false
    → HasUniqueIds layer
    → HasUniqueIds
        (record layer { seen_ids = id ∷ layer.seen_ids; features = layer.features ++ (feat ∷ []) })
unfolding seen
appended layer id feat same fresh h = record {
  once =
      λ i. ground (arith, count_id-append i layer.features feat, h.once i, h.noted i, same, fresh);
  noted =
      λ i unseen. ground (arith, count_id-append i layer.features feat, h.noted i, same, unseen);
}

noticed :
    (layer : MvtLayer) (id : ℕ)
    → HasUniqueIds layer
    → HasUniqueIds (record layer { seen_ids = id ∷ layer.seen_ids })
unfolding seen
noticed layer id h = record {
  once = h.once;
  noted = λ i unseen. h.noted i (ground (arith, unseen));
}

-- A new layer has no two features of one id and all their ids noted as seen, and both operations
-- that merge keep a layer so, where the projection gives its feature the id it was given.
pub merging-HasUniqueIds :
    {P : Type 0} (from_mercator : ℕ → List P → FeatureProperties → MvtFeature)
    → ((id : ℕ) (vertices : List P) (properties : FeatureProperties)
        → (from_mercator id vertices properties).id ≡ id)
    → (name : List ℕ) (filter : PropertyFilter) (feature : MvtFeature) (id : ℕ) (vertices : List P)
      (properties : FeatureProperties) (layer : MvtLayer)
    → HasUniqueIds layer
    → HasUniqueIds (with_filter name filter)
      × HasUniqueIds (add_or_merge_feature feature layer)
      × HasUniqueIds (add_or_merge_hexagon_mercator from_mercator id vertices properties layer)
unfolding with_filter add_or_merge_feature add_or_merge_hexagon_mercator count_id
merging-HasUniqueIds from_mercator keeps name filter feature id vertices properties layer h = (
  record { once = λ i. omega arith; noted = λ i unseen. refl },
  if-elim HasUniqueIds (seen feature.id layer.seen_ids) _ _ (λ _. h)
      (λ fresh. appended layer feature.id feature refl fresh h),
  if-elim HasUniqueIds (seen id layer.seen_ids) _ _ (λ _. h)
      (λ fresh.
        if-elim HasUniqueIds (ltb (length vertices) 3) _ _ (λ _. noticed layer id h)
          (λ _.
            appended layer id (from_mercator id vertices properties) (keeps id vertices properties)
              fresh h)),
)
