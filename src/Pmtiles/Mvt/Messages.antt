-- ===== src/Pmtiles/Mvt/Messages.antt =====
-- The repeated fields of a layer, as `MvtLayer::encode` of crates/raster-h3-core/src/pmtiles/mvt.rs
-- writes them: features, keys and values, each found by its number.
use raster_h.Common.{
  ℕ, ◌^◌, ◌≤◌, ◌<◌, ◌≡◌, refl, ap, ap₂, false, some, List, [], ◌∷◌, ◌++◌, map, append_assoc, length,
  length-append, All, ◌==◌, ==_self, arith,
}
use raster_h.Pmtiles.Mvt.Decoded.{meaning, read_value, read_value-write_to}
use raster_h.Pmtiles.Mvt.Encode.{write_keys, write_values, delimited}
use raster_h.Pmtiles.Mvt.Message.{Field, bytes_field, IsField, field_bytes, fields_bytes}
use raster_h.Pmtiles.Mvt.Reader.{bytes_of, varints_of, traverse}
use raster_h.Pmtiles.Mvt.Value.{MvtValue, IsValue, write_to, write_tag, write_string_field}
use raster_h.Pmtiles.Varint.{write_varint}

abbrev pub blobs : ℕ → List (List ℕ) → List Field
blobs n [] = []
blobs n (b ∷ bs) = bytes_field n b ∷ blobs n bs

pub bytes_of-blobs_append :
    (n : ℕ) (bs : List (List ℕ)) (fs : List Field)
    → bytes_of n (blobs n bs ++ fs) ≡ bs ++ bytes_of n fs
unfolding bytes_of
bytes_of-blobs_append n [] fs = refl
bytes_of-blobs_append n (b ∷ bs) fs =
    rw (==_self n) (ap (λ t. b ∷ t) (bytes_of-blobs_append n bs fs))

pub bytes_of-other :
    (n m : ℕ) (bs : List (List ℕ)) (fs : List Field)
    → (m == n) ≡ false
    → bytes_of n (blobs m bs ++ fs) ≡ bytes_of n fs
unfolding bytes_of
bytes_of-other n m [] fs h = refl
bytes_of-other n m (b ∷ bs) fs h = rw h (bytes_of-other n m bs fs h)

pub varints_of-blobs :
    (n m : ℕ) (bs : List (List ℕ)) (fs : List Field)
    → varints_of n (blobs m bs ++ fs) ≡ varints_of n fs
unfolding varints_of
varints_of-blobs n m [] fs = refl
varints_of-blobs n m (b ∷ bs) fs = varints_of-blobs n m bs fs

pub blobs-IsField : (m : ℕ) (bs : List (List ℕ)) → m < 2 ^ 29 → All IsField (blobs m bs)
blobs-IsField m [] h = tt
blobs-IsField m (b ∷ bs) h = (h, blobs-IsField m bs h)

pub write_keys-blobs : (ks : List (List ℕ)) → write_keys ks ≡ fields_bytes (blobs 3 ks)
unfolding write_keys write_string_field write_tag field_bytes
write_keys-blobs [] = refl
write_keys-blobs (k ∷ ks) =
    ap₂ (λ a b. a ++ b) (append_assoc (write_tag 3 2) (write_varint (length k)) k)
      (write_keys-blobs ks)

pub write_values-blobs :
    (vs : List MvtValue) → write_values vs ≡ fields_bytes (blobs 4 (map write_to vs))
unfolding write_values field_bytes write_tag
write_values-blobs [] = refl
write_values-blobs (v ∷ vs) = ap (λ t. delimited 4 (write_to v) ++ t) (write_values-blobs vs)

pub length-delimited : (n : ℕ) (bytes : List ℕ) → length bytes ≤ length (delimited n bytes)
length-delimited n bytes = omega (
  arith,
  length-append (write_tag n 2) (write_varint (length bytes) ++ bytes),
  length-append (write_varint (length bytes)) bytes,
)

pub traverse-read_value :
    (vs : List MvtValue)
    → All IsValue vs
    → length (write_values vs) < 2 ^ 64
    → traverse read_value (map write_to vs) ≡ some (map meaning vs)
unfolding write_values
traverse-read_value [] h small = refl
traverse-read_value (v ∷ vs) h small =
    let sum = length-append (delimited 4 (write_to v)) (write_values vs) in
    let own = length-delimited 4 (write_to v) in
    rw (read_value-write_to v h.0 (omega arith), traverse-read_value vs h.1 (omega arith)) refl
