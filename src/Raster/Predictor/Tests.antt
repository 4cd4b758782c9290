-- ===== src/Raster/Predictor/Tests.antt =====
-- Chunks on concrete bytes.
use raster_h.Common.{
  ℕ, ◌≡◌, ◌⊎◌, refl, false, some, List, [], ◌∷◌, ◌++◌, length, length-append, arith, ok, err,
  invalid_metadata,
}
use raster_h.Raster.Predictor.{
  big_endian, horizontal, floating_point, white_is_zero, ChunkEncoding, TiffSample, validate,
  checked_mul, checked_add, last_row, predict_from, predict_row, predict_rows,
  apply_horizontal_predictor, wrapping_add, sample, samples, copy_rows, copy_all, is_little,
  unpack_samples, invert_white_is_zero, inverted, unpack_integer_samples,
}
use raster_h.Raster.Predictor.Differences.{difference}
use raster_h.Raster.Predictor.Floats.{unpack_float}
use raster_h.Raster.Predictor.FloatRows.{pack_floats, valid_columns, unpack_float-pack_floats}
use raster_h.Raster.Predictor.Integers.{encode_chunk, stored, map_rows, differenced}
use raster_h.Raster.Predictor.Planes.{encoded_floats, length-encoded_floats}
use raster_h.Raster.Predictor.RoundTrip.{unpack_integer_samples-encode_chunk}
use raster_h.Raster.Predictor.Samples.{Rows, pack, flatten, row_bytes, sample_bytes, AreRows}
use raster_h.Raster.Predictor.Total.{unpack_integer_samples-returns}
use raster_h.Raster.Predictor.Validate.{IsValid}

-- Big-endian u16 samples in a tile of three columns, of which two are valid.
abbrev encoding : ChunkEncoding
encoding = record {
  tile_w = 3;
  data_w = 2;
  data_h = 2;
  spp = 1;
  byte_order = big_endian;
  predictor = horizontal;
  photometric = white_is_zero;
}

abbrev u16_sample : TiffSample
u16_sample = record { bytes = 2; signed = false }

abbrev image : Rows
image = ((5 ∷ 3 ∷ []), (0 ∷ 0 ∷ [])) ∷ ((65535 ∷ 0 ∷ []), []) ∷ []

abbrev target : List ℕ
target = 1 ∷ 2 ∷ 3 ∷ 4 ∷ 5 ∷ []

program : Unit {0}
unfolding validate checked_mul checked_add last_row predict_from predict_row predict_rows
    apply_horizontal_predictor wrapping_add sample samples copy_rows copy_all is_little
    unpack_samples invert_white_is_zero inverted unpack_integer_samples difference encode_chunk
    stored map_rows differenced pack flatten row_bytes sample_bytes AreRows
program = tt

encoded_image :
    encode_chunk u16_sample encoding image
    ≡ 0xff ∷ 0xfa ∷ 0x00 ∷ 0x02 ∷ 0 ∷ 0 ∷ 0 ∷ 0 ∷ 0xff ∷ 0xff ∷ []
unfolding program
encoded_image = refl

unpack_image :
    unpack_integer_samples u16_sample
      (0xff ∷ 0xfa ∷ 0x00 ∷ 0x02 ∷ 0 ∷ 0 ∷ 0 ∷ 0 ∷ 0xff ∷ 0xff ∷ [])
      target
      encoding
    ≡ some (ok (5 ∷ 3 ∷ 65535 ∷ 0 ∷ 65530 ∷ []))
unfolding program
unpack_image = refl

unpack_integer_samples-encode_chunk_example :
    unpack_integer_samples u16_sample (encode_chunk u16_sample encoding image) target encoding
    ≡ some (ok (flatten image ++ stored u16_sample white_is_zero (5 ∷ [])))
unfolding program
unpack_integer_samples-encode_chunk_example =
    unpack_integer_samples-encode_chunk u16_sample encoding image target refl (refl, refl, refl)
      ((omega arith, (omega arith, tt)), ((omega arith, (omega arith, tt)), tt)) refl

unpack_integer_samples-returns_example :
    (unpack_integer_samples u16_sample (1 ∷ 2 ∷ 3 ∷ []) target encoding
      ≡ some (err invalid_metadata))
    ⊎ (IsValid encoding 3 5 2
        × ((out : List ℕ) × (unpack_integer_samples u16_sample (1 ∷ 2 ∷ 3 ∷ []) target encoding
              ≡ some (ok out))
            × (length out ≡ 5)))
unpack_integer_samples-returns_example =
    unpack_integer_samples-returns u16_sample (1 ∷ 2 ∷ 3 ∷ []) target encoding

abbrev float_encoding : ChunkEncoding
float_encoding = record encoding { tile_w = 2; data_w = 1; predictor = floating_point }

abbrev float_rows : List (List ℕ)
float_rows = (0x3f800000 ∷ 0x40000000 ∷ []) ∷ (0xbf800000 ∷ 0 ∷ []) ∷ []

length-float_rows : length (pack_floats 4 1 float_rows) ≡ 16
unfolding pack_floats
length-float_rows = omega (
  arith,
  length-append (encoded_floats 4 1 (0x3f800000 ∷ 0x40000000 ∷ []))
      (encoded_floats 4 1 (0xbf800000 ∷ 0 ∷ []) ++ []),
  length-append (encoded_floats 4 1 (0xbf800000 ∷ 0 ∷ [])) [],
  length-encoded_floats 4 1 (0x3f800000 ∷ 0x40000000 ∷ []),
  length-encoded_floats 4 1 (0xbf800000 ∷ 0 ∷ []),
)

unpack_float-pack_floats_example :
    unpack_float (λ x. x) 4 (pack_floats 4 1 float_rows) (8 ∷ 9 ∷ []) float_encoding
    ≡ some (ok (valid_columns (λ x. x) float_encoding float_rows ++ []))
unfolding program
unpack_float-pack_floats_example =
    unpack_float-pack_floats (λ x. x) 4 float_encoding float_rows (8 ∷ 9 ∷ []) (omega arith) refl
      refl
      ((refl, (omega arith, (omega arith, tt))), ((refl, (omega arith, (omega arith, tt))), tt))
      (rw length-float_rows refl)
