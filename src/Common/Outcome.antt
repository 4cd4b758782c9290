-- ===== src/Common/Outcome.antt =====
-- `Result<T, RasterH3Error>` of crates/raster-h3-core/src/error.rs: a value or the error's variant.
-- An error keeps the variant; the text of its message is kept for a failed stream only.
use Prim.Native.Nat.{ℕ}
use mathlib.Core.Path.{◌≡◌, refl, ap}
use mathlib.Core.List.{List}
use mathlib.Core.Logic.{◌⊎◌, inl, inr}

pub data RasterH3Error : Type 0 where
  io_unexpected_eof : RasterH3Error
  io_invalid_data : RasterH3Error
  invalid_metadata : RasterH3Error
  invalid_parameter : RasterH3Error
  stream_failed : List ℕ → RasterH3Error

pub data Result {ℓ} (X : Type ℓ) : Type ℓ where
  err : RasterH3Error → Result X
  ok : X → Result X

-- `?`
infixl 5 ◌>>=◌
abbrev pub ◌>>=◌ {ℓ κ} : {X : Type ℓ} {Y : Type κ} → Result X → (X → Result Y) → Result Y
err x >>= next = err x
ok v >>= next = next v

-- What a `?` that answered went through, and one that failed.
module _ {ℓ κ} {X : Type ℓ} {Y : Type κ} where
  pub >>=-eq-ok :
      (r : Result X) (next : X → Result Y) {w : Y}
      → (r >>= next) ≡ ok w
      → (v : X) × (r ≡ ok v) × (next v ≡ ok w)
  >>=-eq-ok (err x) next e = cc
  >>=-eq-ok (ok v) next e = (v, refl, e)

  pub >>=-eq-err :
      (r : Result X) (next : X → Result Y) {x : RasterH3Error}
      → (r >>= next) ≡ err x
      → (r ≡ err x) ⊎ ((v : X) × (r ≡ ok v) × (next v ≡ err x))
  >>=-eq-err (err y) next {x = x} e = let same : y ≡ x = cc in inl (ap err same)
  >>=-eq-err (ok v) next e = inr (v, refl, e)
