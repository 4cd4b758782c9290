-- ===== src/Pmtiles/Mvt/Packed.antt =====
-- Packed varints, as the tags and the geometry of a feature of
-- crates/raster-h3-core/src/pmtiles/mvt.rs are written.
use raster_h.Common.{
  ℕ, zero, suc, ◌^◌, ◌≤◌, ◌<◌, ◌≡◌, refl, ap, sym, ◌∙◌, some, List, [], ◌∷◌, ◌++◌, append_assoc,
  length, length-append, All, arith,
}
use raster_h.Pmtiles.Mvt.Reader.{read_varints, read_packed}
use raster_h.Pmtiles.Varint.{write_varint, write_varint-cons, read_varint, read_varint-write_varint}

abbrev pub IsU64 : ℕ → Type 0
IsU64 v = v < 2 ^ 64

abbrev pub varints : List ℕ → List ℕ
varints [] = []
varints (v ∷ vs) = write_varint v ++ varints vs

pub varints-append : (vs ws : List ℕ) → varints (vs ++ ws) ≡ varints vs ++ varints ws
varints-append [] ws = refl
varints-append (v ∷ vs) ws =
    ap (λ t. write_varint v ++ t) (varints-append vs ws)
    ∙ sym (append_assoc (write_varint v) (varints vs) (varints ws))

read_varints-step :
    (fuel : ℕ) (bs : List ℕ) (v : ℕ) (rest vs : List ℕ)
    → ((b : ℕ) × (more : List ℕ) × (bs ≡ b ∷ more))
    → read_varint bs ≡ some (v, rest)
    → read_varints fuel rest ≡ some vs
    → read_varints (suc fuel) bs ≡ some (v ∷ vs)
unfolding read_varints
read_varints-step fuel [] v rest vs (b, more, e) h k = cc
read_varints-step fuel (c ∷ bs) v rest vs shape h k = rw (read_varints, h, k) refl

read_varints-enough :
    (fuel : ℕ) (vs : List ℕ)
    → All IsU64 vs
    → length (varints vs) ≤ fuel
    → read_varints fuel (varints vs) ≡ some vs
unfolding read_varints
read_varints-enough zero [] h enough = refl
read_varints-enough (suc fuel) [] h enough = refl
read_varints-enough zero (v ∷ vs) h enough =
    let (b, bs, e) = write_varint-cons v in
    absurd (omega (arith, length-append (write_varint v) (varints vs), ap length e))
read_varints-enough (suc fuel) (v ∷ vs) h enough =
    let (b, bs, e) = write_varint-cons v in
    let sum = length-append (write_varint v) (varints vs) in
    let one = ap length e in
    read_varints-step fuel (write_varint v ++ varints vs) v (varints vs) vs
      (b, bs ++ varints vs, ap (λ t. t ++ varints vs) e)
      (read_varint-write_varint v (varints vs) h.0) (read_varints-enough fuel vs h.1 (omega arith))

-- Reading packed varints gives the numbers that were written.
pub read_packed-varints : (vs : List ℕ) → All IsU64 vs → read_packed (varints vs) ≡ some vs
read_packed-varints vs h = read_varints-enough (length (varints vs)) vs h (omega arith)
