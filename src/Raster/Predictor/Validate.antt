-- ===== src/Raster/Predictor/Validate.antt =====
-- `ChunkEncoding::validate` of crates/raster-h3-core/src/raster/predictor.rs.
use native.Mathlib.Nat.{mul-one, mul-le-mul_right, mul-le-mul_left}
use raster_h.Common.{
  ℕ, ◌+◌, ◌-◌, ◌*◌, ◌^◌, ◌≤◌, ◌<◌, ◌≡◌, refl, subst, lt→ltb, Bool, true, false, ltb, ◌==◌,
  if◌then◌else◌, arith, Bool-cases, inl, inr, if-elim, ◌⊎◌, ◌||◌, ◌↔◌, Result, ok, err, ◌>>=◌,
  invalid_metadata,
}
use raster_h.Raster.Predictor.{ChunkEncoding, checked_mul, checked_add, last_row, validate}

-- What a layout must satisfy for a chunk of `src_len` bytes and a target of `dst_len` samples.
pub record IsValid (e : ChunkEncoding) (src_len dst_len b : ℕ) : Type 0 where
  pub some_samples : 1 ≤ e.spp
  pub some_columns : 1 ≤ e.data_w
  pub some_rows : 1 ≤ e.data_h
  pub inside : e.data_w ≤ e.tile_w
  pub stride_u64 : e.tile_w * e.spp * b < 2 ^ 64
  pub source_is_long :
      e.tile_w * e.spp * b * (e.data_h - 1)
        + last_row e.predictor (e.tile_w * e.spp * b) (e.data_w * e.spp * b)
      ≤ src_len
  pub target_is_long : e.data_w * e.spp * e.data_h ≤ dst_len

-- A product that went through did not overflow.
mul_through :
    (a b : ℕ) (next : ℕ → Result (Unit {0}))
    → (checked_mul a b >>= next) ≡ ok tt
    → (a * b < 2 ^ 64) × (next (a * b) ≡ ok tt)
unfolding checked_mul
mul_through a b next h = elim (Bool-cases (ltb (a * b) (2 ^ 64))) [
  | inl small ↦ (ground (arith, small), (rw small at h))
  | inr large ↦
      absurd (
        let z : ◌≡◌ {A = Result (Unit {0})} (err invalid_metadata) (ok tt) = (rw large at h) in
        cc z)
]

add_through :
    (a b : ℕ) (next : ℕ → Result (Unit {0}))
    → (checked_add a b >>= next) ≡ ok tt
    → (a + b < 2 ^ 64) × (next (a + b) ≡ ok tt)
unfolding checked_add
add_through a b next h = elim (Bool-cases (ltb (a + b) (2 ^ 64))) [
  | inl small ↦ (ground (arith, small), (rw small at h))
  | inr large ↦
      absurd (
        let z : ◌≡◌ {A = Result (Unit {0})} (err invalid_metadata) (ok tt) = (rw large at h) in
        cc z)
]

test_through :
    (c : Bool) (next : Result (Unit {0}))
    → (if c then err invalid_metadata else next) ≡ ok tt
    → (c ≡ false) × (next ≡ ok tt)
test_through true next h = cc
test_through false next h = (refl, h)

abbrev rejected : ChunkEncoding → Bool
rejected e = (e.spp == 0) || (e.data_w == 0) || (e.data_h == 0) || ltb e.tile_w e.data_w

-- A check that fails has one error.
abbrev Answers : Result (Unit {0}) → Type 0
Answers r = (r ≡ err invalid_metadata) ⊎ (r ≡ ok tt)

mul-Answers :
    (a b : ℕ) (next : ℕ → Result (Unit {0}))
    → Answers (next (a * b))
    → Answers (checked_mul a b >>= next)
unfolding checked_mul
mul-Answers a b next h = elim (Bool-cases (ltb (a * b) (2 ^ 64))) [
  | inl small ↦ rw small h
  | inr large ↦ rw large (inl refl)
]

add-Answers :
    (a b : ℕ) (next : ℕ → Result (Unit {0}))
    → Answers (next (a + b))
    → Answers (checked_add a b >>= next)
unfolding checked_add
add-Answers a b next h = elim (Bool-cases (ltb (a + b) (2 ^ 64))) [
  | inl small ↦ rw small h
  | inr large ↦ rw large (inl refl)
]

pub validate-cases :
    (e : ChunkEncoding) (src_len dst_len b : ℕ) → Answers (validate e src_len dst_len b)
unfolding validate
validate-cases e src_len dst_len b =
    if-elim Answers (rejected e) _ _ (λ _. inl refl)
      (λ _. mul-Answers e.tile_w e.spp _ (
        mul-Answers (e.tile_w * e.spp) b _ (
          mul-Answers e.data_w e.spp _ (
            mul-Answers (e.data_w * e.spp) b _ (
              mul-Answers (e.data_w * e.spp) e.data_h _ (
                mul-Answers (e.tile_w * e.spp * b) (e.data_h - 1) _ (
                  add-Answers (e.tile_w * e.spp * b * (e.data_h - 1))
                    (last_row e.predictor (e.tile_w * e.spp * b) (e.data_w * e.spp * b)) _
                    (if-elim Answers
                      (ltb src_len (
                          e.tile_w * e.spp * b * (e.data_h - 1)
                          + last_row e.predictor (e.tile_w * e.spp * b) (e.data_w * e.spp * b))
                        || ltb dst_len (e.data_w * e.spp * e.data_h))
                      _ _ (λ _. inl refl) (λ _. inr refl)))))))))

small : (a : ℕ) → a < 2 ^ 64 → ltb a (2 ^ 64) ≡ true
small a h = lt→ltb a (2 ^ 64) h

pub validate-IsValid :
    (e : ChunkEncoding) (src_len dst_len b : ℕ)
    → validate e src_len dst_len b ≡ ok tt
    → IsValid e src_len dst_len b
unfolding validate
validate-IsValid e src_len dst_len b h =
    let (good, h₀) = test_through (rejected e) _ h in
    let (_, h₁) = mul_through e.tile_w e.spp _ h₀ in
    let (stride, h₂) = mul_through (e.tile_w * e.spp) b _ h₁ in
    let (_, h₃) = mul_through e.data_w e.spp _ h₂ in
    let (_, h₄) = mul_through (e.data_w * e.spp) b _ h₃ in
    let (_, h₅) = mul_through (e.data_w * e.spp) e.data_h _ h₄ in
    let (_, h₆) = mul_through (e.tile_w * e.spp * b) (e.data_h - 1) _ h₅ in
    let (_, h₇) =
      add_through (e.tile_w * e.spp * b * (e.data_h - 1))
        (last_row e.predictor (e.tile_w * e.spp * b) (e.data_w * e.spp * b)) _ h₆ in
    let (long, _) =
      test_through
        (ltb src_len (
            e.tile_w * e.spp * b * (e.data_h - 1)
            + last_row e.predictor (e.tile_w * e.spp * b) (e.data_w * e.spp * b))
          || ltb dst_len (e.data_w * e.spp * e.data_h))
        (ok tt) h₇ in
    record {
      some_samples = ground (arith, good);
      some_columns = ground (arith, good);
      some_rows = ground (arith, good);
      inside = ground (arith, good);
      stride_u64 = stride;
      source_is_long = ground (arith, long);
      target_is_long = ground (arith, long);
    }

IsValid-validate :
    (e : ChunkEncoding) (src_len dst_len b : ℕ)
    → src_len < 2 ^ 64
    → dst_len < 2 ^ 64
    → 1 ≤ b
    → IsValid e src_len dst_len b
    → validate e src_len dst_len b ≡ ok tt
unfolding validate
IsValid-validate e src_len dst_len b src_u64 dst_u64 pos v =
    let good : rejected e ≡ false =
      ground (arith, v.some_samples, v.some_columns, v.some_rows, v.inside) in
    let per_row : e.tile_w * e.spp ≤ e.tile_w * e.spp * b =
      subst (λ t. t ≤ e.tile_w * e.spp * b) (mul-one (e.tile_w * e.spp))
        (mul-le-mul_left (e.tile_w * e.spp) pos) in
    let dst_stride : e.data_w * e.spp ≤ e.tile_w * e.spp = mul-le-mul_right e.spp v.inside in
    let dst_bytes : e.data_w * e.spp * b ≤ e.tile_w * e.spp * b = mul-le-mul_right b dst_stride in
    let long : (ltb src_len (
            e.tile_w * e.spp * b * (e.data_h - 1)
            + last_row e.predictor (e.tile_w * e.spp * b) (e.data_w * e.spp * b))
          || ltb dst_len (e.data_w * e.spp * e.data_h))
        ≡ false =
      ground (arith, v.source_is_long, v.target_is_long) in
    rw
      (
        good,
        small (e.tile_w * e.spp) (omega arith),
        small (e.tile_w * e.spp * b) v.stride_u64,
        small (e.data_w * e.spp) (omega arith),
        small (e.data_w * e.spp * b) (omega arith),
        small (e.data_w * e.spp * e.data_h) (omega arith),
        small (e.tile_w * e.spp * b * (e.data_h - 1)) (omega arith),
        small
            (e.tile_w * e.spp * b * (e.data_h - 1)
              + last_row e.predictor (e.tile_w * e.spp * b) (e.data_w * e.spp * b))
            (omega arith),
        long,
      )
      refl

-- A layout is accepted exactly when its rows and columns are not empty and inside the tile, the row
-- stride does not overflow, and the chunk and the target hold what will be read and written. The
-- lengths are those of slices, and a sample has a byte at least.
pub validate_iff :
    (e : ChunkEncoding) (src_len dst_len b : ℕ)
    → src_len < 2 ^ 64
    → dst_len < 2 ^ 64
    → 1 ≤ b
    → (validate e src_len dst_len b ≡ ok tt) ↔ IsValid e src_len dst_len b
validate_iff e src_len dst_len b src_u64 dst_u64 pos =
    (validate-IsValid e src_len dst_len b, IsValid-validate e src_len dst_len b src_u64 dst_u64 pos)
