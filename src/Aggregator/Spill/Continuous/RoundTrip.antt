-- ===== src/Aggregator/Spill/Continuous/RoundTrip.antt =====
-- Reading back the state of an H3Accumulator:
-- crates/raster-h3-core/src/aggregator/multi_horizon/spill.rs.
use raster_h.Common.{
  ℕ, ◌/◌, ◌^◌, ◌<◌, ◌≡◌, refl, ap, sym, ◌∙◌, subst, Bool, true, false, Option, none, some, List, [],
  ◌∷◌, ◌++◌, length, ltb, leb, ◌&&◌, if◌then◌else◌, Result, ok, err, ◌>>=◌, io_invalid_data,
  append_assoc, append-nil, All, arith, Bool-cases, inl, inr,
}
use raster_h.Common.Eq.{nat_has_eq}
use raster_h.Common.Maps.{insert, insert_new, Distinct, lookup-Distinct}
use raster_h.Common.Bytes.{to_le_bytes, from_le_bytes-u32, length-to_le_bytes}
use raster_h.Aggregator.Spill.{write_u64, read_u64, count}
use raster_h.Aggregator.Spill.Records.{read_exact-append, read_u64-write_u64}
use raster_h.Aggregator.Spill.Continuous.{
  QuantileSketch, H3Accumulator, write_floats, write_entries, write_bins, write_sketch, write_state,
  read_entries, read_bins, read_sketch, read_quantiles, read_state, memory_bytes,
}

-- Bins as a hash map holds them: i32 keys, once each, with f64 weights.
pub record IsBins (bins : List (ℕ × ℕ)) : Type 0 where
  pub distinct : Distinct bins
  pub bits : All (λ e. (e.0 < 2 ^ 32) × (e.1 < 2 ^ 64)) bins
  pub few : length bins < 2 ^ 64

pub record IsSketch (q : QuantileSketch) : Type 0 where
  pub floats : All (λ v. v < 2 ^ 64) (q.zero_count ∷ q.total_count ∷ [])
  pub pos : IsBins q.pos_bins
  pub neg : IsBins q.neg_bins

abbrev pub IsQuantiles : Option QuantileSketch → Type 0
IsQuantiles none = Unit
IsQuantiles (some q) = IsSketch q

pub record IsAccumulator (a : H3Accumulator) : Type 0 where
  pub floats : All (λ v. v < 2 ^ 64) (a.sum ∷ a.count ∷ a.sum_w2 ∷ a.min ∷ a.max ∷ a.m2 ∷ [])
  pub quantiles : IsQuantiles a.quantiles

pub bind : {X Y : Type 0} {r : Result X} {x : X} → r ≡ ok x → (f : X → Result Y) → (r >>= f) ≡ f x
bind e f = ap (λ r. r >>= f) e

-- What follows a guarded answer.
pub on_fit :
    {X Y : Type 0} (fits : Bool) (x : X) (y : Result Y) (f : X → Result Y)
    → f x ≡ y
    → ((if fits then ok x else err io_invalid_data) >>= f)
      ≡ (if fits then y else err io_invalid_data)
on_fit true x y f e = e
on_fit false x y f e = refl

-- A test for too much as one for enough.
pub refused_above :
    {X : Type 0} (limit n : ℕ) (r : Result X)
    → (if ltb limit n then err io_invalid_data else r)
      ≡ (if leb n limit then r else err io_invalid_data)
refused_above limit n r = elim (Bool-cases (ltb limit n)) [
  | inl over ↦ let large : leb n limit ≡ false = ground arith in rw (over, large) refl
  | inr within ↦ let small : leb n limit ≡ true = ground arith in rw (within, small) refl
]

read_entries-write_entries :
    (es before : List (ℕ × ℕ)) (rest : List ℕ)
    → Distinct (before ++ es)
    → All (λ e. (e.0 < 2 ^ 32) × (e.1 < 2 ^ 64)) es
    → read_entries (length es) before (write_entries es ++ rest) ≡ ok (before ++ es, rest)
unfolding read_entries write_entries
read_entries-write_entries [] before rest d h = ap (λ b. ok (b, rest)) (sym (append-nil before))
read_entries-write_entries ((k, v) ∷ es) before rest d h =
    bind
      (read_exact-append 4 (to_le_bytes 4 k) (write_u64 v ++ (write_entries es ++ rest))
        (length-to_le_bytes 4 k))
      _
    ∙ bind (read_u64-write_u64 v (write_entries es ++ rest) ((h.0).1)) _
    ∙ ap (λ b. read_entries (length es) b (write_entries es ++ rest))
        (ap (λ x. insert x v before) (from_le_bytes-u32 k ((h.0).0))
          ∙ insert_new k v before (lookup-Distinct k v before es d))
    ∙ read_entries-write_entries es (before ++ (k, v) ∷ []) rest
        (subst Distinct (sym (append_assoc before ((k, v) ∷ []) es)) d) h.1
    ∙ ap (λ b. ok (b, rest)) (append_assoc before ((k, v) ∷ []) es)

-- What `count` does with a number that was written.
pub count-write_u64 :
    (limit n : ℕ) (rest : List ℕ)
    → n < 2 ^ 64
    → count limit (write_u64 n ++ rest)
      ≡ (if leb n (limit / 64) then ok (n, rest) else err io_invalid_data)
unfolding count
count-write_u64 limit n rest h =
    bind (read_u64-write_u64 n rest h) _ ∙ refused_above (limit / 64) n (ok (n, rest))

-- Bins are read back where there are few enough for the limit, and are refused else.
read_bins-write_bins :
    (limit : ℕ) (bins : List (ℕ × ℕ)) (rest : List ℕ)
    → IsBins bins
    → read_bins limit (write_bins bins ++ rest)
      ≡ (if leb (length bins) (limit / 64) then ok (bins, rest) else err io_invalid_data)
unfolding read_bins write_bins
read_bins-write_bins limit bins rest h =
    ap (λ r. r >>= (λ x. read_entries x.0 [] x.1))
      (ap (count limit) (append_assoc (write_u64 (length bins)) (write_entries bins) rest)
        ∙ count-write_u64 limit (length bins) (write_entries bins ++ rest) h.few)
    ∙ on_fit (leb (length bins) (limit / 64)) (length bins, write_entries bins ++ rest) _ _
        (read_entries-write_entries bins [] rest h.distinct h.bits)

-- Whether the bins of a sketch are few enough for the limit.
unfoldable pub few_bins : ℕ → Option QuantileSketch → Bool
few_bins limit none = true
few_bins limit (some q) =
    leb (length q.pos_bins) (limit / 64) && leb (length q.neg_bins) (limit / 64)

read_sketch-parts :
    (limit : ℕ) (q : QuantileSketch) (input i1 i2 i3 rest : List ℕ) (pos neg : Bool)
    → read_u64 input ≡ ok (q.zero_count, i1)
    → read_u64 i1 ≡ ok (q.total_count, i2)
    → read_bins limit i2 ≡ (if pos then ok (q.pos_bins, i3) else err io_invalid_data)
    → read_bins limit i3 ≡ (if neg then ok (q.neg_bins, rest) else err io_invalid_data)
    → read_sketch limit input ≡ (if pos && neg then ok (q, rest) else err io_invalid_data)
unfolding read_sketch
read_sketch-parts limit q input i1 i2 i3 rest true true a b c d = rw (read_sketch, a, b, c, d) refl
read_sketch-parts limit q input i1 i2 i3 rest true false a b c d = rw (read_sketch, a, b, c, d) refl
read_sketch-parts limit q input i1 i2 i3 rest false neg a b c d = rw (read_sketch, a, b, c) refl

read_quantiles-write_sketch :
    (limit : ℕ) (q : Option QuantileSketch) (rest : List ℕ)
    → IsQuantiles q
    → read_quantiles limit (write_sketch q ++ rest)
      ≡ (if few_bins limit q then ok (q, rest) else err io_invalid_data)
unfolding read_quantiles write_sketch write_floats few_bins
read_quantiles-write_sketch limit none rest h = bind (read_u64-write_u64 0 rest (omega arith)) _
read_quantiles-write_sketch limit (some q) rest h =
    bind (read_u64-write_u64 1 (floats ++ ((pos ++ neg) ++ rest)) (omega arith)) _
    ∙ ap (λ r. r >>= (λ x. ok (some x.0, x.1)))
        (read_sketch-parts limit q (floats ++ ((pos ++ neg) ++ rest))
          (write_u64 q.total_count ++ ((pos ++ neg) ++ rest)) ((pos ++ neg) ++ rest) (neg ++ rest)
          rest (leb (length q.pos_bins) (limit / 64)) (leb (length q.neg_bins) (limit / 64))
          (read_u64-write_u64 q.zero_count (write_u64 q.total_count ++ ((pos ++ neg) ++ rest))
            ((h.floats).0))
          (read_u64-write_u64 q.total_count ((pos ++ neg) ++ rest) (((h.floats).1).0))
          (ap (read_bins limit) (append_assoc pos neg rest)
            ∙ read_bins-write_bins limit q.pos_bins (neg ++ rest) h.pos)
          (read_bins-write_bins limit q.neg_bins rest h.neg))
    ∙ on_fit (few_bins limit (some q)) (q, rest) (ok (some q, rest)) _ refl
  where
    floats : List ℕ
    floats = write_floats (q.zero_count ∷ q.total_count ∷ [])

    pos : List ℕ
    pos = write_bins q.pos_bins

    neg : List ℕ
    neg = write_bins q.neg_bins

module _ (self_size sketch_size entry_size : ℕ) (capacity : List (ℕ × ℕ) → ℕ) where
  abbrev bytes_of : H3Accumulator → ℕ
  bytes_of = memory_bytes self_size sketch_size entry_size capacity

  read_state-parts :
      (limit : ℕ) (a : H3Accumulator) (input i1 i2 i3 i4 i5 i6 rest : List ℕ) (fits : Bool)
      → read_u64 input ≡ ok (a.sum, i1)
      → read_u64 i1 ≡ ok (a.count, i2)
      → read_u64 i2 ≡ ok (a.sum_w2, i3)
      → read_u64 i3 ≡ ok (a.min, i4)
      → read_u64 i4 ≡ ok (a.max, i5)
      → read_u64 i5 ≡ ok (a.m2, i6)
      → read_quantiles limit i6 ≡ (if fits then ok (a.quantiles, rest) else err io_invalid_data)
      → read_state self_size sketch_size entry_size capacity limit input
        ≡ (if fits && leb (bytes_of a) limit then ok (a, rest) else err io_invalid_data)
  unfolding read_state
  read_state-parts limit a input i1 i2 i3 i4 i5 i6 rest true p q r s t u v =
      rw (read_state, p, q, r, s, t, u, v) (refused_above limit (bytes_of a) (ok (a, rest)))
  read_state-parts limit a input i1 i2 i3 i4 i5 i6 rest false p q r s t u v =
      rw (read_state, p, q, r, s, t, u, v) refl

  -- The state of an accumulator is read back as it was written where each table has at most
  -- limit / 64 bins and the memory is within the limit; else it is refused as invalid data.
  pub read_state-write_state :
      (limit : ℕ) (a : H3Accumulator) (rest : List ℕ)
      → IsAccumulator a
      → read_state self_size sketch_size entry_size capacity limit (write_state a ++ rest) ≡ (
          if few_bins limit a.quantiles && leb (bytes_of a) limit
          then ok (a, rest)
          else err io_invalid_data)
  unfolding write_state write_floats
  read_state-write_state limit a rest h =
      read_state-parts limit a (write_state a ++ rest)
        (left (a.count ∷ a.sum_w2 ∷ a.min ∷ a.max ∷ a.m2 ∷ []))
        (left (a.sum_w2 ∷ a.min ∷ a.max ∷ a.m2 ∷ [])) (left (a.min ∷ a.max ∷ a.m2 ∷ []))
        (left (a.max ∷ a.m2 ∷ [])) (left (a.m2 ∷ [])) behind rest (few_bins limit a.quantiles)
        (first a.sum (left (a.count ∷ a.sum_w2 ∷ a.min ∷ a.max ∷ a.m2 ∷ [])) ((h.floats).0))
        (first a.count (left (a.sum_w2 ∷ a.min ∷ a.max ∷ a.m2 ∷ [])) (((h.floats).1).0))
        (first a.sum_w2 (left (a.min ∷ a.max ∷ a.m2 ∷ [])) ((((h.floats).1).1).0))
        (first a.min (left (a.max ∷ a.m2 ∷ [])) (((((h.floats).1).1).1).0))
        (first a.max (left (a.m2 ∷ [])) ((((((h.floats).1).1).1).1).0))
        (first a.m2 behind (((((((h.floats).1).1).1).1).1).0))
        (read_quantiles-write_sketch limit a.quantiles rest h.quantiles)
    where
      behind : List ℕ
      behind = write_sketch a.quantiles ++ rest

      left : List ℕ → List ℕ
      left vs = write_floats vs ++ behind

      first : (v : ℕ) (more : List ℕ) → v < 2 ^ 64 → read_u64 (write_u64 v ++ more) ≡ ok (v, more)
      first = read_u64-write_u64
