-- ===== src/Columnar/Array.antt =====
-- `ColumnArray` of crates/raster-h3-core/src/columnar/mod.rs. A float is its 64-bit pattern, a
-- string the list of its UTF-8 bytes. An index or a range out of bounds panics: `none`.
use raster_h.Columnar.Schema.{ArrowDataType, uint64, int64, uint8, float64, boolean, utf8, binary}
use raster_h.Common.{
  ℕ, suc, ◌+◌, ◌-◌, Bool, true, false, Option, none, some, List, [], ◌∷◌, length, take, drop, min,
  leb, if◌then◌else◌,
}
use raster_h.Common.Int.{ℤ}

abbrev pub Validity : Type 0
Validity = Option (List Bool)

pub data ColumnArray : Type 0 where
  uint64s : List ℕ → Validity → ColumnArray
  int64s : List ℤ → Validity → ColumnArray
  uint8s : List ℕ → Validity → ColumnArray
  float64s : List ℕ → Validity → ColumnArray
  booleans : List Bool → Validity → ColumnArray
  utf8s : List (List ℕ) → Validity → ColumnArray
  binaries : List (List ℕ) → Validity → ColumnArray

unfoldable pub len : ColumnArray → ℕ
len (uint64s values _) = length values
len (int64s values _) = length values
len (uint8s values _) = length values
len (float64s values _) = length values
len (booleans values _) = length values
len (utf8s values _) = length values
len (binaries values _) = length values

unfoldable pub data_type : ColumnArray → ArrowDataType
data_type (uint64s _ _) = uint64
data_type (int64s _ _) = int64
data_type (uint8s _ _) = uint8
data_type (float64s _ _) = float64
data_type (booleans _ _) = boolean
data_type (utf8s _ _) = utf8
data_type (binaries _ _) = binary

unfoldable pub validity : ColumnArray → Validity
validity (uint64s _ v) = v
validity (int64s _ v) = v
validity (uint8s _ v) = v
validity (float64s _ v) = v
validity (booleans _ v) = v
validity (utf8s _ v) = v
validity (binaries _ v) = v

count_nulls : List Bool → ℕ
count_nulls [] = 0
count_nulls (true ∷ bs) = count_nulls bs
count_nulls (false ∷ bs) = suc (count_nulls bs)

unfoldable pub null_count : ColumnArray → ℕ
unfolding count_nulls validity
null_count c = elim (validity c) [ none ↦ 0 | some v ↦ count_nulls v ]

-- `xs[start..end]`, for start ≤ end.
unfoldable pub range {ℓ} : {A : Type ℓ} → ℕ → ℕ → List A → Option (List A)
range start end xs = if leb end (length xs) then some (take (end - start) (drop start xs)) else none

unfoldable pub range_validity : ℕ → ℕ → Validity → Option Validity
unfolding range
range_validity start end none = some none
range_validity start end (some v) = elim (range start end v) [
  | none ↦ none
  | some w ↦ some (some w)
]

-- Both parts of an array cut to the range.
unfoldable pub range_both {ℓ} :
    {A : Type ℓ}
    → (List A → Validity → ColumnArray)
    → ℕ
    → ℕ
    → List A
    → Validity
    → Option ColumnArray
unfolding range range_validity
range_both make start end values v = elim (range start end values) [
  | none ↦ none
  | some vs ↦ elim (range_validity start end v) [ none ↦ none | some w ↦ some (make vs w) ]
]

pub slice_range : ℕ → ℕ → ColumnArray → Option ColumnArray
unfolding range_both
slice_range start end (uint64s values v) = range_both uint64s start end values v
slice_range start end (int64s values v) = range_both int64s start end values v
slice_range start end (uint8s values v) = range_both uint8s start end values v
slice_range start end (float64s values v) = range_both float64s start end values v
slice_range start end (booleans values v) = range_both booleans start end values v
slice_range start end (utf8s values v) = range_both utf8s start end values v
slice_range start end (binaries values v) = range_both binaries start end values v

-- `ColumnArray::slice`, for an `offset + length` that fits usize.
unfoldable pub slice : ℕ → ℕ → ColumnArray → Option ColumnArray
unfolding slice_range len
slice offset count c =
    let end = min (offset + count) (len c) in let start = min offset end in slice_range start end c
