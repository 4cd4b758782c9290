-- ===== src/Columnar/Batch.antt =====
-- `RecordBatch` of crates/raster-h3-core/src/columnar/mod.rs. `none` is a panic, an index or a
-- range out of bounds.
pub mod Laws
use raster_h.Columnar.Schema.{
  ArrowDataType, uint64, int64, uint8, float64, boolean, utf8, binary, ColumnField, ColumnSchema,
  project_schema, index_of,
}
use raster_h.Columnar.Array.{ColumnArray, len, data_type, slice}
use raster_h.Common.{
  ℕ, ◌+◌, ◌-◌, Option, none, some, List, [], ◌∷◌, length, get_elem?, min, ◌==◌, if◌then◌else◌,
  Result, ok, err, invalid_parameter, ◌>>=◌, ◌≡◌,
}

pub record RecordBatch : Type 0 where
  pub schema : ColumnSchema
  pub columns : List ColumnArray
  pub num_rows : ℕ

-- The derived equality of `ArrowDataType` compares the discriminants.
unfoldable pub discriminant : ArrowDataType → ℕ
discriminant uint64 = 0
discriminant int64 = 1
discriminant uint8 = 2
discriminant float64 = 3
discriminant boolean = 4
discriminant utf8 = 5
discriminant binary = 6

-- The loop of `try_new`: each column has the row count and its field's type. The lengths of the
-- two lists have been compared before, so the fields do not end first.
unfoldable pub check_columns : ℕ → List ColumnField → List ColumnArray → Result (Unit {0})
unfolding discriminant len data_type
check_columns num_rows fields [] = ok tt
check_columns num_rows [] (col ∷ cols) = err invalid_parameter
check_columns num_rows (f ∷ fields) (col ∷ cols) =
    let rest = check_columns num_rows fields cols in
    if len col == num_rows
    then if discriminant (data_type col) == discriminant f.data_type
      then rest
      else err invalid_parameter
    else err invalid_parameter

unfoldable pub first_len : List ColumnArray → ℕ
unfolding len
first_len [] = 0
first_len (c ∷ cs) = len c

unfoldable pub try_new : ColumnSchema → List ColumnArray → Result RecordBatch
unfolding check_columns first_len
try_new schema columns =
    if length schema.fields == length columns
    then (check_columns (first_len columns) schema.fields columns >>= λ _.
        ok (record { schema = schema; columns = columns; num_rows = first_len columns }))
    else err invalid_parameter

unfoldable pub project_columns : List ColumnArray → List ℕ → Option (List ColumnArray)
project_columns columns [] = some []
project_columns columns (idx ∷ indices) = elim (get_elem? columns idx) [
  | none ↦ none
  | some c ↦ elim (project_columns columns indices) [ none ↦ none | some cs ↦ some (c ∷ cs) ]
]

-- The schema's indices are checked before a column is read.
unfoldable pub project : RecordBatch → List ℕ → Option (Result RecordBatch)
unfolding project_schema project_columns
project b indices = elim (project_schema b.schema indices) [
  | err e ↦ some (err e)
  | ok schema ↦ elim (project_columns b.columns indices) [
    | none ↦ none
    | some cols ↦ some (ok (record { schema = schema; columns = cols; num_rows = b.num_rows }))
  ]
]

pub slice_columns : ℕ → ℕ → List ColumnArray → Option (List ColumnArray)
unfolding slice
slice_columns offset count [] = some []
slice_columns offset count (c ∷ cs) = elim (slice offset count c) [
  | none ↦ none
  | some d ↦ elim (slice_columns offset count cs) [ none ↦ none | some ds ↦ some (d ∷ ds) ]
]

-- `RecordBatch::slice`, for an `offset + length` that fits usize.
unfoldable pub slice_batch : ℕ → ℕ → RecordBatch → Option RecordBatch
unfolding slice_columns
slice_batch offset count b =
    let end = min (offset + count) b.num_rows in
    let start = min offset end in
    elim (slice_columns start (end - start) b.columns) [
      | none ↦ none
      | some cols ↦ some (record { schema = b.schema; columns = cols; num_rows = end - start })
    ]

unfoldable pub column_by_name : RecordBatch → List ℕ → Option ColumnArray
unfolding index_of
column_by_name b name = elim (index_of b.schema name) [
  | none ↦ none
  | some i ↦ get_elem? b.columns i
]

-- The columns have the types that the fields say, and each has `n` rows.
abbrev pub Columns : ℕ → List ColumnField → List ColumnArray → Type 0
Columns n [] [] = Unit {0}
Columns n [] (c ∷ cs) = ⊥
Columns n (f ∷ fs) [] = ⊥
Columns n (f ∷ fs) (c ∷ cs) = (data_type c ≡ f.data_type) × (len c ≡ n) × Columns n fs cs

pub record IsConsistent (b : RecordBatch) : Type 0 where
  pub matches : Columns b.num_rows b.schema.fields b.columns
