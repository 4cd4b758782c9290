-- ===== src/Columnar/Schema.antt =====
-- Column types, fields and schemas: crates/raster-h3-core/src/columnar/mod.rs.
use raster_h.Columnar.Utf8.{ascii, eq_ignore_ascii_case}
use raster_h.Common.{
  ℕ, zero, suc, Bool, true, false, Option, none, some, List, [], ◌∷◌, ◌++◌, map, get_elem?,
  if◌then◌else◌, Result, ok, err, invalid_parameter, ◌>>=◌,
}

pub data ArrowDataType : Type 0 where
  uint64 int64 uint8 float64 boolean utf8 binary : ArrowDataType

pub arrow_format_str : ArrowDataType → List ℕ
arrow_format_str uint64 = ascii "L"
arrow_format_str int64 = ascii "l"
arrow_format_str uint8 = ascii "C"
arrow_format_str float64 = ascii "g"
arrow_format_str boolean = ascii "b"
arrow_format_str utf8 = ascii "u"
arrow_format_str binary = ascii "z"

pub record ColumnField : Type 0 where
  pub name : List ℕ
  pub data_type : ArrowDataType
  pub nullable : Bool

abbrev pub field : List ℕ → ArrowDataType → Bool → ColumnField
field name data_type nullable = record { name = name; data_type = data_type; nullable = nullable }

pub record ColumnSchema : Type 0 where
  pub fields : List ColumnField

-- `ColumnSchema::continuous`; the names are what `QuantileTarget::column_name` gives.
unfoldable pub continuous : List (List ℕ) → ColumnSchema
continuous quantile_names = record {
  fields =
      (field (ascii "h3_index") uint64 false
        ∷ field (ascii "h3_hex") utf8 false
        ∷ field (ascii "mean") float64 false
        ∷ field (ascii "stddev") float64 true
        ∷ field (ascii "count") float64 false
        ∷ field (ascii "min") float64 false
        ∷ field (ascii "max") float64 false
        ∷ field (ascii "sum") float64 false
        ∷ field (ascii "resolution") uint8 false
        ∷ field (ascii "wkb") binary false
        ∷ [])
      ++ map (λ q. field q float64 true) quantile_names;
}

unfoldable pub categorical_wide : ColumnSchema
categorical_wide = record {
  fields =
      field (ascii "h3_index") uint64 false
      ∷ field (ascii "h3_hex") utf8 false
      ∷ field (ascii "majority_class") int64 false
      ∷ field (ascii "majority_fraction") float64 false
      ∷ field (ascii "majority_count") float64 false
      ∷ field (ascii "unique_classes") int64 false
      ∷ field (ascii "total_count") float64 false
      ∷ field (ascii "histogram") utf8 false
      ∷ field (ascii "resolution") uint8 false
      ∷ field (ascii "shannon_entropy") float64 false
      ∷ field (ascii "entropy") float64 false
      ∷ field (ascii "distinct_classes") int64 false
      ∷ field (ascii "wkb") binary false
      ∷ [];
}

unfoldable pub categorical_long : ColumnSchema
categorical_long = record {
  fields =
      field (ascii "h3_index") uint64 false
      ∷ field (ascii "h3_hex") utf8 false
      ∷ field (ascii "category") int64 false
      ∷ field (ascii "count") float64 false
      ∷ field (ascii "fraction") float64 false
      ∷ field (ascii "total_count") float64 false
      ∷ field (ascii "resolution") uint8 false
      ∷ field (ascii "shannon_entropy") float64 false
      ∷ field (ascii "entropy") float64 false
      ∷ field (ascii "distinct_classes") int64 false
      ∷ field (ascii "unique_classes") int64 false
      ∷ field (ascii "wkb") binary false
      ∷ [];
}

-- The loop of `ColumnSchema::project`.
unfoldable pub project_fields : List ColumnField → List ℕ → Result (List ColumnField)
project_fields fields [] = ok []
project_fields fields (idx ∷ indices) = elim (get_elem? fields idx) [
  | none ↦ err invalid_parameter
  | some f ↦ project_fields fields indices >>= λ fs. ok (f ∷ fs)
]

unfoldable pub project_schema : ColumnSchema → List ℕ → Result ColumnSchema
unfolding project_fields
project_schema schema indices = do
  projected ← project_fields schema.fields indices
  ok (record { fields = projected })

-- `position`: the first field of that name.
pub position_from : ℕ → List ColumnField → List ℕ → Option ℕ
position_from i [] name = none
position_from i (f ∷ fs) name =
    if eq_ignore_ascii_case f.name name then some i else position_from (suc i) fs name

unfoldable pub index_of : ColumnSchema → List ℕ → Option ℕ
unfolding position_from eq_ignore_ascii_case
index_of schema name = position_from zero schema.fields name
