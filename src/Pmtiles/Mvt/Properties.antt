-- ===== src/Pmtiles/Mvt/Properties.antt =====
-- `PropertyFilter` and `FeatureProperties` of crates/raster-h3-core/src/pmtiles/mvt.rs. The f64
-- fields are bit patterns, a set is the list of what was inserted.
use Prim.Native.Nat.{bit_and, bit_or}
use Prim.Native.String.{String}
use raster_h.Columnar.Utf8.{ascii, to_ascii_lowercase, eq_ignore_ascii_case}
use raster_h.Common.{
  ℕ, ◌-◌, ◌^◌, Bool, true, false, not, ◌||◌, Option, none, some, List, [], ◌∷◌, ◌==◌, if◌then◌else◌,
  map, length,
}
use raster_h.Common.Eq.{nat_has_eq, list_beq}
use raster_h.Common.Int.{ℤ}
use raster_h.Common.Text.{trim, split_at}
use raster_h.Pmtiles.Mvt.Value.{MvtValue, double, int, uint, from_hex_u64}

-- The flags: bit `i` of the mask stands for property `i`.
abbrev pub prop : ℕ → ℕ
prop i = 2 ^ i

abbrev pub prop_all_continuous : ℕ
prop_all_continuous = 2 ^ 9 - 1

abbrev pub prop_all_categorical : ℕ
prop_all_categorical = 2 ^ 8 - 1

pub record PropertyFilter : Type 0 where
  pub continuous_mask : ℕ
  pub categorical_mask : ℕ
  pub generic_whitelist : Option (List (List ℕ))
  pub is_custom : Bool

unfoldable pub all : PropertyFilter
all = record {
  continuous_mask = prop_all_continuous;
  categorical_mask = prop_all_categorical;
  generic_whitelist = none;
  is_custom = false;
}

abbrev pub contains : List (List ℕ) → List ℕ → Bool
contains [] s = false
contains (t ∷ ts) s = list_beq t s || contains ts s

abbrev names : List String → List (List ℕ)
names [] = []
names (s ∷ ss) = ascii s ∷ names ss

-- The flags that a token adds to the continuous mask and to the categorical one.
unfoldable pub token_flags : List ℕ → ℕ × ℕ
token_flags token =
    if contains (names ("h3_index" ∷ "index" ∷ "h3" ∷ [])) token
    then (prop 0, prop 0)
    else if contains (names ("h3_hex" ∷ "hex" ∷ [])) token
    then (prop 1, prop 1)
    else if contains (names ("resolution" ∷ "res" ∷ [])) token
    then (prop 2, prop 2)
    else if contains (names ("mean" ∷ "avg" ∷ [])) token
    then (prop 3, 0)
    else if contains (names ("sum" ∷ "total" ∷ [])) token
    then (prop 4, 0)
    else if contains (names ("stddev" ∷ "std" ∷ "variance" ∷ [])) token
    then (prop 5, 0)
    else if contains (names ("count" ∷ "pixel_count" ∷ "pixels" ∷ [])) token
    then (prop 6, prop 7)
    else if contains (names ("min" ∷ "minimum" ∷ [])) token
    then (prop 7, 0)
    else if contains (names ("max" ∷ "maximum" ∷ [])) token
    then (prop 8, 0)
    else if contains (names ("majority" ∷ "mode" ∷ [])) token
    then (0, prop 3)
    else if contains (names ("majority_fraction" ∷ "fraction" ∷ "purity" ∷ [])) token
    then (0, prop 4)
    else if contains (names ("distinct_classes" ∷ "unique_classes" ∷ "num_classes" ∷ [])) token
    then (0, prop 5)
    else if contains (names ("entropy" ∷ "shannon_entropy" ∷ [])) token
    then (0, prop 6)
    else (0, 0)

unfoldable pub parse_parts : List (List ℕ) → ℕ → ℕ → List (List ℕ) → PropertyFilter
unfolding token_flags
parse_parts [] cont_mask cat_mask generic_set = record {
  continuous_mask = cont_mask;
  categorical_mask = cat_mask;
  generic_whitelist = some generic_set;
  is_custom = true;
}
parse_parts (part ∷ parts) cont_mask cat_mask generic_set =
    let token = map to_ascii_lowercase (trim part) in
    let flags = token_flags token in
    elim (length token == 0) [
      | true ↦ parse_parts parts cont_mask cat_mask generic_set
      | false ↦
          parse_parts parts (bit_or cont_mask flags.0) (bit_or cat_mask flags.1)
            (token ∷ generic_set)
    ]

unfoldable pub parse : List ℕ → PropertyFilter
unfolding parse_parts
parse s =
    let trimmed = trim s in
    if (length trimmed == 0)
      || list_beq trimmed (ascii "*")
      || eq_ignore_ascii_case trimmed (ascii "all")
    then all
    else parse_parts (split_at b',' trimmed) 0 0 []

unfoldable pub has_continuous : PropertyFilter → ℕ → Bool
has_continuous filter flag = not (bit_and filter.continuous_mask flag == 0)

unfoldable pub has_categorical : PropertyFilter → ℕ → Bool
has_categorical filter flag = not (bit_and filter.categorical_mask flag == 0)

unfoldable pub allows_generic : PropertyFilter → List ℕ → Bool
allows_generic filter name = elim filter.generic_whitelist [
  | some set ↦ contains set (map to_ascii_lowercase name)
  | none ↦ true
]

unfoldable pub needs_stddev : PropertyFilter → Bool
unfolding has_continuous
needs_stddev filter = not filter.is_custom || has_continuous filter (prop 5)

unfoldable pub needs_entropy : PropertyFilter → Bool
unfolding has_categorical
needs_entropy filter = not filter.is_custom || has_categorical filter (prop 6)

pub data FeatureProperties : Type 0 where
  continuous : (h3_index resolution mean sum stddev count min max : ℕ) → FeatureProperties
  categorical :
      (h3_index resolution : ℕ) (majority : ℤ)
      (majority_fraction distinct_classes entropy count : ℕ)
      → FeatureProperties
  generic : List (List ℕ × MvtValue) → FeatureProperties

abbrev pub Property : Type 0
Property = List ℕ × MvtValue

-- A call of the callback under a test, before the calls that follow.
abbrev when : Bool → String → MvtValue → List Property → List Property
when c k v calls = if c then (ascii k, v) ∷ calls else calls

allowed : PropertyFilter → List Property → List Property
allowed filter [] = []
allowed filter ((k, v) ∷ props) =
    let rest = allowed filter props in if allows_generic filter k then (k, v) ∷ rest else rest

-- The calls of the callback, in their order.
unfoldable pub for_each_filtered : FeatureProperties → PropertyFilter → List Property
unfolding allowed
for_each_filtered (continuous h3_index resolution mean sum stddev count min max) filter =
    when (has_continuous filter (prop 0)) "h3_index" (uint h3_index) (
      when (has_continuous filter (prop 1)) "h3_hex" (from_hex_u64 h3_index) (
        when (has_continuous filter (prop 2)) "resolution" (uint resolution) (
          when (has_continuous filter (prop 3)) "mean" (double mean) (
            when (has_continuous filter (prop 4)) "sum" (double sum) (
              when (has_continuous filter (prop 5)) "stddev" (double stddev) (
                when (has_continuous filter (prop 6)) "count" (double count) (
                  when (has_continuous filter (prop 7)) "min" (double min)
                    (when (has_continuous filter (prop 8)) "max" (double max) []))))))))
for_each_filtered
      (categorical h3_index resolution majority majority_fraction distinct_classes entropy count)
      filter =
    when (has_categorical filter (prop 0)) "h3_index" (uint h3_index) (
      when (has_categorical filter (prop 1)) "h3_hex" (from_hex_u64 h3_index) (
        when (has_categorical filter (prop 2)) "resolution" (uint resolution) (
          when (has_categorical filter (prop 3)) "majority" (int majority) (
            when (has_categorical filter (prop 4)) "majority_fraction" (double majority_fraction) (
              when (has_categorical filter (prop 5)) "distinct_classes" (uint distinct_classes) (
                when (has_categorical filter (prop 6)) "entropy" (double entropy)
                  (when (has_categorical filter (prop 7)) "count" (double count) [])))))))
for_each_filtered (generic props) filter = allowed filter props
