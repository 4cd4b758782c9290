-- ===== src/Aggregator/Remap.antt =====
-- `CategoryRemapper` of crates/raster-h3-core/src/aggregator/remap.rs: the rules, the tables that
-- `new` builds from them, and the lookups. A category is an i64, here an integer.
pub mod Rules
pub mod Table
use raster_h.Common.{
  ℕ, zero, suc, ◌+◌, ◌≤◌, ◌≡◌, Bool, true, false, ◌&&◌, Option, none, some, List, [], ◌∷◌, ◌++◌,
  length, get_elem?, leb, ltb, if◌then◌else◌,
}
use raster_h.Common.Int.{ℤ, pos, negsuc, pos_part, leb_ℤ}
use raster_h.Common.Eq.{int_has_eq}
use raster_h.Common.Maps.{lookup, insert}

-- A target, `none` for a dropped category.
abbrev pub Target : Type 0
Target = Option ℤ

pub data UnmappedAction : Type 0 where
  pass_through drop_unmapped : UnmappedAction
  map_to : ℤ → UnmappedAction

pub data RemapRule : Type 0 where
  exact : ℤ → Target → RemapRule
  range : ℤ → ℤ → Target → RemapRule

pub record CategoryRemapper : Type 0 where
  pub lut : Option (List Target)
  pub direct_map : List (ℤ × Target)
  pub range_rules : List (ℤ × ℤ × Target)
  pub unmapped_action : UnmappedAction

-- The variables of the loop over the rules.
pub record Scan : Type 0 where
  pub direct_map : List (ℤ × Target)
  pub range_rules : List (ℤ × ℤ × Target)
  pub min_val : ℤ
  pub max_val : ℤ
  pub has_values : Bool

abbrev pub min_ℤ : ℤ → ℤ → ℤ
min_ℤ a b = if leb_ℤ a b then a else b

abbrev pub max_ℤ : ℤ → ℤ → ℤ
max_ℤ a b = if leb_ℤ a b then b else a

-- `min_val` and `max_val` after a rule for the values from `lo` to `hi`.
widen : ℤ → ℤ → Scan → Scan
widen lo hi s =
    if s.has_values
    then record s { min_val = min_ℤ s.min_val lo; max_val = max_ℤ s.max_val hi }
    else record s { min_val = lo; max_val = hi; has_values = true }

scan_range : ℤ → ℤ → Target → Scan → Scan
unfolding widen
scan_range s e target sc =
    widen s e (record sc { range_rules = sc.range_rules ++ ((s, e, target) ∷ []) })

unfoldable pub scan_rule : RemapRule → Scan → Scan
unfolding widen scan_range
scan_rule (exact src target) sc =
    widen src src (record sc { direct_map = insert src target sc.direct_map })
scan_rule (range start end target) sc =
    if leb_ℤ start end then scan_range start end target sc else scan_range end start target sc

unfoldable pub scan_rules : List RemapRule → Scan → Scan
scan_rules [] sc = sc
scan_rules (r ∷ rs) sc = scan_rules rs (scan_rule r sc)

abbrev pub empty_scan : Scan
empty_scan = record {
  direct_map = [];
  range_rules = [];
  min_val = pos 0;
  max_val = pos 0;
  has_values = false;
}

-- The first range that holds the category.
unfoldable pub find_range : ℤ → List (ℤ × ℤ × Target) → Option Target
find_range cat [] = none
find_range cat ((s, e, target) ∷ rules) =
    if leb_ℤ s cat && leb_ℤ cat e then some target else find_range cat rules

unfoldable pub unmapped : UnmappedAction → ℤ → Target
unmapped pass_through cat = some cat
unmapped drop_unmapped cat = none
unmapped (map_to v) cat = some v

-- One entry of the dense table: an exact rule, else the first range, else the fallback.
unfoldable pub mapped : List (ℤ × Target) → List (ℤ × ℤ × Target) → UnmappedAction → ℤ → Target
unfolding find_range unmapped
mapped direct_map range_rules action cat = elim (lookup cat direct_map) [
  | some target ↦ target
  | none ↦ elim (find_range cat range_rules) [ some target ↦ target | none ↦ unmapped action cat ]
]

-- `for i in 0..size`, on the rounds left.
unfoldable pub table : (ℤ → Target) → ℕ → ℕ → List Target
table entry i zero = []
table entry i (suc left) = entry (pos i) ∷ table entry (i + 1) left

unfoldable pub build_lut : Scan → UnmappedAction → Option (List Target)
unfolding table mapped
build_lut sc action =
    if sc.has_values && leb_ℤ (pos 0) sc.min_val && leb_ℤ sc.max_val (pos 65535)
    then some (table (mapped sc.direct_map sc.range_rules action) 0 (pos_part sc.max_val + 1))
    else none

-- `CategoryRemapper::new`
unfoldable pub new : List RemapRule → UnmappedAction → CategoryRemapper
unfolding scan_rules scan_rule build_lut
new rules action =
    let sc = scan_rules rules empty_scan in
    record {
      lut = build_lut sc action;
      direct_map = sc.direct_map;
      range_rules = sc.range_rules;
      unmapped_action = action;
    }

unfoldable pub remap_fallback : CategoryRemapper → ℤ → Target
unfolding find_range unmapped
remap_fallback r cat = elim (lookup cat r.direct_map) [
  | some target ↦ target
  | none ↦ elim (find_range cat r.range_rules) [
    | some target ↦ target
    | none ↦ unmapped r.unmapped_action cat
  ]
]

in_lut : List Target → ℤ → Option Target
in_lut lut (negsuc n) = none
in_lut lut (pos i) = get_elem? lut i

-- `CategoryRemapper::remap`: the table where it holds the category, else the rules.
unfoldable pub remap : CategoryRemapper → ℤ → Target
unfolding in_lut remap_fallback
remap r cat = elim r.lut [
  | none ↦ remap_fallback r cat
  | some lut ↦ elim (in_lut lut cat) [ some t ↦ t | none ↦ remap_fallback r cat ]
]
