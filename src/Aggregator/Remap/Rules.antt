-- ===== src/Aggregator/Remap/Rules.antt =====
-- What a list of remapping rules means, and that the remapper of remap.rs implements it.
use raster_h.Aggregator.Remap.{
  Target, UnmappedAction, RemapRule, exact, range, Scan, widen, scan_range, scan_rule, scan_rules,
  empty_scan, find_range, unmapped, new, remap_fallback, remap,
}
use raster_h.Aggregator.Remap.Table.{remap-new-remap_fallback}
use raster_h.Common.{
  ◌≡◌, refl, ap, ap₂, sym, ◌∙◌, Bool, true, false, ◌&&◌, Option, none, some, List, [], ◌∷◌, ◌++◌,
  Bool-cases, inl, inr, arith, if◌then◌else◌,
}
use raster_h.Common.Int.{ℤ, eqb_ℤ, leb_ℤ}
use raster_h.Common.Eq.{int_has_eq}
use raster_h.Common.Maps.{lookup, insert, lookup-insert}

abbrev or_else {ℓ} : {A : Type ℓ} → Option A → Option A → Option A
or_else (some a) o = some a
or_else none o = o

-- The target of the last exact rule for the category.
abbrev pub last_exact : ℤ → List RemapRule → Option Target
last_exact cat [] = none
last_exact cat (exact src target ∷ rs) =
    or_else (last_exact cat rs) (if eqb_ℤ src cat then some target else none)
last_exact cat (range start end target ∷ rs) = last_exact cat rs

-- The category lies between the two ends, in either order.
abbrev pub between : ℤ → ℤ → ℤ → Bool
between start end cat =
    if leb_ℤ start end then leb_ℤ start cat && leb_ℤ cat end else leb_ℤ end cat && leb_ℤ cat start

-- The target of the first range rule that holds the category.
abbrev pub first_range : ℤ → List RemapRule → Option Target
first_range cat [] = none
first_range cat (exact src target ∷ rs) = first_range cat rs
first_range cat (range start end target ∷ rs) =
    if between start end cat then some target else first_range cat rs

-- Exact rules go before ranges, ranges before the fallback.
abbrev pub classify : List RemapRule → UnmappedAction → ℤ → Target
classify rules action cat = elim (last_exact cat rules) [
  | some target ↦ target
  | none ↦ elim (first_range cat rules) [ some target ↦ target | none ↦ unmapped action cat ]
]

find_range-append :
    (cat : ℤ) (xs ys : List (ℤ × ℤ × Target))
    → find_range cat (xs ++ ys) ≡ or_else (find_range cat xs) (find_range cat ys)
unfolding find_range
find_range-append cat [] ys = refl
find_range-append cat ((s, e, t) ∷ xs) ys = elim (Bool-cases (leb_ℤ s cat && leb_ℤ cat e)) [
  | inl h ↦ rw (h, find_range) refl
  | inr h ↦ rw (h, find_range) (find_range-append cat xs ys)
]

widen_maps :
    (lo hi : ℤ) (s : Scan)
    → ((widen lo hi s).direct_map ≡ s.direct_map) × ((widen lo hi s).range_rules ≡ s.range_rules)
unfolding widen
widen_maps lo hi s = ground arith

or_else_assoc {ℓ} :
    {A : Type ℓ} (a b c : Option A) → or_else a (or_else b c) ≡ or_else (or_else a b) c
or_else_assoc none b c = refl
or_else_assoc (some x) b c = refl

if-or_else {ℓ} :
    {A : Type ℓ} (t : Bool) (x : A) (o : Option A)
    → (if t then some x else o) ≡ or_else (if t then some x else none) o
if-or_else true x o = refl
if-or_else false x o = refl

scan_range_maps :
    (s e : ℤ) (t : Target) (sc : Scan)
    → ((scan_range s e t sc).direct_map ≡ sc.direct_map)
      × ((scan_range s e t sc).range_rules ≡ sc.range_rules ++ ((s, e, t) ∷ []))
unfolding scan_range
scan_range_maps s e t sc =
    widen_maps s e (record sc { range_rules = sc.range_rules ++ ((s, e, t) ∷ []) })

-- One rule's effect on the two tables, as the rules behind it see it.
scan_rule-direct :
    (cat : ℤ) (r : RemapRule) (rs : List RemapRule) (sc : Scan)
    → or_else (last_exact cat rs) (lookup cat (scan_rule r sc).direct_map)
      ≡ or_else (last_exact cat (r ∷ rs)) (lookup cat sc.direct_map)
unfolding scan_rule
scan_rule-direct cat (exact src target) rs sc =
    ap (λ m. or_else (last_exact cat rs) (lookup cat m))
      (widen_maps src src (record sc { direct_map = insert src target sc.direct_map })).0
    ∙ ap (or_else (last_exact cat rs)) (
        lookup-insert src cat target sc.direct_map
        ∙ if-or_else (eqb_ℤ src cat) target (lookup cat sc.direct_map))
    ∙ or_else_assoc (last_exact cat rs) _ _
scan_rule-direct cat (range start end target) rs sc = elim (Bool-cases (leb_ℤ start end)) [
  | inl h ↦ rw (h, scan_rule, (scan_range_maps start end target sc).0) refl
  | inr h ↦ rw (h, scan_rule, (scan_range_maps end start target sc).0) refl
]

one_range :
    (cat s e : ℤ) (t : Target) (o : Option Target) (rules : List (ℤ × ℤ × Target))
    → or_else (find_range cat (rules ++ ((s, e, t) ∷ []))) o
      ≡ or_else (find_range cat rules) (if leb_ℤ s cat && leb_ℤ cat e then some t else o)
one_range cat s e t o rules =
    ap (λ x. or_else x o) (find_range-append cat rules ((s, e, t) ∷ []))
    ∙ sym (or_else_assoc (find_range cat rules) (find_range cat ((s, e, t) ∷ [])) o)
    ∙ ap (or_else (find_range cat rules))
        (unfold find_range in sym (if-or_else (leb_ℤ s cat && leb_ℤ cat e) t o))

scan_rule-ranges :
    (cat : ℤ) (r : RemapRule) (rs : List RemapRule) (sc : Scan)
    → or_else (find_range cat (scan_rule r sc).range_rules) (first_range cat rs)
      ≡ or_else (find_range cat sc.range_rules) (first_range cat (r ∷ rs))
unfolding scan_rule
scan_rule-ranges cat (exact src target) rs sc =
    ap (λ m. or_else (find_range cat m) (first_range cat rs))
      (widen_maps src src (record sc { direct_map = insert src target sc.direct_map })).1
scan_rule-ranges cat (range start end target) rs sc = elim (Bool-cases (leb_ℤ start end)) [
  | inl h ↦
      rw (h, scan_rule, first_range, (scan_range_maps start end target sc).1)
        (one_range cat start end target (first_range cat rs) sc.range_rules)
  | inr h ↦
      rw (h, scan_rule, first_range, (scan_range_maps end start target sc).1)
        (one_range cat end start target (first_range cat rs) sc.range_rules)
]

scan_rules-direct :
    (cat : ℤ) (rs : List RemapRule) (sc : Scan)
    → lookup cat (scan_rules rs sc).direct_map
      ≡ or_else (last_exact cat rs) (lookup cat sc.direct_map)
unfolding scan_rules
scan_rules-direct cat [] sc = refl
scan_rules-direct cat (r ∷ rs) sc =
    scan_rules-direct cat rs (scan_rule r sc) ∙ scan_rule-direct cat r rs sc

scan_rules-ranges :
    (cat : ℤ) (rs : List RemapRule) (sc : Scan)
    → find_range cat (scan_rules rs sc).range_rules
      ≡ or_else (find_range cat sc.range_rules) (first_range cat rs)
unfolding scan_rules
scan_rules-ranges cat [] sc = go (find_range cat sc.range_rules)
  where
    go : (o : Option Target) → o ≡ or_else o none
    go none = refl
    go (some t) = refl
scan_rules-ranges cat (r ∷ rs) sc =
    scan_rules-ranges cat rs (scan_rule r sc) ∙ scan_rule-ranges cat r rs sc

-- For every list of rules and every category the remapper answers as the rules say: the last
-- exact rule for the category, else the first range that holds it (its ends in either order),
-- else the fallback.
pub remap-new :
    (rules : List RemapRule) (action : UnmappedAction) (cat : ℤ)
    → remap (new rules action) cat ≡ classify rules action cat
unfolding new remap_fallback
remap-new rules action cat =
    remap-new-remap_fallback rules action cat
    ∙ ap₂ picked (scan_rules-direct cat rules empty_scan ∙ last (last_exact cat rules))
        (scan_rules-ranges cat rules empty_scan ∙ unfold find_range in refl)
  where
    last : (o : Option Target) → or_else o none ≡ o
    last none = refl
    last (some t) = refl

    picked : Option Target → Option Target → Target
    picked a c = elim a [
      | some target ↦ target
      | none ↦ elim c [ some target ↦ target | none ↦ unmapped action cat ]
    ]
