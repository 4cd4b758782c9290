-- ===== src/Aggregator/Remap/Table.antt =====
-- The dense table of remap.rs is only a shortcut: it answers what the rules answer.
use raster_h.Aggregator.Remap.{
  Target, UnmappedAction, RemapRule, CategoryRemapper, Scan, mapped, table, build_lut, new,
  remap_fallback, remap, scan_rules, empty_scan,
}
use raster_h.Common.{
  ℕ, zero, suc, ◌+◌, ◌≡◌, refl, ap, ◌∙◌, Option, none, some, List, ◌⊎◌, get_elem?, inl, inr,
  Bool-cases, arith, ◌&&◌,
}
use native.Mathlib.Nat.{add-zero}
use raster_h.Common.Int.{ℤ, pos, negsuc, pos_part, leb_ℤ}

get_elem?-table :
    (entry : ℤ → Target) (i left k : ℕ) (t : Target)
    → get_elem? (table entry i left) k ≡ some t
    → t ≡ entry (pos (i + k))
unfolding table
get_elem?-table entry i zero k t h = cc
get_elem?-table entry i (suc left) zero t h = rw (add-zero i) cc
get_elem?-table entry i (suc left) (suc k) t h =
    get_elem?-table entry (i + 1) left k t h ∙ ap (λ n. entry (pos n)) (omega arith)

-- A remapper whose table, if it has one, was filled from its own rules.
abbrev IsFilled : CategoryRemapper → Type 0
IsFilled r =
    (r.lut ≡ none)
    ⊎ ((n : ℕ) × (r.lut ≡ some (table (mapped r.direct_map r.range_rules r.unmapped_action) 0 n)))

mapped-remap_fallback :
    (r : CategoryRemapper) (cat : ℤ)
    → mapped r.direct_map r.range_rules r.unmapped_action cat ≡ remap_fallback r cat
unfolding mapped remap_fallback
mapped-remap_fallback r cat = refl

remap-IsFilled : (r : CategoryRemapper) (cat : ℤ) → IsFilled r → remap r cat ≡ remap_fallback r cat
unfolding remap
remap-IsFilled r cat (inl e) = rw e refl
remap-IsFilled r (negsuc n) (inr (size, e)) = rw e refl
remap-IsFilled r (pos i) (inr (size, e)) =
    rw e
      (go (get_elem? (table (mapped r.direct_map r.range_rules r.unmapped_action) 0 size) i) refl)
  where
    go :
        (o : Option Target)
        → get_elem? (table (mapped r.direct_map r.range_rules r.unmapped_action) 0 size) i ≡ o
        → elim o [ some t ↦ t | none ↦ remap_fallback r (pos i) ] ≡ remap_fallback r (pos i)
    go none p = refl
    go (some t) p =
        get_elem?-table (mapped r.direct_map r.range_rules r.unmapped_action) 0 size i t p
        ∙ ap (mapped r.direct_map r.range_rules r.unmapped_action) (ap pos (omega arith))
        ∙ mapped-remap_fallback r (pos i)

new-IsFilled : (rules : List RemapRule) (action : UnmappedAction) → IsFilled (new rules action)
unfolding new
new-IsFilled rules action = go (scan_rules rules empty_scan)
  where
    go :
        (sc : Scan)
        → (build_lut sc action ≡ none)
          ⊎ ((n : ℕ) × (build_lut sc action
                ≡ some (table (mapped sc.direct_map sc.range_rules action) 0 n)))
    go sc =
        elim (Bool-cases
          (sc.has_values && leb_ℤ (pos 0) sc.min_val && leb_ℤ sc.max_val (pos 65535))) [
            | inl t ↦ inr (pos_part sc.max_val + 1, rw (t, build_lut) refl)
            | inr f ↦ inl (rw (f, build_lut) refl)
          ]

-- The remapper that `new` builds answers for every category as its rules do, with a table or
-- without.
pub remap-new-remap_fallback :
    (rules : List RemapRule) (action : UnmappedAction) (cat : ℤ)
    → remap (new rules action) cat ≡ remap_fallback (new rules action) cat
remap-new-remap_fallback rules action cat =
    remap-IsFilled (new rules action) cat (new-IsFilled rules action)
