-- ===== src/Pmtiles/Mvt/Tables.antt =====
-- The tables of keys and values that `MvtLayer::encode` of
-- crates/raster-h3-core/src/pmtiles/mvt.rs grows: what an index stands for, from when it is given out.
use raster_h.Columnar.Utf8.{ascii}
use raster_h.Common.{
  ℕ, zero, suc, ◌+◌, ◌%◌, ◌^◌, ◌≤◌, ◌<◌, ◌≡◌, refl, ap, sym, ◌∙◌, subst, ◌||◌, some, List, [], ◌∷◌,
  ◌++◌, append_assoc, append-nil, length, length-append, get_elem?, get_elem?-append, All,
  All-append, if-elim, arith, Bool-cases, Option-cases, inl, inr,
}
use raster_h.Common.Eq.{nat_has_eq, list_beq, list_has_eq}
use raster_h.Common.Maps.{lookup, insert}
use raster_h.Pmtiles.Mvt.Decoded.{meaning, value_eq_iff}
use raster_h.Pmtiles.Mvt.Encode.{Tables, key_idx, val_idx, get_value}
use raster_h.Pmtiles.Mvt.Value.{MvtValue, IsValue, value_eq}

module _ {ℓ} {A : Type ℓ} where
  get_elem?-last : (xs : List A) (a : A) → get_elem? (xs ++ (a ∷ [])) (length xs) ≡ some a
  get_elem?-last [] a = refl
  get_elem?-last (x ∷ xs) a = get_elem?-last xs a

  pub get_elem?-lt : (xs : List A) (i : ℕ) (a : A) → get_elem? xs i ≡ some a → i < length xs
  get_elem?-lt [] i a h = cc
  get_elem?-lt (x ∷ xs) zero a h = omega arith
  get_elem?-lt (x ∷ xs) (suc i) a h = let k = get_elem?-lt xs i a h in omega arith

  All-imp {κ μ} :
      {P : A → Type κ} {Q : A → Type μ} (f : (a : A) → P a → Q a) (xs : List A)
      → All P xs
      → All Q xs
  All-imp f [] h = tt
  All-imp f (x ∷ xs) h = (f x h.0, All-imp f xs h.1)

-- An entry of the map of keys names its key's place, one of the map of values a proper value's.
abbrev KeyAt : List (List ℕ) → List ℕ × ℕ → Type 0
KeyAt keys e = get_elem? keys e.1 ≡ some e.0

abbrev ValueAt : List MvtValue → MvtValue × ℕ → Type 0
ValueAt values e = (get_elem? values e.1 ≡ some e.0) × IsValue e.0

pub record IsConsistent (t : Tables) : Type 0 where
  pub keys_at : All (KeyAt t.keys) t.key_map
  pub values_at : All (ValueAt t.values) t.val_map
  pub proper : All IsValue t.values

-- From `t` to `u` the tables only grow, by `m` keys and `n` values at most.
pub record Grows (m n : ℕ) (t u : Tables) : Type 0 where
  pub more_keys : List (List ℕ)
  pub keys_grow : u.keys ≡ t.keys ++ more_keys
  pub few_keys : length more_keys ≤ m
  pub more_values : List MvtValue
  pub values_grow : u.values ≡ t.values ++ more_values
  pub few_values : length more_values ≤ n

pub Grows-self : (m n : ℕ) (t : Tables) → Grows m n t t
Grows-self m n t = record {
  more_keys = [];
  keys_grow = sym (append-nil t.keys);
  few_keys = omega arith;
  more_values = [];
  values_grow = sym (append-nil t.values);
  few_values = omega arith;
}

pub Grows-trans :
    (a b c d : ℕ) (t u v : Tables) → Grows a b t u → Grows c d u v → Grows (a + c) (b + d) t v
Grows-trans a b c d t u v g h = record {
  more_keys = g.more_keys ++ h.more_keys;
  keys_grow =
      h.keys_grow
      ∙ ap (λ x. x ++ h.more_keys) g.keys_grow
      ∙ append_assoc t.keys g.more_keys h.more_keys;
  few_keys = omega (arith, length-append g.more_keys h.more_keys, g.few_keys, h.few_keys);
  more_values = g.more_values ++ h.more_values;
  values_grow =
      h.values_grow
      ∙ ap (λ x. x ++ h.more_values) g.values_grow
      ∙ append_assoc t.values g.more_values h.more_values;
  few_values = omega (arith, length-append g.more_values h.more_values, g.few_values, h.few_values);
}

module _ (m n : ℕ) (t u : Tables) (g : Grows m n t u) where
  pub length-keys : length u.keys ≤ length t.keys + m
  length-keys = omega (arith, ap length g.keys_grow, length-append t.keys g.more_keys, g.few_keys)

  pub length-values : length u.values ≤ length t.values + n
  length-values =
      omega (arith, ap length g.values_grow, length-append t.values g.more_values, g.few_values)

All-insert :
    (P : List ℕ × ℕ → Type 0) (k : List ℕ) (i : ℕ) (m : List (List ℕ × ℕ))
    → All P m
    → P (k, i)
    → All P (insert k i m)
All-insert P k i [] h p = (p, tt)
All-insert P k i ((j, w) ∷ m) h p = elim (Bool-cases (list_beq j k)) [
  | inl same ↦ rw same (p, h.1)
  | inr other ↦ rw other (h.0, All-insert P k i m h.1 p)
]

lookup-KeyAt :
    (keys : List (List ℕ)) (k : List ℕ) (i : ℕ) (m : List (List ℕ × ℕ))
    → All (KeyAt keys) m
    → lookup k m ≡ some i
    → get_elem? keys i ≡ some k
lookup-KeyAt keys k i [] h e = cc
lookup-KeyAt keys k i ((j, w) ∷ m) h e = elim (Bool-cases (list_beq j k)) [
  | inl same ↦
      let here : ◌≡◌ {A = List ℕ} j k = (list_has_eq.beq_iff j k).0 same in
      let found : some w ≡ some i = (rw same at e) in
      subst (λ n. get_elem? keys n ≡ some k) (let e : w ≡ i = cc found in e) (h.0 ∙ ap some here)
  | inr other ↦ lookup-KeyAt keys k i m h.1 (rw other at e)
]

get_value-ValueAt :
    (values : List MvtValue) (v : MvtValue) (i : ℕ) (m : List (MvtValue × ℕ))
    → All (ValueAt values) m
    → IsValue v
    → get_value v m ≡ some i
    → (w : MvtValue) × (get_elem? values i ≡ some w) × (meaning w ≡ meaning v)
unfolding get_value
get_value-ValueAt values v i [] h p e = cc
get_value-ValueAt values v i ((w, j) ∷ m) h p e = elim (Bool-cases (value_eq w v)) [
  | inl same ↦
      let found : some j ≡ some i = (rw same at e) in
      let here = h.0.0 in (w, cc (here, found), (value_eq_iff w v h.0.1 p).0 same)
  | inr other ↦ get_value-ValueAt values v i m h.1 p (rw other at e)
]

-- A step gives out an index and leaves the tables consistent.
pub record KeyStep (k : List ℕ) (t : Tables) (r : ℕ × Tables) : Type 0 where
  pub key_is : get_elem? r.1.keys r.0 ≡ some k
  pub key_grows : Grows 1 0 t r.1
  pub key_IsConsistent : IsConsistent r.1

pub record ValueStep (v : MvtValue) (t : Tables) (r : ℕ × Tables) : Type 0 where
  pub value : MvtValue
  pub value_is : get_elem? r.1.values r.0 ≡ some value
  pub value_means : meaning value ≡ meaning v
  pub value_grows : Grows 0 1 t r.1
  pub value_IsConsistent : IsConsistent r.1

module _ (k : List ℕ) (t : Tables) (c : IsConsistent t) where
  pub key_idx-KeyStep : length t.keys < 2 ^ 32 → KeyStep k t (key_idx k t)
  unfolding key_idx
  key_idx-KeyStep small = elim (Option-cases (lookup k t.key_map)) [
    | inr (i, known) ↦
        rw (key_idx, known)
          (record {
            key_is = lookup-KeyAt t.keys k i t.key_map c.keys_at known;
            key_grows = Grows-self 1 0 t;
            key_IsConsistent = c;
          })
    | inl fresh ↦
        rw (key_idx, fresh, low)
          (record {
            key_is = get_elem?-last t.keys k;
            key_grows = record {
              more_keys = k ∷ [];
              keys_grow = refl;
              few_keys = omega arith;
              more_values = [];
              values_grow = sym (append-nil t.values);
              few_values = omega arith;
            };
            key_IsConsistent = record {
              keys_at =
                  All-insert (KeyAt (t.keys ++ (k ∷ []))) k (length t.keys) t.key_map
                    (All-imp (λ e h. get_elem?-append t.keys (k ∷ []) e.1 e.0 h) t.key_map
                      c.keys_at)
                    (get_elem?-last t.keys k);
              values_at = c.values_at;
              proper = c.proper;
            };
          })
  ]
    where
      low : length t.keys % 2 ^ 32 ≡ length t.keys
      low = omega arith

  module _ (v : MvtValue) (p : IsValue v) (small : length t.values < 2 ^ 32) where
    low_values : length t.values % 2 ^ 32 ≡ length t.values
    low_values = omega arith

    older : All (ValueAt (t.values ++ (v ∷ []))) t.val_map
    older =
        All-imp (λ e h. (get_elem?-append t.values (v ∷ []) e.1 e.0 h.0, h.1)) t.val_map c.values_at

    pushed : (u : Tables) → u.keys ≡ t.keys → u.values ≡ t.values ++ (v ∷ []) → Grows 0 1 t u
    pushed u same grown = record {
      more_keys = [];
      keys_grow = same ∙ sym (append-nil t.keys);
      few_keys = omega arith;
      more_values = v ∷ [];
      values_grow = grown;
      few_values = omega arith;
    }

    proper_pushed : All IsValue (t.values ++ (v ∷ []))
    proper_pushed = All-append IsValue t.values (v ∷ []) c.proper (p, tt)

    pub val_idx-ValueStep : ValueStep v t (val_idx k v t)
    unfolding val_idx
    val_idx-ValueStep =
        if-elim (ValueStep v t) (list_beq k (ascii "h3_index") || list_beq k (ascii "h3_hex")) _ _
          (λ _. rw low_values (record {
            value = v;
            value_is = get_elem?-last t.values v;
            value_means = refl;
            value_grows = pushed _ refl refl;
            value_IsConsistent = record {
              keys_at = c.keys_at;
              values_at = older;
              proper = proper_pushed;
            };
          }))
          (λ _. elim (Option-cases (get_value v t.val_map)) [
            | inr (i, known) ↦
                let (w, here, same) =
                  get_value-ValueAt t.values v i t.val_map c.values_at p known in
                rw known (record {
                  value = w;
                  value_is = here;
                  value_means = same;
                  value_grows = Grows-self 0 1 t;
                  value_IsConsistent = c;
                })
            | inl fresh ↦
                rw (fresh, low_values)
                  (record {
                    value = v;
                    value_is = get_elem?-last t.values v;
                    value_means = refl;
                    value_grows = pushed _ refl refl;
                    value_IsConsistent = record {
                      keys_at = c.keys_at;
                      values_at = ((get_elem?-last t.values v, p), older);
                      proper = proper_pushed;
                    };
                  })
          ])
