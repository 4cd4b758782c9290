-- ===== src/Pmtiles/Mvt/Tags.antt =====
-- The tags of a feature, as `MvtLayer::encode` of crates/raster-h3-core/src/pmtiles/mvt.rs writes
-- them: the pairs of indices name the feature's properties, in every later state of the tables too.
use raster_h.Common.{
  ℕ, zero, suc, ◌+◌, ◌^◌, ◌≤◌, ◌≡◌, refl, ap, sym, ◌∙◌, subst, Option, none, some, List, [], ◌∷◌,
  ◌++◌, map, append_assoc, append-nil, length, get_elem?, get_elem?-append, All, arith,
  Option-cases, inl, inr,
}
use raster_h.Pmtiles.Mvt.Decoded.{Decoded, meaning}
use raster_h.Pmtiles.Mvt.Encode.{Tables, key_idx, val_idx, add_properties}
use raster_h.Pmtiles.Mvt.Packed.{IsU64, varints}
use raster_h.Pmtiles.Mvt.Properties.{Property}
use raster_h.Pmtiles.Mvt.Reader.{resolve}
use raster_h.Pmtiles.Mvt.Tables.{
  IsConsistent, Grows, Grows-self, Grows-trans, KeyStep, ValueStep, key_idx-KeyStep, length-keys,
  length-values, val_idx-ValueStep, get_elem?-lt,
}
use raster_h.Pmtiles.Mvt.Value.{MvtValue, IsValue}
use raster_h.Pmtiles.Varint.{write_varint}

-- Properties as a reader sees them.
unfoldable pub views : List Property → List (List ℕ × Decoded)
views [] = []
views ((k, v) ∷ props) = (k, meaning v) ∷ views props

abbrev pub AreValues : List Property → Type 0
AreValues props = All (λ p. IsValue p.1) props

get_elem?-map :
    (f : MvtValue → Decoded) (xs : List MvtValue) (i : ℕ) (v : MvtValue)
    → get_elem? xs i ≡ some v
    → get_elem? (map f xs) i ≡ some (f v)
get_elem?-map f [] i v h = cc
get_elem?-map f (x ∷ xs) zero v h = cc
get_elem?-map f (x ∷ xs) (suc i) v h = get_elem?-map f xs i v h

pub map_append :
    (f : MvtValue → Decoded) (xs ys : List MvtValue) → map f (xs ++ ys) ≡ map f xs ++ map f ys
map_append f [] ys = refl
map_append f (x ∷ xs) ys = ap (λ t. f x ∷ t) (map_append f xs ys)

module _ (keys : List (List ℕ)) (values : List Decoded) where
  resolve-pair :
      (i j : ℕ) (idxs : List ℕ) (k : List ℕ) (v : Decoded) (props : List (List ℕ × Decoded))
      → get_elem? keys i ≡ some k
      → get_elem? values j ≡ some v
      → resolve keys values idxs ≡ some props
      → resolve keys values (i ∷ j ∷ idxs) ≡ some ((k, v) ∷ props)
  unfolding resolve
  resolve-pair i j idxs k v props p q r = rw (p, q, r) refl

  -- Longer tables resolve what shorter ones do.
  pub resolve-append :
      (more_keys : List (List ℕ)) (more_values : List Decoded) (idxs : List ℕ)
      (props : List (List ℕ × Decoded))
      → resolve keys values idxs ≡ some props
      → resolve (keys ++ more_keys) (values ++ more_values) idxs ≡ some props
  unfolding resolve
  resolve-append ks vs [] props h = h
  resolve-append ks vs (i ∷ []) props h = h
  resolve-append ks vs (i ∷ j ∷ idxs) props h = elim (Option-cases (get_elem? keys i)) [
    | inl p ↦
        absurd (
          let e : ◌≡◌ {A = Option (List (List ℕ × Decoded))} none (some props) = (rw p at h) in
          cc e)
    | inr (k, p) ↦ elim (Option-cases (get_elem? values j)) [
      | inl q ↦ absurd (
          let e : ◌≡◌ {A = Option (List (List ℕ × Decoded))} none (some props) = (rw (p, q) at h) in
          cc e)
      | inr (v, q) ↦ elim (Option-cases (resolve keys values idxs)) [
        | inl r ↦ absurd (
            let e : ◌≡◌ {A = Option (List (List ℕ × Decoded))} none (some props) =
              (rw (p, q, r) at h) in
            cc e)
        | inr (found, r) ↦
            rw
              (
                get_elem?-append keys ks i k p,
                get_elem?-append values vs j v q,
                resolve-append ks vs idxs found r,
              )
              (rw (p, q, r) at h)
      ]
    ]
  ]

pub record Tagged (props : List Property) (t : Tables) (tag_bytes : List ℕ) (r : Tables × List ℕ)
    : Type 0 where
  pub idxs : List ℕ
  pub tags_are : r.1 ≡ tag_bytes ++ varints idxs
  pub idxs-IsU64 : All IsU64 idxs
  pub tags_grow : Grows (length props) (length props) t r.0
  pub tags_consistent : IsConsistent r.0
  pub resolved : resolve r.0.keys (map meaning r.0.values) idxs ≡ some (views props)

-- The indices of one property in front of those of the properties behind it.
tag_property :
    (k : List ℕ) (v : MvtValue) (props : List Property) (t : Tables) (tag_bytes : List ℕ)
    (found valued : ℕ × Tables) (r : Tables × List ℕ)
    → KeyStep k t found
    → ValueStep v found.1 valued
    → length t.keys + suc (length props) ≤ 2 ^ 32
    → length t.values + suc (length props) ≤ 2 ^ 32
    → Tagged props valued.1 (tag_bytes ++ (write_varint found.0 ++ write_varint valued.0)) r
    → Tagged ((k, v) ∷ props) t tag_bytes r
unfolding views
tag_property k v props t tag_bytes found valued r first second few_k few_v rest = record {
  idxs = found.0 ∷ valued.0 ∷ rest.idxs;
  tags_are =
      rest.tags_are
      ∙ append_assoc tag_bytes (write_varint found.0 ++ write_varint valued.0) (varints rest.idxs)
      ∙ ap (λ x. tag_bytes ++ x)
          (append_assoc (write_varint found.0) (write_varint valued.0) (varints rest.idxs));
  idxs-IsU64 = (
    omega (
      arith,
      get_elem?-lt found.1.keys found.0 k first.key_is,
      length-keys 1 0 t found.1 first.key_grows,
    ),
    (
      omega (
        arith,
        get_elem?-lt valued.1.values valued.0 second.value second.value_is,
        length-values 1 1 t valued.1 both,
      ),
      rest.idxs-IsU64,
    ),
  );
  tags_grow =
      subst (λ n. Grows n n t r.0)
        (let e : 1 + length props ≡ suc (length props) = omega arith in e)
        (Grows-trans 1 1 (length props) (length props) t valued.1 r.0 both rest.tags_grow);
  tags_consistent = rest.tags_consistent;
  resolved =
      resolve-pair r.0.keys (map meaning r.0.values) found.0 valued.0 rest.idxs k (meaning v)
        (views props) key_there value_there rest.resolved;
}
  where
    both : Grows 1 1 t valued.1
    both = Grows-trans 1 0 0 1 t found.1 valued.1 first.key_grows second.value_grows

    key_there : get_elem? r.0.keys found.0 ≡ some k
    key_there =
        let further =
          Grows-trans 0 1 (length props) (length props) found.1 valued.1 r.0 second.value_grows
            rest.tags_grow in
        ap (λ x. get_elem? x found.0) further.keys_grow
        ∙ get_elem?-append found.1.keys further.more_keys found.0 k first.key_is

    value_there : get_elem? (map meaning r.0.values) valued.0 ≡ some (meaning v)
    value_there =
        get_elem?-map meaning r.0.values valued.0 second.value (
          ap (λ x. get_elem? x valued.0) rest.tags_grow.values_grow
          ∙ get_elem?-append valued.1.values rest.tags_grow.more_values valued.0 second.value
              second.value_is)
        ∙ ap some second.value_means

pub add_properties-Tagged :
    (props : List Property) (t : Tables) (tag_bytes : List ℕ)
    → AreValues props
    → IsConsistent t
    → length t.keys + length props ≤ 2 ^ 32
    → length t.values + length props ≤ 2 ^ 32
    → Tagged props t tag_bytes (add_properties props t tag_bytes)
unfolding add_properties
add_properties-Tagged [] t tag_bytes h c few_k few_v = record {
  idxs = [];
  tags_are = sym (append-nil tag_bytes);
  idxs-IsU64 = tt;
  tags_grow = Grows-self 0 0 t;
  tags_consistent = c;
  resolved = unfold resolve in unfold views in refl;
}
add_properties-Tagged ((k, v) ∷ props) t tag_bytes h c few_k few_v =
    let first = key_idx-KeyStep k t c (omega arith) in
    let found : ℕ × Tables = key_idx k t in
    let keys = length-keys 1 0 t found.1 first.key_grows in
    let values = length-values 1 0 t found.1 first.key_grows in
    let second = val_idx-ValueStep k found.1 first.key_IsConsistent v h.0 (omega arith) in
    let valued : ℕ × Tables = val_idx k v found.1 in
    let keys' = length-keys 0 1 found.1 valued.1 second.value_grows in
    let values' = length-values 0 1 found.1 valued.1 second.value_grows in
    tag_property k v props t tag_bytes found valued _ first second few_k few_v (
      add_properties-Tagged props valued.1
        (tag_bytes ++ (write_varint found.0 ++ write_varint valued.0)) h.1 second.value_IsConsistent
        (omega arith) (omega arith))
