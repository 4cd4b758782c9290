-- ===== src/Columnar/Batch/Laws.antt =====
-- What `try_new` and `project` of columnar/mod.rs guarantee.
use raster_h.Columnar.Schema.{
  ArrowDataType, ColumnField, ColumnSchema, project_fields, project_schema,
}
use raster_h.Columnar.Array.{ColumnArray, len, data_type}
use raster_h.Columnar.Batch.{
  RecordBatch, discriminant, check_columns, first_len, try_new, Columns, IsConsistent,
  project_columns, project,
}
use raster_h.Common.{
  ◌⊎◌, le→ltb, lt→ltb, ◌≤◌, ◌<◌, ◌>>=◌, zero, Bool, true, false, ◌&&◌, ltb, Option, none, some,
  get_elem?, invalid_parameter, ℕ, suc, ◌≡◌, ◌↔◌, refl, ap, List, [], ◌∷◌, length, Result, ok, err,
  arith, inl, inr, ==_self,
}

pub discriminant-injective : (a b : ArrowDataType) → discriminant a ≡ discriminant b → a ≡ b
unfolding discriminant
discriminant-injective a b h = ground arith

pub check_columns-Columns :
    (n : ℕ) (fs : List ColumnField) (cs : List ColumnArray)
    → length fs ≡ length cs
    → check_columns n fs cs ≡ ok tt
    → Columns n fs cs
unfolding check_columns
check_columns-Columns n [] [] e h = tt
check_columns-Columns n [] (c ∷ cs) e h = cc
check_columns-Columns n (f ∷ fs) [] e h = absurd (omega arith)
check_columns-Columns n (f ∷ fs) (c ∷ cs) e h =
    ground (arith, check_columns-Columns n fs cs, discriminant-injective (data_type c) f.data_type)

pub Columns-check_columns :
    (n : ℕ) (fs : List ColumnField) (cs : List ColumnArray)
    → Columns n fs cs
    → (length fs ≡ length cs) × (check_columns n fs cs ≡ ok tt)
unfolding check_columns
Columns-check_columns n [] [] h = (refl, refl)
Columns-check_columns n [] (c ∷ cs) h = absurd h
Columns-check_columns n (f ∷ fs) [] h = absurd h
Columns-check_columns n (f ∷ fs) (c ∷ cs) h =
    let (e, k) = Columns-check_columns n fs cs h.2 in
    (ap suc e, rw (h.0, h.1, ==_self n, ==_self (discriminant f.data_type)) k)

pub try_new_iff :
    (b : RecordBatch)
    → (try_new b.schema b.columns ≡ ok b) ↔ (IsConsistent b × (b.num_rows ≡ first_len b.columns))
unfolding try_new
try_new_iff b = (sound, complete)
  where
    sound : try_new b.schema b.columns ≡ ok b → IsConsistent b × (b.num_rows ≡ first_len b.columns)
    sound h =
        let e : b.num_rows ≡ first_len b.columns = ground arith in
        (
          record {
            matches = rw e (
                check_columns-Columns (first_len b.columns) b.schema.fields b.columns (ground arith)
                  (ground arith));
          },
          e,
        )

    complete :
        IsConsistent b × (b.num_rows ≡ first_len b.columns) → try_new b.schema b.columns ≡ ok b
    complete h =
        let (e, k) = Columns-check_columns b.num_rows b.schema.fields b.columns h.0.matches in
        rw (← h.1, e, ==_self (length b.columns), k) refl

-- The indices of a projection that are in range, and what is then read, field by field.
abbrev pub check_range : (n : ℕ) → List ℕ → Bool
check_range n [] = true
check_range n (i ∷ is) = ltb i n && check_range n is

pub Columns-get :
    (n : ℕ) (fs : List ColumnField) (cs : List ColumnArray) (i : ℕ)
    → Columns n fs cs
    → ((get_elem? fs i ≡ none) × (get_elem? cs i ≡ none))
      ⊎ ((f : ColumnField) × (c : ColumnArray) × (get_elem? fs i ≡ some f)
          × (get_elem? cs i ≡ some c)
          × (data_type c ≡ f.data_type)
          × (len c ≡ n))
Columns-get n [] [] i h = inl (refl, refl)
Columns-get n [] (c ∷ cs) i h = absurd h
Columns-get n (f ∷ fs) [] i h = absurd h
Columns-get n (f ∷ fs) (c ∷ cs) zero h = inr (f, c, refl, refl, h.0, h.1)
Columns-get n (f ∷ fs) (c ∷ cs) (suc i) h = Columns-get n fs cs i h.2

-- What the two halves of a projection give together, for indices that are in range or not.
abbrev Projected : Bool → ℕ → Result (List ColumnField) → Option (List ColumnArray) → Type 0
Projected false n r o = r ≡ err invalid_parameter
Projected true n (ok fs) (some cs) = Columns n fs cs
Projected true n (ok fs) none = ⊥
Projected true n (err e) o = ⊥

Projected-cons :
    (good : Bool) (n : ℕ) (f : ColumnField) (c : ColumnArray) (r : Result (List ColumnField))
    (o : Option (List ColumnArray))
    → data_type c ≡ f.data_type
    → len c ≡ n
    → Projected good n r o
    → Projected good n (r >>= λ fs. ok (f ∷ fs)) (elim o [ none ↦ none | some cs ↦ some (c ∷ cs) ])
Projected-cons false n f c r o t l h = rw h refl
Projected-cons true n f c (ok fs) (some cs) t l h = (t, l, h)
Projected-cons true n f c (ok fs) none t l h = absurd h
Projected-cons true n f c (err e) o t l h = absurd h

get_elem?-none {ℓ} : {A : Type ℓ} (xs : List A) (i : ℕ) → get_elem? xs i ≡ none → length xs ≤ i
get_elem?-none [] i h = omega arith
get_elem?-none (x ∷ xs) zero h = cc
get_elem?-none (x ∷ xs) (suc i) h = omega (arith, get_elem?-none xs i h)

get_elem?-some {ℓ} :
    {A : Type ℓ} (xs : List A) (i : ℕ) {a : A} → get_elem? xs i ≡ some a → i < length xs
get_elem?-some [] i h = cc
get_elem?-some (x ∷ xs) zero h = omega arith
get_elem?-some (x ∷ xs) (suc i) h = omega (arith, get_elem?-some xs i h)

project-Projected :
    (n : ℕ) (fs : List ColumnField) (cs : List ColumnArray) (indices : List ℕ)
    → Columns n fs cs
    → Projected
        (check_range (length fs) indices)
        n
        (project_fields fs indices)
        (project_columns cs indices)
unfolding project_columns project_fields
project-Projected n fs cs [] h = tt
project-Projected n fs cs (i ∷ is) h = elim (Columns-get n fs cs i h) [
  | inl (p, q) ↦
      rw (p, q, le→ltb i (length fs) (get_elem?-none fs i p), project_fields, project_columns) refl
  | inr (f, c, p, q, t, l) ↦
      rw (p, q, lt→ltb i (length fs) (get_elem?-some fs i p), project_fields, project_columns)
        (Projected-cons (check_range (length fs) is) n f c _ _ t l (project-Projected n fs cs is h))
]

abbrev assembled :
    ℕ → Result (List ColumnField) → Option (List ColumnArray) → Option (Result RecordBatch)
assembled n (err e) o = some (err e)
assembled n (ok fs) none = none
assembled n (ok fs) (some cs) =
    some (ok (record { schema = record { fields = fs }; columns = cs; num_rows = n }))

project-assembled :
    (b : RecordBatch) (indices : List ℕ)
    → project b indices
      ≡ assembled b.num_rows
          (project_fields b.schema.fields indices)
          (project_columns b.columns indices)
unfolding project project_schema
project-assembled b indices =
    go (project_fields b.schema.fields indices) (project_columns b.columns indices)
  where
    go :
        (r : Result (List ColumnField)) (o : Option (List ColumnArray))
        → elim (r >>= λ fs. ok (let s : ColumnSchema = record { fields = fs } in s)) [
          | err e ↦ some (err e)
          | ok schema ↦ elim o [
            | none ↦ none
            | some cols ↦
                some (ok (record { schema = schema; columns = cols; num_rows = b.num_rows }))
          ]
        ]
          ≡ assembled b.num_rows r o
    go (err e) o = refl
    go (ok fs) none = refl
    go (ok fs) (some cs) = refl

-- What a projection of `n` rows answers: a consistent batch of as many rows where the indices
-- are in range, and an error where not.
abbrev pub Projects : Bool → ℕ → Option (Result RecordBatch) → Type 0
Projects true n (some (ok p)) = IsConsistent p × (p.num_rows ≡ n)
Projects true n (some (err e)) = ⊥
Projects true n none = ⊥
Projects false n o = o ≡ some (err invalid_parameter)

assembled-Projects :
    (good : Bool) (n : ℕ) (r : Result (List ColumnField)) (o : Option (List ColumnArray))
    → Projected good n r o
    → Projects good n (assembled n r o)
assembled-Projects true n (ok fs) (some cs) h = (record { matches = h }, refl)
assembled-Projects true n (ok fs) none h = absurd h
assembled-Projects true n (err e) o h = absurd h
assembled-Projects false n r o h = rw h refl

-- A projection of a consistent batch never panics: with every index in range it is a consistent
-- batch of as many rows, and otherwise it is an error.
pub project-Projects :
    (b : RecordBatch) (indices : List ℕ)
    → IsConsistent b
    → Projects (check_range (length b.schema.fields) indices) b.num_rows (project b indices)
project-Projects b indices v = rw (project-assembled b indices) (
    assembled-Projects (check_range (length b.schema.fields) indices) b.num_rows _ _
      (project-Projected b.num_rows b.schema.fields b.columns indices v.matches))
