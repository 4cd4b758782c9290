-- ===== src/Common/Maps.antt =====
-- Hash maps as association lists: an insertion replaces the value of its key.
use raster_h.Common.Eq.{HasEq}
use raster_h.Common.Tests.{if◌then◌else◌, Bool-cases}
use mathlib.Core.Path.{◌≡◌, refl, ap, sym, ◌∙◌, subst}
use mathlib.Core.Logic.{inl, inr, ◌≢◌}
use mathlib.Core.Bool.{Bool, true, false}
use mathlib.Core.Option.{Option, none, some}
use mathlib.Core.List.{List, [], ◌∷◌, ◌++◌, append-nil, append_assoc}

if_twice {ℓ} :
    {A : Type ℓ} (t : Bool) (x y z : A)
    → (if t then x else y) ≡ (if t then x else if t then z else y)
if_twice true x y z = refl
if_twice false x y z = refl

apart {ℓ} : {A : Type ℓ} ⦃e : HasEq A⦄ (i k j : A) → e.beq i k ≡ false → i ≡ j → e.beq k j ≡ false
apart ⦃e⦄ i k j other here = elim (Bool-cases (e.beq k j)) [
  | inl q ↦ cc (other, (e.beq_iff i k).1 (here ∙ sym ((e.beq_iff k j).0 q)))
  | inr q ↦ q
]

module _ {ℓ κ} {K : Type ℓ} {V : Type κ} ⦃e : HasEq K⦄ where
  abbrev pub lookup : K → List (K × V) → Option V
  lookup k [] = none
  lookup k ((j, v) ∷ m) = if e.beq j k then some v else lookup k m

  abbrev pub insert : K → V → List (K × V) → List (K × V)
  insert k v [] = (k, v) ∷ []
  insert k v ((j, w) ∷ m) = if e.beq j k then (k, v) ∷ m else (j, w) ∷ insert k v m

  pub lookup-insert :
      (k j : K) (v : V) (m : List (K × V))
      → lookup j (insert k v m) ≡ (if e.beq k j then some v else lookup j m)
  lookup-insert k j v [] = refl
  lookup-insert k j v ((i, w) ∷ m) = elim (Bool-cases (e.beq i k)) [
    | inl same ↦
        rw (same, ap (λ x. e.beq x j) ((e.beq_iff i k).0 same)) (if_twice (e.beq k j) _ _ _)
    | inr other ↦ elim (Bool-cases (e.beq i j)) [
      | inl here ↦ rw (other, lookup, here, apart i k j other ((e.beq_iff i j).0 here)) refl
      | inr there ↦ rw (other, lookup, there) (lookup-insert k j v m)
    ]
  ]

  -- Every key stands once.
  abbrev pub Distinct : List (K × V) → Type κ
  Distinct [] = Unit
  Distinct ((k, v) ∷ m) = (lookup k m ≡ none) × Distinct m

  pub insert_new :
      (k : K) (v : V) (m : List (K × V)) → lookup k m ≡ none → insert k v m ≡ m ++ (k, v) ∷ []
  insert_new k v [] h = refl
  insert_new k v ((j, w) ∷ m) h = elim (Bool-cases (e.beq j k)) [
    | inl same ↦ cc (rw (lookup, same) at h)
    | inr other ↦ rw other (ap (λ t. (j, w) ∷ t) (insert_new k v m (rw other at h)))
  ]

  pub Distinct-insert : (k : K) (v : V) (m : List (K × V)) → Distinct m → Distinct (insert k v m)
  Distinct-insert k v [] d = (refl, tt)
  Distinct-insert k v ((j, w) ∷ m) d = elim (Bool-cases (e.beq j k)) [
    | inl same ↦ rw same (subst (λ i. lookup i m ≡ none) ((e.beq_iff j k).0 same) d.0, d.1)
    | inr other ↦
        rw other
          (lookup-insert k j v m ∙ rw (apart j k j other refl) d.0, Distinct-insert k v m d.1)
  ]

  lookup_mid : (k : K) (v : V) (m es : List (K × V)) → lookup k (m ++ (k, v) ∷ es) ≢ none
  lookup_mid k v [] es h = cc (rw (lookup, (e.beq_iff k k).1 refl) at h)
  lookup_mid k v ((j, w) ∷ m) es h = elim (Bool-cases (e.beq j k)) [
    | inl same ↦ cc (rw (lookup, same) at h)
    | inr other ↦ lookup_mid k v m es (rw other at h)
  ]

  pub lookup-Distinct :
      (k : K) (v : V) (m es : List (K × V)) → Distinct (m ++ (k, v) ∷ es) → lookup k m ≡ none
  lookup-Distinct k v [] es d = refl
  lookup-Distinct k v ((j, w) ∷ m) es d = elim (Bool-cases (e.beq j k)) [
    | inl same ↦ absurd (
        lookup_mid k v m es
          (subst (λ i. lookup i (m ++ (k, v) ∷ es) ≡ none) ((e.beq_iff j k).0 same) d.0))
    | inr other ↦ rw other (lookup-Distinct k v m es d.1)
  ]

  -- The entries of a loop that inserts them.
  abbrev pub insert_all : List (K × V) → List (K × V) → List (K × V)
  insert_all [] m = m
  insert_all ((k, v) ∷ es) m = insert_all es (insert k v m)

  pub insert_all_new : (es m : List (K × V)) → Distinct (m ++ es) → insert_all es m ≡ m ++ es
  insert_all_new [] m d = sym (append-nil m)
  insert_all_new ((k, v) ∷ es) m d =
      ap (insert_all es) (insert_new k v m (lookup-Distinct k v m es d))
      ∙ insert_all_new es (m ++ (k, v) ∷ [])
          (subst Distinct (sym (append_assoc m ((k, v) ∷ []) es)) d)
      ∙ append_assoc m ((k, v) ∷ []) es
